-- ===== src/Storage/Wrbpod.antt =====
-- `Wrbpod` (src/storage/wrbpod.rs): the slots of a StackerDB as the storage of applications. A loop
-- that the replica can keep going has the rounds that it may take as an argument, and is `none`
-- after them.
pub mod Manage
pub mod Slots
pub mod Loop
pub mod Verified
pub mod Fetched
pub mod SuperblockSlot
pub mod Held
pub mod Saved
mod Runs
use wrb.Common.{
  ℕ, zero, suc, ◌+◌, ◌%◌, ◌^◌, Bool, true, false, not, ◌&&◌, Option, none, some, List, [], ◌∷◌, ltb,
  ◌==◌, if◌then◌else◌, length, get_elem?, replicate,
}
use wrb.Common.Order.{nat_ord, text_ord, text_beq}
use wrb.Common.Map.{insert}
use wrb.Storage.Codec.{CodecError, failed_to_sign, Result, ok, err}
use wrb.Storage.Slices.{WrbpodSlices}
use wrb.Storage.Slices.Wire
use wrb.Storage.Superblock.{WrbpodSuperblock}
use wrb.Storage.Superblock
use wrb.Storage.Superblock.Wire as SuperblockWire
use wrb.Storage.Client.{
  reason_not_given, PutChunkReason, no_superblock_slot, StacksAddress, SlotMetadata,
  StackerDbChunkData, StackerDbChunkAckData, no_superblock_chunk, no_signer_list, no_such_signer,
  verify_failed, invalid_signature, hash_mismatch, no_app_metadata, Error, runtime, codec,
  get_chunk_error, put_chunk_error, no_such_chunk, no_superblock, Env, Call, Action, ◌>>=◌, ◌>>◌,
  pure, raise, or_raise, raise_if, gets, modify, from_runtime,
}

-- `add` of two `u32`
abbrev pub add_u32 : ℕ → ℕ → ℕ
add_u32 a b = (a + b) % 2 ^ 32

-- `slot_version == 0 && data_hash == Sha512Trunc256Sum([0x00; 32])`
abbrev pub is_unset : SlotMetadata → Bool
is_unset md = md.slot_version == 0 && text_beq md.data_hash (replicate 32 0)

-- `StackerDBChunkData::new`
abbrev pub new_chunk : ℕ → ℕ → List ℕ → StackerDbChunkData
new_chunk slot_id slot_version body = record {
  slot_id = slot_id;
  slot_version = slot_version;
  sig = [];
  body = body;
}

-- The indexes from `i` of the signers with these bytes, as far as a `u32` reaches.
unfoldable pub available_from : ℕ → List StacksAddress → List ℕ → List ℕ
available_from i [] addr = []
available_from i (signer ∷ signers) addr =
    let rest = available_from (suc i) signers addr in
    if ltb i (2 ^ 32) then (if text_beq signer.bytes addr then i ∷ rest else rest) else []

-- `retain(|slot| *slot != x)`
unfoldable pub retain_other : ℕ → List ℕ → List ℕ
retain_other x [] = []
retain_other x (y ∷ slots) = let rest = retain_other x slots in if y == x then rest else y ∷ rest

abbrev pub reason_text : Option PutChunkReason → PutChunkReason
reason_text none = reason_not_given
reason_text (some reason) = reason

module _ (e : Env) where
  open e use {crypto, chunk_max_size}

  pub record Wrbpod : Type 0 where
    pub superblock : WrbpodSuperblock
    pub replica_client : e.replica.State
    pub home_client : e.home.State
    pub privkey : List ℕ
    -- cached copy of the signers in the DB
    pub signers : Option (List StacksAddress)
    -- maps StackerDB slot ID to slices
    pub chunks : List (ℕ × WrbpodSlices)
    pub superblock_slot_id : ℕ

  abbrev pub call_replica : {A : Type 0} → Call e.replica.State A → Action Wrbpod A
  call_replica f w =
      some
        (from_runtime (f w.replica_client).0, record w { replica_client = (f w.replica_client).1 })

  abbrev pub call_home : {A : Type 0} → Call e.home.State A → Action Wrbpod A
  call_home f w =
      some (from_runtime (f w.home_client).0, record w { home_client = (f w.home_client).1 })

  unfoldable pub find_available_slots : List StacksAddress → List ℕ → List ℕ
  unfolding available_from
  find_available_slots signers privkey = available_from 0 signers (crypto.address_bytes privkey)

  unfoldable pub make_superblock : ℕ → List StacksAddress → List ℕ → Option WrbpodSuperblock
  unfolding find_available_slots retain_other
  make_superblock superblock_slot_id signers privkey =
      let available = find_available_slots signers privkey in
      let slots = retain_other superblock_slot_id available in
      if length available == length slots then none else some (Superblock.new slots)

  -- The home client is asked, since it is trusted.
  unfoldable pub refresh_signers : Action Wrbpod (Unit {0})
  refresh_signers = do
    signers ← call_home e.home.get_signers
    modify (λ w. record w { signers = some signers })

  -- `if self.signers.is_none() { self.refresh_signers()?; }`, and the signers.
  abbrev pub refresh_if_none : Option (List StacksAddress) → Action Wrbpod (Unit {0})
  refresh_if_none none = refresh_signers
  refresh_if_none (some signers) = pure tt

  unfoldable pub load_signers : Action Wrbpod (List StacksAddress)
  unfolding refresh_signers
  load_signers = do
    cached ← gets (λ w. w.signers)
    refresh_if_none cached
    signers ← gets (λ w. w.signers)
    or_raise signers (get_chunk_error no_signer_list)

  -- The chunk that a node gave, if it has the hash of the metadata.
  abbrev pub checked_chunk : Option (List ℕ) → List ℕ → Action Wrbpod (List ℕ)
  checked_chunk none hash = raise no_such_chunk
  checked_chunk (some chunk) hash =
      if text_beq hash (crypto.data_hash chunk)
      then pure chunk
      else raise (get_chunk_error hash_mismatch)

  -- An entry of the list that a node gave, which may say that there is no chunk.
  abbrev pub found_chunk : Option (Option (List ℕ)) → List ℕ → Action Wrbpod (List ℕ)
  found_chunk none hash = raise no_such_chunk
  found_chunk (some chunk) hash = checked_chunk chunk hash

  -- The bytes of a chunk or a superblock, decoded; what follows is not looked at.
  abbrev pub decoded : {A B : Type 0} → Result CodecError (A × B) → Action Wrbpod A
  decoded (ok (a, rest)) = pure a
  decoded (err x) = raise (codec x)

  abbrev pub set_superblock : WrbpodSuperblock → Action Wrbpod (Unit {0})
  set_superblock sb = modify (λ w. record w { superblock = sb })

  -- The superblock's chunk is at the slot's index in a reply about that slot alone.
  unfoldable pub fetch_superblock : ℕ → SlotMetadata → StacksAddress → Action Wrbpod (Unit {0})
  fetch_superblock slot_id md signer_addr = do
    valid ← or_raise (crypto.verify md signer_addr) (get_chunk_error verify_failed)
    raise_if (not valid) (get_chunk_error invalid_signature)
    chunks ← call_replica (e.replica.get_latest_chunks (slot_id ∷ []))
    chunk ← found_chunk (get_elem? chunks slot_id) md.data_hash
    sb ← decoded (SuperblockWire.deserialize e.codec chunk)
    set_superblock sb

  unfoldable pub download_superblock : Action Wrbpod (Unit {0})
  unfolding load_signers make_superblock fetch_superblock
  download_superblock = do
    slot_id ← gets (λ w. w.superblock_slot_id)
    all_slot_metadata ← call_replica e.replica.list_chunks
    md ← or_raise (get_elem? all_slot_metadata slot_id) (get_chunk_error no_superblock_chunk)
    signers ← load_signers
    signer_addr ← or_raise (get_elem? signers slot_id) (get_chunk_error (no_such_signer 0))
    privkey ← gets (λ w. w.privkey)
    if is_unset md
        then (do
          sb ← or_raise (make_superblock slot_id signers privkey) no_superblock
          set_superblock sb)
        else fetch_superblock slot_id md signer_addr

  -- After an answer: done, or again with a version newer than the node's, if it told one.
  abbrev pub after_ack :
      StackerDbChunkAckData → (ℕ → Action Wrbpod (Unit {0})) → Action Wrbpod (Unit {0})
  after_ack ack again = if ack.accepted then pure tt else elim ack.metadata [
    | none ↦ raise (put_chunk_error (reason_text ack.reason))
    | some md ↦ again (add_u32 md.slot_version 1)
  ]

  -- The loop of `upload_superblock`, with the rounds that it may take.
  unfoldable pub upload_loop : ℕ → ℕ → List ℕ → List ℕ → ℕ → Action Wrbpod (Unit {0})
  upload_loop zero slot_id privkey body slot_version = λ w. none
  upload_loop (suc n) slot_id privkey body slot_version = do
    sig ←
        or_raise (crypto.sign privkey (new_chunk slot_id slot_version body)) (codec failed_to_sign)
    let signed = record (new_chunk slot_id slot_version body) { sig = sig }
    ack ← call_replica (e.replica.put_chunk signed)
    after_ack ack (upload_loop n slot_id privkey body)

  unfoldable pub upload_superblock : ℕ → Action Wrbpod (Unit {0})
  unfolding upload_loop
  upload_superblock rounds = do
    w ← gets (λ w. w)
    slot_metadata ← call_replica e.replica.list_chunks
    md ←
        or_raise (get_elem? slot_metadata w.superblock_slot_id) (put_chunk_error no_superblock_slot)
    upload_loop rounds w.superblock_slot_id w.privkey
        (SuperblockWire.serialize e.codec w.superblock) md.slot_version

  -- `put_chunk`, with the rounds that it may take.
  unfoldable pub put_chunk : ℕ → StackerDbChunkData → Action Wrbpod (Unit {0})
  put_chunk zero chunk = λ w. none
  put_chunk (suc n) chunk = do
    privkey ← gets (λ w. w.privkey)
    sig ← or_raise (crypto.sign privkey chunk) (codec failed_to_sign)
    let signed = record chunk { sig = sig }
    ack ← call_replica (e.replica.put_chunk signed)
    after_ack ack (λ version. put_chunk n (record signed { slot_version = version }))

  unfoldable pub get_raw_chunk : ℕ → List ℕ → Action Wrbpod (List ℕ)
  get_raw_chunk slot_id data_hash = do
    chunks ← call_replica (e.replica.get_latest_chunks (slot_id ∷ []))
    found_chunk (get_elem? chunks 0) data_hash

  unfoldable pub get_and_verify_raw_chunk : ℕ → Action Wrbpod (Option (List ℕ))
  unfolding load_signers get_raw_chunk
  get_and_verify_raw_chunk slot_id = do
    signers ← load_signers
    signer_addr ← or_raise (get_elem? signers slot_id) (get_chunk_error (no_such_signer slot_id))
    all_slot_metadata ← call_replica e.replica.list_chunks
    md ← or_raise (get_elem? all_slot_metadata slot_id) (get_chunk_error no_app_metadata)
    if is_unset md then pure none else (do
      valid ← or_raise (crypto.verify md signer_addr) (get_chunk_error verify_failed)
      raise_if (not valid) (get_chunk_error invalid_signature)
      chunk ← get_raw_chunk slot_id md.data_hash
      pure (some chunk))

  -- Get a chunk and cache its slices.
  unfoldable pub load_chunk : ℕ → List ℕ → Action Wrbpod (Unit {0})
  unfolding get_raw_chunk
  load_chunk slot_id data_hash = do
    chunk ← get_raw_chunk slot_id data_hash
    slices ← decoded (Wire.deserialize e.codec.base chunk_max_size chunk)
    modify (λ w. record w { chunks = insert slot_id slices w.chunks })
