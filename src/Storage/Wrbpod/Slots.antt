-- ===== src/Storage/Wrbpod/Slots.antt =====
-- `Wrbpod` (src/storage/wrbpod.rs), what an application does with its slots: it fetches a chunk,
-- reads and writes the slices of the local copy, and saves it.
use wrb.Common.{
  ℕ, Bool, true, false, Option, none, some, List, ◌++◌, ltb, if◌then◌else◌, add_u64, get_elem?,
}
use wrb.Common.Order.{nat_ord}
use wrb.Common.Map.{lookup, insert}
use wrb.Common.Bytes.{to_be_bytes}
use wrb.Storage.Slices.{WrbpodSlices, slice_encoded_size, wrbpod_slices_initial_size, set_dirty}
use wrb.Storage.Slices
use wrb.Storage.Slices.Wire as SlicesWire
use wrb.Storage.Superblock
use wrb.Storage.Client.{
  SlotMetadata, StackerDbChunkData, no_such_signer, verify_failed, invalid_signature,
  no_such_app_chunk, no_app_metadata, no_public_key, get_chunk_error, no_such_chunk, Env, Action,
  ◌>>=◌, ◌>>◌, pure, raise, or_raise, gets, modify,
}
use wrb.Storage.Wrbpod.{
  Wrbpod, add_u32, is_unset, new_chunk, call_replica, load_signers, refresh_signers, load_chunk,
  put_chunk,
}

-- Whether the signers are still to be asked for.
abbrev pub is_none : {A : Type 0} → Option A → Bool
is_none none = true
is_none (some a) = false

module _ (e : Env) where
  open e use {crypto, chunk_max_size}

  -- `list_chunks`
  abbrev pub list_chunks : Action (Wrbpod e) (List SlotMetadata)
  list_chunks = call_replica e e.replica.list_chunks

  unfoldable pub ref_chunk : Wrbpod e → ℕ → Option WrbpodSlices
  ref_chunk w slot_id = lookup slot_id w.chunks

  -- The chunk that an application's slot is mapped to.
  unfoldable pub chunk_id_of : Wrbpod e → List ℕ → ℕ → Option ℕ
  chunk_id_of w app_name app_slot_id =
      Superblock.app_slot_id_to_stackerdb_chunk_id w.superblock app_name app_slot_id

  unfoldable pub ref_app_chunk : Wrbpod e → List ℕ → ℕ → Option WrbpodSlices
  unfolding chunk_id_of
  ref_app_chunk w app_name app_slot_id = elim (chunk_id_of w app_name app_slot_id) [
    | none ↦ none
    | some slot_id ↦ lookup slot_id w.chunks
  ]

  abbrev pub chunk_auth_digest : ℕ → ℕ → List ℕ → List ℕ
  chunk_auth_digest slot_id slot_version data_hash =
      crypto.data_hash (to_be_bytes 4 slot_id ++ (to_be_bytes 4 slot_version ++ data_hash))

  -- The chunk, cached, with its version and the key that signed it.
  unfoldable pub fetch_signed : ℕ → SlotMetadata → Action (Wrbpod e) (ℕ × Option (List ℕ))
  fetch_signed chunk_id md = do
    load_chunk e chunk_id md.data_hash
    pubk ←
        or_raise
          (crypto.recover_to_pubkey (chunk_auth_digest chunk_id md.slot_version md.data_hash)
            md.signature)
          (get_chunk_error no_public_key)
    pure (md.slot_version, some pubk)

  -- After the test of the signature: `retry` is the next round of the loop.
  abbrev pub if_verified :
      Bool
      → Bool
      → ℕ
      → SlotMetadata
      → Action (Wrbpod e) (ℕ × Option (List ℕ))
      → Action (Wrbpod e) (ℕ × Option (List ℕ))
  if_verified true refreshed_signers chunk_id md retry = fetch_signed chunk_id md
  if_verified false true chunk_id md retry = raise (get_chunk_error invalid_signature)
  if_verified false false chunk_id md retry = refresh_signers e >> retry

  -- A round of the loop of `fetch_chunk`.
  unfoldable pub fetch_round :
      List ℕ
      → ℕ
      → Bool
      → Action (Wrbpod e) (ℕ × Option (List ℕ))
      → Action (Wrbpod e) (ℕ × Option (List ℕ))
  unfolding fetch_signed chunk_id_of
  fetch_round app_name app_slot_id refreshed_signers retry = do
    w ← gets (λ w. w)
    chunk_id ← or_raise (chunk_id_of w app_name app_slot_id) (get_chunk_error no_such_app_chunk)
    all_slot_metadata ← list_chunks
    md ← or_raise (get_elem? all_slot_metadata chunk_id) (get_chunk_error no_app_metadata)
    signers ← load_signers e
    signer_addr ← or_raise (get_elem? signers chunk_id) (get_chunk_error (no_such_signer chunk_id))
    if is_unset md then pure (0, none) else (do
      valid ← or_raise (crypto.verify md signer_addr) (get_chunk_error verify_failed)
      if_verified valid (if refreshed_signers then true else is_none w.signers) chunk_id md retry)

  -- The loop goes round once more at most, since it does so with the signers refreshed.
  unfoldable pub fetch_chunk : List ℕ → ℕ → Action (Wrbpod e) (ℕ × Option (List ℕ))
  unfolding fetch_round
  fetch_chunk app_name app_slot_id =
      fetch_round app_name app_slot_id false
        (fetch_round app_name app_slot_id true (raise (get_chunk_error invalid_signature)))

  -- Get a slice of a chunk that was fetched or written.
  unfoldable pub get_slice : Wrbpod e → List ℕ → ℕ → ℕ → Option (List ℕ)
  unfolding ref_app_chunk
  get_slice w app_name app_slot_id id = elim (ref_app_chunk w app_name app_slot_id) [
    | none ↦ none
    | some slices ↦ Slices.get_slice slices id
  ]

  -- Can a slice of a given length be stored? A chunk that is not there yet has to stay smaller.
  unfoldable pub can_fit_slice : Wrbpod e → List ℕ → ℕ → ℕ → ℕ → Bool
  unfolding chunk_id_of
  can_fit_slice w app_name app_slot_id slice_id size = elim (chunk_id_of w app_name app_slot_id) [
    | none ↦ false
    | some chunk_id ↦ elim (lookup chunk_id w.chunks) [
      | none ↦
          ltb (add_u64 (slice_encoded_size size false) wrbpod_slices_initial_size) chunk_max_size
      | some slot_slices ↦ Slices.can_fit_slice slot_slices slice_id size
    ]
  ]

  -- The slices of a chunk with one more, and whether it went in. An empty chunk is not kept when
  -- it did not.
  abbrev pub put_into : Wrbpod e → ℕ → Option WrbpodSlices → ℕ → List ℕ → Wrbpod e × Bool
  put_into w chunk_id none slice_id slice_bytes =
      let r = Slices.put_slice (Slices.new chunk_max_size) slice_id slice_bytes in
      if r.1 then (record w { chunks = insert chunk_id r.0 w.chunks }, true) else (w, false)
  put_into w chunk_id (some slot_slices) slice_id slice_bytes =
      let r = Slices.put_slice slot_slices slice_id slice_bytes in
      (record w { chunks = insert chunk_id r.0 w.chunks }, r.1)

  -- Add a slice to the local copy of the slices; the Boolean says whether it was.
  unfoldable pub put_slice : Wrbpod e → List ℕ → ℕ → ℕ → List ℕ → Wrbpod e × Bool
  unfolding chunk_id_of
  put_slice w app_name app_slot_id slice_id slice_bytes =
      elim (chunk_id_of w app_name app_slot_id) [
        | none ↦ (w, false)
        | some chunk_id ↦ put_into w chunk_id (lookup chunk_id w.chunks) slice_id slice_bytes
      ]

  abbrev pub to_stackerdb_chunk : WrbpodSlices → ℕ → ℕ → StackerDbChunkData
  to_stackerdb_chunk slices slot_id slot_version =
      new_chunk slot_id slot_version (SlicesWire.serialize e.codec.base slices)

  abbrev pub set_clean : ℕ → Wrbpod e → WrbpodSlices → Wrbpod e
  set_clean chunk_id w slices = record w {
    chunks = insert chunk_id (set_dirty slices false) w.chunks;
  }

  -- Save a dirty slot, with the rounds that `put_chunk` may take.
  unfoldable pub sync_slot : ℕ → List ℕ → ℕ → Action (Wrbpod e) (Unit {0})
  unfolding chunk_id_of
  sync_slot rounds app_name app_slot_id = do
    w ← gets (λ w. w)
    chunk_id ← or_raise (chunk_id_of w app_name app_slot_id) no_such_chunk
    slices ← or_raise (lookup chunk_id w.chunks) no_such_chunk
    slot_metadata ← list_chunks
    md ← or_raise (get_elem? slot_metadata chunk_id) no_such_chunk
    put_chunk e rounds (to_stackerdb_chunk slices chunk_id (add_u32 md.slot_version 1))
    w ← gets (λ w. w)
    slices ← or_raise (lookup chunk_id w.chunks) no_such_chunk
    modify (λ w. set_clean chunk_id w slices)
