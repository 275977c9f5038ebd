-- ===== src/Storage/Wrbpod/Fetched.antt =====
-- `Wrbpod::fetch_chunk` (src/storage/wrbpod.rs): what is cached of a chunk that was fetched.
use wrb.Common.{
  none, if◌then◌else◌, get_elem?, Bool, false, ap, ◌∙◌, Option, get_elem?, true, ℕ, some, List, ◌≡◌,
}
use wrb.Common.Order.{nat_ord}
use wrb.Common.Map.{lookup-insert_same, lookup, insert}
use wrb.Storage.Codec.{ok}
use wrb.Storage.Slices.{WrbpodSlices}
use wrb.Storage.Slices.Wire as SlicesWire
use wrb.Storage.Client.{pure, or_raise, Action, StacksAddress, SlotMetadata, Env}
use wrb.Storage.Client.Steps.{or_raise_inv, step_inv}
use wrb.Storage.Wrbpod.{
  is_unset, call_replica, load_signers, refresh_signers, Wrbpod, load_chunk, decoded, get_raw_chunk,
}
use wrb.Storage.Wrbpod.Slots.{
  if_verified, fetch_round, fetch_chunk, fetch_signed, chunk_id_of, chunk_auth_digest,
}
use wrb.Storage.Wrbpod.Verified.{
  load_signers_inv, call_replica_inv, IsSigned, get_raw_chunk_inv, decoded_inv,
}

module _ (e : Env) where
  open e use {crypto, chunk_max_size}

  -- The slices that the wrbpod holds for the chunk are those of bytes that the slot's signer
  -- signed, at the version and with the key of the metadata.
  pub record IsFetched (app_name : List ℕ) (app_slot_id : ℕ) (w : Wrbpod e) (version : ℕ)
      (key : List ℕ) : Type 0 where
    pub chunk_id : ℕ
    pub mapped : chunk_id_of e w app_name app_slot_id ≡ some chunk_id
    pub signers : List StacksAddress
    pub held_signers : w.signers ≡ some signers
    pub md : SlotMetadata
    pub bytes : List ℕ
    pub is_signed : IsSigned e signers chunk_id md bytes
    pub slices : WrbpodSlices
    pub rest : List ℕ
    pub is_decoded : SlicesWire.deserialize e.codec.base chunk_max_size bytes ≡ ok (slices, rest)
    pub held_slices : lookup chunk_id w.chunks ≡ some slices
    pub same_version : md.slot_version ≡ version
    pub same_key :
        crypto.recover_to_pubkey
          (chunk_auth_digest e chunk_id md.slot_version md.data_hash)
          md.signature
        ≡ some key

  load_chunk_inv :
      (slot_id : ℕ) (data_hash : List ℕ) (w : Wrbpod e) {w' : Wrbpod e} {u : Unit {0}}
      → load_chunk e slot_id data_hash w ≡ some (ok u, w')
      → (bytes : List ℕ) × (slices : WrbpodSlices) × (rest : List ℕ) × (data_hash
          ≡ crypto.data_hash bytes)
        × (SlicesWire.deserialize e.codec.base chunk_max_size bytes ≡ ok (slices, rest))
        × (lookup slot_id w'.chunks ≡ some slices)
        × (w'.signers ≡ w.signers)
        × (w'.superblock ≡ w.superblock)
  unfolding load_chunk
  load_chunk_inv slot_id data_hash w {w'} h =
      step_inv (get_raw_chunk e slot_id data_hash) _ w h λ bytes w₁ h₁ g₁.
        step_inv (decoded e (SlicesWire.deserialize e.codec.base chunk_max_size bytes)) _ w₁ g₁
          λ slices w₂ h₂ g₂.
            let (rest, is_decoded, same) =
              decoded_inv e (SlicesWire.deserialize e.codec.base chunk_max_size bytes) h₂ in
            let (same_hash, same_signers, same_super) =
              get_raw_chunk_inv e slot_id data_hash w h₁ in
            let is_w' : w' ≡ record w₂ { chunks = insert slot_id slices w₂.chunks } = cc in
            (
              bytes,
              slices,
              rest,
              same_hash,
              is_decoded,
              simp is_w' (lookup-insert_same slot_id slices w₂.chunks),
              cc,
              cc,
            )

  -- What a round and the rest of the loop give has to be.
  abbrev Fetches : List ℕ → ℕ → Action (Wrbpod e) (ℕ × Option (List ℕ)) → Type 0
  Fetches app_name app_slot_id m =
      (w w' : Wrbpod e) (version : ℕ) (key : List ℕ)
      → m w ≡ some (ok (version, some key), w')
      → IsFetched app_name app_slot_id w' version key

  fetch_signed-Fetched :
      (app_name : List ℕ) (app_slot_id chunk_id : ℕ) (signers : List StacksAddress)
      (signer : StacksAddress) (md : SlotMetadata) (w w' : Wrbpod e) (version : ℕ) (key : List ℕ)
      → chunk_id_of e w app_name app_slot_id ≡ some chunk_id
      → w.signers ≡ some signers
      → get_elem? signers chunk_id ≡ some signer
      → crypto.verify md signer ≡ some true
      → fetch_signed e chunk_id md w ≡ some (ok (version, some key), w')
      → IsFetched app_name app_slot_id w' version key
  unfolding fetch_signed chunk_id_of
  fetch_signed-Fetched app_name app_slot_id chunk_id signers signer md w w' version key mapped held
        of_slot verified h =
      step_inv (load_chunk e chunk_id md.data_hash) _ w h λ _ w₁ h₁ g₁.
        step_inv
          (or_raise
            (crypto.recover_to_pubkey (chunk_auth_digest e chunk_id md.slot_version md.data_hash)
              md.signature)
            _)
          _ w₁ g₁
          λ pubk w₂ h₂ g₂.
            let (
              bytes, slices, rest, same_hash, is_decoded, held_slices, same_signers, same_super,
            ) =
              load_chunk_inv chunk_id md.data_hash w h₁ in
            let (is_key, same) =
              or_raise_inv
                (crypto.recover_to_pubkey
                  (chunk_auth_digest e chunk_id md.slot_version md.data_hash) md.signature)
                _ h₂ in
            let is_w' : w' ≡ w₁ = cc in
            let version_is : md.slot_version ≡ version = cc in
            let key_is : pubk ≡ key = cc in
            record {
              chunk_id = chunk_id;
              mapped = simp (is_w', same_super) mapped;
              signers = signers;
              held_signers = simp is_w' (same_signers ∙ held);
              md = md;
              bytes = bytes;
              is_signed = record {
                signer = signer;
                of_slot = of_slot;
                is_verified = verified;
                same_hash = same_hash;
              };
              slices = slices;
              rest = rest;
              is_decoded = is_decoded;
              held_slices = simp is_w' held_slices;
              same_version = version_is;
              same_key = is_key ∙ ap some key_is;
            }

  unless_unset_inv :
      (b : Bool) (m : Action (Wrbpod e) (ℕ × Option (List ℕ))) (w : Wrbpod e) {w' : Wrbpod e}
      {version : ℕ} {key : List ℕ}
      → (if b then pure (0, none) else m) w ≡ some (ok (version, some key), w')
      → m w ≡ some (ok (version, some key), w')
  unless_unset_inv true m w h = cc
  unless_unset_inv false m w h = h

  if_verified-Fetched :
      (valid refreshed : Bool) (app_name : List ℕ) (app_slot_id chunk_id : ℕ)
      (signers : List StacksAddress) (signer : StacksAddress) (md : SlotMetadata)
      (retry : Action (Wrbpod e) (ℕ × Option (List ℕ))) (w w' : Wrbpod e) (version : ℕ)
      (key : List ℕ)
      → Fetches app_name app_slot_id retry
      → chunk_id_of e w app_name app_slot_id ≡ some chunk_id
      → w.signers ≡ some signers
      → get_elem? signers chunk_id ≡ some signer
      → crypto.verify md signer ≡ some valid
      → if_verified e valid refreshed chunk_id md retry w ≡ some (ok (version, some key), w')
      → IsFetched app_name app_slot_id w' version key
  if_verified-Fetched true refreshed app_name app_slot_id chunk_id signers signer md retry w w'
        version key again mapped held of_slot verified h =
      fetch_signed-Fetched app_name app_slot_id chunk_id signers signer md w w' version key mapped
        held of_slot verified h
  if_verified-Fetched false true app_name app_slot_id chunk_id signers signer md retry w w' version
        key again mapped held of_slot verified h =
      cc
  if_verified-Fetched false false app_name app_slot_id chunk_id signers signer md retry w w' version
        key again mapped held of_slot verified h =
      step_inv (refresh_signers e) _ w h λ _ w₁ h₁ g₁. again w₁ w' version key g₁

  fetch_round-Fetched :
      (app_name : List ℕ) (app_slot_id : ℕ) (refreshed : Bool)
      (retry : Action (Wrbpod e) (ℕ × Option (List ℕ)))
      → Fetches app_name app_slot_id retry
      → Fetches app_name app_slot_id (fetch_round e app_name app_slot_id refreshed retry)
  unfolding fetch_round chunk_id_of
  fetch_round-Fetched app_name app_slot_id refreshed retry again w w' version key h =
      step_inv (or_raise (chunk_id_of e w app_name app_slot_id) _) _ w h λ chunk_id w₁ h₁ g₁.
        step_inv (call_replica e e.replica.list_chunks) _ w₁ g₁ λ mds w₂ h₂ g₂.
          step_inv (or_raise (get_elem? mds chunk_id) _) _ w₂ g₂ λ md w₃ h₃ g₃.
            step_inv (load_signers e) _ w₃ g₃ λ signers w₄ h₄ g₄.
              step_inv (or_raise (get_elem? signers chunk_id) _) _ w₄ g₄ λ signer w₅ h₅ g₅.
                step_inv (or_raise (crypto.verify md signer) _) _ w₅
                  (unless_unset_inv (is_unset md) _ w₅ g₅)
                  λ valid w₆ h₆ g₆.
                    let (mapped, same₁) =
                      or_raise_inv (chunk_id_of e w app_name app_slot_id) _ h₁ in
                    let (_, same₂) = call_replica_inv e e.replica.list_chunks h₂ in
                    let (_, same₃) = or_raise_inv (get_elem? mds chunk_id) _ h₃ in
                    let (_, held, _, same₄) = load_signers_inv e w₃ h₄ in
                    let (of_slot, same₅) = or_raise_inv (get_elem? signers chunk_id) _ h₅ in
                    let (verified, same₆) = or_raise_inv (crypto.verify md signer) _ h₆ in
                    let same_super : w₆.superblock ≡ w.superblock = cc in
                    if_verified-Fetched valid _ app_name app_slot_id chunk_id signers signer md
                      retry w₆ w' version key again (simp same_super mapped)
                      (simp (same₆, same₅) held) of_slot verified g₆

  -- If fetch_chunk, on any replica, gives a version and a key, then the slices that the wrbpod
  -- then holds for the application's slot are decoded from bytes whose hash is in metadata of that
  -- version, which verifies for the slot's signer among those that the wrbpod then holds, and the
  -- key is the one that is recovered from the metadata's signature.
  pub fetch_chunk-IsFetched :
      (app_name : List ℕ) (app_slot_id : ℕ) (w w' : Wrbpod e) (version : ℕ) (key : List ℕ)
      → fetch_chunk e app_name app_slot_id w ≡ some (ok (version, some key), w')
      → IsFetched app_name app_slot_id w' version key
  unfolding fetch_chunk
  fetch_chunk-IsFetched app_name app_slot_id =
      fetch_round-Fetched app_name app_slot_id false _
        (fetch_round-Fetched app_name app_slot_id true _ λ w w' version key h. cc)
