-- ===== src/Storage/Wrbpod/Held.antt =====
-- `Wrbpod::fetch_chunk` (src/storage/wrbpod.rs) of a chunk that the node of src/storage/mock.rs
-- holds.
use wrb.Common.{sym, refl, true, false, ◌+◌, arith, get_elem?, ℕ, some, List, [], ◌∷◌, ◌≡◌, ◌==◌}
use wrb.Common.Order.{nat_ord, text_beq_refl}
use wrb.Common.Map.{insert}
use wrb.Storage.Codec.{ok}
use wrb.Storage.Codec.Vectors.{VecCodec}
use wrb.Storage.Slices.{WrbpodSlices}
use wrb.Storage.Slices.Wire as SlicesWire
use wrb.Storage.Client.{StacksAddress, StackerDbClient, Crypto, Env}
use wrb.Storage.Local.{
  LocalDb, LocalStackerDbChunk, local_client, metadata_of, is_empty, well_signed, updated,
  inner_list_chunks,
}
use wrb.Storage.Local.Put.{IsSlot}
use wrb.Storage.Local.Numbered.{list_chunks-Numbered, IsNumbered}
use wrb.Storage.Local as Local
use wrb.Storage.Wrbpod.{load_signers, Wrbpod, load_chunk, get_raw_chunk}
use wrb.Storage.Wrbpod.Slots.{
  chunk_id_of, fetch_round, fetch_signed, fetch_chunk, chunk_auth_digest,
}
use wrb.Storage.Wrbpod.Loop.{local_env}

module _ (crypto : Crypto) (home : StackerDbClient) (codec : VecCodec) (chunk_max_size : ℕ) where
  abbrev env : Env
  env = local_env crypto home codec chunk_max_size

  -- The chunk of an application's slot on a node, signed and with the bytes of some slices.
  pub record Holds (db : LocalDb) (chunk_id : ℕ) (signer : StacksAddress) (slices : WrbpodSlices)
      (version : ℕ) (key : List ℕ) : Type 0 where
    pub row : LocalStackerDbChunk
    pub slot : IsSlot crypto db chunk_id row
    pub numbered : IsNumbered 0 db.chunks
    pub is_new : row.slot_version ≡ version + 1
    pub hashed : row.data_hash ≡ crypto.data_hash row.body
    pub verified : crypto.verify (metadata_of chunk_id row) signer ≡ some true
    pub recovered :
        crypto.recover_to_pubkey
          (chunk_auth_digest env chunk_id row.slot_version row.data_hash)
          row.signature
        ≡ some key
    pub is_decoded :
        (rest : List ℕ) × (SlicesWire.deserialize codec.base chunk_max_size row.body
          ≡ ok (slices, rest))

  module _ {db : LocalDb} {chunk_id : ℕ} {signer : StacksAddress} {slices : WrbpodSlices}
      {version : ℕ} {key : List ℕ} (h : Holds db chunk_id signer slices version key) where
    not_empty : (h.row.slot_version == 0) ≡ false
    not_empty = ground (arith, h.is_new)

    latest_held : Local.get_latest_chunks (chunk_id ∷ []) db ≡ (ok (some h.row.body ∷ []), db)
    unfolding Local.get_latest_chunks is_empty
    latest_held = rw (h.slot.configured, h.slot.found, not_empty) refl

    listed_held : Local.list_chunks db ≡ (ok (inner_list_chunks db), db)
    unfolding Local.list_chunks
    listed_held = rw h.slot.configured refl

  module _ (w : Wrbpod env) {chunk_id : ℕ} {signer : StacksAddress} {slices : WrbpodSlices}
      {version : ℕ} {key : List ℕ}
      (h : Holds w.replica_client chunk_id signer slices version key) where
    raw_held : get_raw_chunk env chunk_id h.row.data_hash w ≡ some (ok h.row.body, w)
    unfolding get_raw_chunk
    raw_held = rw (latest_held h) (rw (sym h.hashed, text_beq_refl h.row.data_hash) refl)

    load_chunk_held :
        load_chunk env chunk_id h.row.data_hash w
        ≡ some (ok tt, record w { chunks = insert chunk_id slices w.chunks })
    unfolding load_chunk
    load_chunk_held = rw (raw_held, h.is_decoded.1) refl

    fetch_signed_held :
        fetch_signed env chunk_id (metadata_of chunk_id h.row) w
        ≡ some (ok (version + 1, some key), record w { chunks = insert chunk_id slices w.chunks })
    unfolding fetch_signed
    fetch_signed_held = rw (load_chunk_held, h.recovered, h.is_new) refl

    load_signers_cached :
        {signers : List StacksAddress}
        → w.signers ≡ some signers
        → load_signers env w ≡ some (ok signers, w)
    unfolding load_signers
    load_signers_cached cached = rw cached refl

    pub fetch_chunk_held :
        (app_name : List ℕ) (app_slot_id : ℕ) (signers : List StacksAddress)
        → chunk_id_of env w app_name app_slot_id ≡ some chunk_id
        → w.signers ≡ some signers
        → get_elem? signers chunk_id ≡ some signer
        → fetch_chunk env app_name app_slot_id w
          ≡ some (ok (version + 1, some key), record w { chunks = insert chunk_id slices w.chunks })
    unfolding fetch_chunk fetch_round
    fetch_chunk_held app_name app_slot_id signers mapped cached of_slot =
        rw
          (
            mapped,
            listed_held h,
            list_chunks-Numbered w.replica_client chunk_id h.row h.numbered h.slot.found,
            load_signers_cached cached,
            of_slot,
            not_empty h,
            h.verified,
          )
          fetch_signed_held
