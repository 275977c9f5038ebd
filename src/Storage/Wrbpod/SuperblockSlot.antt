-- ===== src/Storage/Wrbpod/SuperblockSlot.antt =====
-- `Wrbpod::download_superblock` (src/storage/wrbpod.rs) on the node of src/storage/mock.rs, by the slot
-- that the superblock is in.
use wrb.Common.{
  ℕ, zero, suc, ◌<◌, none, some, List, [], ◌∷◌, ◌≡◌, refl, arith, true, false, get_elem?,
}
use wrb.Common.Order.{nat_ord}
use wrb.Storage.Codec.{ok, err}
use wrb.Storage.Codec.Vectors.{VecCodec}
use wrb.Storage.Client.{StacksAddress, StackerDbClient, Crypto, Env, no_such_chunk}
use wrb.Storage.Local.{
  LocalDb, LocalStackerDbChunk, metadata_of, is_empty, inner_list_chunks, unless_empty,
}
use wrb.Storage.Local as Local
use wrb.Storage.Local.Put.{IsSlot}
use wrb.Storage.Local.Numbered.{IsNumbered, list_chunks-Numbered}
use wrb.Storage.Wrbpod.{Wrbpod, download_superblock, fetch_superblock, load_signers}
use wrb.Storage.Wrbpod.Loop.{local_env}

-- A reply about one slot has one entry, at the index 0.
get_elem?_single : {A : Type 0} (x : A) (i : ℕ) → 0 < i → get_elem? (x ∷ []) i ≡ none
get_elem?_single x zero h = absurd (omega arith)
get_elem?_single x (suc i) h = refl

module _ (crypto : Crypto) (home : StackerDbClient) (codec : VecCodec) (chunk_max_size : ℕ) where
  abbrev env : Env
  env = local_env crypto home codec chunk_max_size

  -- A superblock that was written, with the signature of its slot's signer.
  pub record IsWritten (w : Wrbpod env) (row : LocalStackerDbChunk) (signers : List StacksAddress)
      (signer : StacksAddress) : Type 0 where
    pub numbered : IsNumbered 0 w.replica_client.chunks
    pub slot : IsSlot crypto w.replica_client w.superblock_slot_id row
    pub full : is_empty (metadata_of w.superblock_slot_id row) ≡ false
    pub cached : w.signers ≡ some signers
    pub of_slot : get_elem? signers w.superblock_slot_id ≡ some signer
    pub verified : crypto.verify (metadata_of w.superblock_slot_id row) signer ≡ some true

  load_signers_cached :
      (w : Wrbpod env) (signers : List StacksAddress)
      → w.signers ≡ some signers
      → load_signers env w ≡ some (ok signers, w)
  unfolding load_signers
  load_signers_cached w signers cached = rw cached refl

  module _ (w : Wrbpod env) (row : LocalStackerDbChunk) (signers : List StacksAddress)
      (signer : StacksAddress) (h : IsWritten w row signers signer) where
    listed :
        Local.list_chunks w.replica_client
        ≡ (ok (inner_list_chunks w.replica_client), w.replica_client)
    unfolding Local.list_chunks
    listed = rw h.slot.configured refl

    latest :
        Local.get_latest_chunks (w.superblock_slot_id ∷ []) w.replica_client
        ≡ (ok (some row.body ∷ []), w.replica_client)
    unfolding Local.get_latest_chunks
    latest = rw (h.slot.configured, h.slot.found, h.full) refl

    -- A superblock in a slot other than 0 of a local node that was written, and whose metadata
    -- verifies for the slot's signer, is reported by download_superblock as a chunk that is not
    -- there.
    pub download_superblock_other_slot :
        0 < w.superblock_slot_id → download_superblock env w ≡ some (err no_such_chunk, w)
    unfolding download_superblock fetch_superblock is_empty
    download_superblock_other_slot other =
        rw
          (
            listed,
            list_chunks-Numbered w.replica_client w.superblock_slot_id row h.numbered h.slot.found,
            load_signers_cached w signers h.cached,
            h.of_slot,
            h.full,
            h.verified,
            latest,
            get_elem?_single (some row.body) w.superblock_slot_id other,
          )
          refl
