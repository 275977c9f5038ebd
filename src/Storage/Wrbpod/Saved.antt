-- ===== src/Storage/Wrbpod/Saved.antt =====
-- `Wrbpod::sync_slot` and `Wrbpod::fetch_chunk` (src/storage/wrbpod.rs) on the node of
-- src/storage/mock.rs: what is saved is what is fetched.
use wrb.Common.{
  append-nil, sym, ◌∙◌, ap, refl, ◌||◌, true, false, ◌+◌, ◌<◌, ◌^◌, ◌≤◌, arith, length, get_elem?,
  ℕ, suc, some, List, [], ◌≡◌,
}
use wrb.Common.Order.{nat_ord}
use wrb.Storage.Local.Put.{takes}
use wrb.Common.Map.{lookup-insert_same, lookup, insert}
use wrb.Storage.Codec.{ok}
use wrb.Storage.Codec.Vectors.{VecCodec}
use wrb.Storage.Slices.{WrbpodSlices}
use wrb.Storage.Slices
use wrb.Storage.Slices.Valid.{IsValid}
use wrb.Storage.Slices.RoundTrip.{deserialize-serialize, IsRanged}
use wrb.Storage.Slices.Wire as SlicesWire
use wrb.Storage.Client.{StackerDbChunkData, StacksAddress, StackerDbClient, Crypto, Env}
use wrb.Storage.Local.{
  LocalDb, LocalStackerDbChunk, local_client, metadata_of, is_empty, well_signed, updated,
  inner_list_chunks,
}
use wrb.Storage.Local.Put.{IsSlot}
use wrb.Storage.Local.Numbered.{insert-Numbered, list_chunks-Numbered, IsNumbered}
use wrb.Storage.Local as Local
use wrb.Storage.Wrbpod.{add_u32, Wrbpod}
use wrb.Storage.Wrbpod.Slots.{
  get_slice, ref_app_chunk, set_clean, sync_slot, to_stackerdb_chunk, chunk_id_of, fetch_chunk,
  chunk_auth_digest,
}
use wrb.Storage.Wrbpod.Loop.{newer_takes, taken_round, AlwaysSigns, signed_by, local_env}
use wrb.Storage.Wrbpod.Held.{Holds, fetch_chunk_held}

module _ (crypto : Crypto) (home : StackerDbClient) (codec : VecCodec) (chunk_max_size : ℕ) where
  abbrev env : Env
  env = local_env crypto home codec chunk_max_size

  -- What the saving relies on of signatures: a key's signature of a chunk verifies for the key's
  -- address, and the key can be recovered from it.
  pub record SignsFor (privkey : List ℕ) (pubkey : List ℕ) : Type 0 where
    pub always : AlwaysSigns crypto privkey
    pub verifies :
        (chunk : StackerDbChunkData) (sig : List ℕ) (signer : StacksAddress)
        → crypto.sign privkey chunk ≡ some sig
        → signer.bytes ≡ crypto.address_bytes privkey
        → crypto.verify
            (record {
              slot_id = chunk.slot_id;
              slot_version = chunk.slot_version;
              data_hash = crypto.data_hash chunk.body;
              signature = sig;
            })
            signer
          ≡ some true
    pub recovers :
        (chunk : StackerDbChunkData) (sig : List ℕ)
        → crypto.sign privkey chunk ≡ some sig
        → crypto.recover_to_pubkey
            (chunk_auth_digest env chunk.slot_id chunk.slot_version (crypto.data_hash chunk.body))
            sig
          ≡ some pubkey

  -- A wrbpod with slices for an application's slot, whose chunk it may sign for on its node.
  pub record IsSaveable (w : Wrbpod env) (app_name : List ℕ) (app_slot_id : ℕ)
      (slices : WrbpodSlices) (row : LocalStackerDbChunk) (pubkey : List ℕ) : Type 0 where
    pub chunk_id : ℕ
    pub mapped : chunk_id_of env w app_name app_slot_id ≡ some chunk_id
    pub held : lookup chunk_id w.chunks ≡ some slices
    pub valid : IsValid slices
    pub ranged : IsRanged slices
    pub max_size : slices.max_size ≡ chunk_max_size
    pub fits : chunk_max_size ≤ codec.base.max_len
    pub numbered : IsNumbered 0 w.replica_client.chunks
    pub slot : IsSlot crypto w.replica_client chunk_id row
    pub good : is_empty (metadata_of chunk_id row) || well_signed crypto chunk_id row ≡ true
    pub newer : row.slot_version + 1 < 2 ^ 32
    pub signs : SignsFor w.privkey pubkey
    pub signers : List StacksAddress
    pub cached : w.signers ≡ some signers
    pub signer : StacksAddress
    pub of_slot : get_elem? signers chunk_id ≡ some signer
    pub is_ours : signer.bytes ≡ crypto.address_bytes w.privkey

  -- The slices as they are read back.
  abbrev pub read_back : WrbpodSlices → WrbpodSlices
  read_back slices = record slices {
    dirty = false;
    encoded_size = length (SlicesWire.serialize codec.base slices);
  }

  module _ (w : Wrbpod env) (app_name : List ℕ) (app_slot_id : ℕ) (slices : WrbpodSlices)
      (row : LocalStackerDbChunk) (pubkey : List ℕ)
      (s : IsSaveable w app_name app_slot_id slices row pubkey) where
    abbrev sent : StackerDbChunkData
    sent = to_stackerdb_chunk env slices s.chunk_id (add_u32 row.slot_version 1)

    abbrev sig : List ℕ
    sig = (s.signs.always sent).0

    -- The node after the slot is saved.
    abbrev node : LocalDb
    node = record w.replica_client {
      chunks = insert s.chunk_id (updated crypto (signed_by sig sent) row) w.replica_client.chunks;
    }

    next_version : add_u32 row.slot_version 1 ≡ row.slot_version + 1
    next_version = omega (arith, s.newer)

    sent_taken : takes crypto sent row ≡ true
    sent_taken = newer_takes crypto home codec chunk_max_size sent row next_version s.good

    decoded_whole :
        SlicesWire.deserialize codec.base chunk_max_size (SlicesWire.serialize codec.base slices)
        ≡ ok (read_back slices, [])
    decoded_whole =
        ap (λ m. SlicesWire.deserialize codec.base m (SlicesWire.serialize codec.base slices))
          (sym s.max_size)
        ∙ ap (SlicesWire.deserialize codec.base slices.max_size)
            (sym (append-nil (SlicesWire.serialize codec.base slices)))
        ∙ deserialize-serialize codec.base slices [] s.valid s.ranged (rw s.max_size s.fits)

    listed_slot :
        Local.list_chunks w.replica_client
        ≡ (ok (inner_list_chunks w.replica_client), w.replica_client)
    unfolding Local.list_chunks
    listed_slot = rw s.slot.configured refl

    node-Holds :
        Holds crypto home codec chunk_max_size node s.chunk_id s.signer
          (read_back slices)
          row.slot_version
          pubkey
    node-Holds = record {
      row = updated crypto (signed_by sig sent) row;
      slot = record {
        config = s.slot.config;
        configured = s.slot.configured;
        in_range = s.slot.in_range;
        found =
            lookup-insert_same s.chunk_id (updated crypto (signed_by sig sent) row)
              w.replica_client.chunks;
      };
      numbered =
          insert-Numbered 0 s.chunk_id (updated crypto (signed_by sig sent) row) row
            w.replica_client.chunks s.numbered s.slot.found;
      is_new = omega (arith, s.newer);
      hashed = refl;
      verified = s.signs.verifies sent sig s.signer (s.signs.always sent).1 s.is_ours;
      recovered = s.signs.recovers sent sig (s.signs.always sent).1;
      is_decoded = ([], decoded_whole);
    }

    -- The wrbpod after the slot is saved.
    abbrev saved : Wrbpod env
    saved = set_clean env s.chunk_id (record w { replica_client = node }) slices

    sync_slot_saves : (n : ℕ) → sync_slot env (suc n) app_name app_slot_id w ≡ some (ok tt, saved)
    unfolding sync_slot
    sync_slot_saves n =
        rw
          (
            s.mapped,
            s.held,
            listed_slot,
            list_chunks-Numbered w.replica_client s.chunk_id row s.numbered s.slot.found,
            taken_round crypto home codec chunk_max_size n sent w row sig (s.signs.always sent).1
                s.slot sent_taken,
            s.held,
          )
          refl

  ref_app_chunk_held :
      (w : Wrbpod env) (app_name : List ℕ) (app_slot_id chunk_id : ℕ) (slices : WrbpodSlices)
      → chunk_id_of env w app_name app_slot_id ≡ some chunk_id
      → lookup chunk_id w.chunks ≡ some slices
      → ref_app_chunk env w app_name app_slot_id ≡ some slices
  unfolding ref_app_chunk
  ref_app_chunk_held w app_name app_slot_id chunk_id slices mapped held =
      rw (mapped, held, ref_app_chunk) refl

  get_slice_held :
      (w : Wrbpod env) (app_name : List ℕ) (app_slot_id chunk_id id : ℕ) (slices : WrbpodSlices)
      → chunk_id_of env w app_name app_slot_id ≡ some chunk_id
      → lookup chunk_id w.chunks ≡ some slices
      → get_slice env w app_name app_slot_id id ≡ Slices.get_slice slices id
  unfolding get_slice
  get_slice_held w app_name app_slot_id chunk_id id slices mapped held =
      rw (ref_app_chunk_held w app_name app_slot_id chunk_id slices mapped held, get_slice) refl

  same_slices :
      (slices : WrbpodSlices) (id : ℕ)
      → Slices.get_slice (read_back slices) id ≡ Slices.get_slice slices id
  unfolding Slices.get_slice
  same_slices slices id = refl

  -- A slot that is saved, and then fetched by a wrbpod with another key and another cache.
  abbrev pub SavesAndFetches :
      ℕ
      → Wrbpod env
      → List ℕ
      → ℕ
      → LocalStackerDbChunk
      → List ℕ
      → List ℕ
      → List (ℕ × WrbpodSlices)
      → Type 0
  SavesAndFetches rounds w app_name app_slot_id row pubkey privkey chunks =
      (w₁ : Wrbpod env) × (w₂ : Wrbpod env) × (sync_slot env rounds app_name app_slot_id w
        ≡ some (ok tt, w₁))
      × (fetch_chunk env app_name app_slot_id (record w₁ { privkey = privkey; chunks = chunks })
          ≡ some (ok (row.slot_version + 1, some pubkey), w₂))
      × ((id : ℕ)
          → get_slice env w₂ app_name app_slot_id id ≡ get_slice env w app_name app_slot_id id)

  -- An application's slot that is saved with sync_slot on a local node, and then fetched with
  -- fetch_chunk by a wrbpod with any other key and any other cache, has the same slices under the
  -- same IDs, at the version after the one that the node had. Both calls succeed, in one round of
  -- the loop of put_chunk, if the slices are well formed and within the codec's limits, the slot
  -- is the key's and is empty or well signed, its version is below the largest u32, and signatures
  -- verify.
  pub fetch_chunk-sync_slot :
      (n : ℕ) (w : Wrbpod env) (app_name : List ℕ) (app_slot_id : ℕ) (slices : WrbpodSlices)
      (row : LocalStackerDbChunk) (pubkey privkey : List ℕ) (chunks : List (ℕ × WrbpodSlices))
      → IsSaveable w app_name app_slot_id slices row pubkey
      → SavesAndFetches (suc n) w app_name app_slot_id row pubkey privkey chunks
  unfolding chunk_id_of
  fetch_chunk-sync_slot n w app_name app_slot_id slices row pubkey privkey chunks s =
      let w₁ = saved w app_name app_slot_id slices row pubkey s in
      let other : Wrbpod env = record w₁ { privkey = privkey; chunks = chunks } in
      let mapped = s.mapped in
      (
        w₁,
        record other { chunks = insert s.chunk_id (read_back slices) chunks },
        sync_slot_saves w app_name app_slot_id slices row pubkey s n,
        fetch_chunk_held crypto home codec chunk_max_size other
            (node-Holds w app_name app_slot_id slices row pubkey s) app_name app_slot_id s.signers
            mapped s.cached s.of_slot,
        λ id.
            get_slice_held _ app_name app_slot_id s.chunk_id id (read_back slices) mapped
              (lookup-insert_same s.chunk_id (read_back slices) chunks)
            ∙ same_slices slices id
            ∙ sym (get_slice_held w app_name app_slot_id s.chunk_id id slices s.mapped s.held),
      )
