-- ===== src/Storage/Wrbpod/Loop.antt =====
-- The loop of `Wrbpod::put_chunk` (src/storage/wrbpod.rs) on the node of src/storage/mock.rs: when it
-- ends, and when it does not.
use wrb.Common.{
  none, zero, true, ◌⊎◌, inl, inr, Bool-cases, ◌+◌, ◌<◌, ◌^◌, arith, ◌||◌, ℕ, suc, true, false,
  some, List, ◌≡◌, refl, ◌∙◌, ap,
}
use wrb.Common.Order.{nat_ord}
use wrb.Common.Map.{insert}
use wrb.Storage.Codec.{ok}
use wrb.Storage.Codec.Vectors.{VecCodec}
use wrb.Storage.Client.{StackerDbChunkData, StackerDbChunkAckData, StackerDbClient, Crypto, Env}
use wrb.Storage.Local.{
  is_empty, well_signed, accepted, rejected, metadata_of, LocalStackerDbChunk, local_client,
  updated, metadata_of, rejected, accepted,
}
use wrb.Storage.Local.Put.{
  answered, put_row-takes, put_chunk_found, IsSlot, takes, put_row-takes, put_row-refuses,
  put_chunk_found,
}
use wrb.Storage.Wrbpod.{Wrbpod, put_chunk, after_ack, add_u32}

abbrev pub signed_by : List ℕ → StackerDbChunkData → StackerDbChunkData
signed_by sig chunk = record chunk { sig = sig }

put_round :
    (e : Env) (n : ℕ) (chunk : StackerDbChunkData) (w : Wrbpod e) (sig : List ℕ)
    (ack : StackerDbChunkAckData) (node : e.replica.State)
    → e.crypto.sign w.privkey chunk ≡ some sig
    → e.replica.put_chunk (signed_by sig chunk) w.replica_client ≡ (ok ack, node)
    → put_chunk e (suc n) chunk w
      ≡ after_ack e ack
          (λ version. put_chunk e n (record (signed_by sig chunk) { slot_version = version }))
          (record w { replica_client = node })
unfolding put_chunk
put_round e n chunk w sig ack node h a = rw (h, a) refl

-- A wrbpod of a local node.
abbrev pub local_env : Crypto → StackerDbClient → VecCodec → ℕ → Env
local_env crypto home codec chunk_max_size = record {
  replica = local_client crypto;
  home = home;
  crypto = crypto;
  codec = codec;
  chunk_max_size = chunk_max_size;
}

-- A key that signs every chunk.
abbrev pub AlwaysSigns : Crypto → List ℕ → Type 0
AlwaysSigns crypto key =
    (chunk : StackerDbChunkData) → (sig : List ℕ) × (crypto.sign key chunk ≡ some sig)

module _ (crypto : Crypto) (home : StackerDbClient) (codec : VecCodec) (chunk_max_size : ℕ) where
  abbrev env : Env
  env = local_env crypto home codec chunk_max_size

  refused_round :
      (n : ℕ) (chunk : StackerDbChunkData) (w : Wrbpod env) (row : LocalStackerDbChunk)
      (sig : List ℕ)
      → crypto.sign w.privkey chunk ≡ some sig
      → IsSlot crypto w.replica_client chunk.slot_id row
      → takes crypto chunk row ≡ false
      → put_chunk env (suc n) chunk w
        ≡ put_chunk env n
            (record (signed_by sig chunk) { slot_version = add_u32 row.slot_version 1 })
            w
  refused_round n chunk w row sig signs slot refused =
      let (reason, code, e) =
        put_row-refuses crypto (signed_by sig chunk) row w.replica_client refused in
      put_round env n chunk w sig (rejected reason (some (metadata_of chunk.slot_id row)) code)
        w.replica_client signs
        (put_chunk_found crypto (signed_by sig chunk) row w.replica_client slot ∙ ap answered e)

  pub taken_round :
      (n : ℕ) (chunk : StackerDbChunkData) (w : Wrbpod env) (row : LocalStackerDbChunk)
      (sig : List ℕ)
      → crypto.sign w.privkey chunk ≡ some sig
      → IsSlot crypto w.replica_client chunk.slot_id row
      → takes crypto chunk row ≡ true
      → put_chunk env (suc n) chunk w
        ≡ some (
          ok tt,
          record w {
            replica_client = record w.replica_client {
              chunks =
                  insert chunk.slot_id
                    (updated crypto (signed_by sig chunk) row)
                    w.replica_client.chunks;
            };
          },
        )
  taken_round n chunk w row sig signs slot taken = put_round env n chunk w sig accepted _ signs (
      put_chunk_found crypto (signed_by sig chunk) row w.replica_client slot
      ∙ ap answered (put_row-takes crypto (signed_by sig chunk) row w.replica_client taken))

  -- On a slot of a local node that holds what is not signed for it, the loop of put_chunk goes on
  -- for any number of rounds without a result, if the key signs every chunk: the node tells its
  -- version each time, and the wrbpod tries again with the next.
  pub put_chunk_never_ends :
      (rounds : ℕ) (chunk : StackerDbChunkData) (w : Wrbpod env) (row : LocalStackerDbChunk)
      → AlwaysSigns crypto w.privkey
      → IsSlot crypto w.replica_client chunk.slot_id row
      → is_empty (metadata_of chunk.slot_id row) ≡ false
      → well_signed crypto chunk.slot_id row ≡ false
      → put_chunk env rounds chunk w ≡ none
  unfolding put_chunk
  put_chunk_never_ends zero chunk w row signs slot full unsigned = refl
  put_chunk_never_ends (suc n) chunk w row signs slot full unsigned =
      let (sig, signed) = signs chunk in
      refused_round n chunk w row sig signed slot (ground arith)
      ∙ put_chunk_never_ends n
          (record (signed_by sig chunk) { slot_version = add_u32 row.slot_version 1 }) w row signs
          slot full unsigned

  -- What was sent and taken for a chunk: its body, at its version or at the one after the row's.
  pub record IsPut (chunk : StackerDbChunkData) (w w' : Wrbpod env) (row : LocalStackerDbChunk)
      : Type 0 where
    pub sent : StackerDbChunkData
    pub sig : List ℕ
    pub is_signed : crypto.sign w.privkey sent ≡ some sig
    pub same_slot : sent.slot_id ≡ chunk.slot_id
    pub same_body : sent.body ≡ chunk.body
    pub at_version :
        (sent.slot_version ≡ chunk.slot_version) ⊎ (sent.slot_version ≡ row.slot_version + 1)
    pub written : w' ≡ record w {
      replica_client = record w.replica_client {
        chunks =
            insert chunk.slot_id (updated crypto (signed_by sig sent) row) w.replica_client.chunks;
      };
    }

  -- The result of a run of `put_chunk`.
  abbrev pub Puts : ℕ → StackerDbChunkData → Wrbpod env → LocalStackerDbChunk → Type 0
  Puts rounds chunk w row =
      (w' : Wrbpod env) × (put_chunk env rounds chunk w ≡ some (ok tt, w')) × IsPut chunk w w' row

  puts_taken :
      (n : ℕ) (chunk sent : StackerDbChunkData) (w : Wrbpod env) (row : LocalStackerDbChunk)
      → AlwaysSigns crypto w.privkey
      → IsSlot crypto w.replica_client sent.slot_id row
      → takes crypto sent row ≡ true
      → sent.slot_id ≡ chunk.slot_id
      → sent.body ≡ chunk.body
      → (sent.slot_version ≡ chunk.slot_version) ⊎ (sent.slot_version ≡ row.slot_version + 1)
      → (w' : Wrbpod env) × (put_chunk env (suc n) sent w ≡ some (ok tt, w')) × IsPut chunk w w' row
  puts_taken n chunk sent w row signs slot taken same_slot same_body at_version =
      let (sig, signed) = signs sent in
      (
        _,
        taken_round n sent w row sig signed slot taken,
        record {
          sent = sent;
          sig = sig;
          is_signed = signed;
          same_slot = same_slot;
          same_body = same_body;
          at_version = at_version;
          written = simp same_slot refl;
        },
      )

  pub newer_takes :
      (chunk : StackerDbChunkData) (row : LocalStackerDbChunk)
      → chunk.slot_version ≡ row.slot_version + 1
      → is_empty (metadata_of chunk.slot_id row) || well_signed crypto chunk.slot_id row ≡ true
      → takes crypto chunk row ≡ true
  newer_takes chunk row newer good = ground arith

  -- On a slot of a local node that is empty or holds what is signed for it, the loop of put_chunk
  -- ends with success in two rounds: the node has the chunk's body, signed, at the chunk's version
  -- or at the one after the row's, if the key signs every chunk and that version fits a u32.
  pub put_chunk_two_rounds :
      (n : ℕ) (chunk : StackerDbChunkData) (w : Wrbpod env) (row : LocalStackerDbChunk)
      → AlwaysSigns crypto w.privkey
      → IsSlot crypto w.replica_client chunk.slot_id row
      → is_empty (metadata_of chunk.slot_id row) || well_signed crypto chunk.slot_id row ≡ true
      → row.slot_version + 1 < 2 ^ 32
      → Puts (suc (suc n)) chunk w row
  put_chunk_two_rounds n chunk w row signs slot good small =
      elim (Bool-cases (takes crypto chunk row)) [
        | inl taken ↦ puts_taken (suc n) chunk chunk w row signs slot taken refl refl (inl refl)
        | inr refused ↦
            let (sig, signed) = signs chunk in
            let again : StackerDbChunkData = record (signed_by sig chunk) {
              slot_version = add_u32 row.slot_version 1;
            } in
            let next : again.slot_version ≡ row.slot_version + 1 = omega (arith, small) in
            let (w', ends, is_put) =
              puts_taken n chunk again w row signs slot (newer_takes again row next good) refl refl
                (inr next) in
            (w', refused_round (suc n) chunk w row sig signed slot refused ∙ ends, is_put)
      ]
