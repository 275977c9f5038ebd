-- ===== src/Storage/Local/Reached.antt =====
-- The tables that `LocalStackerDBClient` (src/storage/mock.rs) gets to: one that `open_or_create`
-- makes, and after any chunks that are put.
use wrb.Common.{
  none, Option, Bool, map, refl, leb, Bool-cases, inr, some, inl, Option-cases, append-nil,
  append_assoc, replicate, sym, ◌==◌, ltb, false, ℕ, zero, suc, ◌+◌, false, List, [], ◌∷◌, ◌++◌,
  ◌≡◌, sym, ◌∙◌, ap, arith, length, replicate,
}
use wrb.Common.Order.{nat_ord}
use wrb.Storage.Local.Put.{takes, put_row-takes, put_row-refuses}
use wrb.Storage.Codec.{ok}
use wrb.Common.Map.{lookup, insert}
use wrb.Storage.Client.{StacksAddress, StackerDbChunkData, Crypto}
use wrb.Storage.Local.{
  LocalStackerDbConfig, put_configured, create, get_signers, addr_version, updated, put_row,
  LocalDb, put_chunk, LocalStackerDbChunk, Signer, insert_slots, insert_signers, empty_row,
}
use wrb.Storage.Local.Numbered.{slot_keys-insert, insert-Numbered, IsNumbered, slot_keys}

abbrev pub address_at : ℕ → List ℕ → StacksAddress
address_at version bytes = record { version = version; bytes = bytes }

module _ (crypto : Crypto) where
  insert_new-Numbered :
      (i k : ℕ) (row : LocalStackerDbChunk) (rows : List (ℕ × LocalStackerDbChunk))
      → IsNumbered i rows
      → k ≡ i + length rows
      → IsNumbered i (insert k row rows)
        × (slot_keys (insert k row rows) ≡ slot_keys rows ++ (row.pubkh ∷ []))
        × (length (insert k row rows) ≡ suc (length rows))
  unfolding insert
  insert_new-Numbered i k row [] n e = ground arith
  insert_new-Numbered i k row ((j, r) ∷ rows) (is_i, n) e =
      let (numbered, keys, more) = insert_new-Numbered (suc i) k row rows n (omega (arith, e)) in
      let k_is_not : k == j ≡ false = ground arith in
      let k_not_below : ltb k j ≡ false = ground arith in
      rw (k_is_not, k_not_below) ((is_i, numbered), ap (r.pubkh ∷◌) keys, ap suc more)

  -- The keys of the slots of the signers, in their order.
  abbrev pub signer_keys : List Signer → List (List ℕ)
  signer_keys [] = []
  signer_keys (signer ∷ signers) =
      replicate signer.num_slots signer.address.bytes ++ signer_keys signers

  insert_slots-Numbered :
      (n : ℕ) (signer : Signer) (slot_id : ℕ) (rows : List (ℕ × LocalStackerDbChunk))
      → IsNumbered 0 rows
      → slot_id ≡ length rows
      → ((insert_slots crypto n signer slot_id rows).0
          ≡ length (insert_slots crypto n signer slot_id rows).1)
        × IsNumbered 0 (insert_slots crypto n signer slot_id rows).1
        × (slot_keys (insert_slots crypto n signer slot_id rows).1
            ≡ slot_keys rows ++ replicate n signer.address.bytes)
  unfolding insert_slots
  insert_slots-Numbered zero signer slot_id rows numbered e =
      (e, numbered, sym (append-nil (slot_keys rows)))
  insert_slots-Numbered (suc n) signer slot_id rows numbered e =
      let (numbered', keys, more) =
        insert_new-Numbered 0 slot_id (empty_row crypto signer) rows numbered (omega (arith, e)) in
      let (count, all, keys') =
        insert_slots-Numbered n signer (suc slot_id) (insert slot_id (empty_row crypto signer) rows)
          numbered' (omega (arith, e, more)) in
      (count, all, keys' ∙ rw keys (append_assoc (slot_keys rows) _ _))

  insert_signers-Numbered :
      (signers : List Signer) (slot_id : ℕ) (rows : List (ℕ × LocalStackerDbChunk))
      → IsNumbered 0 rows
      → slot_id ≡ length rows
      → IsNumbered 0 (insert_signers crypto signers slot_id rows)
        × (slot_keys (insert_signers crypto signers slot_id rows)
            ≡ slot_keys rows ++ signer_keys signers)
  unfolding insert_signers
  insert_signers-Numbered [] slot_id rows numbered e = (numbered, sym (append-nil (slot_keys rows)))
  insert_signers-Numbered (signer ∷ signers) slot_id rows numbered e =
      let (count, numbered', keys) =
        insert_slots-Numbered signer.num_slots signer slot_id rows numbered e in
      let (all, keys') = insert_signers-Numbered signers _ _ numbered' count in
      (all, keys' ∙ rw keys (append_assoc (slot_keys rows) _ _))

  put_row-Numbered :
      (chunk : StackerDbChunkData) (row : LocalStackerDbChunk) (db : LocalDb)
      → lookup chunk.slot_id db.chunks ≡ some row
      → IsNumbered 0 db.chunks
      → IsNumbered 0 (put_row crypto chunk row db).1.chunks
        × (slot_keys (put_row crypto chunk row db).1.chunks ≡ slot_keys db.chunks)
        × ((put_row crypto chunk row db).1.config ≡ db.config)
  put_row-Numbered chunk row db found n = elim (Bool-cases (takes crypto chunk row)) [
    | inl taken ↦ rw (put_row-takes crypto chunk row db taken) (
      insert-Numbered 0 chunk.slot_id (updated crypto chunk row) row db.chunks n found,
      slot_keys-insert 0 chunk.slot_id (updated crypto chunk row) row db.chunks n found refl,
      refl,
    )
    | inr refused ↦
        let (reason, code, e) = put_row-refuses crypto chunk row db refused in rw e (n, refl, refl)
  ]

  put_configured-Numbered :
      (chunk : StackerDbChunkData) (config : Option LocalStackerDbConfig) (db : LocalDb)
      → IsNumbered 0 db.chunks
      → IsNumbered 0 (put_configured crypto chunk config db).1.chunks
        × (slot_keys (put_configured crypto chunk config db).1.chunks ≡ slot_keys db.chunks)
        × ((put_configured crypto chunk config db).1.config ≡ db.config)
  put_configured-Numbered chunk none db n = (n, refl, refl)
  put_configured-Numbered chunk (some config) db n =
      elim (Bool-cases (leb config.max_slots chunk.slot_id)) [
        | inl big ↦ simp big (n, refl, refl)
        | inr small ↦ elim (Option-cases (lookup chunk.slot_id db.chunks)) [
          | inl missing ↦ simp (small, missing) (n, refl, refl)
          | inr (row, found) ↦ simp (small, found) (put_row-Numbered chunk row db found n)
        ]
      ]

  -- A run of puts, whatever their answers are.
  abbrev pub puts : List StackerDbChunkData → LocalDb → LocalDb
  puts [] db = db
  puts (chunk ∷ chunks) db = puts chunks (put_chunk crypto chunk db).1

  puts-Numbered :
      (chunks : List StackerDbChunkData) (db : LocalDb)
      → IsNumbered 0 db.chunks
      → IsNumbered 0 (puts chunks db).chunks
        × (slot_keys (puts chunks db).chunks ≡ slot_keys db.chunks)
        × ((puts chunks db).config ≡ db.config)
  unfolding put_chunk
  puts-Numbered [] db n = (n, refl, refl)
  puts-Numbered (chunk ∷ chunks) db n =
      let (numbered, keys, config) = put_configured-Numbered chunk db.config db n in
      let (numbered', keys', config') =
        puts-Numbered chunks (put_chunk crypto chunk db).1 numbered in
      (numbered', keys' ∙ keys, config' ∙ config)

  slot_signers :
      (version : ℕ) (rows : List (ℕ × LocalStackerDbChunk))
      → map (λ (r : ℕ × LocalStackerDbChunk). address_at version r.1.pubkh) rows
        ≡ map (address_at version) (slot_keys rows)
  slot_signers version [] = refl
  slot_signers version (r ∷ rows) = ap (address_at version r.1.pubkh ∷◌) (slot_signers version rows)

  -- In a table that open_or_create makes for some signers, and after any chunks are put, the slots
  -- are numbered from 0 without a gap, and get_signers tells the signers of the configuration,
  -- each as often as it has slots.
  pub puts-create :
      (signers : List Signer) (max_slots : ℕ) (mainnet : Bool) (chunks : List StackerDbChunkData)
      → IsNumbered 0 (puts chunks (create crypto signers max_slots mainnet)).chunks
        × ((get_signers crypto (puts chunks (create crypto signers max_slots mainnet))).0
            ≡ ok (map (address_at (addr_version crypto mainnet)) (signer_keys signers)))
  unfolding create get_signers
  puts-create signers max_slots mainnet chunks =
      let (numbered, keys) = insert_signers-Numbered signers 0 [] tt refl in
      let (numbered', keys', config) =
        puts-Numbered chunks (create crypto signers max_slots mainnet) numbered in
      (
        numbered',
        simp config (
            ap ok (
              slot_signers _ _
              ∙ ap (map (address_at (addr_version crypto mainnet))) (keys' ∙ keys))),
      )
