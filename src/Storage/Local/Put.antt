-- ===== src/Storage/Local/Put.antt =====
-- `put_chunk` of `LocalStackerDBClient` (src/storage/mock.rs): which chunks it takes, and what a
-- run of it does to the table.
use wrb.Common.{ℕ, Bool, true, false, ◌&&◌, ◌||◌, some, ◌≡◌, inl, inr, ltb, ◌<◌, arith, Bool-cases}
use wrb.Common.Order.{nat_ord}
use wrb.Common.Map.{lookup, insert}
use wrb.Storage.Codec.{Result, ok}
use wrb.Storage.Client.{
  StackerDbChunkAckData, StackerDbChunkData, Crypto, bad_signature, old_version,
}
use wrb.Storage.Local.{
  LocalDb, LocalStackerDbChunk, LocalStackerDbConfig, is_empty, metadata_of, well_signed, updated,
  put_row, put_chunk, accepted, rejected,
}

abbrev pub answered : StackerDbChunkAckData × LocalDb → Result ℕ StackerDbChunkAckData × LocalDb
answered r = (ok r.0, r.1)

module _ (crypto : Crypto) where
  -- A slot takes a chunk when it is empty, or when what it holds is signed and is older.
  abbrev pub takes : StackerDbChunkData → LocalStackerDbChunk → Bool
  takes chunk row =
      is_empty (metadata_of chunk.slot_id row)
      || (well_signed crypto chunk.slot_id row && ltb row.slot_version chunk.slot_version)

  -- A slot that the node has.
  pub record IsSlot (db : LocalDb) (slot_id : ℕ) (row : LocalStackerDbChunk) : Type 0 where
    pub config : LocalStackerDbConfig
    pub configured : db.config ≡ some config
    pub in_range : slot_id < config.max_slots
    pub found : lookup slot_id db.chunks ≡ some row

  pub put_row-takes :
      (chunk : StackerDbChunkData) (row : LocalStackerDbChunk) (db : LocalDb)
      → takes chunk row ≡ true
      → put_row crypto chunk row db ≡ (
        accepted,
        record db { chunks = insert chunk.slot_id (updated crypto chunk row) db.chunks },
      )
  put_row-takes chunk row db h = ground arith

  pub put_row-refuses :
      (chunk : StackerDbChunkData) (row : LocalStackerDbChunk) (db : LocalDb)
      → takes chunk row ≡ false
      → (reason : _) × (code : ℕ) × (put_row crypto chunk row db
          ≡ (rejected reason (some (metadata_of chunk.slot_id row)) code, db))
  put_row-refuses chunk row db h = elim (Bool-cases (well_signed crypto chunk.slot_id row)) [
    | inl signed ↦ (old_version chunk.slot_id chunk.slot_version row.slot_version, 0, ground arith)
    | inr unsigned ↦ (bad_signature chunk.slot_id, 2, ground arith)
  ]

  -- The answer for a slot that the node has.
  pub put_chunk_found :
      (chunk : StackerDbChunkData) (row : LocalStackerDbChunk) (db : LocalDb)
      → IsSlot db chunk.slot_id row
      → put_chunk crypto chunk db ≡ answered (put_row crypto chunk row db)
  unfolding put_chunk
  put_chunk_found chunk row db slot = ground arith
