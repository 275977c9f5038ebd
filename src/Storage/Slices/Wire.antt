-- ===== src/Storage/Slices/Wire.antt =====
-- The bytes of a `WrbpodSlices`: `consensus_serialize` and `consensus_deserialize` of
-- src/storage/mod.rs.
use wrb.Common.{
  ℕ, zero, suc, false, List, [], ◌∷◌, ◌++◌, leb, ltb, if◌then◌else◌, add_u64, length, take, drop,
}
use wrb.Common.Order.{nat_ord}
use wrb.Common.Map.{insert}
use wrb.Common.Bytes.{to_be_bytes, from_be_bytes}
use wrb.Storage.Codec.{
  MessageCodec, index_exceeds_slices, duplicate_slice_id, read_u128_failed, ok, err, Reader, ◌>>=◌,
  ◌>>◌, pure, refuse_if,
}
use wrb.Storage.Slices.{WrbpodSlices, contains_key}

-- `fd.write_all(&value.to_be_bytes())`
abbrev pub u128_consensus_serialize : ℕ → List ℕ
u128_consensus_serialize value = to_be_bytes 16 value

-- `fd.read_exact` of 16 bytes
unfoldable pub u128_consensus_deserialize : Reader ℕ
u128_consensus_deserialize bs =
    if ltb (length bs) 16 then err read_u128_failed else ok (from_be_bytes (take 16 bs), drop 16 bs)

module _ (c : MessageCodec) where
  open c use {write_u8, write_u64, write_bytes, read_u8, read_u64, read_bytes}

  unfoldable pub write_index : List (ℕ × ℕ) → List ℕ
  write_index [] = []
  write_index ((id, idx) ∷ index) =
      u128_consensus_serialize id ++ (write_u64 idx ++ write_index index)

  unfoldable pub write_slices : List (List ℕ) → List ℕ
  write_slices [] = []
  write_slices (slice ∷ slices) = write_bytes slice ++ write_slices slices

  -- `consensus_serialize`; the conversions of `usize` to `u64` cannot fail on a 64-bit target.
  unfoldable pub serialize : WrbpodSlices → List ℕ
  unfolding write_index write_slices
  serialize s =
      write_u8 s.version
      ++ (write_u64 (length s.index) ++ (write_index s.index ++ write_slices s.slices))

  -- The first loop: `n` rounds are left of `index_count`. The result is the index and the size.
  unfoldable pub read_index : ℕ → ℕ → List (ℕ × ℕ) → ℕ → Reader (List (ℕ × ℕ) × ℕ)
  read_index zero index_count index size = pure (index, size)
  read_index (suc n) index_count index size = do
    id ← u128_consensus_deserialize
    idx ← read_u64
    refuse_if (leb index_count idx) (index_exceeds_slices idx index_count)
    refuse_if (contains_key id index) duplicate_slice_id
    read_index n index_count (insert id idx index) (add_u64 (add_u64 size 16) 8)

  -- The second loop.
  unfoldable pub read_slices : ℕ → List (List ℕ) → ℕ → Reader (List (List ℕ) × ℕ)
  read_slices zero slices size = pure (slices, size)
  read_slices (suc n) slices size = do
    slice ← read_bytes
    read_slices n (slices ++ (slice ∷ [])) (add_u64 size (add_u64 4 (length slice)))

  -- `consensus_deserialize`, at the chunk size `max_chunk_size`.
  unfoldable pub deserialize : ℕ → Reader WrbpodSlices
  unfolding read_index read_slices
  deserialize max_chunk_size = do
    version ← read_u8
    index_count ← read_u64
    (index, size) ← read_index index_count index_count [] 9
    (slices, size') ← read_slices index_count [] size
    pure (record {
      version = version;
      slices = slices;
      index = index;
      dirty = false;
      encoded_size = size';
      max_size = max_chunk_size;
    })
