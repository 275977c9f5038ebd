-- ===== src/Storage/Slices/Encode.antt =====
-- How many bytes a chunk takes on the wire.
use wrb.Common.{ℕ, ◌+◌, ◌*◌, ◌≤◌, ◌≡◌, arith, List, [], ◌∷◌, ◌++◌, length, length-append}
use wrb.Common.Bytes.{to_be_bytes, length-to_be_bytes}
use wrb.Storage.Codec.{MessageCodec}
use wrb.Storage.Slices.{WrbpodSlices}
use wrb.Storage.Slices.Valid.{IsValid, slices_size}
use wrb.Storage.Slices.Wire.{serialize, write_index, write_slices}

module _ (c : MessageCodec) where
  length-write_index : (m : List (ℕ × ℕ)) → length (write_index c m) ≡ 24 * length m
  unfolding write_index
  length-write_index [] = omega arith
  length-write_index ((id, idx) ∷ m) = omega (
    arith,
    length-append (to_be_bytes 16 id) (c.write_u64 idx ++ write_index c m),
    length-append (c.write_u64 idx) (write_index c m),
    length-to_be_bytes 16 id,
    c.length-write_u64 idx,
    length-write_index m,
  )

  length-write_slices : (xs : List (List ℕ)) → length (write_slices c xs) ≡ slices_size xs
  unfolding write_slices
  length-write_slices [] = omega arith
  length-write_slices (v ∷ xs) = omega (
    arith,
    length-append (c.write_bytes v) (write_slices c xs),
    c.length-write_bytes v,
    length-write_slices xs,
  )

  pub length-serialize :
      (s : WrbpodSlices) → length (serialize c s) ≡ 9 + 24 * length s.index + slices_size s.slices
  unfolding serialize
  length-serialize s = omega (
    arith,
    length-append (c.write_u8 s.version)
        (c.write_u64 (length s.index) ++ (write_index c s.index ++ write_slices c s.slices)),
    length-append (c.write_u64 (length s.index)) (write_index c s.index ++ write_slices c s.slices),
    length-append (write_index c s.index) (write_slices c s.slices),
    c.length-write_u8 s.version,
    c.length-write_u64 (length s.index),
    length-write_index s.index,
    length-write_slices s.slices,
  )

  -- The bytes of a well-formed chunk are at most as many as its size says, and fit a StackerDB slot.
  pub length-serialize-le :
      (s : WrbpodSlices)
      → IsValid s
      → (length (serialize c s) ≤ s.encoded_size) × (length (serialize c s) ≤ s.max_size)
  length-serialize-le s valid = (
    omega (arith, length-serialize s, valid.sized),
    omega (arith, length-serialize s, valid.sized, valid.fits),
  )
