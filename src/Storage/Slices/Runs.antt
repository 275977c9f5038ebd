-- ===== src/Storage/Slices/Runs.antt =====
-- The theorems on `WrbpodSlices` at concrete chunks, and tests.
use mathlib.Core.Bool.{true}
use wrb.Common.{
  ◌+◌, ◌^◌, ◌≤◌, ◌≡◌, refl, arith, some, [], ◌∷◌, ◌++◌, length, length-append, ◌<◌, true, false,
  if◌then◌else◌, ◌==◌,
}
use wrb.Common.Map.{lookup, insert, IsSorted}
use wrb.Common.Order.{nat_ord}
use wrb.Storage.Codec.{ok}
use wrb.Storage.Codec.BigEndian.{big_endian, max_len-big_endian}
use wrb.Storage.Slices.{WrbpodSlices, new, put_slice, get_slice, can_fit_slice}
use wrb.Storage.Slices.Valid.{IsValid, new-IsValid, put_slice-IsValid, slices_size}
use wrb.Storage.Slices.Put.{put_slice_result, get_slice-put_slice, put_slice_replace}
use wrb.Storage.Slices.Encode.{length-serialize-le}
use wrb.Storage.Slices.RoundTrip.{deserialize-serialize, IsRanged}
use wrb.Storage.Slices.Accepts.{deserialize_accepts, InRange}
use wrb.Storage.Slices.Wire.{serialize, deserialize}

abbrev empty_chunk : WrbpodSlices
empty_chunk = new 100

abbrev one_slice : WrbpodSlices
one_slice = (put_slice empty_chunk 7 (1 ∷ 2 ∷ [])).0

empty_chunk-IsValid : IsValid empty_chunk
empty_chunk-IsValid = new-IsValid 100 (omega arith) (omega arith)

put_slice-IsValid_example : IsValid one_slice
put_slice-IsValid_example =
    put_slice-IsValid empty_chunk 7 (1 ∷ 2 ∷ []) (omega arith) empty_chunk-IsValid

one_slice_stored : (put_slice empty_chunk 7 (1 ∷ 2 ∷ [])).1 ≡ true
unfolding put_slice new lookup
one_slice_stored = refl

-- 9 + 24 + 6 bytes
one_slice_size : one_slice.encoded_size ≡ 39
unfolding put_slice new lookup
one_slice_size = refl

next_stored : (put_slice one_slice 8 (1 ∷ 2 ∷ 3 ∷ [])).1 ≡ true
unfolding put_slice new lookup insert
next_stored = refl

get_slice-put_slice_example :
    get_slice one_slice 7 ≡ (if 7 == 7 then some (1 ∷ 2 ∷ []) else get_slice empty_chunk 7)
get_slice-put_slice_example =
    get_slice-put_slice empty_chunk 7 7 (1 ∷ 2 ∷ []) empty_chunk-IsValid one_slice_stored

one_slice_get : get_slice one_slice 7 ≡ some (1 ∷ 2 ∷ [])
unfolding put_slice new lookup get_slice insert
one_slice_get = refl

replaced : (put_slice one_slice 7 (5 ∷ 6 ∷ 7 ∷ [])).1 ≡ true
unfolding put_slice new lookup insert
replaced = refl

put_slice_replace_example :
    (slices_size (put_slice one_slice 7 (5 ∷ 6 ∷ 7 ∷ [])).0.slices + 2
      ≡ slices_size one_slice.slices + 3)
    × ((put_slice one_slice 7 (5 ∷ 6 ∷ 7 ∷ [])).0.encoded_size ≡ one_slice.encoded_size + 4 + 3)
put_slice_replace_example =
    put_slice_replace one_slice 7 (1 ∷ 2 ∷ []) (5 ∷ 6 ∷ 7 ∷ []) put_slice-IsValid_example
      one_slice_get (omega arith) replaced

put_slice_result_example :
    ((put_slice one_slice 7 (5 ∷ [])).1 ≡ can_fit_slice one_slice 7 1)
    × ((put_slice one_slice 7 (5 ∷ [])).1 ≡ false → (put_slice one_slice 7 (5 ∷ [])).0 ≡ one_slice)
    × ((put_slice one_slice 7 (5 ∷ [])).1 ≡ true → (put_slice one_slice 7 (5 ∷ [])).0.dirty ≡ true)
put_slice_result_example = put_slice_result one_slice 7 (5 ∷ [])

length-serialize-le_example :
    (length (serialize big_endian one_slice) ≤ one_slice.encoded_size)
    × (length (serialize big_endian one_slice) ≤ one_slice.max_size)
length-serialize-le_example = length-serialize-le big_endian one_slice put_slice-IsValid_example

one_slice-IsRanged : IsRanged one_slice
unfolding put_slice new lookup insert
one_slice-IsRanged = record { version = omega arith; ids = omega arith }

one_slice_fits : one_slice.max_size ≤ big_endian.max_len
unfolding put_slice new lookup
one_slice_fits = omega (arith, max_len-big_endian)

deserialize-serialize_example :
    deserialize big_endian one_slice.max_size (serialize big_endian one_slice ++ (9 ∷ []))
    ≡ ok (
      record one_slice { dirty = false; encoded_size = length (serialize big_endian one_slice) },
      9 ∷ [],
    )
deserialize-serialize_example =
    deserialize-serialize big_endian one_slice (9 ∷ []) put_slice-IsValid_example one_slice-IsRanged
      one_slice_fits

abbrev read_back : WrbpodSlices
read_back = record one_slice {
  dirty = false;
  encoded_size = length (serialize big_endian one_slice);
}

wire_short : length (serialize big_endian one_slice ++ (9 ∷ [])) < 2 ^ 63
wire_short = omega (
  arith,
  length-append (serialize big_endian one_slice) (9 ∷ []),
  length-serialize-le_example,
  put_slice-IsValid_example.small,
)

deserialize_accepts_example :
    IsSorted read_back.index
    × (length read_back.slices ≡ length read_back.index)
    × InRange (length read_back.slices) read_back.index
    × (read_back.encoded_size + 1 ≡ length (serialize big_endian one_slice ++ (9 ∷ [])))
    × (length (serialize big_endian read_back) ≡ read_back.encoded_size)
deserialize_accepts_example =
    deserialize_accepts big_endian one_slice.max_size (serialize big_endian one_slice ++ (9 ∷ []))
      read_back (9 ∷ []) deserialize-serialize_example wire_short
