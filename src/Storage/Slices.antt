-- ===== src/Storage/Slices.antt =====
-- `WrbpodSlices` (src/storage/mod.rs and src/storage/wrbpod.rs): the slices of one chunk, and
-- their bytes. The proofs are in the modules below.
pub mod Wire
pub mod Valid
pub mod Put
pub mod Encode
pub mod RoundTrip
pub mod Accepts
mod Runs
use wrb.Common.{
  ℕ, ◌+◌, Bool, true, false, Option, none, some, List, [], ◌∷◌, ◌++◌, ltb, leb, if◌then◌else◌,
  add_u64, length, get_elem?, set,
}
use wrb.Common.Order.{nat_ord}
use wrb.Common.Map.{lookup, insert}

pub record WrbpodSlices : Type 0 where
  pub version : ℕ
  -- list of buffers to store
  pub slices : List (List ℕ)
  -- maps clarity ID to slice index
  pub index : List (ℕ × ℕ)
  pub dirty : Bool
  pub encoded_size : ℕ
  pub max_size : ℕ

abbrev pub wrbpod_slices_version : ℕ
wrbpod_slices_version = 0

-- version + index_length
abbrev pub wrbpod_slices_initial_size : ℕ
wrbpod_slices_initial_size = 1 + 8

-- what's the encoded size of an additional slice?
abbrev pub slice_encoded_size : ℕ → Bool → ℕ
slice_encoded_size slice_len present =
    let sz = add_u64 4 slice_len in if present then sz else add_u64 (add_u64 sz 16) 8

abbrev pub contains_key : ℕ → List (ℕ × ℕ) → Bool
contains_key id index = elim (lookup id index) [ none ↦ false | some _ ↦ true ]

-- Can a slice of a given length fit?
unfoldable pub can_fit_slice : WrbpodSlices → ℕ → ℕ → Bool
can_fit_slice s id size =
    leb (add_u64 s.encoded_size (slice_encoded_size size (contains_key id s.index))) s.max_size

pub put_present : WrbpodSlices → ℕ → List ℕ → WrbpodSlices × Bool
put_present s idx slice =
    let size = add_u64 s.encoded_size (slice_encoded_size (length slice) true) in
    if ltb s.max_size size
    then (s, false)
    else (record s { slices = set s.slices idx slice; encoded_size = size; dirty = true }, true)

pub put_new : WrbpodSlices → ℕ → List ℕ → WrbpodSlices × Bool
put_new s id slice =
    let size = add_u64 s.encoded_size (slice_encoded_size (length slice) false) in
    if ltb s.max_size size then (s, false) else (
      record s {
        slices = s.slices ++ (slice ∷ []);
        index = insert id (length s.slices) s.index;
        encoded_size = size;
        dirty = true;
      },
      true,
    )

-- Add or replace a slice; the Boolean says whether it was. `self.slices[*idx] = slice` would panic
-- out of range, where `set` changes nothing: `IsValid` rules that out.
unfoldable pub put_slice : WrbpodSlices → ℕ → List ℕ → WrbpodSlices × Bool
unfolding put_present put_new
put_slice s id slice = elim (lookup id s.index) [
  | some idx ↦ put_present s idx slice
  | none ↦ put_new s id slice
]

-- Get a slice by ID.
unfoldable pub get_slice : WrbpodSlices → ℕ → Option (List ℕ)
get_slice s id = elim (lookup id s.index) [ none ↦ none | some idx ↦ get_elem? s.slices idx ]

unfoldable pub is_dirty : WrbpodSlices → Bool
is_dirty s = s.dirty

unfoldable pub set_dirty : WrbpodSlices → Bool → WrbpodSlices
set_dirty s dirty = record s { dirty = dirty }

-- `max_chunk_size` is `libstackerdb::STACKERDB_MAX_CHUNK_SIZE`.
unfoldable pub new : ℕ → WrbpodSlices
new max_chunk_size = record {
  version = wrbpod_slices_version;
  slices = [];
  index = [];
  dirty = false;
  encoded_size = wrbpod_slices_initial_size;
  max_size = max_chunk_size;
}
