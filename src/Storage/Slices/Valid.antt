-- ===== src/Storage/Slices/Valid.antt =====
-- The well-formedness of a `WrbpodSlices`, and that the operations keep it.
use wrb.Common.{
  ◌⊎◌, ltb→ge, ℕ, zero, suc, ◌+◌, ◌*◌, ◌^◌, ◌<◌, ◌≤◌, ◌≡◌, refl, ◌∙◌, sym, arith, true, false, none,
  some, List, [], ◌∷◌, ◌++◌, ltb, length, length-append, length-set, add_u64, set, Option-cases,
  inl, inr, Bool-cases,
}
use wrb.Common.Order.{nat_ord}
use wrb.Common.Map.{lookup, insert, IsSorted, insert-IsSorted, length-insert_new, lookup-insert}
use wrb.Storage.Slices.{WrbpodSlices, put_slice, put_present, put_new, new, slice_encoded_size}

-- The bytes of the slices: each has a length of four bytes before it.
abbrev pub slices_size : List (List ℕ) → ℕ
slices_size [] = 0
slices_size (slice ∷ slices) = 4 + length slice + slices_size slices

pub record IsValid (s : WrbpodSlices) : Type 0 where
  pub sorted : IsSorted s.index
  pub counted : length s.index ≡ length s.slices
  pub in_range : (id idx : ℕ) → lookup id s.index ≡ some idx → idx < length s.slices
  -- no two IDs share a slice
  pub apart :
      (id id' idx : ℕ) → lookup id s.index ≡ some idx → lookup id' s.index ≡ some idx → id ≡ id'
  -- the size accounts for all that is written
  pub sized : 9 + 24 * length s.index + slices_size s.slices ≤ s.encoded_size
  pub fits : s.encoded_size ≤ s.max_size
  -- it comes from a `u32`
  pub small : s.max_size < 2 ^ 32

pub slices_size-append :
    (xs ys : List (List ℕ)) → slices_size (xs ++ ys) ≡ slices_size xs + slices_size ys
slices_size-append [] ys = omega arith
slices_size-append (x ∷ xs) ys = omega (arith, slices_size-append xs ys)

-- A write adds at most the new slice's bytes.
slices_size-set :
    (xs : List (List ℕ)) (i : ℕ) (v : List ℕ)
    → slices_size (set xs i v) ≤ slices_size xs + 4 + length v
slices_size-set [] i v = omega arith
slices_size-set (x ∷ xs) zero v = omega arith
slices_size-set (x ∷ xs) (suc i) v = omega (arith, slices_size-set xs i v)

pub put_slice_present :
    (s : WrbpodSlices) (id idx : ℕ) (v : List ℕ)
    → lookup id s.index ≡ some idx
    → put_slice s id v ≡ put_present s idx v
unfolding put_slice
put_slice_present s id idx v e = rw (e, put_slice)

pub put_slice_new :
    (s : WrbpodSlices) (id : ℕ) (v : List ℕ)
    → lookup id s.index ≡ none
    → put_slice s id v ≡ put_new s id v
unfolding put_slice
put_slice_new s id v e = rw (e, put_slice)

module _ (s : WrbpodSlices) (v : List ℕ) (long : length v < 2 ^ 63) (ok : IsValid s) where
  put_present-IsValid : (idx : ℕ) → IsValid (put_present s idx v).0
  unfolding put_present
  put_present-IsValid idx = elim (Bool-cases (ltb s.max_size size)) [
    | inl full ↦ rw full ok
    | inr room ↦ rw room (record {
      sorted = ok.sorted;
      counted = ok.counted ∙ sym (length-set s.slices idx v);
      in_range = λ id i e. rw (length-set s.slices idx v) (ok.in_range id i e);
      apart = ok.apart;
      sized = omega (
        arith,
        ltb→ge s.max_size size room,
        ok.sized,
        ok.fits,
        ok.small,
        long,
        slices_size-set s.slices idx v,
      );
      fits = ltb→ge s.max_size size room;
      small = ok.small;
    })
  ]
    where
      size : ℕ
      size = add_u64 s.encoded_size (slice_encoded_size (length v) true)

  fresh_index :
      (id : ℕ)
      → lookup id s.index ≡ none
      → (j idx : ℕ) → lookup j (insert id (length s.slices) s.index) ≡ some idx
      → ((j ≡ id) × (idx ≡ length s.slices)) ⊎ (lookup j s.index ≡ some idx)
  fresh_index id fresh j idx e = ground (arith, lookup-insert id j (length s.slices) s.index)

  put_new-IsValid : (id : ℕ) → lookup id s.index ≡ none → IsValid (put_new s id v).0
  unfolding put_new
  put_new-IsValid id fresh = elim (Bool-cases (ltb s.max_size size)) [
    | inl full ↦ rw full ok
    | inr room ↦ rw room (record {
      sorted = insert-IsSorted id (length s.slices) s.index ok.sorted;
      counted = omega (
        arith,
        length-insert_new id (length s.slices) s.index fresh,
        ok.counted,
        length-append s.slices (v ∷ []),
      );
      in_range = λ j idx e. elim (fresh_index id fresh j idx e) [
        | inl (p, q) ↦ omega (arith, q, length-append s.slices (v ∷ []))
        | inr old ↦ omega (arith, ok.in_range j idx old, length-append s.slices (v ∷ []))
      ];
      apart = λ j j' idx e e'. elim (fresh_index id fresh j idx e) [
        | inl (p, q) ↦ elim (fresh_index id fresh j' idx e') [
          | inl (p', q') ↦ omega (arith, p, p')
          | inr old' ↦ absurd (omega (arith, q, ok.in_range j' idx old'))
        ]
        | inr old ↦ elim (fresh_index id fresh j' idx e') [
          | inl (p', q') ↦ absurd (omega (arith, q', ok.in_range j idx old))
          | inr old' ↦ ok.apart j j' idx old old'
        ]
      ];
      sized = omega (
        arith,
        ltb→ge s.max_size size room,
        ok.sized,
        ok.fits,
        ok.small,
        long,
        slices_size-append s.slices (v ∷ []),
        length-insert_new id (length s.slices) s.index fresh,
      );
      fits = ltb→ge s.max_size size room;
      small = ok.small;
    })
  ]
    where
      size : ℕ
      size = add_u64 s.encoded_size (slice_encoded_size (length v) false)

-- Adding or replacing a slice keeps a chunk well formed, whether or not it fits: its IDs stay in
-- order, each with a slice of its own, and the size that it keeps covers its bytes and stays within
-- the chunk's maximum.
pub put_slice-IsValid :
    (s : WrbpodSlices) (id : ℕ) (v : List ℕ)
    → length v < 2 ^ 63
    → IsValid s
    → IsValid (put_slice s id v).0
put_slice-IsValid s id v long ok = elim (Option-cases (lookup id s.index)) [
  | inl fresh ↦ rw (put_slice_new s id v fresh) (put_new-IsValid s v long ok id fresh)
  | inr (idx, e) ↦ rw (put_slice_present s id idx v e) (put_present-IsValid s v long ok idx)
]

pub new-IsValid :
    (max_chunk_size : ℕ)
    → 9 ≤ max_chunk_size
    → max_chunk_size < 2 ^ 32
    → IsValid (new max_chunk_size)
unfolding new lookup
new-IsValid m low high = record {
  sorted = tt;
  counted = refl;
  in_range = λ id idx e. cc;
  apart = λ id id' idx e e'. cc;
  sized = omega (arith, low);
  fits = low;
  small = high;
}
