-- ===== src/Storage/Slices/Put.antt =====
-- What `put_slice` promises to a later `get_slice`, and when it refuses.
use wrb.Common.{
  ℕ, zero, suc, ◌+◌, ◌^◌, ◌<◌, ◌≡◌, arith, true, false, Option, none, some, List, [], ◌∷◌, ◌++◌,
  ◌==◌, if◌then◌else◌, length, get_elem?, set, Option-cases, Bool-cases, inl, inr,
  get_elem?-set_self, get_elem?-set_ne, get_elem?-append_left, get_elem?-append_length, ==_iff,
}
use wrb.Common.Order.{nat_ord}
use wrb.Common.Map.{lookup, insert, lookup-insert}
use wrb.Storage.Slices.{WrbpodSlices, put_slice, put_present, put_new, get_slice, can_fit_slice}
use wrb.Storage.Slices.Valid.{IsValid, put_slice_present, put_slice_new, slices_size}

-- The exact condition under which a slice is added or replaced, and that `can_fit_slice` tells it.
-- A slice that is refused changes nothing.
pub put_slice_result :
    (s : WrbpodSlices) (id : ℕ) (v : List ℕ)
    → ((put_slice s id v).1 ≡ can_fit_slice s id (length v))
      × ((put_slice s id v).1 ≡ false → (put_slice s id v).0 ≡ s)
      × ((put_slice s id v).1 ≡ true → (put_slice s id v).0.dirty ≡ true)
unfolding put_slice can_fit_slice
put_slice_result s id v = (ground arith, ground arith, ground arith)

module _ (s : WrbpodSlices) (v : List ℕ) where
  put_present_done :
      (idx : ℕ)
      → (put_present s idx v).1 ≡ true
      → ((put_present s idx v).0.index ≡ s.index)
        × ((put_present s idx v).0.slices ≡ set s.slices idx v)
  unfolding put_present
  put_present_done idx done = ground arith

  put_new_done :
      (id : ℕ)
      → (put_new s id v).1 ≡ true
      → ((put_new s id v).0.index ≡ insert id (length s.slices) s.index)
        × ((put_new s id v).0.slices ≡ s.slices ++ (v ∷ []))
  unfolding put_new
  put_new_done id done = ground arith

-- `get_slice` reads the index and the slices only.
get_from : List (List ℕ) → Option ℕ → Option (List ℕ)
get_from slices none = none
get_from slices (some idx) = get_elem? slices idx

get_slice_from : (s : WrbpodSlices) (j : ℕ) → get_slice s j ≡ get_from s.slices (lookup j s.index)
unfolding get_slice get_from
get_slice_from s j = elim (Option-cases (lookup j s.index)) [
  | inl e ↦ rw (e, get_slice)
  | inr (i, e) ↦ rw (e, get_slice)
]

module _ (s : WrbpodSlices) (v : List ℕ) (valid : IsValid s) where
  set_from :
      (id idx : ℕ)
      → lookup id s.index ≡ some idx
      → (j : ℕ)
      → get_from (set s.slices idx v) (lookup j s.index)
        ≡ (if j == id then some v else get_from s.slices (lookup j s.index))
  unfolding get_from
  set_from id idx e j = elim (Bool-cases (j == id)) [
    | inl same ↦
        rw (same, (==_iff j id).0 same, e)
          (get_elem?-set_self s.slices idx v (valid.in_range id idx e))
    | inr other ↦ elim (Option-cases (lookup j s.index)) [
      | inl f ↦ rw (other, f)
      | inr (i, f) ↦
          rw (other, f)
            (get_elem?-set_ne s.slices idx i v
              (λ q. absurd (ne j id other (valid.apart j id idx (rw q f) e))))
    ]
  ]
    where
      ne : (a b : ℕ) → (a == b) ≡ false → a ≡ b → ⊥
      ne a b h = ground arith

  append_from :
      (id : ℕ) (j : ℕ)
      → get_from (s.slices ++ (v ∷ [])) (lookup j (insert id (length s.slices) s.index))
        ≡ (if j == id then some v else get_from s.slices (lookup j s.index))
  unfolding get_from
  append_from id j =
      rw (lookup-insert id j (length s.slices) s.index) (elim (Bool-cases (j == id)) [
        | inl same ↦ rw same (get_elem?-append_length s.slices [] v)
        | inr other ↦ elim (Option-cases (lookup j s.index)) [
          | inl f ↦ rw (other, f)
          | inr (i, f) ↦
              rw (other, f) (get_elem?-append_left s.slices (v ∷ []) i (valid.in_range j i f))
        ]
      ])

-- After a slice is added or replaced, its ID reads the new slice, and every other ID reads what it
-- read before.
pub get_slice-put_slice :
    (s : WrbpodSlices) (id j : ℕ) (v : List ℕ)
    → IsValid s
    → (put_slice s id v).1 ≡ true
    → get_slice (put_slice s id v).0 j ≡ (if j == id then some v else get_slice s j)
get_slice-put_slice s id j v valid done = elim (Option-cases (lookup id s.index)) [
  | inl e ↦
      let p = put_slice_new s id v e in
      let (ei, es) = put_new_done s v id (rw p at done) in
      rw (p, get_slice_from, ei, es, get_slice_from s j) (append_from s v valid id j)
  | inr (idx, e) ↦
      let p = put_slice_present s id idx v e in
      let (ei, es) = put_present_done s v idx (rw p at done) in
      rw (p, get_slice_from, ei, es, get_slice_from s j) (set_from s v valid id idx e j)
]

slices_size-set_eq :
    (xs : List (List ℕ)) (i : ℕ) (v old : List ℕ)
    → get_elem? xs i ≡ some old
    → slices_size (set xs i v) + length old ≡ slices_size xs + length v
slices_size-set_eq [] i v old e = cc
slices_size-set_eq (x ∷ xs) zero v old e = ground arith
slices_size-set_eq (x ∷ xs) (suc i) v old e = omega (arith, slices_size-set_eq xs i v old e)

put_present_size :
    (s : WrbpodSlices) (v : List ℕ) (idx : ℕ)
    → IsValid s
    → length v < 2 ^ 63
    → (put_present s idx v).1 ≡ true
    → (put_present s idx v).0.encoded_size ≡ s.encoded_size + 4 + length v
unfolding put_present
put_present_size s v idx valid long done = ground (arith, valid.fits, valid.small)

-- Replacing a slice changes the bytes of the chunk by the difference of the two slices, but the
-- size that is kept grows by the whole new slice, as if it had been added.
pub put_slice_replace :
    (s : WrbpodSlices) (id : ℕ) (old v : List ℕ)
    → IsValid s
    → get_slice s id ≡ some old
    → length v < 2 ^ 63
    → (put_slice s id v).1 ≡ true
    → (slices_size (put_slice s id v).0.slices + length old ≡ slices_size s.slices + length v)
      × ((put_slice s id v).0.encoded_size ≡ s.encoded_size + 4 + length v)
unfolding get_from
put_slice_replace s id old v valid e long done = elim (Option-cases (lookup id s.index)) [
  | inl f ↦ cc (get_slice_from s id, f)
  | inr (idx, f) ↦
      let p = put_slice_present s id idx v f in
      let (ei, es) = put_present_done s v idx (rw p at done) in
      let g : get_elem? s.slices idx ≡ some old = rw (get_slice_from s id, f) at e in
      rw p (
        rw es (slices_size-set_eq s.slices idx v old g),
        put_present_size s v idx valid long (rw p at done),
      )
]
