-- ===== src/Storage/Superblock/Allocate.antt =====
-- `allocate_slots` takes slots from the front of the free list, or changes nothing.
use native.Mathlib.Nat.{zero-add}
use wrb.Common.{
  ℕ, zero, suc, ◌^◌, ◌≤◌, ◌≡◌, refl, sym, ap, ◌∙◌, arith, true, List, [], ◌∷◌, ◌++◌, map, length,
  take, drop, append-nil, append_assoc, inl, inr, List-cases,
}
use wrb.Common.Order.{text_ord}
use wrb.Storage.Superblock.{WrbpodSlot, filled, free, slot_id, Allocation, allocate_loop}
use wrb.Storage.Superblock.FreeList.{
  free_ids, first_free, fill_first, FreeUnused, fill_free_slot-some, free_ids-fill_first,
  map-slot_id-fill_first, FreeUnused-fill_first,
}

-- The slots with the first `n` free ones filled.
unfoldable pub fill_n : ℕ → List WrbpodSlot → List WrbpodSlot
fill_n zero slots = slots
fill_n (suc n) slots = fill_n n (fill_first slots)

pub length-fill_first : (slots : List WrbpodSlot) → length (fill_first slots) ≡ length slots
length-fill_first [] = refl
length-fill_first (filled x ∷ slots) = ap suc (length-fill_first slots)
length-fill_first (free x ∷ slots) = refl

pub FreeUnused-step :
    (slots : List WrbpodSlot) (used : List ℕ)
    → FreeUnused 0 slots used
    → FreeUnused 0 (fill_first slots) (first_free slots ∷ used)
FreeUnused-step slots used u = rw zero-add at (FreeUnused-fill_first 0 slots used u)

pub free_ids-fill_n :
    (n : ℕ) (slots : List WrbpodSlot)
    → n ≤ length (free_ids slots)
    → free_ids (fill_n n slots) ≡ drop n (free_ids slots)
unfolding fill_n
free_ids-fill_n zero slots h = refl
free_ids-fill_n (suc n) slots h = elim (List-cases (free_ids slots)) [
  | inl e ↦ absurd (omega (arith, ap length e))
  | inr (x, xs, e) ↦
      let step = free_ids-fill_first slots e in
      rw e (
        free_ids-fill_n n (fill_first slots) (omega (arith, ap length e, ap length step)) ∙ rw step)
]

pub map-slot_id-fill_n :
    (n : ℕ) (slots : List WrbpodSlot) → map slot_id (fill_n n slots) ≡ map slot_id slots
unfolding fill_n
map-slot_id-fill_n zero slots = refl
map-slot_id-fill_n (suc n) slots =
    map-slot_id-fill_n n (fill_first slots) ∙ map-slot_id-fill_first slots

-- The result of the loop where there is enough room.
abbrev pub FilledN : ℕ → List WrbpodSlot → List ℕ → Allocation → Type 0
FilledN n slots acc a =
    (a.enough ≡ true) × (a.slot_ids ≡ fill_n n slots) × (a.slots ≡ acc ++ take n (free_ids slots))

pub allocate_loop_enough :
    (n : ℕ) (slots : List WrbpodSlot) (used acc : List ℕ)
    → length slots ≤ 2 ^ 32
    → FreeUnused 0 slots used
    → n ≤ length (free_ids slots)
    → FilledN n slots acc (allocate_loop n slots used acc)
unfolding allocate_loop fill_n
allocate_loop_enough zero slots used acc h u room = (refl, refl, sym (append-nil acc))
allocate_loop_enough (suc n) slots used acc h u room = elim (List-cases (free_ids slots)) [
  | inl e ↦ absurd (omega (arith, ap length e))
  | inr (x, xs, e) ↦
      let step = free_ids-fill_first slots e in
      let ih =
        allocate_loop_enough n (fill_first slots) (first_free slots ∷ used) (acc ++ (x ∷ []))
          (omega (arith, length-fill_first slots)) (FreeUnused-step slots used u)
          (omega (arith, ap length e, ap length step)) in
      rw (fill_free_slot-some slots used h u e, e, allocate_loop)
        (ih.0, ih.1, ih.2 ∙ rw (step, append_assoc))
]
