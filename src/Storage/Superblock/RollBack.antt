-- ===== src/Storage/Superblock/RollBack.antt =====
-- An allocation that runs out of free slots gives back what it took.
use mathlib.Core.Option
use wrb.Common.{
  take, drop, map, ◌++◌, ℕ, zero, suc, ◌+◌, ◌^◌, ◌≤◌, ◌<◌, ◌≡◌, refl, sym, ap, ◌∙◌, arith, true,
  false, some, List, [], ◌∷◌, ◌==◌, if◌then◌else◌, length, get_elem?, Bool-cases, inl, inr,
  List-cases, list_ext, ==_iff,
}
use native.Mathlib.Nat.{zero-add}
use wrb.Common.Order.{text_ord, text_beq}
use wrb.Common.Map.{lookup, lookup-insert}
use wrb.Storage.Superblock.{
  WrbpodSlot, filled, free, slot_id, as_filled, as_free, contains, Allocation, allocate_loop,
  free_at, roll_back, WrbpodSuperblock, allocate_slots, give_slots,
}
use wrb.Storage.Superblock.FreeList.{
  free_ids, first_free, fill_first, FreeUnused, fill_free_slot-some, fill_free_slot-none,
  free_ids-fill_first, FreeUnused-nil,
}
use wrb.Storage.Superblock.Allocate.{
  FreeUnused-step, length-fill_first, allocate_loop_enough, free_ids-fill_n, map-slot_id-fill_n,
}

get_elem?-free_at :
    (slots : List WrbpodSlot) (i k : ℕ)
    → get_elem? (free_at slots i) k
      ≡ (if k == i then Option.map as_free (get_elem? slots k) else get_elem? slots k)
get_elem?-free_at [] i k = ground arith
get_elem?-free_at (s ∷ slots) zero zero = ground arith
get_elem?-free_at (s ∷ slots) zero (suc k) = ground arith
get_elem?-free_at (s ∷ slots) (suc i) zero = ground arith
get_elem?-free_at (s ∷ slots) (suc i) (suc k) = get_elem?-free_at slots i k ∙ ground arith

get_elem?-roll_back :
    (order : List ℕ) (slots : List WrbpodSlot) (k : ℕ)
    → get_elem? (roll_back order slots) k
      ≡ (if contains k order then Option.map as_free (get_elem? slots k) else get_elem? slots k)
unfolding roll_back
get_elem?-roll_back [] slots k = refl
get_elem?-roll_back (i ∷ order) slots k =
    get_elem?-roll_back order (free_at slots i) k ∙ ground (arith, get_elem?-free_at slots i k)

get_elem?-fill_first :
    (slots : List WrbpodSlot) (k : ℕ)
    → get_elem? (fill_first slots) k ≡ (
        if k == first_free slots
        then Option.map as_filled (get_elem? slots k)
        else get_elem? slots k)
get_elem?-fill_first [] k = ground arith
get_elem?-fill_first (filled x ∷ slots) zero = ground arith
get_elem?-fill_first (filled x ∷ slots) (suc k) = get_elem?-fill_first slots k ∙ ground arith
get_elem?-fill_first (free x ∷ slots) zero = ground arith
get_elem?-fill_first (free x ∷ slots) (suc k) = ground arith

get_elem?-first_free :
    (slots : List WrbpodSlot) {x : ℕ} {xs : List ℕ}
    → free_ids slots ≡ x ∷ xs
    → get_elem? slots (first_free slots) ≡ some (free x)
get_elem?-first_free [] e = cc
get_elem?-first_free (filled y ∷ slots) e = get_elem?-first_free slots e
get_elem?-first_free (free y ∷ slots) e = ground arith

first_free_unused :
    (i : ℕ) (slots : List WrbpodSlot) (used : List ℕ) {x : ℕ} {xs : List ℕ}
    → free_ids slots ≡ x ∷ xs
    → FreeUnused i slots used
    → contains (i + first_free slots) used ≡ false
first_free_unused i [] used e u = cc
first_free_unused i (filled y ∷ slots) used e (u, more) =
    ap (λ k. contains k used) (omega arith) ∙ first_free_unused (suc i) slots used e more
first_free_unused i (free y ∷ slots) used e (u, more) =
    ap (λ k. contains k used) (omega arith) ∙ u refl

-- Freeing the used slots of `slots` gives back `slots₀`.
abbrev Undoes : List WrbpodSlot → List WrbpodSlot → List ℕ → Type 0
Undoes slots₀ slots used =
    (k : ℕ)
    → get_elem? slots₀ k
      ≡ (if contains k used then Option.map as_free (get_elem? slots k) else get_elem? slots k)

Undoes-step :
    (slots₀ slots : List WrbpodSlot) (used : List ℕ) {x : ℕ} {xs : List ℕ}
    → free_ids slots ≡ x ∷ xs
    → FreeUnused 0 slots used
    → Undoes slots₀ slots used
    → Undoes slots₀ (fill_first slots) (first_free slots ∷ used)
Undoes-step slots₀ slots used e u undo k = elim (Bool-cases (k == first_free slots)) [
  | inl same ↦
      let here = (==_iff k (first_free slots)).0 same in
      let unused =
        ap (λ j. contains j used) (sym (zero-add (first_free slots)))
        ∙ first_free_unused 0 slots used e u in
      undo k ∙ rw (get_elem?-fill_first slots k, same, here, unused, get_elem?-first_free slots e)
  | inr other ↦ undo k ∙ rw (get_elem?-fill_first slots k, other)
]

-- What is left of the loop where the free slots run out.
allocate_loop_short :
    (slots₀ : List WrbpodSlot) (n : ℕ) (slots : List WrbpodSlot) (used acc : List ℕ)
    → length slots ≤ 2 ^ 32
    → FreeUnused 0 slots used
    → length (free_ids slots) < n
    → Undoes slots₀ slots used
    → ((allocate_loop n slots used acc).enough ≡ false)
      × Undoes slots₀
          (allocate_loop n slots used acc).slot_ids
          (allocate_loop n slots used acc).slots_set
unfolding allocate_loop
allocate_loop_short slots₀ zero slots used acc h u short undo = absurd (omega arith)
allocate_loop_short slots₀ (suc n) slots used acc h u short undo =
    elim (List-cases (free_ids slots)) [
      | inl e ↦ rw (fill_free_slot-none slots used h u e, allocate_loop) (refl, undo)
      | inr (x, xs, e) ↦
          let step = free_ids-fill_first slots e in
          rw (fill_free_slot-some slots used h u e, allocate_loop)
            (allocate_loop_short slots₀ n (fill_first slots) (first_free slots ∷ used)
              (acc ++ (x ∷ [])) (omega (arith, length-fill_first slots))
              (FreeUnused-step slots used u) (omega (arith, ap length e, ap length step))
              (Undoes-step slots₀ slots used e u undo))
    ]

-- The order goes through the members of the set, and through nothing else.
abbrev pub IsIteration : (List ℕ → List ℕ) → Type 0
IsIteration order = (used : List ℕ) (k : ℕ) → contains k (order used) ≡ contains k used

-- An application that asks for more slots than are free gets none, and the superblock is as it was,
-- in whatever order the slots taken so far are given back.
pub allocate_slots_short :
    (order : List ℕ → List ℕ) (sb : WrbpodSuperblock) (app_name code_hash : List ℕ) (n : ℕ)
    → IsIteration order
    → length sb.slot_ids ≤ 2 ^ 32
    → length (free_ids sb.slot_ids) < n
    → allocate_slots order sb app_name code_hash n ≡ (sb, false)
unfolding allocate_slots
allocate_slots_short order sb app_name code_hash n iter h short =
    let (fails, undo) =
      allocate_loop_short sb.slot_ids n sb.slot_ids [] [] h (FreeUnused-nil 0 sb.slot_ids) short
        (λ k. refl) in
    let back = list_ext _ sb.slot_ids (λ k.
      get_elem?-roll_back (order a.slots_set) a.slot_ids k
      ∙ rw (iter a.slots_set k) (sym (undo k))) in
    rw (fails, back)
  where
    a : Allocation
    a = allocate_loop n sb.slot_ids [] []

-- An application that asks for at most as many slots as are free gets the first ones of the free
-- list, behind those that it had. They leave the free list, no slot's ID changes, and the state of
-- every other application stays.
pub allocate_slots_enough :
    (order : List ℕ → List ℕ) (sb : WrbpodSuperblock) (app_name code_hash : List ℕ) (n : ℕ)
    → length sb.slot_ids ≤ 2 ^ 32
    → n ≤ length (free_ids sb.slot_ids)
    → let r = allocate_slots order sb app_name code_hash n in
      (r.1 ≡ true)
      × (free_ids r.0.slot_ids ≡ drop n (free_ids sb.slot_ids))
      × (map slot_id r.0.slot_ids ≡ map slot_id sb.slot_ids)
      × ((name : List ℕ)
          → lookup name r.0.apps ≡ (
              if text_beq name app_name
              then some
                  (give_slots (lookup app_name sb.apps) code_hash (take n (free_ids sb.slot_ids)))
              else lookup name sb.apps))
unfolding allocate_slots
allocate_slots_enough order sb app_name code_hash n h room =
    let (works, slot_ids, slots) =
      allocate_loop_enough n sb.slot_ids [] [] h (FreeUnused-nil 0 sb.slot_ids) room in
    rw works (
      refl,
      ap free_ids slot_ids ∙ free_ids-fill_n n sb.slot_ids room,
      ap (map slot_id) slot_ids ∙ map-slot_id-fill_n n sb.slot_ids,
      λ name. rw slots (lookup-insert app_name name _ sb.apps),
    )
