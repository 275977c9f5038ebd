-- ===== src/Storage/Superblock/Owned.antt =====
-- The invariant of a superblock: a slot is filled exactly if one application holds it.
use wrb.Common.{
  ℕ, zero, suc, ◌+◌, ◌≤◌, ◌≡◌, refl, ap, arith, false, Option, none, some, List, [], ◌∷◌, ◌++◌, map,
  ◌==◌, if◌then◌else◌, Bool-cases, inl, inr, length, take, List-cases,
}
use wrb.Common.Order.{text_ord, text_beq}
use wrb.Common.Map.{lookup, insert, remove, IsSorted, lookup-Above, Above-trans}
use wrb.Storage.Superblock.{
  WrbpodSlot, WrbpodAppState, WrbpodSuperblock, filled, free, slot_id, contains, free_slot,
  free_slots, give_slots, new,
}
use wrb.Storage.Superblock.FreeList.{free_ids, fill_first, free_ids-fill_first}
use wrb.Storage.Superblock.Allocate.{fill_n}
use wrb.Storage.Superblock.Delete.{Distinct, map-slot_id-free_slot}

-- How often `x` occurs.
abbrev pub count : ℕ → List ℕ → ℕ
count x [] = 0
count x (y ∷ ys) = let n = count x ys in if x == y then suc n else n

-- How often the applications hold slot `x`.
abbrev pub owned : ℕ → List (List ℕ × WrbpodAppState) → ℕ
owned x [] = 0
owned x ((_, app) ∷ apps) = count x app.slots + owned x apps

-- How many filled slots have the ID `x`.
abbrev pub filled_count : ℕ → List WrbpodSlot → ℕ
filled_count x [] = 0
filled_count x (filled y ∷ slots) = let n = filled_count x slots in if x == y then suc n else n
filled_count x (free _ ∷ slots) = filled_count x slots

pub record IsValid (sb : WrbpodSuperblock) : Type 0 where
  pub sorted : IsSorted sb.apps
  pub distinct : Distinct (map slot_id sb.slot_ids)
  pub balanced : (x : ℕ) → owned x sb.apps ≡ filled_count x sb.slot_ids

count-append : (x : ℕ) (xs ys : List ℕ) → count x (xs ++ ys) ≡ count x xs + count x ys
count-append x [] ys = omega arith
count-append x (y ∷ xs) ys = ground (arith, count-append x xs ys)

abbrev held : ℕ → Option WrbpodAppState → ℕ
held x none = 0
held x (some app) = count x app.slots

count_given :
    (x : ℕ) (o : Option WrbpodAppState) (h slots : List ℕ)
    → count x (give_slots o h slots).slots ≡ count x slots + held x o
count_given x none h slots = omega arith
count_given x (some app) h slots = omega (arith, count-append x app.slots slots)

owned-insert_any :
    (x : ℕ) (name : List ℕ) (v : WrbpodAppState) (apps : List (List ℕ × WrbpodAppState))
    → IsSorted apps
    → owned x (insert name v apps) + held x (lookup name apps) ≡ owned x apps + count x v.slots
unfolding lookup insert
owned-insert_any x name v [] s = omega arith
owned-insert_any x name v ((j, app) ∷ apps) (a, s) = elim (Bool-cases (text_beq name j)) [
  | inl e ↦ rw e (omega arith)
  | inr e ↦ elim (Bool-cases (text_ord.blt name j)) [
    | inl l ↦ rw (e, l, lookup-Above name apps (Above-trans name j apps l a)) (omega arith)
    | inr l ↦ rw (e, l) (omega (arith, owned-insert_any x name v apps s))
  ]
]

pub owned-insert :
    (x : ℕ) (name h slots : List ℕ) (apps : List (List ℕ × WrbpodAppState))
    → IsSorted apps
    → owned x (insert name (give_slots (lookup name apps) h slots) apps)
      ≡ owned x apps + count x slots
owned-insert x name h slots apps s = omega (
  arith,
  owned-insert_any x name (give_slots (lookup name apps) h slots) apps s,
  count_given x (lookup name apps) h slots,
)

pub owned-remove :
    (x : ℕ) (name : List ℕ) (apps : List (List ℕ × WrbpodAppState)) {app : WrbpodAppState}
    → lookup name apps ≡ some app
    → owned x (remove name apps) + count x app.slots ≡ owned x apps
unfolding lookup remove
owned-remove x name [] e = cc
owned-remove x name ((j, a) ∷ apps) e = elim (Bool-cases (text_beq name j)) [
  | inl p ↦ rw p (ground arith)
  | inr p ↦ rw p (omega (arith, owned-remove x name apps (rw p at e)))
]

filled_count-fill_first :
    (x y : ℕ) (ys : List ℕ) (slots : List WrbpodSlot)
    → free_ids slots ≡ y ∷ ys
    → filled_count x (fill_first slots) ≡ filled_count x slots + count x (y ∷ [])
filled_count-fill_first x y ys [] e = cc
filled_count-fill_first x y ys (filled z ∷ slots) e =
    ground (arith, filled_count-fill_first x y ys slots e)
filled_count-fill_first x y ys (free z ∷ slots) e = ground arith

pub filled_count-fill_n :
    (x n : ℕ) (slots : List WrbpodSlot)
    → n ≤ length (free_ids slots)
    → filled_count x (fill_n n slots) ≡ filled_count x slots + count x (take n (free_ids slots))
unfolding fill_n
filled_count-fill_n x zero slots h = omega arith
filled_count-fill_n x (suc n) slots h = elim (List-cases (free_ids slots)) [
  | inl e ↦ absurd (omega (arith, ap length e))
  | inr (y, ys, e) ↦
      let step = free_ids-fill_first slots e in
      rw e (
        ground (
          arith,
          filled_count-fill_n x n (fill_first slots) (omega (arith, ap length e, ap length step)),
          filled_count-fill_first x y ys slots e,
          ap (λ l. count x (take n l)) step,
        ))
]

-- Freeing a filled slot.
pub filled_none :
    (x : ℕ) (slots : List WrbpodSlot)
    → contains x (map slot_id slots) ≡ false
    → filled_count x slots ≡ 0
filled_none x [] h = refl
filled_none x (filled y ∷ slots) h = ground (arith, filled_none x slots)
filled_none x (free y ∷ slots) h = ground (arith, filled_none x slots)

filled_count-free_slot :
    (x y : ℕ) (slots : List WrbpodSlot)
    → Distinct (map slot_id slots)
    → 1 ≤ filled_count y slots
    → filled_count x (free_slot y slots) + count x (y ∷ []) ≡ filled_count x slots
unfolding free_slot
filled_count-free_slot x y [] d h = absurd (omega arith)
filled_count-free_slot x y (filled z ∷ slots) (new, d) h =
    ground (arith, filled_count-free_slot x y slots d)
filled_count-free_slot x y (free z ∷ slots) (new, d) h =
    ground (arith, filled_count-free_slot x y slots d, filled_none z slots)

pub filled_count-free_slots :
    (xs : List ℕ) (slots : List WrbpodSlot)
    → Distinct (map slot_id slots)
    → ((x : ℕ) → count x xs ≤ filled_count x slots)
    → (x : ℕ) → filled_count x (free_slots xs slots) + count x xs ≡ filled_count x slots
unfolding free_slots
filled_count-free_slots [] slots d h x = omega arith
filled_count-free_slots (y ∷ xs) slots d h x = ground (
  arith,
  filled_count-free_slots xs (free_slot y slots) (rw (map-slot_id-free_slot y slots d) d) rest x,
  step x,
)
  where
    one : 1 ≤ filled_count y slots
    one = ground (arith, h y)

    step : (z : ℕ) → filled_count z (free_slot y slots) + count z (y ∷ []) ≡ filled_count z slots
    step z = filled_count-free_slot z y slots d one

    rest : (z : ℕ) → count z xs ≤ filled_count z (free_slot y slots)
    rest z = ground (arith, h z, step z)
