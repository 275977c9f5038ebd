-- ===== src/Storage/Superblock/FreeList.antt =====
-- The free list of a superblock, and that `fill_free_slot` takes its first slot.
use mathlib.Core.Option
use wrb.Common.{
  ℕ, suc, ◌+◌, ◌^◌, ◌≤◌, ◌<◌, ◌≡◌, refl, ap, ◌∙◌, arith, Bool, true, false, Option, none, some,
  List, [], ◌∷◌, map, if◌then◌else◌, length, gt→leb,
}
use native.Mathlib.Nat.{zero-add}
use wrb.Storage.Superblock.{
  WrbpodSlot, filled, free, slot_id, is_free, contains, fill_loop, fill_free_slot,
}

-- The IDs of the free slots, in order.
abbrev pub free_ids : List WrbpodSlot → List ℕ
free_ids [] = []
free_ids (filled _ ∷ slots) = free_ids slots
free_ids (free x ∷ slots) = x ∷ free_ids slots

-- The index of the first free slot, and the slots with that one filled.
abbrev pub first_free : List WrbpodSlot → ℕ
first_free [] = 0
first_free (filled _ ∷ slots) = suc (first_free slots)
first_free (free _ ∷ slots) = 0

abbrev pub fill_first : List WrbpodSlot → List WrbpodSlot
fill_first [] = []
fill_first (filled x ∷ slots) = filled x ∷ fill_first slots
fill_first (free x ∷ slots) = filled x ∷ slots

-- No free slot is marked as used, where the first of `slots` has index `i`.
abbrev pub FreeUnused : ℕ → List WrbpodSlot → List ℕ → Type 0
FreeUnused i [] used = Unit {0}
FreeUnused i (slot ∷ slots) used =
    (is_free slot ≡ true → contains i used ≡ false) × FreeUnused (suc i) slots used

abbrev first_from : List ℕ → ℕ → List WrbpodSlot → Option (ℕ × ℕ × List WrbpodSlot)
first_from [] k slots = none
first_from (x ∷ _) k slots = some (k, x, slots)

map-first_from :
    (xs : List ℕ) (k : ℕ) (slot : WrbpodSlot) (slots : List WrbpodSlot)
    → Option.map {B = ℕ × ℕ × List WrbpodSlot}
        (λ (j, x, l). (j, x, slot ∷ l))
        (first_from xs k slots)
      ≡ first_from xs k (slot ∷ slots)
map-first_from [] k slot slots = refl
map-first_from (x ∷ _) k slot slots = refl

if_same {ℓ} : {A : Type ℓ} (b : Bool) (x : A) → (if b then x else x) ≡ x
if_same true x = refl
if_same false x = refl

fill_loop-first :
    (i : ℕ) (slots : List WrbpodSlot) (used : List ℕ)
    → i + length slots ≤ 2 ^ 32
    → FreeUnused i slots used
    → fill_loop i slots used ≡ first_from (free_ids slots) (i + first_free slots) (fill_first slots)
unfolding fill_loop
fill_loop-first i [] used h u = refl
fill_loop-first i (free x ∷ slots) used h (u, more) =
    rw (gt→leb (2 ^ 32) i (omega arith), u refl)
      (ap (λ k. some (k, x, filled x ∷ slots)) (omega arith))
fill_loop-first i (filled x ∷ slots) used h (u, more) =
    rw (gt→leb (2 ^ 32) i (omega arith), fill_loop-first (suc i) slots used (omega arith) more)
      (if_same (contains i used) _
        ∙ map-first_from (free_ids slots) (suc i + first_free slots) (filled x) (fill_first slots)
        ∙ ap (λ k. first_from (free_ids slots) k (filled x ∷ fill_first slots)) (omega arith))

-- While no free slot is marked as used, `fill_free_slot` fills the first free slot.
pub fill_free_slot-some :
    (slots : List WrbpodSlot) (used : List ℕ) {x : ℕ} {xs : List ℕ}
    → length slots ≤ 2 ^ 32
    → FreeUnused 0 slots used
    → free_ids slots ≡ x ∷ xs
    → fill_free_slot slots used ≡ some (x, fill_first slots, first_free slots ∷ used)
unfolding fill_free_slot
fill_free_slot-some slots used {x} h u e =
    rw (fill_loop-first 0 slots used (omega arith) u, e) (shift (first_free slots))
  where
    shift :
        (k : ℕ)
        → ◌≡◌ {A = Option (ℕ × List WrbpodSlot × List ℕ)}
            (some (x, fill_first slots, (0 + k) ∷ used))
            (some (x, fill_first slots, k ∷ used))
    shift k = cc (zero-add k)

pub fill_free_slot-none :
    (slots : List WrbpodSlot) (used : List ℕ)
    → length slots ≤ 2 ^ 32
    → FreeUnused 0 slots used
    → free_ids slots ≡ []
    → fill_free_slot slots used ≡ none
unfolding fill_free_slot
fill_free_slot-none slots used h u e = rw (fill_loop-first 0 slots used (omega arith) u, e)

pub free_ids-fill_first :
    (slots : List WrbpodSlot) {x : ℕ} {xs : List ℕ}
    → free_ids slots ≡ x ∷ xs
    → free_ids (fill_first slots) ≡ xs
free_ids-fill_first [] e = cc
free_ids-fill_first (filled _ ∷ slots) e = free_ids-fill_first slots e
free_ids-fill_first (free _ ∷ slots) e = cc

pub map-slot_id-fill_first :
    (slots : List WrbpodSlot) → map slot_id (fill_first slots) ≡ map slot_id slots
map-slot_id-fill_first [] = refl
map-slot_id-fill_first (filled x ∷ slots) = ap (x ∷◌) (map-slot_id-fill_first slots)
map-slot_id-fill_first (free x ∷ slots) = refl

-- Marking the slot that is filled as used keeps the marks right.
FreeUnused-cons :
    (i k : ℕ) (slots : List WrbpodSlot) (used : List ℕ)
    → k < i
    → FreeUnused i slots used
    → FreeUnused i slots (k ∷ used)
FreeUnused-cons i k [] used h u = tt
FreeUnused-cons i k (s ∷ slots) used h (u, more) =
    (λ f. ground (arith, u f), FreeUnused-cons (suc i) k slots used (omega arith) more)

pub FreeUnused-fill_first :
    (i : ℕ) (slots : List WrbpodSlot) (used : List ℕ)
    → FreeUnused i slots used
    → FreeUnused i (fill_first slots) ((i + first_free slots) ∷ used)
FreeUnused-fill_first i [] used u = tt
FreeUnused-fill_first i (filled x ∷ slots) used (u, more) = (
  λ f. cc,
  rw (suc_shift i (first_free slots)) at (FreeUnused-fill_first (suc i) slots used more),
)
  where
    suc_shift : (a b : ℕ) → suc a + b ≡ a + suc b
    suc_shift a b = omega arith
FreeUnused-fill_first i (free x ∷ slots) used (u, more) =
    (λ f. cc, rw (zero_shift i) (FreeUnused-cons (suc i) i slots used (omega arith) more))
  where
    zero_shift : (a : ℕ) → a + 0 ≡ a
    zero_shift a = omega arith

pub FreeUnused-nil : (i : ℕ) (slots : List WrbpodSlot) → FreeUnused i slots []
FreeUnused-nil i [] = tt
FreeUnused-nil i (s ∷ slots) = (λ f. refl, FreeUnused-nil (suc i) slots)
