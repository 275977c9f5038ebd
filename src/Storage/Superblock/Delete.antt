-- ===== src/Storage/Superblock/Delete.antt =====
-- `delete_slots` frees exactly the slots of the application.
use wrb.Common.{
  ℕ, ◌≡◌, refl, sym, ap, ◌∙◌, arith, false, none, some, List, [], ◌∷◌, map, ◌==◌, if◌then◌else◌,
  Bool-cases, inl, inr, ==_iff,
}
use wrb.Common.Order.{text_ord, text_beq}
use wrb.Common.Map.{lookup, lookup-remove, IsSorted}
use wrb.Storage.Superblock.{
  WrbpodSlot, WrbpodAppState, WrbpodSuperblock, filled, free, slot_id, as_free, contains, free_slot,
  free_slots, delete_slots,
}

-- No ID occurs twice.
abbrev pub Distinct : List ℕ → Type 0
Distinct [] = Unit {0}
Distinct (x ∷ xs) = (contains x xs ≡ false) × Distinct xs

-- A slot, freed if its ID is one of `xs`.
abbrev pub freed : List ℕ → WrbpodSlot → WrbpodSlot
freed xs s = if contains (slot_id s) xs then as_free s else s

pub slot_id-freed : (xs : List ℕ) (s : WrbpodSlot) → slot_id (freed xs s) ≡ slot_id s
slot_id-freed xs s = elim (Bool-cases (contains (slot_id s) xs)) [ inl e ↦ rw e | inr e ↦ rw e ]

freed-freed :
    (x : ℕ) (xs : List ℕ) (s : WrbpodSlot) → freed xs (freed (x ∷ []) s) ≡ freed (x ∷ xs) s
freed-freed x xs (filled y) = ground arith
freed-freed x xs (free y) = ground arith

freed_other :
    (x : ℕ) (slots : List WrbpodSlot)
    → contains x (map slot_id slots) ≡ false
    → map (freed (x ∷ [])) slots ≡ slots
freed_other x [] h = refl
freed_other x (s ∷ slots) h = ground (arith, freed_other x slots)

free_slot-map :
    (x : ℕ) (slots : List WrbpodSlot)
    → Distinct (map slot_id slots)
    → free_slot x slots ≡ map (freed (x ∷ [])) slots
unfolding free_slot
free_slot-map x [] d = refl
free_slot-map x (s ∷ slots) (new, d) = elim (Bool-cases (slot_id s == x)) [
  | inl e ↦
      rw e (ap (as_free s ∷◌) (sym (freed_other x slots (rw ((==_iff (slot_id s) x).0 e) at new))))
  | inr e ↦ rw e (ap (s ∷◌) (free_slot-map x slots d))
]

pub map-slot_id-freed :
    (xs : List ℕ) (slots : List WrbpodSlot) → map slot_id (map (freed xs) slots) ≡ map slot_id slots
map-slot_id-freed xs [] = refl
map-slot_id-freed xs (s ∷ slots) = cc (slot_id-freed xs s, map-slot_id-freed xs slots)

pub map-slot_id-free_slot :
    (x : ℕ) (slots : List WrbpodSlot)
    → Distinct (map slot_id slots)
    → map slot_id (free_slot x slots) ≡ map slot_id slots
map-slot_id-free_slot x slots d = rw (free_slot-map x slots d) (map-slot_id-freed (x ∷ []) slots)

map-freed-freed :
    (x : ℕ) (xs : List ℕ) (slots : List WrbpodSlot)
    → map (freed xs) (map (freed (x ∷ [])) slots) ≡ map (freed (x ∷ xs)) slots
map-freed-freed x xs [] = refl
map-freed-freed x xs (s ∷ slots) = cc (freed-freed x xs s, map-freed-freed x xs slots)

freed_none : (slots : List WrbpodSlot) → map (freed []) slots ≡ slots
freed_none [] = refl
freed_none (s ∷ slots) = ap (s ∷◌) (freed_none slots)

pub free_slots-map :
    (xs : List ℕ) (slots : List WrbpodSlot)
    → Distinct (map slot_id slots)
    → free_slots xs slots ≡ map (freed xs) slots
unfolding free_slots
free_slots-map [] slots d = sym (freed_none slots)
free_slots-map (x ∷ xs) slots d =
    free_slots-map xs (free_slot x slots) (rw (map-slot_id-free_slot x slots d) d)
    ∙ rw (free_slot-map x slots d) (map-freed-freed x xs slots)

-- Deleting an application frees the slots that it held and no other, forgets its state, and keeps
-- the state of every other application.
pub delete_slots_frees :
    (sb : WrbpodSuperblock) (app_name : List ℕ) {app_rec : WrbpodAppState}
    → Distinct (map slot_id sb.slot_ids)
    → IsSorted sb.apps
    → lookup app_name sb.apps ≡ some app_rec
    → ((delete_slots sb app_name).slot_ids ≡ map (freed app_rec.slots) sb.slot_ids)
      × ((name : List ℕ)
          → lookup name (delete_slots sb app_name).apps
            ≡ (if text_beq name app_name then none else lookup name sb.apps))
unfolding delete_slots
delete_slots_frees sb app_name {app_rec} d s e = (
  rw (e, delete_slots) (free_slots-map app_rec.slots sb.slot_ids d),
  λ name. rw (e, delete_slots) (lookup-remove app_name name sb.apps s),
)
