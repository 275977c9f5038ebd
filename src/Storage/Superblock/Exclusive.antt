-- ===== src/Storage/Superblock/Exclusive.antt =====
-- Every operation keeps the invariant and the slots' IDs.
use wrb.Common.{
  ℕ, ◌^◌, ◌≤◌, ◌≡◌, refl, sym, ap, ◌∙◌, arith, false, none, some, List, [], ◌∷◌, map, inl, inr,
  length, take, Option-cases,
}
use native.Mathlib.Decide.{dec_le}
use wrb.Common.Order.{text_ord}
use wrb.Common.Map.{lookup, insert, remove, insert-IsSorted, remove-IsSorted}
use wrb.Storage.Superblock.{
  WrbpodSlot, WrbpodAppState, WrbpodSuperblock, filled, free, slot_id, contains, give_slots, new,
  allocate_slots, delete_slots, free_slots,
}
use wrb.Storage.Superblock.FreeList.{free_ids, FreeUnused-nil}
use wrb.Storage.Superblock.Allocate.{fill_n, allocate_loop_enough, map-slot_id-fill_n}
use wrb.Storage.Superblock.RollBack.{IsIteration, allocate_slots_short}
use wrb.Storage.Superblock.Delete.{Distinct, map-slot_id-freed, free_slots-map}
use wrb.Storage.Superblock.Owned.{
  IsValid, owned, count, filled_count, owned-insert, owned-remove, filled_count-fill_n,
  filled_count-free_slots, filled_none,
}

-- What an allocation with enough room returns.
allocate_slots_value :
    (order : List ℕ → List ℕ) (sb : WrbpodSuperblock) (name h : List ℕ) (n : ℕ)
    → length sb.slot_ids ≤ 2 ^ 32
    → n ≤ length (free_ids sb.slot_ids)
    → (allocate_slots order sb name h n).0 ≡ record sb {
      slot_ids = fill_n n sb.slot_ids;
      apps =
          insert name (give_slots (lookup name sb.apps) h (take n (free_ids sb.slot_ids))) sb.apps;
    }
unfolding allocate_slots
allocate_slots_value order sb name h n big room =
    let (works, slot_ids, slots) =
      allocate_loop_enough n sb.slot_ids [] [] big (FreeUnused-nil 0 sb.slot_ids) room in
    rw (works, slot_ids, slots)

-- Allocating slots, whether or not there is room, keeps the IDs distinct and every slot filled
-- exactly if one application holds it.
pub allocate_slots-IsValid :
    (order : List ℕ → List ℕ) (sb : WrbpodSuperblock) (app_name code_hash : List ℕ) (n : ℕ)
    → IsIteration order
    → length sb.slot_ids ≤ 2 ^ 32
    → IsValid sb
    → IsValid (allocate_slots order sb app_name code_hash n).0
allocate_slots-IsValid order sb name h n iter big valid =
    elim (dec_le n (length (free_ids sb.slot_ids))) [
      | yes room ↦ rw (allocate_slots_value order sb name h n big room) (record {
        sorted = insert-IsSorted name _ sb.apps valid.sorted;
        distinct = rw (map-slot_id-fill_n n sb.slot_ids) valid.distinct;
        balanced = λ x. omega (
          arith,
          owned-insert x name h (take n (free_ids sb.slot_ids)) sb.apps valid.sorted,
          filled_count-fill_n x n sb.slot_ids room,
          valid.balanced x,
        );
      })
      | no short ↦
          rw (ap (λ r. r.0) (allocate_slots_short order sb name h n iter big (omega arith))) valid
    ]

count-le-owned :
    (x : ℕ) (name : List ℕ) (apps : List (List ℕ × WrbpodAppState)) {app : WrbpodAppState}
    → lookup name apps ≡ some app
    → count x app.slots ≤ owned x apps
count-le-owned x name apps e = omega (arith, owned-remove x name apps e)

delete_slots_value :
    (sb : WrbpodSuperblock) (name : List ℕ) {app : WrbpodAppState}
    → lookup name sb.apps ≡ some app
    → delete_slots sb name
      ≡ record sb { slot_ids = free_slots app.slots sb.slot_ids; apps = remove name sb.apps }
unfolding delete_slots
delete_slots_value sb name e = rw (e, delete_slots)

delete_slots_unknown :
    (sb : WrbpodSuperblock) (name : List ℕ) → lookup name sb.apps ≡ none → delete_slots sb name ≡ sb
unfolding delete_slots
delete_slots_unknown sb name e = rw (e, delete_slots)

-- Deleting an application, known or not, keeps the invariant.
pub delete_slots-IsValid :
    (sb : WrbpodSuperblock) (app_name : List ℕ) → IsValid sb → IsValid (delete_slots sb app_name)
delete_slots-IsValid sb name valid = elim (Option-cases (lookup name sb.apps)) [
  | inl e ↦ rw (delete_slots_unknown sb name e) valid
  | inr (app, e) ↦ rw (delete_slots_value sb name e) (record {
    sorted = remove-IsSorted name sb.apps valid.sorted;
    distinct =
        rw (free_slots-map app.slots sb.slot_ids valid.distinct, map-slot_id-freed) valid.distinct;
    balanced = λ x. omega (
      arith,
      owned-remove x name sb.apps e,
      filled_count-free_slots app.slots sb.slot_ids valid.distinct (held app e) x,
      valid.balanced x,
    );
  })
]
  where
    held :
        (app : WrbpodAppState)
        → lookup name sb.apps ≡ some app
        → (x : ℕ) → count x app.slots ≤ filled_count x sb.slot_ids
    held app e x = omega (arith, count-le-owned x name sb.apps e, valid.balanced x)

pub filled_count-le-one :
    (x : ℕ) (slots : List WrbpodSlot) → Distinct (map slot_id slots) → filled_count x slots ≤ 1
filled_count-le-one x [] d = omega arith
filled_count-le-one x (filled y ∷ slots) (new, d) =
    ground (arith, filled_count-le-one x slots d, filled_none y slots)
filled_count-le-one x (free y ∷ slots) (new, d) = filled_count-le-one x slots d

-- Allocating and deleting fill and free slots, but keep their IDs.
pub map-slot_id-allocate_slots :
    (order : List ℕ → List ℕ) (sb : WrbpodSuperblock) (app_name code_hash : List ℕ) (n : ℕ)
    → IsIteration order
    → length sb.slot_ids ≤ 2 ^ 32
    → map slot_id (allocate_slots order sb app_name code_hash n).0.slot_ids
      ≡ map slot_id sb.slot_ids
map-slot_id-allocate_slots order sb name h n iter big =
    elim (dec_le n (length (free_ids sb.slot_ids))) [
      | yes room ↦
          rw (allocate_slots_value order sb name h n big room) (map-slot_id-fill_n n sb.slot_ids)
      | no short ↦
          rw (ap (λ r. r.0) (allocate_slots_short order sb name h n iter big (omega arith))) refl
    ]

pub map-slot_id-delete_slots :
    (sb : WrbpodSuperblock) (app_name : List ℕ)
    → IsValid sb
    → map slot_id (delete_slots sb app_name).slot_ids ≡ map slot_id sb.slot_ids
map-slot_id-delete_slots sb name valid = elim (Option-cases (lookup name sb.apps)) [
  | inl e ↦ rw (delete_slots_unknown sb name e) refl
  | inr (app, e) ↦ rw (delete_slots_value sb name e) (
      ap (map slot_id) (free_slots-map app.slots sb.slot_ids valid.distinct)
      ∙ map-slot_id-freed app.slots sb.slot_ids)
]

contains-count : (x : ℕ) (xs : List ℕ) → contains x xs ≡ false → count x xs ≡ 0
contains-count x [] h = refl
contains-count x (y ∷ xs) h = ground (arith, contains-count x xs)

filled_count-fresh : (x : ℕ) (ids : List ℕ) → filled_count x (map free ids) ≡ 0
filled_count-fresh x [] = refl
filled_count-fresh x (y ∷ ids) = filled_count-fresh x ids

pub map-slot_id-fresh : (ids : List ℕ) → map slot_id (map free ids) ≡ ids
map-slot_id-fresh [] = refl
map-slot_id-fresh (x ∷ ids) = ap (x ∷◌) (map-slot_id-fresh ids)

pub new-IsValid : (ids : List ℕ) → Distinct ids → IsValid (new ids)
new-IsValid ids d = record {
  sorted = tt;
  distinct = rw (map-slot_id-fresh ids) d;
  balanced = λ x. sym (filled_count-fresh x ids);
}
