-- ===== src/Storage/Superblock/Reached.antt =====
-- The superblocks that `allocate_slots` and `delete_slots` (src/storage/wrbpod.rs) lead to.
use wrb.Common.{ℕ, ◌^◌, ◌≤◌, ◌≡◌, ap, ◌∙◌, arith, List, length, map, length-map}
use wrb.Storage.Superblock.{WrbpodSuperblock, slot_id, new, allocate_slots, delete_slots}
use wrb.Storage.Superblock.Delete.{Distinct}
use wrb.Storage.Superblock.Owned.{IsValid, owned, filled_count}
use wrb.Storage.Superblock.RollBack.{IsIteration}
use wrb.Storage.Superblock.Exclusive.{
  new-IsValid, allocate_slots-IsValid, delete_slots-IsValid, filled_count-le-one,
  map-slot_id-allocate_slots, map-slot_id-delete_slots, map-slot_id-fresh,
}

-- A new superblock of these slots, and what allocations, with room or not and each with its own
-- order of the hash set, and deletions make of it.
pub data Reached (slots : List ℕ) : WrbpodSuperblock → Type 0 where
  created : Reached slots (new slots)
  allocated :
      {sb : WrbpodSuperblock} (order : List ℕ → List ℕ) (app_name code_hash : List ℕ) (n : ℕ)
      → IsIteration order
      → Reached slots sb
      → Reached slots (allocate_slots order sb app_name code_hash n).0
  deleted :
      {sb : WrbpodSuperblock} (app_name : List ℕ)
      → Reached slots sb
      → Reached slots (delete_slots sb app_name)

Reached-IsValid :
    (slots : List ℕ) {sb : WrbpodSuperblock}
    → Distinct slots
    → length slots ≤ 2 ^ 32
    → Reached slots sb
    → IsValid sb × (map slot_id sb.slot_ids ≡ slots)
Reached-IsValid slots d few created = (new-IsValid slots d, map-slot_id-fresh slots)
Reached-IsValid slots d few (allocated {sb} order app_name code_hash n iter r) =
    let (valid, ids) = Reached-IsValid slots d few r in
    let small : length sb.slot_ids ≤ 2 ^ 32 =
      omega (arith, few, ap length ids, length-map slot_id sb.slot_ids) in
    (
      allocate_slots-IsValid order sb app_name code_hash n iter small valid,
      map-slot_id-allocate_slots order sb app_name code_hash n iter small ∙ ids,
    )
Reached-IsValid slots d few (deleted {sb} app_name r) =
    let (valid, ids) = Reached-IsValid slots d few r in
    (delete_slots-IsValid sb app_name valid, map-slot_id-delete_slots sb app_name valid ∙ ids)

-- In every superblock that allocations, those without room included, and deletions make of a new
-- one with distinct slots, at most 2 ^ 32 of them, the slots have the IDs of the new one in their
-- order, and each slot is in the lists of all applications together once if it is filled and not at
-- all if it is free: neither two applications nor one hold it twice.
pub slots_exclusive :
    (slots : List ℕ) {sb : WrbpodSuperblock}
    → Distinct slots
    → length slots ≤ 2 ^ 32
    → Reached slots sb
    → (map slot_id sb.slot_ids ≡ slots)
      × ((x : ℕ) → (owned x sb.apps ≡ filled_count x sb.slot_ids) × (owned x sb.apps ≤ 1))
slots_exclusive slots {sb} d few r =
    let (valid, ids) = Reached-IsValid slots d few r in
    (
      ids,
      λ x. (
        valid.balanced x,
        omega (arith, valid.balanced x, filled_count-le-one x sb.slot_ids valid.distinct),
      ),
    )
