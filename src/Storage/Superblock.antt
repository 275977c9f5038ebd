-- ===== src/Storage/Superblock.antt =====
-- `WrbpodSuperblock`, `WrbpodAppState` and `WrbpodSlot` (src/storage/mod.rs and
-- src/storage/wrbpod.rs): which application holds which slots. The proofs are in the modules below.
pub mod FreeList
pub mod Allocate
pub mod RollBack
pub mod Delete
pub mod Owned
pub mod Exclusive
pub mod Reached
pub mod Wire
pub mod RoundTrip
mod Runs
use mathlib.Core.Option
use wrb.Common.{
  ℕ, zero, suc, ◌+◌, ◌^◌, Bool, true, false, Option, none, some, List, [], ◌∷◌, ◌++◌, map, leb,
  ◌==◌, ◌||◌, if◌then◌else◌, length, get_elem?, set,
}
use wrb.Common.Order.{text_ord}
use wrb.Common.Map.{lookup, insert, remove}

-- A StackerDB slot that is allocated to the wrbpod.
pub data WrbpodSlot : Type 0 where
  filled : ℕ → WrbpodSlot
  free : ℕ → WrbpodSlot

abbrev pub slot_id : WrbpodSlot → ℕ
slot_id (filled x) = x
slot_id (free x) = x

abbrev pub is_free : WrbpodSlot → Bool
is_free (filled _) = false
is_free (free _) = true

abbrev pub as_filled : WrbpodSlot → WrbpodSlot
as_filled s = filled (slot_id s)

abbrev pub as_free : WrbpodSlot → WrbpodSlot
as_free s = free (slot_id s)

-- `code_hash` is a `Hash160` of the crate stacks_common, by its bytes.
pub record WrbpodAppState : Type 0 where
  pub version : ℕ
  pub code_hash : List ℕ
  pub slots : List ℕ

-- An application's name is a `String`, by its bytes.
pub record WrbpodSuperblock : Type 0 where
  pub version : ℕ
  pub slot_ids : List WrbpodSlot
  pub apps : List (List ℕ × WrbpodAppState)

abbrev pub wrbpod_superblock_version : ℕ
wrbpod_superblock_version = 0

abbrev pub wrbpod_app_state_version : ℕ
wrbpod_app_state_version = 0

abbrev pub empty : WrbpodSuperblock
empty = record { version = wrbpod_superblock_version; slot_ids = []; apps = [] }

abbrev pub new : List ℕ → WrbpodSuperblock
new slot_ids = record {
  version = wrbpod_superblock_version;
  slot_ids = map free slot_ids;
  apps = [];
}

-- A `HashSet<u32>`: what was inserted into it.
abbrev pub contains : ℕ → List ℕ → Bool
contains i [] = false
contains i (j ∷ used) = (i == j) || contains i used

-- `for i in 0..self.slot_ids.len()`, at `i`, with the slots from there on. The result is the index,
-- the slot's ID and the slots with that one filled.
unfoldable pub fill_loop : ℕ → List WrbpodSlot → List ℕ → Option (ℕ × ℕ × List WrbpodSlot)
fill_loop i [] used = none
fill_loop i (slot ∷ rest) used =
    let next = Option.map (λ (j, x, slots). (j, x, slot ∷ slots)) (fill_loop (suc i) rest used) in
    if leb (2 ^ 32) i
    then none
    else (if contains i used
        then next
        else (if is_free slot then some (i, slot_id slot, as_filled slot ∷ rest) else next))

-- Find a free slot and fill it: the slot's ID, the slots, and the used indexes. `None` changes
-- nothing.
unfoldable pub fill_free_slot : List WrbpodSlot → List ℕ → Option (ℕ × List WrbpodSlot × List ℕ)
unfolding fill_loop
fill_free_slot slot_ids used =
    Option.map (λ (i, x, slots). (x, slots, i ∷ used)) (fill_loop 0 slot_ids used)

-- The state of the loop of `allocate_slots`, and whether it ran to its end.
pub record Allocation : Type 0 where
  pub slot_ids : List WrbpodSlot
  pub slots_set : List ℕ
  pub slots : List ℕ
  pub enough : Bool

unfoldable pub allocate_loop : ℕ → List WrbpodSlot → List ℕ → List ℕ → Allocation
allocate_loop zero slot_ids used slots = record {
  slot_ids = slot_ids;
  slots_set = used;
  slots = slots;
  enough = true;
}
allocate_loop (suc n) slot_ids used slots = elim (fill_free_slot slot_ids used) [
  | none ↦ record { slot_ids = slot_ids; slots_set = used; slots = slots; enough = false }
  | some (x, slot_ids', used') ↦ allocate_loop n slot_ids' used' (slots ++ (x ∷ []))
]

-- `self.slot_ids[i] = self.slot_ids[i].as_free()` for each index of the set.
abbrev pub free_at : List WrbpodSlot → ℕ → List WrbpodSlot
free_at [] i = []
free_at (s ∷ slots) zero = as_free s ∷ slots
free_at (s ∷ slots) (suc i) = s ∷ free_at slots i

unfoldable pub roll_back : List ℕ → List WrbpodSlot → List WrbpodSlot
roll_back [] slots = slots
roll_back (i ∷ order) slots = roll_back order (free_at slots i)

-- The application's state with the new slots, or a new state for it.
abbrev pub give_slots : Option WrbpodAppState → List ℕ → List ℕ → WrbpodAppState
give_slots none code_hash slots = record {
  version = wrbpod_app_state_version;
  code_hash = code_hash;
  slots = slots;
}
give_slots (some app_state) code_hash slots = record app_state { slots = app_state.slots ++ slots }

-- Allocate more slots to an application. `order` is the order in which a `HashSet` is iterated,
-- which its library leaves open.
unfoldable pub allocate_slots :
    (List ℕ → List ℕ) → WrbpodSuperblock → List ℕ → List ℕ → ℕ → WrbpodSuperblock × Bool
unfolding allocate_loop roll_back fill_free_slot
allocate_slots order sb app_name code_hash num_slots =
    let a = allocate_loop num_slots sb.slot_ids [] [] in
    if a.enough
    then (
      record sb {
        slot_ids = a.slot_ids;
        apps = insert app_name (give_slots (lookup app_name sb.apps) code_hash a.slots) sb.apps;
      },
      true,
    )
    else (record sb { slot_ids = roll_back (order a.slots_set) a.slot_ids }, false)

-- Free the first slot of this ID.
unfoldable pub free_slot : ℕ → List WrbpodSlot → List WrbpodSlot
free_slot x [] = []
free_slot x (s ∷ slots) = if slot_id s == x then as_free s ∷ slots else s ∷ free_slot x slots

unfoldable pub free_slots : List ℕ → List WrbpodSlot → List WrbpodSlot
unfolding free_slot
free_slots [] slots = slots
free_slots (x ∷ xs) slots = free_slots xs (free_slot x slots)

-- Free up an application's slots, and drop its state.
unfoldable pub delete_slots : WrbpodSuperblock → List ℕ → WrbpodSuperblock
unfolding free_slots
delete_slots sb app_name = elim (lookup app_name sb.apps) [
  | none ↦ sb
  | some app_rec ↦ record sb {
    slot_ids = free_slots app_rec.slots sb.slot_ids;
    apps = remove app_name sb.apps;
  }
]

abbrev pub app_state : WrbpodSuperblock → List ℕ → Option WrbpodAppState
app_state sb app_name = lookup app_name sb.apps

unfoldable pub num_app_slots : WrbpodSuperblock → List ℕ → ℕ
num_app_slots sb app_name = elim (app_state sb app_name) [
  | none ↦ 0
  | some state ↦ length state.slots
]

-- Convert an application's slot ID to a StackerDB chunk ID.
unfoldable pub app_slot_id_to_stackerdb_chunk_id : WrbpodSuperblock → List ℕ → ℕ → Option ℕ
app_slot_id_to_stackerdb_chunk_id sb app_name app_slot_id = elim (lookup app_name sb.apps) [
  | none ↦ none
  | some state ↦ get_elem? state.slots app_slot_id
]
