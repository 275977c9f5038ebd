-- ===== src/Storage/Superblock/Runs.antt =====
-- The theorems on `WrbpodSuperblock` at concrete superblocks, and tests.
use wrb.Common.{
  replicate, ◌++◌, ℕ, ◌^◌, ◌≤◌, ◌≡◌, refl, ap, arith, none, some, List, [], ◌∷◌, length, true,
  false, if◌then◌else◌, map,
}
use wrb.Common.Order.{text_ord, text_beq}
use wrb.Common.Map.{lookup, insert}
use wrb.Storage.Codec.{ok}
use wrb.Storage.Codec.BigEndianVec.{big_endian_vec, limits-big_endian_vec}
use wrb.Storage.Superblock.Wire.{serialize, deserialize, bns_names}
use wrb.Storage.Superblock.RoundTrip.{IsWritable, superblock_round_trip}
use wrb.Storage.Superblock.{
  WrbpodSuperblock, WrbpodAppState, new, allocate_slots, delete_slots, slot_id, free, filled,
  give_slots,
}
use wrb.Storage.Superblock.FreeList.{free_ids}
use wrb.Storage.Superblock.RollBack.{IsIteration, allocate_slots_short, allocate_slots_enough}
use wrb.Storage.Superblock.Delete.{delete_slots_frees, freed}
use wrb.Storage.Superblock.Owned.{IsValid, owned, filled_count}
use wrb.Storage.Superblock.Reached.{created, allocated, deleted, slots_exclusive}
use wrb.Storage.Superblock.Exclusive.{new-IsValid, allocate_slots-IsValid, delete_slots-IsValid}

-- a set in the order in which it was filled
abbrev same_order : List ℕ → List ℕ
same_order used = used

same_order-IsIteration : IsIteration same_order
same_order-IsIteration used k = refl

abbrev three : WrbpodSuperblock
three = new (10 ∷ 11 ∷ 12 ∷ [])

three-IsValid : IsValid three
three-IsValid = new-IsValid (10 ∷ 11 ∷ 12 ∷ []) (refl, (refl, (refl, tt)))

abbrev chat : List ℕ
chat = 99 ∷ []

abbrev notes : List ℕ
notes = 110 ∷ []

abbrev with_chat : WrbpodSuperblock
with_chat = (allocate_slots same_order three chat (1 ∷ []) 2).0

with_chat_slots : with_chat.slot_ids ≡ filled 10 ∷ filled 11 ∷ free 12 ∷ []
unfolding allocate_slots
with_chat_slots = refl

allocate_slots_short_example : allocate_slots same_order three chat (1 ∷ []) 4 ≡ (three, false)
allocate_slots_short_example =
    allocate_slots_short same_order three chat (1 ∷ []) 4 same_order-IsIteration (omega arith)
      (omega arith)

allocate_slots_enough_example :
    ((allocate_slots same_order three chat (1 ∷ []) 2).1 ≡ true)
    × (free_ids with_chat.slot_ids ≡ 12 ∷ [])
    × (map slot_id with_chat.slot_ids ≡ 10 ∷ 11 ∷ 12 ∷ [])
    × ((name : List ℕ)
        → lookup name with_chat.apps ≡ (
            if text_beq name chat
            then some (give_slots (lookup chat three.apps) (1 ∷ []) (10 ∷ 11 ∷ []))
            else lookup name three.apps))
allocate_slots_enough_example =
    allocate_slots_enough same_order three chat (1 ∷ []) 2 (omega arith) (omega arith)

allocate_slots-IsValid_example : IsValid with_chat
allocate_slots-IsValid_example =
    allocate_slots-IsValid same_order three chat (1 ∷ []) 2 same_order-IsIteration (omega arith)
      three-IsValid

delete_slots-IsValid_example : IsValid (delete_slots with_chat chat)
delete_slots-IsValid_example = delete_slots-IsValid with_chat chat allocate_slots-IsValid_example

abbrev chat_state : WrbpodAppState
chat_state = record { version = 0; code_hash = 1 ∷ []; slots = 10 ∷ 11 ∷ [] }

chat_found : lookup chat with_chat.apps ≡ some chat_state
unfolding allocate_slots lookup insert
chat_found = refl

delete_slots_frees_example :
    ((delete_slots with_chat chat).slot_ids ≡ map (freed (10 ∷ 11 ∷ [])) with_chat.slot_ids)
    × ((name : List ℕ)
        → lookup name (delete_slots with_chat chat).apps
          ≡ (if text_beq name chat then none else lookup name with_chat.apps))
delete_slots_frees_example =
    delete_slots_frees with_chat chat allocate_slots-IsValid_example.distinct
      allocate_slots-IsValid_example.sorted chat_found

abbrev with_both : WrbpodSuperblock
with_both = (allocate_slots same_order with_chat notes (2 ∷ []) 1).0

with_both-IsValid : IsValid with_both
with_both-IsValid =
    allocate_slots-IsValid same_order with_chat notes (2 ∷ []) 1 same_order-IsIteration small
      allocate_slots-IsValid_example
  where
    small : length with_chat.slot_ids ≤ 2 ^ 32
    small = omega (arith, ap length with_chat_slots)

notes_found :
    lookup notes with_both.apps ≡ some (record { version = 0; code_hash = 2 ∷ []; slots = 12 ∷ [] })
unfolding allocate_slots lookup insert
notes_found = refl

chat_kept : lookup chat with_both.apps ≡ some chat_state
unfolding allocate_slots lookup insert
chat_kept = refl

-- "chat" and "notes" allocate, and "chat" is deleted.
slots_exclusive_example :
    (map slot_id (delete_slots with_both chat).slot_ids ≡ 10 ∷ 11 ∷ 12 ∷ [])
    × ((x : ℕ)
        → (owned x (delete_slots with_both chat).apps
            ≡ filled_count x (delete_slots with_both chat).slot_ids)
          × (owned x (delete_slots with_both chat).apps ≤ 1))
slots_exclusive_example =
    slots_exclusive (10 ∷ 11 ∷ 12 ∷ []) (refl, (refl, (refl, tt))) (omega arith)
      (deleted chat (
        allocated same_order notes (2 ∷ []) 1 same_order-IsIteration
          (allocated same_order chat (1 ∷ []) 2 same_order-IsIteration created)))

abbrev hashed_chat : WrbpodSuperblock
hashed_chat = (allocate_slots same_order three chat (replicate 20 1) 2).0

hashed_chat-IsWritable : IsWritable big_endian_vec hashed_chat
unfolding allocate_slots bns_names lookup insert
hashed_chat-IsWritable = record {
  version = omega arith;
  slot_ids = (omega arith, (omega arith, (omega arith, tt)));
  at_most = omega arith;
  few_slots = omega (arith, limits-big_endian_vec.0);
  sorted = (tt, tt);
  names =
      (record { ascii = (omega arith, tt); short = omega (arith, limits-big_endian_vec.1) }, tt);
  few_apps = omega (arith, limits-big_endian_vec.0);
  states = (
    record {
      version = omega arith;
      code_hash = refl;
      slots = (omega arith, (omega arith, tt));
      few_slots = omega (arith, limits-big_endian_vec.0);
    },
    tt,
  );
}

superblock_round_trip_example :
    deserialize big_endian_vec (serialize big_endian_vec hashed_chat ++ (7 ∷ []))
    ≡ ok (hashed_chat, 7 ∷ [])
superblock_round_trip_example =
    superblock_round_trip big_endian_vec hashed_chat (7 ∷ []) hashed_chat-IsWritable
