-- ===== src/Storage/Superblock/Wire.antt =====
-- The bytes of a superblock: the `StacksMessageCodec` of `WrbpodSlot`, `WrbpodAppState` and
-- `WrbpodSuperblock` (src/storage/mod.rs).
use wrb.Common.{ℕ, Bool, true, List, [], ◌∷◌, ◌++◌, ltb, ◌==◌, ◌&&◌, not, if◌then◌else◌}
use wrb.Common.Order.{text_ord}
use wrb.Common.Map.{insert}
use wrb.Storage.Codec.{
  CodecError, invalid_fill_byte, name_not_utf8, name_not_ascii, Reader, err, ◌>>=◌, ◌>>◌, pure,
  refuse_if,
}
use wrb.Storage.Codec.Vectors.{VecCodec}
use wrb.Storage.Superblock.{WrbpodSlot, filled, free, WrbpodAppState, WrbpodSuperblock}

-- the most slots of a StackerDB
abbrev pub wrbpod_max_slots : ℕ
wrbpod_max_slots = 4096

abbrev pub refuse : (A : Type 0) → CodecError → Reader A
refuse A e bs = err e

-- `str::is_ascii`
abbrev pub is_ascii : List ℕ → Bool
is_ascii [] = true
is_ascii (c ∷ text) = ltb c 0x80 && is_ascii text

module _ (v : VecCodec) where
  open v use {base, write_hash160, read_hash160, write_vec, read_vec, read_vec_at_most, is_utf8}
  open base use {write_u8, write_u32, write_bytes, read_u8, read_u32, read_bytes}

  unfoldable pub write_slot : WrbpodSlot → List ℕ
  write_slot (filled x) = write_u8 1 ++ write_u32 x
  write_slot (free x) = write_u8 0 ++ write_u32 x

  unfoldable pub read_slot : Reader WrbpodSlot
  read_slot = do
    b ← read_u8
    if b == 0
        then (do x ← read_u32; pure (free x))
        else (if b == 1
            then (do x ← read_u32; pure (filled x))
            else refuse WrbpodSlot invalid_fill_byte)

  unfoldable pub write_app_state : WrbpodAppState → List ℕ
  write_app_state a =
      write_u8 a.version ++ (write_hash160 a.code_hash ++ write_vec ℕ write_u32 a.slots)

  unfoldable pub read_app_state : Reader WrbpodAppState
  read_app_state = do
    version ← read_u8
    code_hash ← read_hash160
    slots ← read_vec ℕ read_u32
    pure (record { version = version; code_hash = code_hash; slots = slots })

  unfoldable pub write_states : List (List ℕ × WrbpodAppState) → List ℕ
  unfolding write_app_state
  write_states [] = []
  write_states ((name, a) ∷ apps) = write_app_state a ++ write_states apps

  -- the names, by their bytes
  abbrev pub bns_names : List (List ℕ × WrbpodAppState) → List (List ℕ)
  bns_names [] = []
  bns_names ((name, a) ∷ apps) = name ∷ bns_names apps

  unfoldable pub serialize : WrbpodSuperblock → List ℕ
  unfolding write_slot write_states
  serialize sb =
      write_u8 sb.version
      ++ (write_vec WrbpodSlot write_slot sb.slot_ids
          ++ (write_vec (List ℕ) write_bytes (bns_names sb.apps) ++ write_states sb.apps))

  -- The loop over the names: each is a `str`, and in ASCII.
  unfoldable pub check_names : List (List ℕ) → List (List ℕ) → Reader (List (List ℕ))
  check_names [] checked = pure checked
  check_names (name ∷ names) checked = do
    refuse_if (not (is_utf8 name)) name_not_utf8
    refuse_if (not (is_ascii name)) name_not_ascii
    check_names names (checked ++ (name ∷ []))

  -- The loop that reads a state for each name.
  unfoldable pub read_states :
      List (List ℕ) → List (List ℕ × WrbpodAppState) → Reader (List (List ℕ × WrbpodAppState))
  unfolding read_app_state
  read_states [] apps = pure apps
  read_states (name ∷ names) apps = do a ← read_app_state; read_states names (insert name a apps)

  unfoldable pub deserialize : Reader WrbpodSuperblock
  unfolding read_slot check_names read_states
  deserialize = do
    version ← read_u8
    slot_ids ← read_vec_at_most WrbpodSlot wrbpod_max_slots read_slot
    names_bytes ← read_vec (List ℕ) read_bytes
    names ← check_names names_bytes []
    apps ← read_states names []
    pure (record { version = version; slot_ids = slot_ids; apps = apps })
