-- ===== src/Storage/Superblock/RoundTrip.antt =====
-- What is written of a superblock is read back.
use wrb.Common.{
  ℕ, ◌≤◌, ◌<◌, ◌^◌, ◌≡◌, refl, sym, ap, ◌∙◌, arith, true, not, List, [], ◌∷◌, ◌++◌, length, All,
  append_assoc, append-nil, lt→ltb,
}
use wrb.Common.Order.{text_ord}
use wrb.Common.Map.{insert, IsSorted, Below-of_sorted, insert_last}
use wrb.Storage.Codec.{ok, bind_ok, refuse_passes, refuse_if}
use wrb.Storage.Codec.Vectors.{VecCodec, ReadsBack}
use wrb.Storage.Superblock.{WrbpodSlot, filled, free, slot_id, WrbpodAppState, WrbpodSuperblock}
use wrb.Storage.Superblock.Wire.{
  wrbpod_max_slots, is_ascii, write_slot, read_slot, write_app_state, read_app_state, write_states,
  bns_names, serialize, check_names, read_states, deserialize,
}

is_ascii-All : (text : List ℕ) → All (λ c. c < 0x80) text → is_ascii text ≡ true
is_ascii-All [] h = refl
is_ascii-All (c ∷ text) (l, h) = rw (lt→ltb c 0x80 l) (is_ascii-All text h)

module _ (v : VecCodec) where
  -- The state of an application as its types make it, and of a size that is read back.
  pub record IsAppState (a : WrbpodAppState) : Type 0 where
    pub version : a.version < 2 ^ 8
    pub code_hash : length a.code_hash ≡ 20
    pub slots : All (λ x. x < 2 ^ 32) a.slots
    pub few_slots : length a.slots ≤ v.max_items

  -- A name in ASCII of a length that is read back.
  pub record IsName (name : List ℕ) : Type 0 where
    pub ascii : All (λ c. c < 0x80) name
    pub short : length name ≤ v.base.max_len

  pub record IsWritable (sb : WrbpodSuperblock) : Type 0 where
    pub version : sb.version < 2 ^ 8
    pub slot_ids : All (λ s. slot_id s < 2 ^ 32) sb.slot_ids
    pub at_most : length sb.slot_ids ≤ wrbpod_max_slots
    pub few_slots : length sb.slot_ids ≤ v.max_items
    pub sorted : IsSorted sb.apps
    pub names : All IsName (bns_names v sb.apps)
    pub few_apps : length (bns_names v sb.apps) ≤ v.max_items
    pub states : All (λ (e : List ℕ × WrbpodAppState). IsAppState e.1) sb.apps

  read_slot-write_slot :
      (s : WrbpodSlot) → slot_id s < 2 ^ 32 → ReadsBack WrbpodSlot (write_slot v) (read_slot v) s
  unfolding write_slot read_slot
  read_slot-write_slot (filled x) h rest = rw append_assoc (
      bind_ok v.base.read_u8 _ _ (v.base.read-write_u8 1 _ (omega arith))
      ∙ bind_ok v.base.read_u32 _ _ (v.base.read-write_u32 x rest h))
  read_slot-write_slot (free x) h rest = rw append_assoc (
      bind_ok v.base.read_u8 _ _ (v.base.read-write_u8 0 _ (omega arith))
      ∙ bind_ok v.base.read_u32 _ _ (v.base.read-write_u32 x rest h))

  All-map_rule :
      (A : Type 0) (P Q : A → Type 0) (xs : List A) → ((x : A) → P x → Q x) → All P xs → All Q xs
  All-map_rule A P Q [] f h = tt
  All-map_rule A P Q (x ∷ xs) f (p, h) = (f x p, All-map_rule A P Q xs f h)

  read_app_state-write_app_state :
      (a : WrbpodAppState)
      → IsAppState a
      → ReadsBack WrbpodAppState (write_app_state v) (read_app_state v) a
  unfolding write_app_state read_app_state
  read_app_state-write_app_state a h rest =
      rw (append_assoc, append_assoc)
        (bind_ok v.base.read_u8 _ _ (v.base.read-write_u8 a.version _ h.version)
          ∙ bind_ok v.read_hash160 _ _ (v.read-write_hash160 a.code_hash _ h.code_hash)
          ∙ bind_ok (v.read_vec ℕ v.base.read_u32) _ _ (
              v.read-write_vec ℕ v.base.write_u32 v.base.read_u32 a.slots rest h.few_slots
                (All-map_rule ℕ _ _ a.slots (λ x l more. v.base.read-write_u32 x more l) h.slots)))

  check_names-All :
      (names checked : List (List ℕ)) (rest : List ℕ)
      → All IsName names
      → check_names v names checked rest ≡ ok (checked ++ names, rest)
  unfolding check_names
  check_names-All [] checked rest h =
      ap (λ (l : List (List ℕ)). ok (l, rest)) (sym (append-nil checked))
  check_names-All (name ∷ names) checked rest (n, h) =
      bind_ok (refuse_if _ _) _ _ (refuse_passes _ _ rest (ap not (v.ascii_is_utf8 name n.ascii)))
      ∙ bind_ok (refuse_if _ _) _ _ (refuse_passes _ _ rest (ap not (is_ascii-All name n.ascii)))
      ∙ check_names-All names (checked ++ (name ∷ [])) rest h
      ∙ ap (λ (l : List (List ℕ)). ok (l, rest)) (append_assoc checked (name ∷ []) names)

  read_states-write_states :
      (acc apps : List (List ℕ × WrbpodAppState)) (rest : List ℕ)
      → IsSorted (acc ++ apps)
      → All (λ (e : List ℕ × WrbpodAppState). IsAppState e.1) apps
      → read_states v (bns_names v apps) acc (write_states v apps ++ rest) ≡ ok (acc ++ apps, rest)
  unfolding read_states write_states
  read_states-write_states acc [] rest s h = rw append-nil refl
  read_states-write_states acc ((name, a) ∷ apps) rest s (p, h) =
      let grown : acc ++ ((name, a) ∷ apps) ≡ insert name a acc ++ apps =
        rw (insert_last name a acc (Below-of_sorted acc name a apps s), append_assoc) in
      rw append_assoc (
        bind_ok (read_app_state v) _ _
          (read_app_state-write_app_state a p (write_states v apps ++ rest))
        ∙ read_states-write_states (insert name a acc) apps rest (rw grown at s) h
        ∙ ap (λ (l : List (List ℕ × WrbpodAppState)). ok (l, rest)) (sym grown))

  -- A superblock within the limits of the codec that is written and read back, whatever bytes
  -- follow it, is the same superblock.
  pub superblock_round_trip :
      (sb : WrbpodSuperblock) (rest : List ℕ)
      → IsWritable sb
      → deserialize v (serialize v sb ++ rest) ≡ ok (sb, rest)
  unfolding deserialize serialize
  superblock_round_trip sb rest h =
      rw (append_assoc, append_assoc, append_assoc)
        (bind_ok v.base.read_u8 _ _ (v.base.read-write_u8 sb.version _ h.version)
          ∙ bind_ok (v.read_vec_at_most WrbpodSlot wrbpod_max_slots (read_slot v)) _ _ (
              v.read-write_vec_at_most WrbpodSlot wrbpod_max_slots (write_slot v) (read_slot v)
                sb.slot_ids _ h.at_most h.few_slots
                (All-map_rule WrbpodSlot _ _ sb.slot_ids read_slot-write_slot h.slot_ids))
          ∙ bind_ok (v.read_vec (List ℕ) v.base.read_bytes) _ _ (
              v.read-write_vec (List ℕ) v.base.write_bytes v.base.read_bytes (bns_names v sb.apps) _
                h.few_apps
                (All-map_rule (List ℕ) _ _ (bns_names v sb.apps)
                  (λ name n more. v.base.read-write_bytes name more n.short) h.names))
          ∙ bind_ok (check_names v (bns_names v sb.apps) []) _ _
              (check_names-All (bns_names v sb.apps) [] _ h.names)
          ∙ bind_ok (read_states v (bns_names v sb.apps) []) _ _
              (read_states-write_states [] sb.apps rest h.sorted h.states))
