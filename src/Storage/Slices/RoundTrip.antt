-- ===== src/Storage/Slices/RoundTrip.antt =====
-- What `consensus_serialize` writes, `consensus_deserialize` reads back.
use wrb.Common.{
  ℕ, zero, suc, ◌+◌, ◌*◌, ◌^◌, ◌≤◌, ◌<◌, ◌≡◌, refl, sym, ap, ap₂, ◌∙◌, arith, List, [], ◌∷◌, ◌++◌,
  length, length-append, take-append, drop-append, All, false, none, append_assoc, append-nil,
  add_u64, ge→ltb, gt→leb,
}
use wrb.Common.Order.{nat_ord}
use wrb.Common.Map.{
  lookup, insert, IsSorted, Below-of_sorted, insert_last, lookup-Below, All-lookup,
}
use wrb.Common.Bytes.{to_be_bytes, length-to_be_bytes, from_be_bytes-to_be_bytes}
use wrb.Storage.Codec.{MessageCodec, bind_ok, refuse_passes, ok, refuse_if}
use wrb.Storage.Slices.{WrbpodSlices, contains_key}
use wrb.Storage.Slices.Valid.{IsValid, slices_size}
use wrb.Storage.Slices.Wire.{
  serialize, deserialize, write_index, write_slices, read_index, read_slices,
  u128_consensus_serialize, u128_consensus_deserialize,
}
use wrb.Storage.Slices.Encode.{length-serialize}

-- The version is a `u8` and the IDs are `u128`s.
pub record IsRanged (s : WrbpodSlices) : Type 0 where
  pub version : s.version < 2 ^ 8
  pub ids : All (λ (e : ℕ × ℕ). e.0 < 2 ^ 128) s.index

u128_round_trip :
    (x : ℕ) (rest : List ℕ)
    → x < 2 ^ 128
    → u128_consensus_deserialize (u128_consensus_serialize x ++ rest) ≡ ok (x, rest)
unfolding u128_consensus_deserialize
u128_round_trip x rest h =
    let n = length-to_be_bytes 16 x in
    rw (
      ge→ltb (length (to_be_bytes 16 x ++ rest)) 16
          (omega (arith, length-append (to_be_bytes 16 x) rest, n)),
      take-append 16 (to_be_bytes 16 x) rest n,
      drop-append 16 (to_be_bytes 16 x) rest n,
      from_be_bytes-to_be_bytes 16 x h,
    )

contains_key-none : (id : ℕ) (m : List (ℕ × ℕ)) → lookup id m ≡ none → contains_key id m ≡ false
contains_key-none id m e = rw (e, contains_key)

module _ (c : MessageCodec) where
  read_index_step :
      (n count id idx size : ℕ) (acc : List (ℕ × ℕ)) (rest : List ℕ)
      → id < 2 ^ 128
      → idx < count
      → count < 2 ^ 64
      → lookup id acc ≡ none
      → read_index c
          (suc n)
          count
          acc
          size
          (u128_consensus_serialize id ++ (c.write_u64 idx ++ rest))
        ≡ read_index c n count (insert id idx acc) (add_u64 (add_u64 size 16) 8) rest
  unfolding read_index
  read_index_step n count id idx size acc rest hid hidx hc new =
      bind_ok u128_consensus_deserialize _ _ (u128_round_trip id (c.write_u64 idx ++ rest) hid)
      ∙ bind_ok c.read_u64 _ _ (c.read-write_u64 idx rest (omega arith))
      ∙ bind_ok (refuse_if _ _) _ _ (refuse_passes _ _ rest (gt→leb count idx hidx))
      ∙ bind_ok (refuse_if _ _) _ _ (refuse_passes _ _ rest (contains_key-none id acc new))

  read_index-write_index :
      (n count size : ℕ) (acc m : List (ℕ × ℕ)) (rest : List ℕ)
      → n ≡ length m
      → count < 2 ^ 64
      → All (λ (e : ℕ × ℕ). e.0 < 2 ^ 128) m
      → All (λ (e : ℕ × ℕ). e.1 < count) m
      → IsSorted (acc ++ m)
      → size + 24 * length m < 2 ^ 64
      → read_index c n count acc size (write_index c m ++ rest)
        ≡ ok ((acc ++ m, size + 24 * length m), rest)
  unfolding write_index
  read_index-write_index zero count size acc [] rest e hc hi hx s room =
      unfold read_index in rw append-nil (ap (λ k. ok ((acc, k), rest)) (omega arith))
  read_index-write_index zero count size acc (_ ∷ m) rest e hc hi hx s room = absurd (omega arith)
  read_index-write_index (suc n) count size acc [] rest e hc hi hx s room = absurd (omega arith)
  read_index-write_index (suc n) count size acc ((id, idx) ∷ m) rest e hc (hid, hi) (hidx, hx) s
        room =
      let b = Below-of_sorted acc id idx m s in
      let step = add_u64 (add_u64 size 16) 8 in
      let grown : acc ++ ((id, idx) ∷ m) ≡ insert id idx acc ++ m =
        rw (insert_last id idx acc b, append_assoc) in
      rw (append_assoc, append_assoc)
        (read_index_step n count id idx size acc (write_index c m ++ rest) hid hidx hc
            (lookup-Below id acc b)
          ∙ read_index-write_index n count step (insert id idx acc) m rest (omega arith) hc hi hx
              (rw grown at s) (omega arith)
          ∙ ap₂ (λ l k. ok ((l, k), rest)) (sym grown) (omega arith))

  read_slices-write_slices :
      (n size : ℕ) (acc xs : List (List ℕ)) (rest : List ℕ)
      → n ≡ length xs
      → slices_size xs ≤ c.max_len
      → size + slices_size xs < 2 ^ 64
      → read_slices c n acc size (write_slices c xs ++ rest)
        ≡ ok ((acc ++ xs, size + slices_size xs), rest)
  unfolding write_slices
  read_slices-write_slices zero size acc [] rest e hm room =
      unfold read_slices in rw append-nil (ap (λ k. ok ((acc, k), rest)) (omega arith))
  read_slices-write_slices zero size acc (_ ∷ xs) rest e hm room = absurd (omega arith)
  read_slices-write_slices (suc n) size acc [] rest e hm room = absurd (omega arith)
  read_slices-write_slices (suc n) size acc (v ∷ xs) rest e hm room = rw append_assoc (
      read_slice v (omega arith)
      ∙ read_slices-write_slices n (add_u64 size (add_u64 4 (length v))) (acc ++ (v ∷ [])) xs rest
          (omega arith) (omega arith) (omega arith)
      ∙ ap₂ (λ l k. ok ((l, k), rest)) (append_assoc acc (v ∷ []) xs) (omega arith))
    where
      more : List ℕ
      more = write_slices c xs ++ rest

      read_slice :
          (v : List ℕ)
          → length v ≤ c.max_len
          → read_slices c (suc n) acc size (c.write_bytes v ++ more)
            ≡ read_slices c n (acc ++ (v ∷ [])) (add_u64 size (add_u64 4 (length v))) more
      read_slice v h = unfold read_slices in bind_ok c.read_bytes _ _ (c.read-write_bytes v more h)

  -- A well-formed chunk that is written and read back, whatever bytes follow it, is the same chunk:
  -- saved, with its size counted anew, and with nothing of what follows taken.
  pub deserialize-serialize :
      (s : WrbpodSlices) (rest : List ℕ)
      → IsValid s
      → IsRanged s
      → s.max_size ≤ c.max_len
      → deserialize c s.max_size (serialize c s ++ rest)
        ≡ ok (record s { dirty = false; encoded_size = length (serialize c s) }, rest)
  unfolding deserialize serialize
  deserialize-serialize s rest valid ranged hm =
      rw (append_assoc, append_assoc, append_assoc)
        (bind_ok c.read_u8 _ _ (c.read-write_u8 s.version _ ranged.version)
          ∙ bind_ok c.read_u64 _ _ (c.read-write_u64 n _ (omega arith))
          ∙ bind_ok (read_index c n n [] 9) _ _ (
              read_index-write_index n n 9 [] s.index _ refl (omega arith) ranged.ids entries
                valid.sorted (omega arith))
          ∙ bind_ok (read_slices c n [] (9 + 24 * n)) _ _ (
              read_slices-write_slices n (9 + 24 * n) [] s.slices rest valid.counted (omega arith)
                (omega arith))
          ∙ ap (λ k. ok (record s { dirty = false; encoded_size = k }, rest))
              (sym (length-serialize c s)))
    where
      n : ℕ
      n = length s.index

      entries : All (λ (e : ℕ × ℕ). e.1 < n) s.index
      entries =
          All-lookup (λ idx. idx < n) s.index valid.sorted
            (λ id idx e. omega (arith, valid.in_range id idx e, valid.counted))
