-- ===== src/Storage/Slices/Accepts.antt =====
-- What `consensus_deserialize` accepts, on any bytes.
use wrb.Common.{
  length-drop, ℕ, zero, suc, ◌+◌, ◌*◌, ◌^◌, ◌<◌, ◌≡◌, ap, arith, List, [], ◌∷◌, ◌++◌, length,
  length-append, false, some, none, add_u64, leb, leb→gt, inl, inr, Option-cases,
}
use wrb.Common.Order.{nat_ord}
use wrb.Common.Map.{lookup, insert, IsSorted, insert-IsSorted, lookup-insert, length-insert_new}
use wrb.Storage.Codec.{MessageCodec, ok, bind_inv, ok_inj, refuse_inv, refuse_if}
use wrb.Storage.Slices.{WrbpodSlices, contains_key}
use wrb.Storage.Slices.Valid.{slices_size, slices_size-append}
use wrb.Storage.Slices.Encode.{length-serialize}
use wrb.Storage.Slices.Wire.{
  serialize, deserialize, read_index, read_slices, u128_consensus_deserialize,
}

u128_takes :
    (bs : List ℕ) (x : ℕ) (rest : List ℕ)
    → u128_consensus_deserialize bs ≡ ok (x, rest)
    → length bs ≡ 16 + length rest
unfolding u128_consensus_deserialize
u128_takes bs x rest e = ground (arith, length-drop 16 bs)

contains_key-false : (id : ℕ) (m : List (ℕ × ℕ)) → contains_key id m ≡ false → lookup id m ≡ none
contains_key-false id m e = elim (Option-cases (lookup id m)) [
  | inl f ↦ f
  | inr (i, f) ↦ cc (rw (f, contains_key) at e)
]

-- Every index that is found is below the count.
abbrev pub InRange : ℕ → List (ℕ × ℕ) → Type 0
InRange count m = (id idx : ℕ) → lookup id m ≡ some idx → idx < count

InRange-insert :
    (count id idx : ℕ) (m : List (ℕ × ℕ))
    → idx < count
    → InRange count m
    → InRange count (insert id idx m)
InRange-insert count id idx m h r j i e = ground (arith, lookup-insert id j idx m, r j i)

module _ (c : MessageCodec) where
  -- One round of the first loop that succeeds.
  index_round :
      (n count size : ℕ) (acc : List (ℕ × ℕ)) (bs : List ℕ) {r : (List (ℕ × ℕ) × ℕ) × List ℕ}
      → read_index c (suc n) count acc size bs ≡ ok r
      → (id : ℕ) × (idx : ℕ) × (more : List ℕ) × (length bs ≡ 24 + length more)
        × (idx < count)
        × (lookup id acc ≡ none)
        × (read_index c n count (insert id idx acc) (add_u64 (add_u64 size 16) 8) more ≡ ok r)
  unfolding read_index
  index_round n count size acc bs e = bind_inv u128_consensus_deserialize _ bs e λ id bs₁ e₁ f₁.
      bind_inv c.read_u64 _ bs₁ f₁ λ idx bs₂ e₂ f₂.
        bind_inv (refuse_if (leb count idx) _) _ bs₂ f₂ λ _ bs₃ e₃ f₃.
          bind_inv (refuse_if (contains_key id acc) _) _ bs₃ f₃ λ _ bs₄ e₄ f₄.
            let (g₃, h₃) = refuse_inv (leb count idx) _ bs₂ e₃ in
            let (g₄, h₄) = refuse_inv (contains_key id acc) _ bs₃ e₄ in
            (
              id,
              idx,
              bs₄,
              omega (
                arith,
                u128_takes bs id bs₁ e₁,
                c.read_u64_takes bs₁ idx bs₂ e₂,
                ap length h₃,
                ap length h₄,
              ),
              leb→gt count idx g₃,
              contains_key-false id acc g₄,
              f₄,
            )

  read_index_accepts :
      (n count size : ℕ) (acc index : List (ℕ × ℕ)) (size' : ℕ) (bs rest : List ℕ)
      → read_index c n count acc size bs ≡ ok ((index, size'), rest)
      → size + length bs < 2 ^ 64
      → IsSorted acc
      → InRange count acc
      → IsSorted index
        × InRange count index
        × (length index ≡ length acc + n)
        × (size' ≡ size + 24 * n)
        × (length bs ≡ 24 * n + length rest)
  unfolding read_index
  read_index_accepts zero count size acc index size' bs rest e room s r =
      let h = ok_inj e in
      (
        rw (← ap (λ t. t.0.0) h) s,
        rw (← ap (λ t. t.0.0) h) r,
        omega (arith, ap (λ t. length t.0.0) h),
        omega (arith, ap (λ t. t.0.1) h),
        omega (arith, ap (λ t. length t.1) h),
      )
  read_index_accepts (suc n) count size acc index size' bs rest e room s r =
      let (id, idx, more, takes, below, new, e') = index_round n count size acc bs e in
      let (s', r', l', z', t') =
        read_index_accepts n count (add_u64 (add_u64 size 16) 8) (insert id idx acc) index size'
          more rest e' (omega (arith, takes)) (insert-IsSorted id idx acc s)
          (InRange-insert count id idx acc below r) in
      (
        s',
        r',
        omega (arith, l', length-insert_new id idx acc new),
        omega (arith, z', takes),
        omega (arith, t', takes),
      )

  read_slices_accepts :
      (n size : ℕ) (acc slices : List (List ℕ)) (size' : ℕ) (bs rest : List ℕ)
      → read_slices c n acc size bs ≡ ok ((slices, size'), rest)
      → size + length bs < 2 ^ 64
      → (length slices ≡ length acc + n)
        × (size' + slices_size acc ≡ size + slices_size slices)
        × (size' + length rest ≡ size + length bs)
  unfolding read_slices
  read_slices_accepts zero size acc slices size' bs rest e room =
      let h = ok_inj e in
      (
        omega (arith, ap (λ t. length t.0.0) h),
        omega (arith, ap (λ t. slices_size t.0.0) h, ap (λ t. t.0.1) h),
        omega (arith, ap (λ t. t.0.1) h, ap (λ t. length t.1) h),
      )
  read_slices_accepts (suc n) size acc slices size' bs rest e room =
      bind_inv c.read_bytes _ bs e λ v more e₁ f₁.
        let takes = c.read_bytes_takes bs v more e₁ in
        let (l', z', t') =
          read_slices_accepts n (add_u64 size (add_u64 4 (length v))) (acc ++ (v ∷ [])) slices size'
            more rest f₁ (omega (arith, takes)) in
        (
          omega (arith, l', length-append acc (v ∷ [])),
          omega (arith, z', takes, slices_size-append acc (v ∷ [])),
          omega (arith, t', takes),
        )

  -- Every chunk that is accepted, whatever its bytes, has its IDs in order, as many slices as IDs,
  -- an index that points into the slices, and a size that is the number of bytes that it took and
  -- of bytes that it would take again.
  pub deserialize_accepts :
      (m : ℕ) (bs : List ℕ) (s : WrbpodSlices) (rest : List ℕ)
      → deserialize c m bs ≡ ok (s, rest)
      → length bs < 2 ^ 63
      → IsSorted s.index
        × (length s.slices ≡ length s.index)
        × InRange (length s.slices) s.index
        × (s.encoded_size + length rest ≡ length bs)
        × (length (serialize c s) ≡ s.encoded_size)
  unfolding deserialize lookup
  deserialize_accepts m bs s rest e room = bind_inv c.read_u8 _ bs e λ version bs₁ e₁ f₁.
      bind_inv c.read_u64 _ bs₁ f₁ λ n bs₂ e₂ f₂.
        bind_inv (read_index c n n [] 9) _ bs₂ f₂ λ r bs₃ e₃ f₃.
          bind_inv (read_slices c n [] r.1) _ bs₃ f₃ λ t bs₄ e₄ f₄.
            let takes₁ = c.read_u8_takes bs version bs₁ e₁ in
            let takes₂ = c.read_u64_takes bs₁ n bs₂ e₂ in
            let (s₃, r₃, l₃, z₃, t₃) =
              read_index_accepts n n 9 [] r.0 r.1 bs₂ bs₃ e₃ (omega (arith, takes₁, takes₂)) tt
                (λ id idx h. cc) in
            let (l₄, z₄, t₄) =
              read_slices_accepts n r.1 [] t.0 t.1 bs₃ bs₄ e₄
                (omega (arith, takes₁, takes₂, z₃, t₃)) in
            let h = ok_inj f₄ in
            let index_eq = ap (λ q. q.0.index) h in
            let slices_eq = ap (λ q. q.0.slices) h in
            let size_eq = ap (λ q. q.0.encoded_size) h in
            let rest_eq = ap (λ q. length q.1) h in
            (
              rw (← index_eq) s₃,
              omega (arith, l₃, l₄, ap length index_eq, ap length slices_eq),
              λ id idx found. omega (arith, r₃ id idx (rw index_eq found), l₄, ap length slices_eq),
              omega (arith, takes₁, takes₂, z₃, t₃, t₄, size_eq, rest_eq),
              omega (
                arith,
                length-serialize c s,
                z₃,
                z₄,
                l₃,
                size_eq,
                ap length index_eq,
                ap slices_size slices_eq,
              ),
            )
