-- ===== src/Ui/GapBuffer/Read.antt =====
-- What is read from a gap buffer is the text around its gap.
use wrb.Common.{
  get_elem?-append_length, ℕ, zero, suc, ◌+◌, ◌-◌, ◌≤◌, ◌≡◌, refl, ap, ◌∙◌, sym, arith, Option,
  none, some, List, [], ◌∷◌, ◌++◌, if◌then◌else◌, length, get_elem?, replicate, ltb, All,
  append_assoc, length-append, length-replicate, get_elem?-append_left, Bool-cases, inl, inr,
  and_then, append-nil,
}
use wrb.Ui.GapBuffer.{GapBuffer, char_from_u32}
use wrb.Ui.GapBuffer.Represents.{Meta, with_gap}

abbrev pub len : GapBuffer → ℕ
len g = length g.buffer - g.gap

-- The code's sum could wrap where `idx` is near 2 ^ 64, an offset that no buffer has.
unfoldable pub get : GapBuffer → ℕ → Option ℕ
get g idx =
    and_then (get_elem? g.buffer (if ltb idx g.cursor then idx else idx + g.gap)) char_from_u32

-- The character is pushed, where there is one.
abbrev pub push_read : Option ℕ → List ℕ → List ℕ
push_read none ret = ret
push_read (some c) ret = ret ++ (c ∷ [])

-- The loop of `to_string`, from the index `i`, with the rounds that are left.
unfoldable pub to_string_loop : GapBuffer → ℕ → ℕ → List ℕ → List ℕ
unfolding get
to_string_loop g zero i ret = ret
to_string_loop g (suc n) i ret = to_string_loop g n (suc i) (push_read (get g i) ret)

abbrev pub to_string : GapBuffer → List ℕ
to_string g = to_string_loop g (len g) 0 []

-- a text of characters
abbrev pub IsText : List ℕ → Type 0
IsText text = All (λ c. char_from_u32 c ≡ some c) text

get_elem?-append_right :
    (xs ys : List ℕ) (i : ℕ) → get_elem? (xs ++ ys) (length xs + i) ≡ get_elem? ys i
get_elem?-append_right [] ys i = let e : 0 + i ≡ i = omega arith in ap (get_elem? ys) e
get_elem?-append_right (x ∷ xs) ys i =
    let e : suc (length xs) + i ≡ suc (length xs + i) = omega arith in
    ap (get_elem? (x ∷ (xs ++ ys))) e ∙ get_elem?-append_right xs ys i

read-IsText :
    (text : List ℕ) (i : ℕ)
    → IsText text
    → and_then (get_elem? text i) char_from_u32 ≡ get_elem? text i
read-IsText [] i h = refl
read-IsText (c ∷ text) zero (h, hs) = h
read-IsText (c ∷ text) (suc i) (h, hs) = read-IsText text i hs

-- Reading by an index is reading the two texts in a row, without the gap.
pub get-with_gap :
    (m : Meta) (n : ℕ) (before after : List ℕ) (i : ℕ)
    → IsText (before ++ after)
    → get (with_gap m before n after) i ≡ get_elem? (before ++ after) i
unfolding get
get-with_gap m n before after i h = elim (Bool-cases (ltb i (length before))) [
  | inl inside ↦ rw inside (
      ap (λ (o : Option ℕ). and_then o char_from_u32)
        (get_elem?-append_left before (replicate n 0 ++ after) i (ground (arith, inside))
          ∙ sym (get_elem?-append_left before after i (ground (arith, inside))))
      ∙ read-IsText (before ++ after) i h)
  | inr past ↦ rw past (
      ap (λ (o : Option ℕ). and_then o char_from_u32) (skipped (ground (arith, past)))
      ∙ read-IsText (before ++ after) i h)
]
  where
    skipped :
        length before ≤ i
        → get_elem? (before ++ (replicate n 0 ++ after)) (i + n) ≡ get_elem? (before ++ after) i
    skipped l =
        let e : i + n ≡ length before + (length (replicate n zero) + (i - length before)) =
          omega (arith, length-replicate n zero) in
        let d : i ≡ length before + (i - length before) = omega arith in
        ap (get_elem? (before ++ (replicate n 0 ++ after))) e
        ∙ get_elem?-append_right before (replicate n 0 ++ after)
            (length (replicate n zero) + (i - length before))
        ∙ get_elem?-append_right (replicate n 0) after (i - length before)
        ∙ sym (get_elem?-append_right before after (i - length before))
        ∙ ap (get_elem? (before ++ after)) (sym d)

-- The rounds read what is left of the text.
to_string_loop-with_gap :
    (m : Meta) (k : ℕ) (before after read rest ret : List ℕ)
    → IsText (before ++ after)
    → read ++ rest ≡ before ++ after
    → to_string_loop (with_gap m before k after) (length rest) (length read) ret ≡ ret ++ rest
unfolding to_string_loop
to_string_loop-with_gap m k before after read [] ret h e = sym (append-nil ret)
to_string_loop-with_gap m k before after read (c ∷ rest) ret h e =
    let here : get (with_gap m before k after) (length read) ≡ some c =
      get-with_gap m k before after (length read) h
      ∙ ap (λ (t : List ℕ). get_elem? t (length read)) (sym e)
      ∙ get_elem?-append_length read rest c in
    let ih =
      to_string_loop-with_gap m k before after (read ++ (c ∷ [])) rest (ret ++ (c ∷ [])) h
        (append_assoc read (c ∷ []) rest ∙ e) in
    let next : suc (length read) ≡ length (read ++ (c ∷ [])) =
      omega (arith, length-append read (c ∷ [])) in
    let g = with_gap m before k after in
    ap (λ (o : Option ℕ). to_string_loop g (length rest) (suc (length read)) (push_read o ret)) here
    ∙ ap (λ (i : ℕ). to_string_loop g (length rest) i (ret ++ (c ∷ []))) next
    ∙ ih
    ∙ append_assoc ret (c ∷ []) rest

-- `to_string` is the text before the gap and the text after it, and `len` their length.
pub to_string-with_gap :
    (m : Meta) (n : ℕ) (before after : List ℕ)
    → IsText (before ++ after)
    → (to_string (with_gap m before n after) ≡ before ++ after)
      × (len (with_gap m before n after) ≡ length before + length after)
to_string-with_gap m n before after h =
    let l : len (with_gap m before n after) ≡ length (before ++ after) = omega (
      arith,
      length-append before (replicate n 0 ++ after),
      length-append (replicate n zero) after,
      length-replicate n zero,
      length-append before after,
    ) in
    (
      ap (λ (k : ℕ). to_string_loop (with_gap m before n after) k 0 []) l
          ∙ to_string_loop-with_gap m n before after [] (before ++ after) [] h refl,
      omega (arith, l, length-append before after),
    )
