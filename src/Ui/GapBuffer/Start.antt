-- ===== src/Ui/GapBuffer/Start.antt =====
-- The buffer of a text, made or set.
use wrb.Common.{
  ℕ, zero, suc, ◌+◌, ◌-◌, ◌<◌, ◌≤◌, ◌≡◌, refl, ap, ◌∙◌, sym, arith, none, some, List, [], ◌∷◌, ◌++◌,
  length, replicate, append_assoc, append-nil, length-append, length-replicate, ne→==,
  get_elem?_past,
}
use wrb.Ui.GapBuffer.{
  GapBuffer, new, set_text, write_text, str_len, count_lines, set_line_start, insert,
}
use wrb.Ui.GapBuffer.Lines.{set_line_start_total}
use wrb.Ui.GapBuffer.Represents.{Meta, with_gap, set_elem?-append_length}

write_text_lem :
    (before text : List ℕ) (k : ℕ)
    → write_text (before ++ replicate (length text + k) 0) (length before) text
      ≡ some (before ++ (text ++ replicate k 0))
unfolding write_text
write_text_lem before [] k =
    let e : 0 + k ≡ k = omega arith in ap (λ (j : ℕ). some (before ++ replicate j 0)) e
write_text_lem before (c ∷ text) k =
    let e : suc (length text) + k ≡ suc (length text + k) = omega arith in
    let next : suc (length before) ≡ length (before ++ (c ∷ [])) =
      omega (arith, length-append before (c ∷ [])) in
    let rest : List ℕ = replicate (length text + k) 0 in
    rw (e, set_elem?-append_length before rest 0 c, next, sym (append_assoc before (c ∷ []) rest))
      (write_text_lem (before ++ (c ∷ [])) text k
        ∙ ap some (append_assoc before (c ∷ []) (text ++ replicate k 0)))

length-str_len : (text : List ℕ) → length text ≤ str_len text
unfolding str_len
length-str_len [] = omega arith
length-str_len (c ∷ text) = ground (arith, length-str_len text)

replicate_add : (a b : ℕ) → replicate (a + b) zero ≡ replicate a 0 ++ replicate b 0
replicate_add zero b = let e : 0 + b ≡ b = omega arith in ap (λ (n : ℕ). replicate n zero) e
replicate_add (suc a) b =
    let e : suc a + b ≡ suc (a + b) = omega arith in
    ap (λ (n : ℕ). replicate n zero) e ∙ ap (λ (l : List ℕ). 0 ∷ l) (replicate_add a b)

-- The cells of a text that has been written, with what its bytes are more than its characters.
abbrev pub padded : List ℕ → List ℕ
padded text = text ++ replicate (str_len text - length text) 0

written :
    (text : List ℕ) (gap_size : ℕ)
    → write_text (replicate (str_len text + gap_size) 0) 0 text
      ≡ some (padded text ++ replicate gap_size 0)
written text gap_size =
    let extra = str_len text - length text in
    let e : str_len text + gap_size ≡ length text + (extra + gap_size) =
      omega (arith, length-str_len text) in
    ap (λ (n : ℕ). write_text (replicate n 0) 0 text) e
    ∙ write_text_lem [] text (extra + gap_size)
    ∙ ap (λ (l : List ℕ). some (text ++ l)) (replicate_add extra gap_size)
    ∙ ap some (sym (append_assoc text (replicate extra 0) (replicate gap_size 0)))

length-padded : (text : List ℕ) → length (padded text) ≡ str_len text
length-padded text = omega (
  arith,
  length-str_len text,
  length-append text (replicate (str_len text - length text) zero),
  length-replicate (str_len text - length text) zero,
)

-- A new buffer holds the text before its gap, followed by a zero for each byte that the text has
-- more than it has characters.
pub new_lem :
    (text : List ℕ) (gap_size : ℕ)
    → 0 < gap_size
    → (line_start : ℕ) × (new text gap_size
        ≡ some (
            with_gap
              (record { gap_size = gap_size; lineno = count_lines text; line_start = line_start })
              (padded text)
              gap_size
              []))
unfolding new
new_lem text gap_size pos =
    let m : Meta = record { gap_size = gap_size; lineno = count_lines text; line_start = 0 } in
    let g = with_gap m (padded text) gap_size [] in
    let l =
      set_line_start_total g
        (omega (
          arith,
          length-append (padded text) (replicate gap_size 0 ++ []),
          length-append (replicate gap_size zero) [],
          length-replicate gap_size zero,
        ))
        (omega (arith, length-append (padded text) (replicate gap_size 0 ++ []))) in
    let same : record g { buffer = padded text ++ replicate gap_size 0; cursor = str_len text }
        ≡ g =
      λ i. record g {
        buffer = padded text ++ (sym (append-nil (replicate gap_size zero))) i;
        cursor = (sym (length-padded text)) i;
      } in
    (l.0, rw (written text gap_size) (ap set_line_start same ∙ l.1))

-- After `set_text`, which leaves the cursor past the buffer's end, inserting panics.
pub set_text-insert_panics :
    (g : GapBuffer) (text : List ℕ) (ch : ℕ)
    → 0 < g.gap_size
    → (g' : GapBuffer) × (set_text g text ≡ some g') × (insert g' ch ≡ none)
unfolding set_text insert
set_text-insert_panics g text ch pos =
    let buffer = padded text ++ replicate g.gap_size 0 in
    let set : GapBuffer = record g {
      cursor = length buffer;
      buffer = buffer;
      gap = g.gap_size;
      lineno = count_lines text;
    } in
    let l =
      set_line_start_total set
        (omega (
          arith,
          length-append (padded text) (replicate g.gap_size zero),
          length-replicate g.gap_size zero,
        ))
        (omega arith) in
    (
      record set { line_start = l.0 },
      rw (written text g.gap_size) l.1,
      rw
          (
            ne→== g.gap_size 0 (λ e. absurd (omega (arith, e))),
            get_elem?_past buffer (length buffer) (omega arith),
          )
          refl,
    )
