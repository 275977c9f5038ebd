-- ===== src/Ui/GapBuffer/Realloc.antt =====
-- A buffer whose gap is used up, and a text that is set.
use wrb.Common.{
  Option-cases, ℕ, zero, suc, ◌+◌, ◌<◌, ◌≤◌, ◌≡◌, refl, ap, ◌∙◌, sym, arith, Option, none, some,
  List, [], ◌∷◌, ◌++◌, if◌then◌else◌, length, get_elem?, replicate, ge→ltb, gt→leb, le→leb,
  length-append, length-replicate, get_elem?_past, inl, inr, and_then, append-nil, ◌==◌, ne→==,
}
use wrb.Ui.GapBuffer.{GapBuffer, insert, backspace, realloc, move_text, insert_at_gap}
use wrb.Ui.GapBuffer.Represents.{Meta, with_gap}
use wrb.Ui.GapBuffer.Edit.{insert_lem}

move_text_done :
    (gap_start cursor n i : ℕ) (buffer : List ℕ)
    → gap_start ≤ cursor + i
    → move_text gap_start cursor n i buffer ≡ some buffer
unfolding move_text
move_text_done gap_start cursor zero i buffer h = refl
move_text_done gap_start cursor (suc n) i buffer h = rw (le→leb gap_start (cursor + i) h) refl

-- The first character does not fit where it is moved to.
move_text_panics :
    (gap_start cursor n : ℕ) (buffer : List ℕ)
    → 0 < n
    → cursor < gap_start
    → length buffer ≤ gap_start + cursor
    → move_text gap_start cursor n 0 buffer ≡ none
unfolding move_text
move_text_panics gap_start cursor zero buffer pos h l = absurd (omega arith)
move_text_panics gap_start cursor (suc n) buffer pos h l =
    elim (Option-cases (get_elem? buffer (cursor + 0))) [
      | inl e ↦ rw (gt→leb gap_start (cursor + 0) (omega arith), e) refl
      | inr (c, e) ↦
          rw
            (
              gt→leb gap_start (cursor + 0) (omega arith),
              e,
              ge→ltb (gap_start + cursor + 0) (length buffer) (omega arith),
            )
            refl
    ]

-- At the end of the text `realloc` makes a new gap.
pub realloc_at_end :
    (m : Meta) (text : List ℕ)
    → realloc (with_gap m text 0 []) ≡ some (with_gap m text m.gap_size [])
unfolding realloc move_text
realloc_at_end m text =
    let l : length (text ++ []) ≡ length text = ap length (append-nil text) in
    ap
      (λ (o : Option (List ℕ)).
        and_then o (λ buffer. some (record (with_gap m text m.gap_size []) { buffer = buffer })))
      (move_text_done (length (text ++ [])) (length text) m.gap_size 0
        ((text ++ []) ++ replicate m.gap_size 0) (omega (arith, l)))
    ∙ (λ i. some (record (with_gap m text m.gap_size []) { buffer = same i }))
  where
    same : (text ++ []) ++ replicate m.gap_size 0 ≡ text ++ (replicate m.gap_size 0 ++ [])
    same = simp append-nil refl

-- Inserting at the end of a text that fills the buffer works as where there is a gap.
pub insert_full_at_end :
    (m : Meta) (text : List ℕ) (n ch : ℕ)
    → m.gap_size ≡ suc n
    → (line_start : ℕ) × (insert (with_gap m text 0 []) ch
        ≡ some (
            with_gap
              (record m {
                lineno = if ch == 10 then m.lineno + 1 else m.lineno;
                line_start = line_start;
              })
              (text ++ (ch ∷ []))
              n
              []))
unfolding insert
insert_full_at_end m text n ch e =
    let i = insert_lem m text [] n ch in
    let shut : insert (with_gap m text (suc n) []) ch
        ≡ insert_at_gap ch (with_gap m text (suc n) []) =
      rw (ne→== (suc n) 0 (λ e. absurd (omega (arith, e)))) refl in
    (
      i.0,
      ap (λ (o : Option GapBuffer). and_then o (insert_at_gap ch)) (realloc_at_end m text)
          ∙ ap (λ (k : ℕ). insert_at_gap ch (with_gap m text k [])) e
          ∙ sym shut
          ∙ i.1,
    )

-- Inserting where the gap is used up panics if the cursor is before the end of the text and at
-- least a gap's size from its start.
pub insert_full_panics :
    (m : Meta) (before after : List ℕ) (c ch : ℕ)
    → 0 < m.gap_size
    → m.gap_size ≤ length before
    → insert (with_gap m before 0 (c ∷ after)) ch ≡ none
unfolding insert realloc move_text
insert_full_panics m before after c ch pos far =
    let l : length (before ++ (c ∷ after)) ≡ length before + suc (length after) =
      length-append before (c ∷ after) in
    let k = length-append (before ++ (c ∷ after)) (replicate m.gap_size zero) in
    ap
      (λ (o : Option (List ℕ)).
        and_then
          (and_then o (λ buffer.
            some (record (with_gap m before m.gap_size (c ∷ after)) { buffer = buffer })))
          (insert_at_gap ch))
      (move_text_panics (length (before ++ (c ∷ after))) (length before) m.gap_size
        ((before ++ (c ∷ after)) ++ replicate m.gap_size 0) pos (omega (arith, l))
        (omega (arith, k, l, length-replicate m.gap_size zero)))

-- `backspace` panics at the end of a text that fills the buffer.
pub backspace_full_panics :
    (m : Meta) (text : List ℕ) → 0 < length text → backspace (with_gap m text 0 []) ≡ none
unfolding backspace
backspace_full_panics m text h =
    rw
      (
        ne→== (length text) 0 (λ e. absurd (omega (arith, e))),
        get_elem?_past (text ++ []) (length text) (omega (arith, length-append {0} text [])),
      )
      refl
