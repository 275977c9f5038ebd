-- ===== src/Ui/GapBuffer/Compose.antt =====
-- The operations that are made of moves and edits.
use wrb.Common.{
  ℕ, suc, ◌+◌, ◌≡◌, ◌≢◌, refl, arith, some, List, [], ◌∷◌, ◌++◌, length, replicate, length-append,
  length-replicate, ne→==, ==_refl, zero,
}
use wrb.Ui.GapBuffer.Move.{right, delete, replace, overwrite}
use wrb.Ui.GapBuffer.Represents.{Meta, with_gap}
use wrb.Ui.GapBuffer.Edit.{insert_lem, backspace_lem, left_lem, right_lem, up_line, down_line}

-- `delete` drops the character after the gap, which is one longer then.
pub delete_lem :
    (m : Meta) (before after : List ℕ) (c n : ℕ)
    → (line_start : ℕ) × (delete (with_gap m before (suc n) (c ∷ after))
        ≡ some (with_gap (down_line m c line_start) before (suc (suc n)) after))
unfolding delete
delete_lem m before after c n =
    let r = right_lem m before after c (suc n) in
    (r.0, rw r.1 (backspace_lem (down_line m c r.0) before after c n))

-- At the end of the text `delete` drops the character before the cursor.
pub delete_at_end :
    (m : Meta) (before : List ℕ) (c n : ℕ)
    → delete (with_gap m (before ++ (c ∷ [])) (suc n) [])
      ≡ some (with_gap m before (suc (suc n)) [])
unfolding delete right
delete_at_end m before c n =
    let text = before ++ (c ∷ []) in
    let full : length text + suc n ≡ length (text ++ (replicate (suc n) 0 ++ [])) = omega (
      arith,
      length-append text (replicate (suc n) 0 ++ []),
      length-append (replicate (suc n) zero) [],
      length-replicate (suc n) zero,
    ) in
    rw (full, ==_refl (length (text ++ (replicate (suc n) 0 ++ []))))
      (backspace_lem m before [] c n)

-- Overwriting a character puts another in its place and moves past it; the gap keeps its size.
pub overwrite_lem :
    (m : Meta) (before after : List ℕ) (c ch n : ℕ)
    → (m' : Meta) × (overwrite (with_gap m before (suc n) (c ∷ after)) ch
        ≡ some (with_gap m' (before ++ (ch ∷ [])) (suc n) after))
unfolding overwrite replace
overwrite_lem m before after c ch n =
    let d = delete_lem m before after c n in
    let m₁ = down_line m c d.0 in
    let i = insert_lem m₁ before after (suc n) ch in
    let m₂ = up_line m₁ ch i.0 in
    let l = left_lem m₂ before after ch (suc n) in
    let m₃ = up_line m₂ ch l.0 in
    let r = right_lem m₃ before after ch (suc n) in
    let more : length before + suc n ≢ length (before ++ (replicate (suc n) 0 ++ (c ∷ after))) =
      λ e. absurd (
        omega (
          arith,
          e,
          length-append before (replicate (suc n) 0 ++ (c ∷ after)),
          length-append (replicate (suc n) zero) (c ∷ after),
          length-replicate (suc n) zero,
        )) in
    (
      down_line m₃ ch r.0,
      rw
          (
            ne→== (length before + suc n) (length (before ++ (replicate (suc n) 0 ++ (c ∷ after))))
                more,
            d.1,
            i.1,
            l.1,
            r.1,
          )
          refl,
    )
