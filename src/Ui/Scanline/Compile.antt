-- ===== src/Ui/Scanline/Compile.antt =====
-- What the compiled commands show is what the cells hold.
use wrb.Common.{
  arith, ◌++◌, ◌∷◌, if◌then◌else◌, append_assoc, Bool, true, false, append-nil, suc, ◌==◌, ◌&&◌,
  ◌%◌, ◌<◌, ltb, [], List, ℕ, some, ◌≡◌, refl, ap, ◌∙◌, sym, Bool-cases, inl, inr,
}
use mathlib.Core.Bool.{false}
use wrb.Ui.CharBuff.{CharCell, blank, fill}
use wrb.Ui.Scanline.{start_line, compile_cells, compile_cell, Scan}
use wrb.Ui.Scanline.Screen.{line_break, Shown, Screen, shown}
use wrb.Ui.Scanline.Steps.{Agrees, compile_cell_lem, cell_shown, with_cell}
use wrb.Ui.Scanline.Lines.{start_line_lem}
use wrb.Ui.CharBuff.Cells.{div_rem_pos}

-- what the cells show, from the one with the number `i`, in rows of `n`
unfoldable pub cells_shown : ℕ → ℕ → List CharCell → List Shown
cells_shown n i [] = []
cells_shown n i (c ∷ cells) =
    let rest = cell_shown c ∷ cells_shown n (suc i) cells in
    if ltb 0 i && i % n == 0 then line_break ∷ rest else rest

with_cell_out : (sc : Screen) (c : CharCell) → (with_cell sc c).out ≡ sc.out ++ (cell_shown c ∷ [])
with_cell_out sc blank = refl
with_cell_out sc (fill value bg fg id) = refl

begin_line_lem :
    (i r : ℕ) (st : Scan)
    → Agrees st
    → (ltb 0 i ≡ false → (shown st).out ≡ [])
    → ((shown (if r == 0 then start_line i st else st)).out
        ≡ (shown st).out ++ (if ltb 0 i && r == 0 then line_break ∷ [] else []))
      × Agrees (if r == 0 then start_line i st else st)
begin_line_lem i r st a top = elim (Bool-cases (r == 0)) [
  | inl e ↦
      let l = start_line_lem i st a top in
      rw e (ap (λ (sc : Screen). sc.out) l.0 ∙ row_out (ltb 0 i), l.1)
  | inr e ↦ rw e (row_out_none (ltb 0 i), a)
]
  where
    row_out :
        (b : Bool)
        → (if b then (shown st).out ++ (line_break ∷ []) else (shown st).out)
          ≡ (shown st).out ++ (if b && true then line_break ∷ [] else [])
    row_out true = refl
    row_out false = sym (append-nil (shown st).out)

    row_out_none :
        (b : Bool) → (shown st).out ≡ (shown st).out ++ (if b && false then line_break ∷ [] else [])
    row_out_none true = sym (append-nil (shown st).out)
    row_out_none false = sym (append-nil (shown st).out)

out_assoc :
    (out rest : List Shown) (b : Bool) (c : Shown)
    → ((out ++ (if b then line_break ∷ [] else [])) ++ (c ∷ [])) ++ rest
      ≡ out ++ (if b then line_break ∷ (c ∷ rest) else c ∷ rest)
out_assoc out rest true c = simp append_assoc refl
out_assoc out rest false c = simp (append_assoc, append-nil) refl

pub compile_cells_lem :
    (n i : ℕ) (cells : List CharCell) (st : Scan)
    → 0 < n
    → Agrees st
    → (ltb 0 i ≡ false → (shown st).out ≡ [])
    → (st' : Scan) × (compile_cells n i cells st ≡ some st')
      × ((shown st').out ≡ (shown st).out ++ cells_shown n i cells)
      × Agrees st'
unfolding compile_cells cells_shown
compile_cells_lem n i [] st pos a top = (st, refl, sym (append-nil (shown st).out), a)
compile_cells_lem n i (c ∷ cells) st pos a top =
    let b = begin_line_lem i (i % n) st a top in
    let begun = if i % n == 0 then start_line i st else st in
    let k = compile_cell_lem c begun b.1 in
    let ih =
      compile_cells_lem n (suc i) cells (compile_cell c begun) pos k.1
        (λ h. absurd (ground arith)) in
    let rest = cells_shown n (suc i) cells in
    (
      ih.0,
      rw (div_rem_pos i n pos) ih.1,
      ih.2
          ∙ ap (λ (l : List Shown). l ++ rest)
              (ap (λ (sc : Screen). sc.out) k.0
                ∙ with_cell_out (shown begun) c
                ∙ ap (λ (l : List Shown). l ++ (cell_shown c ∷ [])) b.0)
          ∙ out_assoc (shown st).out rest (ltb 0 i && i % n == 0) (cell_shown c),
      ih.3,
    )
