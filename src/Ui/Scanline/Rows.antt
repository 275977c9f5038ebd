-- ===== src/Ui/Scanline/Rows.antt =====
-- The rows that are compiled, and the whole screen.
use wrb.Common.{
  ℕ, suc, ◌+◌, ◌<◌, ◌≤◌, ◌^◌, arith, Option, some, List, [], ◌∷◌, ◌++◌, ◌≡◌, refl, ap, ◌∙◌,
  if◌then◌else◌, length, Bool-cases, inl, inr, add_u64,
}
use wrb.Ui.Color.{Color}
use wrb.Ui.CharBuff.{CharBuff, CharCell, blank, fill}
use wrb.Ui.CharBuff.Wrap.Layout.{add_u64-eq}
use wrb.Ui.Scanline.{
  Scanline, fg_color, bg_color, text, newline, clear_line, reset_color, is_newline, in_range, push,
  finish_string, finish_cmds, compile, compile_rows, new_scan, u64_max,
}
use wrb.Ui.Scanline.Screen.{
  has_break, erase_row, Shown, glyph, erased, line_break, glyphs, Screen, step, run, empty_screen,
  run_push, run-finish_cmds,
}
use wrb.Ui.Scanline.Steps.{Agrees, cell_shown}
use wrb.Ui.Scanline.Compile.{cells_shown, compile_cells_lem}

-- the rows that end in what is shown, and in the commands
unfoldable pub breaks : List Shown → ℕ
breaks [] = 0
breaks (glyph c fg bg ∷ out) = breaks out
breaks (erased ∷ out) = breaks out
breaks (line_break ∷ out) = suc (breaks out)

unfoldable pub newlines : List Scanline → ℕ
newlines [] = 0
newlines (c ∷ cmds) = if is_newline c then suc (newlines cmds) else newlines cmds

breaks-append : (xs ys : List Shown) → breaks (xs ++ ys) ≡ breaks xs + breaks ys
unfolding breaks
breaks-append [] ys = omega arith
breaks-append (glyph c fg bg ∷ xs) ys = breaks-append xs ys
breaks-append (erased ∷ xs) ys = breaks-append xs ys
breaks-append (line_break ∷ xs) ys = omega (arith, breaks-append xs ys)

breaks-glyphs : (fg bg : Option Color) (s : List ℕ) → breaks (glyphs fg bg s) ≡ 0
unfolding breaks
breaks-glyphs fg bg [] = refl
breaks-glyphs fg bg (c ∷ s) = breaks-glyphs fg bg s

breaks-erase_row : (out : List Shown) → breaks (erase_row out) ≡ breaks out
unfolding breaks erase_row
breaks-erase_row [] = refl
breaks-erase_row (glyph c fg bg ∷ out) = elim (Bool-cases (has_break out)) [
  | inl e ↦ rw e (breaks-erase_row out)
  | inr e ↦ rw e (breaks-erase_row out)
]
breaks-erase_row (erased ∷ out) = breaks-erase_row out
breaks-erase_row (line_break ∷ out) = omega (arith, breaks-erase_row out)

breaks-run :
    (sc : Screen) (cmds : List Scanline) → breaks (run sc cmds).out ≡ breaks sc.out + newlines cmds
unfolding run newlines breaks
breaks-run sc [] = omega arith
breaks-run sc (fg_color c ∷ cmds) = breaks-run (step sc (fg_color c)) cmds
breaks-run sc (bg_color c ∷ cmds) = breaks-run (step sc (bg_color c)) cmds
breaks-run sc (text s ∷ cmds) = omega (
  arith,
  breaks-run (step sc (text s)) cmds,
  breaks-append sc.out (glyphs sc.fg sc.bg s),
  breaks-glyphs sc.fg sc.bg s,
)
breaks-run sc (newline ∷ cmds) =
    omega (arith, breaks-run (step sc newline) cmds, breaks-append sc.out (line_break ∷ []))
breaks-run sc (clear_line ∷ cmds) =
    omega (arith, breaks-run (step sc clear_line) cmds, breaks-erase_row sc.out)
breaks-run sc (reset_color ∷ cmds) = breaks-run (step sc reset_color) cmds

breaks-cell_shown : (c : CharCell) (out : List Shown) → breaks (cell_shown c ∷ out) ≡ breaks out
unfolding breaks
breaks-cell_shown blank out = refl
breaks-cell_shown (fill value bg fg id) out = refl

breaks-cells_shown :
    (n i : ℕ) (cells : List CharCell) → breaks (cells_shown n i cells) ≤ length cells
unfolding breaks cells_shown
breaks-cells_shown n i [] = omega arith
breaks-cells_shown n i (c ∷ cells) =
    ground
      (arith, breaks-cells_shown n (suc i) cells, breaks-cell_shown c (cells_shown n (suc i) cells))

in_range_all :
    (end row : ℕ) (cmds : List Scanline)
    → row + newlines cmds < end
    → end < 2 ^ 64
    → in_range 0 end row cmds ≡ cmds
unfolding in_range newlines
in_range_all end row [] h l = refl
in_range_all end row (c ∷ cmds) h l = elim (Bool-cases (is_newline c)) [
  | inl e ↦
      let ih = in_range_all end (add_u64 row 1) cmds in ground (arith, e, add_u64-eq row 1, ih)
  | inr e ↦ let ih = in_range_all end row cmds in ground (arith, e, ih)
]

new_scan-Agrees : Agrees new_scan
unfolding run
new_scan-Agrees = record { fg = refl; bg = refl; blank_fg = λ h. refl; blank_bg = λ h. refl }

-- A buffer with a width compiles, and what its commands show, on an empty screen in the terminal's
-- own colors where clearing a line erases the row that is being written, is the character of each
-- cell in the cell's colors, a space in the terminal's own for a blank, with the end of a row after
-- each full row but the last.
pub compile_lem :
    (b : CharBuff)
    → 0 < b.num_cols
    → length b.cells < u64_max
    → (cmds : List Scanline) × (compile b ≡ some cmds)
      × ((run empty_screen cmds).out ≡ cells_shown b.num_cols 0 b.cells)
unfolding compile_rows run
compile_lem b pos small =
    let c = compile_cells_lem b.num_cols 0 b.cells new_scan pos new_scan-Agrees (λ h. refl) in
    let cmds = (push reset_color (finish_string c.0)).cmds in
    let out : (run empty_screen cmds).out ≡ cells_shown b.num_cols 0 b.cells =
      ap (λ (sc : Screen). sc.out)
        (run_push empty_screen (finish_cmds c.0.cmds c.0.cur_str) reset_color
          ∙ ap (λ (sc : Screen). step sc reset_color) (run-finish_cmds c.0.cmds c.0.cur_str))
      ∙ c.2 in
    let few : newlines cmds ≤ length b.cells = omega (
      arith,
      breaks-run empty_screen cmds,
      ap breaks out,
      breaks-cells_shown b.num_cols 0 b.cells,
    ) in
    (cmds, rw c.1 (ap some (in_range_all u64_max 0 cmds (omega (arith, few)) (omega arith))), out)
