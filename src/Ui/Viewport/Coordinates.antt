-- ===== src/Ui/Viewport/Coordinates.antt =====
-- Where places of the page fall in a viewport, and in the elements that printed to it.
use mathlib.Core.Option
use native.Mathlib.Decide.{dec_lt}
use wrb.Common.{
  get_elem?_total, ℕ, suc, ◌+◌, ◌-◌, ◌*◌, ◌^◌, ◌≤◌, ◌<◌, ◌≡◌, refl, ap, ◌∙◌, arith, some, none,
  List, if◌then◌else◌, length, get_elem?, ltb, Option, ◌↔◌,
}
use wrb.Common.Order.{nat_ord, beq_refl}
use wrb.Common.Map.{lookup, lookup-insert}
use wrb.Ui.CharBuff.{charcell_at, CharBuff, Style, char_cell}
use wrb.Ui.CharBuff.Cells.{printed, print_at_iter_lem, offset_at-eq, printed_inside}
use wrb.Ui.CharBuff.Wrap.Layout.{add_u64-eq, mul_le}
use wrb.Ui.Viewport.{
  from_corner, Viewport, translate_coordinate, get_ui_coordinate, print_to, corner,
  update_element_coord,
}

-- A place of the page is translated exactly when it is in the viewport's box, which stands at its
-- position in its parent, and then to the row and the column counted from the box's corner. The
-- box ends below 2 ^ 64.
pub translate_coordinate_lem :
    (v : Viewport) (viewport_abs_row viewport_abs_col abs_row abs_col row col : ℕ)
    → v.start_row + viewport_abs_row + v.num_rows < 2 ^ 64
    → v.start_col + viewport_abs_col + v.buff.num_cols < 2 ^ 64
    → (translate_coordinate v viewport_abs_row viewport_abs_col abs_row abs_col ≡ some (row, col))
      ↔ ((abs_row ≡ v.start_row + viewport_abs_row + row)
          × (row < v.num_rows)
          × (abs_col ≡ v.start_col + viewport_abs_col + col)
          × (col < v.buff.num_cols))
unfolding translate_coordinate
translate_coordinate_lem v vr vc ar ac row col hr hc = ground (
  arith,
  add_u64-eq v.start_row vr (omega arith),
  add_u64-eq v.start_col vc (omega arith),
  add_u64-eq (v.start_row + vr) v.num_rows hr,
  add_u64-eq (v.start_col + vc) v.buff.num_cols hc,
)

charcell_printed :
    (b b' : CharBuff) (s : Style) (offset : ℕ) (text : List ℕ) (k r c ch : ℕ)
    → b'.num_cols * r + c ≡ offset + k
    → offset + length text < 2 ^ 64
    → k < length text
    → get_elem? text k ≡ some ch
    → ((i : ℕ) → get_elem? b'.cells i ≡ printed s b.cells offset text i)
    → charcell_at b' r c ≡ some (char_cell s ch)
unfolding charcell_at
charcell_printed b b' s offset text k r c ch place room inside e cells =
    ap (get_elem? b'.cells) (offset_at-eq b' r c (omega arith) ∙ place)
    ∙ cells (offset + k)
    ∙ printed_inside s b.cells offset text k inside
    ∙ ap (Option.map (char_cell s)) e

from_corner_lem :
    (id r c : ℕ) (top : ℕ × ℕ)
    → top.0 ≤ r
    → from_corner id r c (some top)
      ≡ (if ltb c top.1 then none else some (id, r - top.0, c - top.1))
from_corner_lem id r c (a, b) h = ground arith

corner_le : (o : Option (ℕ × ℕ)) (row col : ℕ) → (corner o row col).0 ≤ row
corner_le none row col = omega arith
corner_le (some (a, b)) row col = omega arith

row_le : (n row col r c : ℕ) → c < n → n * row + col ≤ n * r + c → row ≤ r
row_le n row col r c h l = elim (dec_lt r row) [
  | yes above ↦ absurd (omega (arith, mul_le n (suc r) row above))
  | no below ↦ omega arith
]

-- A cell that holds a character of the text that `print_to` prints is found in the text's element,
-- at its distance from the element's corner, which is the least row and column that the element
-- was printed at; but a cell in a column left of the corner is not found.
pub get_ui_coordinate-print_to :
    (v : Viewport) (s : Style) (row col : ℕ) (text : List ℕ) (k r c : ℕ)
    → c < v.buff.num_cols
    → v.buff.num_cols * row + col + length text < 2 ^ 64
    → k < length text
    → v.buff.num_cols * r + c ≡ v.buff.num_cols * row + col + k
    → (v' : Viewport) × (end_row : ℕ) × (end_col : ℕ) × (print_to v s row col text
        ≡ some (v', end_row, end_col))
      × (get_ui_coordinate v' r c ≡ (
          let top = corner (lookup s.element_id v.element_coords) row col in
          if ltb c top.1 then none else some (s.element_id, r - top.0, c - top.1)))
unfolding print_to get_ui_coordinate update_element_coord
get_ui_coordinate-print_to v s row col text k r c inside room h place =
    let p = print_at_iter_lem v.buff s row col text (omega arith) (omega arith) in
    let ch = get_elem?_total text k h in
    let cell =
      charcell_printed v.buff p.0 s (v.buff.num_cols * row + col) text k r c ch.0
        (ap (λ (n : ℕ). n * r + c) p.4 ∙ place) room h ch.1 p.5 in
    let top = corner (lookup s.element_id v.element_coords) row col in
    (
      record (update_element_coord v s.element_id row col) { buff = p.0 },
      p.1,
      p.2,
      rw p.3 refl,
      rw cell (
          rw (lookup-insert s.element_id s.element_id top v.element_coords, beq_refl s.element_id)
            (from_corner_lem s.element_id r c top (
              omega (
                arith,
                corner_le (lookup s.element_id v.element_coords) row col,
                row_le v.buff.num_cols row col r c inside (omega arith),
              )))),
    )
