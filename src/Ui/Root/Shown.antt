-- ===== src/Ui/Root/Shown.antt =====
-- `Root::make_charbuff` and `Root::make_zbuff` (src/ui/root.rs), against a frame that is read off the
-- viewports place by place.
use native.Mathlib.Nat.{
  div-eq_of_lt, mod-eq_of_lt, suc-mul, mul-add-div_right, mul-add-mod_self_right,
}
use mathlib.Core.Path.{subst}
use wrb.Common.{
  ap₂, ◌/◌, ◌%◌, ℕ, zero, suc, ◌+◌, ◌-◌, ◌*◌, ◌^◌, ◌<◌, ◌≤◌, true, Option, none, some, List, [],
  ◌∷◌, ◌++◌, ◌≡◌, refl, sym, ap, ◌∙◌, arith, add_u64,
}
use wrb.Common.Order.{nat_ord}
use wrb.Common.Map.{lookup}
use wrb.Ui.CharBuff.{CharCell, blank, div_rem}
use wrb.Ui.CharBuff.Cells.{div_rem_pos}
use wrb.Ui.CharBuff.Wrap.Layout.{add_u64-eq}
use wrb.Ui.Viewport.{Viewport, translate_coordinate, charcell_at}
use wrb.Ui.SceneGraph.{
  SceneGraph, viewport_at, ref_viewport, viewport_coords, abs_coords, covers, covers_with, in_box,
}
use wrb.Ui.SceneGraph.Top.{viewport_at-IsSearch, IsSearch, in_order}
use wrb.Ui.Root.{
  Root, ZBuffEntry, entry_of, zbuff_row, zbuff_rows, make_zbuff, make_charbuff, shown_cells,
  shown_cell, unwrap_or_blank,
}

-- The offsets are those of the parents and the position of the viewport, and the boxes end below
-- 2 ^ 64.
pub record IsFitting (v : Viewport) (offset : ℕ × ℕ) : Type 0 where
  pub row : v.start_row ≤ offset.0
  pub end_row : offset.0 + v.num_rows < 2 ^ 64
  pub col : v.start_col ≤ offset.1
  pub end_col : offset.1 + v.buff.num_cols < 2 ^ 64

abbrev pub IsPlaced : SceneGraph → Type 0
IsPlaced sg =
    (id : ℕ) (v : Viewport) (offset : ℕ × ℕ)
    → ref_viewport sg id ≡ some v
    → lookup id sg.coord_offsets ≡ some offset
    → IsFitting v offset

-- What a viewport with an offset shows at a place of the page.
abbrev pub seen_of : Option Viewport → Option (ℕ × ℕ) → ℕ → ℕ → CharCell
seen_of none offset row col = blank
seen_of (some v) none row col = blank
seen_of (some v) (some (offset_row, offset_col)) row col =
    unwrap_or_blank (charcell_at v (row - offset_row) (col - offset_col))

abbrev pub seen_in : SceneGraph → Option ℕ → ℕ → ℕ → CharCell
seen_in sg none row col = blank
seen_in sg (some id) row col = seen_of (ref_viewport sg id) (lookup id sg.coord_offsets) row col

-- The frame: each place has what the viewport shows that is seen there, row by row.
abbrev pub frame_row : SceneGraph → ℕ → ℕ → ℕ → List CharCell
frame_row sg r c zero = []
frame_row sg r c (suc n) = seen_in sg (viewport_at sg r c true) r c ∷ frame_row sg r (suc c) n

abbrev pub frame : SceneGraph → ℕ → ℕ → ℕ → List CharCell
frame sg num_cols r zero = []
frame sg num_cols r (suc n) = frame_row sg r 0 num_cols ++ frame sg num_cols (suc r) n

covers_with_inv :
    (vp : Option Viewport) (offset : Option (ℕ × ℕ)) (row col : ℕ)
    → covers_with true vp offset row col ≡ true
    → (v : Viewport) × (o : ℕ × ℕ) × (vp ≡ some v) × (offset ≡ some o) × (in_box v o row col ≡ true)
covers_with_inv none offset row col h = cc
covers_with_inv (some v) none row col h = cc
covers_with_inv (some v) (some o) row col h = (v, o, refl, refl, ground arith)

translate_fitting :
    (v : Viewport) (offset : ℕ × ℕ) (row col : ℕ)
    → IsFitting v offset
    → in_box v offset row col ≡ true
    → translate_coordinate v (offset.0 - v.start_row) (offset.1 - v.start_col) row col
      ≡ some (row - offset.0, col - offset.1)
unfolding translate_coordinate
translate_fitting v (r, c) row col f h =
    let corner_row : add_u64 v.start_row (r - v.start_row) ≡ r = omega (arith, f.row, f.end_row) in
    let corner_col : add_u64 v.start_col (c - v.start_col) ≡ c = omega (arith, f.col, f.end_col) in
    rw
      (
        corner_row,
        corner_col,
        add_u64-eq r v.num_rows f.end_row,
        add_u64-eq c v.buff.num_cols f.end_col,
      )
      (ground (arith, add_u64-eq r v.num_rows f.end_row, add_u64-eq c v.buff.num_cols f.end_col))

place_of :
    (num_cols r c i : ℕ) → c < num_cols → i ≡ r * num_cols + c → div_rem i num_cols ≡ some (r, c)
place_of num_cols r c i h e =
    div_rem_pos i num_cols (omega (arith, h))
    ∙ ap (λ k. some (k / num_cols, k % num_cols)) e
    ∙ ap₂ (λ a b. some (a, b))
        (mul-add-div_right (omega (arith, h)) r c ∙ ap (r +◌) (div-eq_of_lt h) ∙ omega arith)
        (mul-add-mod_self_right r num_cols c ∙ mod-eq_of_lt h)

module _ (sg : SceneGraph) (placed : IsPlaced sg) where
  viewport_at-covers :
      (row col id : ℕ) → viewport_at sg row col true ≡ some id → covers sg row col true id ≡ true
  viewport_at-covers row col id e =
      let (before, after, _, hit, _) =
        subst (IsSearch (covers sg row col true) (in_order sg.hierarchy)) e
          (viewport_at-IsSearch sg row col true) in
      hit

  viewport_coords_at :
      (id : ℕ) (offset : ℕ × ℕ) {v : Viewport}
      → lookup id sg.coord_offsets ≡ some offset
      → IsFitting v offset
      → viewport_coords sg id ≡ some offset
  unfolding viewport_coords abs_coords
  viewport_coords_at id (r, c) e f =
      rw e (ap₂ (λ a b. some (a, b)) (omega (arith, f.end_row)) (omega (arith, f.end_col)))

  seen_cell :
      (found : Option ℕ) (row col : ℕ)
      → viewport_at sg row col true ≡ found
      → shown_cell sg (entry_of found) (some (row, col)) ≡ some (seen_in sg found row col)
  unfolding covers
  seen_cell none row col e = refl
  seen_cell (some id) row col e =
      let (v, offset, is_v, is_offset, inside) =
        covers_with_inv (ref_viewport sg id) (lookup id sg.coord_offsets) row col
          (viewport_at-covers row col id e) in
      let fitting = placed id v offset is_v is_offset in
      rw
        (
          is_v,
          is_offset,
          viewport_coords_at id offset is_offset fitting,
          translate_fitting v offset row col fitting inside,
        )
        refl

  shown_row :
      (num_cols r c n i j : ℕ) (zbuff : List ZBuffEntry) (cells : List CharCell)
      → c + n ≤ num_cols
      → i ≡ r * num_cols + c
      → j ≡ i + n
      → shown_cells sg num_cols j zbuff ≡ some cells
      → shown_cells sg num_cols i (zbuff_row sg r c n ++ zbuff) ≡ some (frame_row sg r c n ++ cells)
  unfolding shown_cells zbuff_row
  shown_row num_cols r c zero i j zbuff cells h at_i at_j e =
      ap (λ k. shown_cells sg num_cols k zbuff) (omega (arith, at_j)) ∙ e
  shown_row num_cols r c (suc n) i j zbuff cells h at_i at_j e =
      let place : div_rem i num_cols ≡ some (r, c) =
        place_of num_cols r c i (omega (arith, h)) at_i in
      rw
        (
          place,
          seen_cell (viewport_at sg r c true) r c refl,
          shown_row num_cols r (suc c) n (suc i) j zbuff cells (omega (arith, h))
              (omega (arith, at_i)) (omega (arith, at_j)) e,
        )
        refl

  shown_rows :
      (num_cols r n i : ℕ)
      → i ≡ r * num_cols
      → shown_cells sg num_cols i (zbuff_rows sg num_cols r n) ≡ some (frame sg num_cols r n)
  unfolding shown_cells zbuff_rows
  shown_rows num_cols r zero i at_i = refl
  shown_rows num_cols r (suc n) i at_i =
      shown_row num_cols r 0 num_cols i (i + num_cols) (zbuff_rows sg num_cols (suc r) n)
        (frame sg num_cols (suc r) n) (omega arith) (omega (arith, at_i)) refl
        (shown_rows num_cols (suc r) n (i + num_cols) (rw at_i (sym (suc-mul r num_cols))))

-- The frame that make_charbuff gives, where no z-buffer is kept from before, has at each place of
-- the page, row by row, what is shown there by the viewport that viewport_at gives: its cell at the
-- place counted from the viewport's offset, or a blank. It does not panic, and keeps the z-buffer. The
-- offsets are not before the positions of the viewports, and the boxes end below 2 ^ 64.
pub make_charbuff_lem :
    {F V : Type 0} (root : Root F V)
    → IsPlaced root.scenegraph
    → root.zbuff ≡ none
    → make_charbuff root
      ≡ some (
        record {
          num_cols = root.num_cols;
          cells = frame root.scenegraph root.num_cols 0 root.num_rows;
        },
        record root { zbuff = some (make_zbuff root) },
      )
unfolding make_charbuff make_zbuff
make_charbuff_lem root placed fresh =
    rw (fresh, shown_rows root.scenegraph placed root.num_cols 0 root.num_rows 0 (omega arith)) refl
