-- ===== src/Ui/Root.antt =====
-- `Root` (src/ui/root.rs): the root pane, with what it shows of the viewports and which form has the
-- focus. The forms are a parameter: a form is a value of a type with the methods of the trait
-- `WrbForm` (src/ui/forms/mod.rs), which may change the root.
pub mod Focus
pub mod Shown
pub mod Cycle
pub mod Return
mod Runs
use wrb.Common.{
  ℕ, zero, suc, ◌+◌, ◌-◌, ◌*◌, Bool, true, false, not, Option, none, some, List, [], ◌∷◌, ◌++◌,
  ◌==◌, if◌then◌else◌, mul_u64, add_u64, get_elem?,
}
use wrb.Common.Order.{nat_ord}
use wrb.Common.Map.{lookup, insert, remove}
use wrb.Storage.Codec.{Result, ok, err}
use wrb.Ui.CharBuff.{CharBuff, CharCell, blank, fill, div_rem}
use wrb.Ui.Viewport.{Viewport, translate_coordinate, charcell_at}
use wrb.Ui.SceneGraph.{SceneGraph, viewport_at, ref_viewport, viewport_coords}

pub data ZBuffEntry : Type 0 where
  root_pane : ZBuffEntry
  viewport_entry : ℕ → ZBuffEntry

pub data WrbFormTypes : Type 0 where
  text_form print_form button_form checkbox_form text_line_form text_area_form : WrbFormTypes

abbrev pub as_u128 : WrbFormTypes → ℕ
as_u128 text_form = 4
as_u128 print_form = 5
as_u128 button_form = 6
as_u128 checkbox_form = 7
as_u128 text_line_form = 8
as_u128 text_area_form = 9

abbrev pub focusable : WrbFormTypes → Bool
focusable text_form = false
focusable print_form = false
focusable button_form = true
focusable checkbox_form = true
focusable text_line_form = true
focusable text_area_form = true

-- An event of the user interface, with the payload that a form gave.
pub record UiEvent (V : Type 0) : Type 0 where
  pub element_type : WrbFormTypes
  pub element_id : ℕ
  pub event_payload : V

pub record Root (F V : Type 0) : Type 0 where
  pub scenegraph : SceneGraph
  pub num_rows : ℕ
  pub num_cols : ℕ
  pub zbuff : Option (List ZBuffEntry)
  pub focused : Option ℕ
  pub focus_order : List (ℕ × ℕ)
  pub reverse_focus_order : List (ℕ × ℕ)
  pub focus_first : Option ℕ
  pub forms : List (ℕ × F)
  pub cursor : Option (ℕ × ℕ)
  pub runtime_events : List (UiEvent V)

-- The methods of a form that the root calls: what comes of it, the form then, and the root then.
pub record WrbForm (F V E K : Type 0) : Type 0 where
  pub type_id : F → WrbFormTypes
  pub element_id : F → ℕ
  pub focus : F → Root F V → Bool → Result E (Unit {0}) × (F × Root F V)
  pub handle_event : F → Root F V → K → Result E (Option V) × (F × Root F V)

abbrev pub entry_of : Option ℕ → ZBuffEntry
entry_of none = root_pane
entry_of (some viewport_id) = viewport_entry viewport_id

-- The inner loop of `make_zbuff`: `n` columns from `c`.
unfoldable pub zbuff_row : SceneGraph → ℕ → ℕ → ℕ → List ZBuffEntry
zbuff_row sg r c zero = []
zbuff_row sg r c (suc n) = entry_of (viewport_at sg r c true) ∷ zbuff_row sg r (suc c) n

-- The outer loop: `n` rows from `r`.
unfoldable pub zbuff_rows : SceneGraph → ℕ → ℕ → ℕ → List ZBuffEntry
unfolding zbuff_row
zbuff_rows sg num_cols r zero = []
zbuff_rows sg num_cols r (suc n) = zbuff_row sg r 0 num_cols ++ zbuff_rows sg num_cols (suc r) n

abbrev pub unwrap_or_blank : Option CharCell → CharCell
unwrap_or_blank none = blank
unwrap_or_blank (some cell) = cell

-- The cell of a viewport at a place that was translated.
abbrev pub cell_at : Viewport → Option (ℕ × ℕ) → CharCell
cell_at viewport none = blank
cell_at viewport (some (rel_row, rel_col)) = unwrap_or_blank (charcell_at viewport rel_row rel_col)

-- `saturating_sub` is the subtraction of natural numbers.
abbrev pub viewport_cell : Option Viewport → Option (ℕ × ℕ) → ℕ → ℕ → Option CharCell
viewport_cell none coords row col = none
viewport_cell (some viewport) none row col = none
viewport_cell (some viewport) (some (viewport_row, viewport_col)) row col = some (
    cell_at viewport (
      translate_coordinate viewport (viewport_row - viewport.start_row)
        (viewport_col - viewport.start_col) row col))

-- The body of the loop of `make_charbuff`.
abbrev pub shown_cell : SceneGraph → ZBuffEntry → Option (ℕ × ℕ) → Option CharCell
shown_cell sg root_pane none = none
shown_cell sg root_pane (some place) = some blank
shown_cell sg (viewport_entry viewport_id) none = none
shown_cell sg (viewport_entry viewport_id) (some (row, col)) =
    viewport_cell (ref_viewport sg viewport_id) (viewport_coords sg viewport_id) row col

abbrev pub push_cell : Option CharCell → Option (List CharCell) → Option (List CharCell)
push_cell none cells = none
push_cell (some cell) none = none
push_cell (some cell) (some cells) = some (cell ∷ cells)

-- The loop of `make_charbuff`, from the index `i`.
unfoldable pub shown_cells : SceneGraph → ℕ → ℕ → List ZBuffEntry → Option (List CharCell)
shown_cells sg num_cols i [] = some []
shown_cells sg num_cols i (vpe ∷ zbuff) =
    push_cell (shown_cell sg vpe (div_rem i num_cols)) (shown_cells sg num_cols (suc i) zbuff)

abbrev pub entry_id : Option ZBuffEntry → Option ℕ
entry_id none = none
entry_id (some root_pane) = none
entry_id (some (viewport_entry id)) = some id

module _ {F V : Type 0} where
  abbrev pub new : ℕ → ℕ → SceneGraph → Root F V
  new num_rows num_cols scenegraph = record {
    scenegraph = scenegraph;
    num_rows = num_rows;
    num_cols = num_cols;
    zbuff = none;
    focused = none;
    focus_order = [];
    reverse_focus_order = [];
    focus_first = none;
    forms = [];
    cursor = none;
    runtime_events = [];
  }

  unfoldable pub make_zbuff : Root F V → List ZBuffEntry
  unfolding zbuff_rows
  make_zbuff root = zbuff_rows root.scenegraph root.num_cols 0 root.num_rows

  -- `self.zbuff.take().unwrap_or(self.make_zbuff())`
  abbrev pub taken_zbuff : Option (List ZBuffEntry) → Root F V → List ZBuffEntry
  taken_zbuff none root = make_zbuff root
  taken_zbuff (some zbuff) root = zbuff

  abbrev pub with_cells :
      List ZBuffEntry → Root F V → Option (List CharCell) → Option (CharBuff × Root F V)
  with_cells zbuff root none = none
  with_cells zbuff root (some cells) =
      some (record { num_cols = root.num_cols; cells = cells }, record root { zbuff = some zbuff })

  -- The frame to render; `none` is a panic.
  unfoldable pub make_charbuff : Root F V → Option (CharBuff × Root F V)
  unfolding make_zbuff shown_cells
  make_charbuff root =
      let zbuff = taken_zbuff root.zbuff root in
      with_cells zbuff root (shown_cells root.scenegraph root.num_cols 0 zbuff)

  -- The viewport at a place, by the z-buffer.
  unfoldable pub find_viewport_id : Root F V → ℕ → ℕ → Option ℕ
  find_viewport_id root row col = elim root.zbuff [
    | none ↦ none
    | some zbuff ↦ entry_id (get_elem? zbuff (add_u64 (mul_u64 row root.num_cols) col))
  ]

  -- Set the cursor, by a place in a viewport.
  abbrev pub set_form_cursor : Root F V → ℕ → ℕ → ℕ → Root F V
  set_form_cursor root form_viewport_id row col = record root {
    cursor = elim (viewport_coords root.scenegraph form_viewport_id) [
      | none ↦ none
      | some (viewport_row, viewport_col) ↦
          some (add_u64 viewport_row row, add_u64 viewport_col col)
    ];
  }

  abbrev pub consume_runtime_events : Root F V → List (UiEvent V) × Root F V
  consume_runtime_events root = (root.runtime_events, record root { runtime_events = [] })
