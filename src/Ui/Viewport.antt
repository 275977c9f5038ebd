-- ===== src/Ui/Viewport.antt =====
-- `Viewport` (src/ui/viewport.rs): a buffer at a place of the page, with the upper left corner of
-- each element that prints to it. `none` is a panic, but where the code returns an option.
pub mod Coordinates
use wrb.Common.{
  ℕ, ◌+◌, ◌-◌, Bool, true, false, Option, none, some, List, [], ltb, leb, if◌then◌else◌, min,
  add_u64, ◌||◌,
}
use wrb.Common.Order.{nat_ord}
use wrb.Common.Map.{lookup, insert}
use wrb.Ui.CharBuff.{CharBuff, CharCell, blank, fill, Style, dump_charbuff}
use wrb.Ui.CharBuff
use wrb.Ui.CharBuff.Wrap

pub record Viewport : Type 0 where
  pub id : ℕ
  -- position in the root
  pub start_row : ℕ
  pub start_col : ℕ
  pub num_rows : ℕ
  pub scroll_offset : ℕ
  pub visible : Bool
  pub parent : Option ℕ
  pub prev_viewport : Option ℕ
  pub buff : CharBuff
  -- upper-left corners of each UI element
  pub element_coords : List (ℕ × (ℕ × ℕ))

abbrev pub new : ℕ → ℕ → ℕ → ℕ → ℕ → Viewport
new id start_row start_col num_rows num_cols = record {
  id = id;
  start_row = start_row;
  start_col = start_col;
  num_rows = num_rows;
  scroll_offset = 0;
  visible = true;
  parent = none;
  prev_viewport = none;
  buff = CharBuff.new num_cols;
  element_coords = [];
}

abbrev pub new_child : ℕ → ℕ → ℕ → ℕ → ℕ → ℕ → Viewport
new_child id parent_id start_row start_col num_rows num_cols =
    record (new id start_row start_col num_rows num_cols) { parent = some parent_id }

abbrev pub pos : Viewport → ℕ × ℕ
pos v = (v.start_row, v.start_col)

abbrev pub dims : Viewport → ℕ × ℕ
dims v = (v.num_rows, v.buff.num_cols)

-- The corner of an element that prints at a place.
abbrev pub corner : Option (ℕ × ℕ) → ℕ → ℕ → ℕ × ℕ
corner none start_row start_col = (start_row, start_col)
corner (some (r, c)) start_row start_col = (min r start_row, min c start_col)

unfoldable pub update_element_coord : Viewport → ℕ → ℕ → ℕ → Viewport
update_element_coord v element_id start_row start_col = record v {
  element_coords =
      insert element_id (corner (lookup element_id v.element_coords) start_row start_col)
        v.element_coords;
}

-- What a printing of the buffer leaves in the viewport.
abbrev pub with_buff : Viewport → Option (CharBuff × ℕ × ℕ) → Option (Viewport × ℕ × ℕ)
with_buff v none = none
with_buff v (some (b, row, col)) = some (record v { buff = b }, row, col)

unfoldable pub print_to : Viewport → Style → ℕ → ℕ → List ℕ → Option (Viewport × ℕ × ℕ)
unfolding update_element_coord
print_to v s start_row start_col text =
    with_buff (update_element_coord v s.element_id start_row start_col)
      (CharBuff.print_at v.buff s start_row start_col text)

unfoldable pub print : Viewport → Style → ℕ → ℕ → List ℕ → Option (Viewport × ℕ × ℕ)
unfolding update_element_coord
print v s start_row start_col text =
    with_buff (update_element_coord v s.element_id start_row start_col)
      (Wrap.print v.buff s start_row start_col text)

unfoldable pub println : Viewport → Style → ℕ → ℕ → List ℕ → Option (Viewport × ℕ × ℕ)
unfolding update_element_coord
println v s start_row start_col text =
    with_buff (update_element_coord v s.element_id start_row start_col)
      (Wrap.println v.buff s start_row start_col text)

unfoldable pub print_iter : Viewport → Style → ℕ → ℕ → List ℕ → Option (Viewport × ℕ × ℕ)
unfolding update_element_coord
print_iter v s start_row start_col text =
    with_buff (update_element_coord v s.element_id start_row start_col)
      (Wrap.print_iter v.buff s start_row start_col text)

unfoldable pub print_at_iter : Viewport → Style → ℕ → ℕ → List ℕ → Option (Viewport × ℕ × ℕ)
unfolding update_element_coord
print_at_iter v s start_row start_col text =
    with_buff (update_element_coord v s.element_id start_row start_col)
      (CharBuff.print_at_iter v.buff s start_row start_col text)

-- The bounding box check of `translate_coordinate`.
abbrev pub outside : Viewport → ℕ → ℕ → ℕ → ℕ → Bool
outside v viewport_abs_row viewport_abs_col abs_row abs_col =
    ltb abs_row (add_u64 v.start_row viewport_abs_row)
    || (leb (add_u64 (add_u64 v.start_row viewport_abs_row) v.num_rows) abs_row
        || (ltb abs_col (add_u64 v.start_col viewport_abs_col)
            || leb (add_u64 (add_u64 v.start_col viewport_abs_col) v.buff.num_cols) abs_col))

abbrev pub checked_sub : ℕ → ℕ → Option ℕ
checked_sub a b = if ltb a b then none else some (a - b)

abbrev pub both : Option ℕ → Option ℕ → Option (ℕ × ℕ)
both none c = none
both (some r) none = none
both (some r) (some c) = some (r, c)

-- The place in the viewport of an absolute place, by the absolute place of its parent.
unfoldable pub translate_coordinate : Viewport → ℕ → ℕ → ℕ → ℕ → Option (ℕ × ℕ)
translate_coordinate v viewport_abs_row viewport_abs_col abs_row abs_col =
    if outside v viewport_abs_row viewport_abs_col abs_row abs_col
    then none
    else both (checked_sub abs_row (add_u64 v.start_row viewport_abs_row))
        (checked_sub abs_col (add_u64 v.start_col viewport_abs_col))

abbrev pub in_element : ℕ → Option (ℕ × ℕ) → Option (ℕ × ℕ × ℕ)
in_element element_id none = none
in_element element_id (some (row, col)) = some (element_id, row, col)

-- The place in an element of a place of the viewport.
abbrev pub from_corner : ℕ → ℕ → ℕ → Option (ℕ × ℕ) → Option (ℕ × ℕ × ℕ)
from_corner element_id row col none = none
from_corner element_id row col (some (ui_row, ui_col)) =
    in_element element_id (both (checked_sub row ui_row) (checked_sub col ui_col))

abbrev pub cell_coordinate : List (ℕ × (ℕ × ℕ)) → ℕ → ℕ → Option CharCell → Option (ℕ × ℕ × ℕ)
cell_coordinate coords row col none = none
cell_coordinate coords row col (some blank) = none
cell_coordinate coords row col (some (fill value bg fg element_id)) =
    from_corner element_id row col (lookup element_id coords)

unfoldable pub get_ui_coordinate : Viewport → ℕ → ℕ → Option (ℕ × ℕ × ℕ)
get_ui_coordinate v row col =
    cell_coordinate v.element_coords row col (CharBuff.charcell_at v.buff row col)

-- The cell at a place relative to what is scrolled to.
unfoldable pub charcell_at : Viewport → ℕ → ℕ → Option CharCell
charcell_at v rel_row rel_col =
    if leb v.num_rows (add_u64 rel_row v.scroll_offset)
    then none
    else CharBuff.charcell_at v.buff (add_u64 rel_row v.scroll_offset) rel_col

abbrev pub set_visible : Viewport → Bool → Viewport
set_visible v visible = record v { visible = visible }

abbrev pub clear : Viewport → Viewport
clear v = record v { buff = CharBuff.clear v.buff }

-- The settings of a newly loaded viewport, with no contents.
abbrev pub merge_update : Viewport → Viewport → Viewport
merge_update v w = record v {
  start_row = w.start_row;
  start_col = w.start_col;
  num_rows = w.num_rows;
  visible = w.visible;
  buff = CharBuff.new w.buff.num_cols;
}

abbrev pub dump_viewport : Viewport → List ℕ
dump_viewport v = dump_charbuff v.buff v.num_rows
