-- ===== src/Ui/Root/Runs.antt =====
-- The theorems on `Root` and `SceneGraph` at concrete pages, and tests.
use mathlib.Core.Path.{subst}
use wrb.Common.{
  ==_iff, ℕ, true, Option, none, some, List, [], ◌∷◌, ◌≡◌, refl, arith, inl, inr, Bool-cases, ◌==◌,
  ==_iff,
}
use wrb.Common.Order.{nat_ord}
use wrb.Common.Map.{lookup, insert}
use wrb.Storage.Codec.{ok}
use wrb.Ui.Color.{Color}
use wrb.Ui.CharBuff.{CharBuff, CharCell, blank, fill}
use wrb.Ui.CharBuff
use wrb.Ui.Viewport.{Viewport}
use wrb.Ui.Viewport
use wrb.Ui.SceneGraph.{
  SceneGraph, viewport_at, ref_viewport, build_table, build_tree, place_all, build_hierarchy, walk,
  push_at, covers, search_back, search_levels,
}
use wrb.Ui.SceneGraph
use wrb.Ui.SceneGraph.Top.{viewport_at-IsSearch, IsSearch, in_order}
use wrb.Ui.Root.{Root, WrbForm, WrbFormTypes, button_form, make_charbuff, make_zbuff, ZBuffEntry}
use wrb.Ui.Root
use wrb.Ui.Root.Shown.{IsPlaced, IsFitting, frame, make_charbuff_lem}
use wrb.Ui.Root.Focus.{focus_ids, make_focus_order, next_focus, prev_focus}
use wrb.Ui.Root.Cycle.{IsDistinct}
use wrb.Ui.Root.Return.{prev_focus-next_focus, KeepsFocus}

abbrev black : Color
black = record { r = 0; g = 0; b = 0 }

abbrev cell_of : ℕ → CharCell
cell_of element_id = fill 65 black black element_id

-- A viewport of one row at the row 0 and the column 1.
abbrev strip : Viewport
strip = record (Viewport.new 7 0 1 1 2) {
  buff = record { num_cols = 2; cells = cell_of 1 ∷ (cell_of 2 ∷ []) };
}

abbrev strip_scene : SceneGraph
strip_scene = record {
  viewports = strip ∷ [];
  viewport_table = (7, 0) ∷ [];
  tree = (7, none) ∷ [];
  hierarchy = (7 ∷ []) ∷ [];
  coord_offsets = (7, (0, 1)) ∷ [];
}

strip_scene-new : SceneGraph.new (strip ∷ []) ≡ some strip_scene
unfolding SceneGraph.new insert lookup
strip_scene-new = refl

strip-IsFitting : IsFitting strip (0, 1)
strip-IsFitting = record {
  row = omega arith;
  end_row = omega arith;
  col = omega arith;
  end_col = omega arith;
}

strip_scene-IsPlaced : IsPlaced strip_scene
unfolding ref_viewport lookup
strip_scene-IsPlaced id v offset is_v is_offset = elim (Bool-cases (id == 7)) [
  | inl same ↦
      let at_v : strip ≡ v = cc (rw ((==_iff id 7).0 same) at is_v) in
      let at_offset : (0, 1) ≡ offset = cc (rw same at is_offset) in
      subst (λ x. IsFitting x offset) at_v (subst (IsFitting strip) at_offset strip-IsFitting)
  | inr other ↦ absurd (cc (rw other at is_offset))
]

abbrev page : Root ℕ (Unit {0})
page = Root.new 2 4 strip_scene

make_charbuff_lem_example :
    make_charbuff page
    ≡ some (
      record { num_cols = 4; cells = frame strip_scene 4 0 2 },
      record page { zbuff = some (make_zbuff page) },
    )
make_charbuff_lem_example = make_charbuff_lem page strip_scene-IsPlaced refl

-- the frame in full
page_frame :
    frame strip_scene 4 0 2
    ≡ blank ∷ cell_of 1 ∷ cell_of 2 ∷ blank ∷ blank ∷ blank ∷ blank ∷ blank ∷ []
unfolding viewport_at ref_viewport lookup Viewport.charcell_at CharBuff.charcell_at
page_frame = refl

viewport_at-IsSearch_example :
    IsSearch
      (covers strip_scene 0 1 true)
      (in_order strip_scene.hierarchy)
      (viewport_at strip_scene 0 1 true)
viewport_at-IsSearch_example = viewport_at-IsSearch strip_scene 0 1 true

-- A button is its element ID, and is told of the focus without more.
abbrev button : WrbForm ℕ (Unit {0}) (Unit {0}) (Unit {0})
button = record {
  type_id = λ f. button_form;
  element_id = λ f. f;
  focus = λ f root focused. (ok tt, (f, root));
  handle_event = λ f root event. (ok none, (f, root));
}

button-KeepsFocus : KeepsFocus button
button-KeepsFocus f root focused = (f, root, refl, (refl, refl, refl))

abbrev two_buttons : Root ℕ (Unit {0})
two_buttons = record page { forms = (1, 1) ∷ (2, 2) ∷ []; focused = some 2 }

abbrev shown_buttons : CharBuff
shown_buttons = record { num_cols = 4; cells = blank ∷ cell_of 1 ∷ cell_of 1 ∷ cell_of 2 ∷ [] }

two_buttons-IsDistinct : IsDistinct (focus_ids button two_buttons.forms none shown_buttons.cells)
unfolding focus_ids lookup
two_buttons-IsDistinct = ((refl, tt), (tt, tt))

after_second : lookup 2 (make_focus_order button two_buttons shown_buttons).focus_order ≡ some 1
unfolding make_focus_order focus_ids lookup insert
after_second = refl

prev_focus-next_focus_example :
    (there : Root ℕ (Unit {0})) × (back : Root ℕ (Unit {0})) × (next_focus button
        (make_focus_order button two_buttons shown_buttons)
      ≡ (ok tt, there))
    × (there.focused ≡ some 1)
    × (prev_focus button there ≡ (ok tt, back))
    × (back.focused ≡ some 2)
prev_focus-next_focus_example =
    prev_focus-next_focus button button-KeepsFocus two_buttons shown_buttons 2 1
      two_buttons-IsDistinct refl after_second

-- An element that stands before and after another, as one that is printed around it does: the
-- order goes from it to what is after its last place, and the other is never reached.
abbrev three_buttons : Root ℕ (Unit {0})
three_buttons = record page { forms = (1, 1) ∷ (2, 2) ∷ (3, 3) ∷ [] }

abbrev around : CharBuff
around = record { num_cols = 4; cells = cell_of 1 ∷ cell_of 2 ∷ cell_of 1 ∷ cell_of 3 ∷ [] }

around_skips :
    (make_focus_order button three_buttons around).focus_order ≡ (1, 3) ∷ (2, 1) ∷ (3, 1) ∷ []
unfolding make_focus_order focus_ids lookup insert
around_skips = refl

-- A viewport that stands before its parent, where the parent's parent is before both: it gets its
-- parent's level, and its parent is shown over it.
abbrev outer : Viewport
outer = Viewport.new 1 0 0 4 4

abbrev inner : Viewport
inner = Viewport.new_child 3 2 0 0 2 2

abbrev middle : Viewport
middle = Viewport.new_child 2 1 0 0 2 2

abbrev level_of : Option SceneGraph → List (List ℕ)
level_of none = []
level_of (some sg) = sg.hierarchy

parent_last : level_of (SceneGraph.new (outer ∷ inner ∷ middle ∷ [])) ≡ (1 ∷ []) ∷ (3 ∷ 2 ∷ []) ∷ []
unfolding SceneGraph.new insert lookup
parent_last = refl

parent_first :
    level_of (SceneGraph.new (outer ∷ middle ∷ inner ∷ [])) ≡ (1 ∷ []) ∷ (2 ∷ []) ∷ (3 ∷ []) ∷ []
unfolding SceneGraph.new insert lookup
parent_first = refl
