-- ===== src/Ui/Forms/Runs.antt =====
-- The theorem on `TextLine` at a concrete line, and tests.
use wrb.Common.{true, false, Option, none, some, List, [], ◌∷◌, ◌≡◌, refl, arith}
use wrb.Ui.Color.{Color}
use wrb.Ui.GapBuffer.{str_len}
use wrb.Ui.Forms.{
  TextLine, key_left, key_end, key_char, handle_key, write_char, Checkbox, CheckboxOption,
  checkbox_key,
}
use wrb.Ui.Forms.Editor.{Editor, IsAscii, shows, edit}
use wrb.Ui.Forms.Edits.{handle_key_lem}

abbrev black : Color
black = record { r = 0; g = 0; b = 0 }

abbrev line : TextLine
line = record {
  element_id = 1;
  viewport_id = 7;
  row = 0;
  col = 0;
  cursor = 0;
  bg_color = black;
  fg_color = black;
  focused_bg_color = black;
  focused_fg_color = black;
  inner_text = [];
  max_len = 8;
  insert = true;
}

-- `ab` with the cursor between the two
abbrev in_ab : Editor
in_ab = record { before = 97 ∷ []; after = 98 ∷ []; insert = true }

in_ab-IsAscii : IsAscii 8 in_ab
in_ab-IsAscii = record {
  before = (omega arith, tt);
  after = (omega arith, tt);
  short = omega arith;
}

handle_key_lem_example :
    handle_key (shows line in_ab) (key_char 99) ≡ shows line (edit 8 (key_char 99) in_ab)
handle_key_lem_example = handle_key_lem line in_ab (key_char 99) in_ab-IsAscii

typed_between : (handle_key (shows line in_ab) (key_char 99)).inner_text ≡ 97 ∷ 99 ∷ 98 ∷ []
unfolding handle_key str_len write_char
typed_between = refl

-- With one character of two bytes, the end is past the text, and after a step to the left, where the
-- end is, what is typed is lost, though the cursor moves.
abbrev wide : TextLine
wide = record line { inner_text = 0xe9 ∷ [] }

abbrev at_end : TextLine
at_end = handle_key (handle_key wide key_end) key_left

lost : (handle_key at_end (key_char 97)).inner_text ≡ 0xe9 ∷ []
unfolding handle_key str_len write_char
lost = refl

lost_moves : (handle_key at_end (key_char 97)).cursor ≡ 2
unfolding handle_key str_len write_char
lost_moves = refl

abbrev one_option : Checkbox
one_option = record {
  element_id = 2;
  viewport_id = 7;
  row = 0;
  col = 0;
  bg_color = black;
  fg_color = black;
  focused_bg_color = black;
  focused_fg_color = black;
  selector_color = black;
  options = record { text = []; selected = false } ∷ [];
  selector = 0;
}

abbrev selected_first : Option Checkbox → List CheckboxOption
selected_first none = []
selected_first (some b) = b.options

toggled :
    selected_first (checkbox_key one_option (key_char 32))
    ≡ record { text = []; selected = true } ∷ []
unfolding checkbox_key
toggled = refl

-- a checkbox without options panics
no_options : checkbox_key (record one_option { options = [] }) (key_char 32) ≡ none
unfolding checkbox_key
no_options = refl
