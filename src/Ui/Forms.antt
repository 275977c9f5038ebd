-- ===== src/Ui/Forms.antt =====
-- The forms that take keys, but the text area: `TextLine`, `Checkbox` and `Button`
-- (src/ui/forms/textline.rs, src/ui/forms/checkbox.rs and src/ui/forms/button.rs), as forms of the
-- root. A text is the list of its characters, and its `len` the number of its bytes.
pub mod Editor
pub mod Edits
mod Runs
use wrb.Common.{
  ℕ, zero, suc, ◌+◌, ◌-◌, Bool, true, false, not, ◌&&◌, ◌||◌, Option, none, some, List, [], ◌∷◌,
  ◌++◌, ◌==◌, ltb, if◌then◌else◌, min, add_u64, length,
}
use wrb.Storage.Codec.{Result, ok, err}
use wrb.Ui.Color.{Color}
use wrb.Ui.GapBuffer.{str_len}
use wrb.Ui.Root.{
  Root, WrbForm, WrbFormTypes, button_form, checkbox_form, text_line_form, set_form_cursor,
}

-- `termion::event::Key`, as far as the forms tell keys apart
pub data Key : Type 0 where
  key_left key_right key_up key_down key_backspace key_delete key_insert key_home key_end : Key
  key_char : ℕ → Key
  key_ctrl : ℕ → Key
  key_other : ℕ → Key

pub record TextLine : Type 0 where
  pub element_id : ℕ
  pub viewport_id : ℕ
  pub row : ℕ
  pub col : ℕ
  pub cursor : ℕ
  pub bg_color : Color
  pub fg_color : Color
  pub focused_bg_color : Color
  pub focused_fg_color : Color
  pub inner_text : List ℕ
  pub max_len : ℕ
  pub insert : Bool

-- The text without the character of an index.
unfoldable pub remove_char : ℕ → List ℕ → List ℕ
remove_char i [] = []
remove_char zero (chr ∷ text) = text
remove_char (suc i) (chr ∷ text) = chr ∷ remove_char i text

-- The text with `c` at an index, before the character there or in its place. Past the end nothing
-- is written.
unfoldable pub write_char : ℕ → ℕ → Bool → List ℕ → List ℕ
write_char i c insert [] = []
write_char zero c insert (chr ∷ text) = if insert then c ∷ (chr ∷ text) else c ∷ text
write_char (suc i) c insert (chr ∷ text) = chr ∷ write_char i c insert text

abbrev pub backspace : TextLine → TextLine
backspace t =
    if ltb 0 t.cursor
    then record t { inner_text = remove_char (t.cursor - 1) t.inner_text; cursor = t.cursor - 1 }
    else t

abbrev pub delete : TextLine → TextLine
delete t =
    if ltb t.cursor (str_len t.inner_text)
    then record t { inner_text = remove_char t.cursor t.inner_text }
    else t

abbrev pub type_char : TextLine → ℕ → TextLine
type_char t c =
    if c == 10 || c == 13
    then t
    else (if t.cursor == str_len t.inner_text && ltb (str_len t.inner_text) t.max_len
        then record t { inner_text = t.inner_text ++ (c ∷ []); cursor = t.cursor + 1 }
        else (if ltb (str_len t.inner_text) t.max_len
            then record t {
              inner_text = write_char t.cursor c t.insert t.inner_text;
              cursor = t.cursor + 1;
            }
            else t))

-- The match of `handle_event`. `Ctrl('h')` is a backspace and `Ctrl('?')` a delete.
unfoldable pub handle_key : TextLine → Key → TextLine
handle_key t key_left = record t { cursor = t.cursor - 1 }
handle_key t key_right = record t {
  cursor = min (min (t.cursor + 1) (str_len t.inner_text)) t.max_len;
}
handle_key t key_backspace = backspace t
handle_key t key_delete = delete t
handle_key t key_insert = record t { insert = not t.insert }
handle_key t key_home = record t { cursor = 0 }
handle_key t key_end = record t { cursor = str_len t.inner_text }
handle_key t (key_char c) = type_char t c
handle_key t (key_ctrl c) = if c == 104 then backspace t else (if c == 63 then delete t else t)
handle_key t key_up = t
handle_key t key_down = t
handle_key t (key_other k) = t

abbrev pub same_id : Option ℕ → ℕ → Bool
same_id none id = false
same_id (some focused) id = focused == id

module _ {F V : Type 0} where
  abbrev pub is_focused : Root F V → ℕ → Bool
  is_focused root element_id = same_id root.focused element_id

  -- `focus` of a text line
  abbrev pub focus_text_line : TextLine → Root F V → Bool → Root F V
  focus_text_line t root focused =
      if focused then set_form_cursor root t.viewport_id t.row (add_u64 t.col t.cursor) else root

  -- `handle_event` of a text line: no event comes of it.
  abbrev pub text_line_event : TextLine → Root F V → Key → TextLine × Root F V
  text_line_event t root key =
      let t' = handle_key t key in (t', focus_text_line t' root (is_focused root t.element_id))

pub record CheckboxOption : Type 0 where
  pub text : List ℕ
  pub selected : Bool

pub record Checkbox : Type 0 where
  pub element_id : ℕ
  pub viewport_id : ℕ
  pub row : ℕ
  pub col : ℕ
  pub bg_color : Color
  pub fg_color : Color
  pub focused_bg_color : Color
  pub focused_fg_color : Color
  pub selector_color : Color
  pub options : List CheckboxOption
  pub selector : ℕ

-- `self.options[i].selected = !self.options[i].selected`; `none` is a panic.
unfoldable pub toggle : ℕ → List CheckboxOption → Option (List CheckboxOption)
toggle i [] = none
toggle zero (o ∷ options) = some (record o { selected = not o.selected } ∷ options)
toggle (suc i) (o ∷ options) = elim (toggle i options) [ none ↦ none | some rest ↦ some (o ∷ rest) ]

abbrev pub with_options : Checkbox → Option (List CheckboxOption) → Option Checkbox
with_options b none = none
with_options b (some options) = some (record b { options = options })

-- `handle_event` of a checkbox, for its own state.
unfoldable pub checkbox_key : Checkbox → Key → Option Checkbox
unfolding toggle
checkbox_key b key_up = some (record b { selector = b.selector - 1 })
checkbox_key b key_down = some (record b { selector = min (b.selector + 1) (length b.options - 1) })
checkbox_key b (key_char c) =
    if c == 10 || c == 32 then with_options b (toggle b.selector b.options) else some b
checkbox_key b key_left = some b
checkbox_key b key_right = some b
checkbox_key b key_backspace = some b
checkbox_key b key_delete = some b
checkbox_key b key_insert = some b
checkbox_key b key_home = some b
checkbox_key b key_end = some b
checkbox_key b (key_ctrl c) = some b
checkbox_key b (key_other k) = some b

-- Whether a button that gets a key has been pressed.
abbrev pub button_pressed : Key → Bool
button_pressed (key_char c) = c == 10
button_pressed key_up = false
button_pressed key_down = false
button_pressed key_left = false
button_pressed key_right = false
button_pressed key_backspace = false
button_pressed key_delete = false
button_pressed key_insert = false
button_pressed key_home = false
button_pressed key_end = false
button_pressed (key_ctrl c) = false
button_pressed (key_other k) = false
