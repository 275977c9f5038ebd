-- ===== src/Ui/Scanline/Steps.antt =====
-- What the steps of the scan at a cell leave on the screen.
use wrb.Common.{
  true, false, [], ◌++◌, ◌∷◌, ℕ, Option, none, some, ◌≡◌, refl, ap, ◌∙◌, sym, Bool-cases, inl, inr,
}
use mathlib.Core.Bool.{false, false≢true}
use wrb.Ui.Color.{Color, color_eq, color_eq_sound}
use wrb.Ui.CharBuff.{CharCell, blank, fill}
use wrb.Ui.Scanline.{
  reset_color, enter_blank, compile_cell, push_char, compile_fill, compile_blank, fg_color,
  bg_color, Scan, finish_string, leave_blank, set_fg, set_bg, change_fg, change_bg,
}
use wrb.Ui.Scanline.Screen.{
  show_char, shown-push_char, Shown, glyph, Screen, shown, shown-finish_string, shown-push,
}

-- The colors of the scan are the screen's; a blank has none.
pub record Agrees (st : Scan) : Type 0 where
  pub fg : (shown st).fg ≡ st.cur_fg_color
  pub bg : (shown st).bg ≡ st.cur_bg_color
  pub blank_fg : st.in_blank ≡ true → st.cur_fg_color ≡ none
  pub blank_bg : st.in_blank ≡ true → st.cur_bg_color ≡ none

shown-change_fg :
    (c : Color) (st : Scan) → shown (change_fg c st) ≡ record (shown st) { fg = some c }
shown-change_fg c st =
    shown-push (fg_color c) (finish_string st) refl
    ∙ ap (λ (sc : Screen). record sc { fg = some c }) (shown-finish_string st)

shown-change_bg :
    (c : Color) (st : Scan) → shown (change_bg c st) ≡ record (shown st) { bg = some c }
shown-change_bg c st =
    shown-push (bg_color c) (finish_string st) refl
    ∙ ap (λ (sc : Screen). record sc { bg = some c }) (shown-finish_string st)

shown-set_fg :
    (c : Color) (o : Option Color) (st : Scan)
    → (shown st).fg ≡ o
    → shown (set_fg c o st) ≡ record (shown st) { fg = some c }
shown-set_fg c none st e = shown-change_fg c st
shown-set_fg c (some d) st e = elim (Bool-cases (color_eq c d)) [
  | inl same ↦
      rw same (λ i. record (shown st) { fg = (e ∙ ap some (sym (color_eq_sound c d same))) i })
  | inr other ↦ rw other (shown-change_fg c st)
]

shown-set_bg :
    (c : Color) (o : Option Color) (st : Scan)
    → (shown st).bg ≡ o
    → shown (set_bg c o st) ≡ record (shown st) { bg = some c }
shown-set_bg c none st e = shown-change_bg c st
shown-set_bg c (some d) st e = elim (Bool-cases (color_eq c d)) [
  | inl same ↦
      rw same (λ i. record (shown st) { bg = (e ∙ ap some (sym (color_eq_sound c d same))) i })
  | inr other ↦ rw other (shown-change_bg c st)
]

shown-leave_blank : (st : Scan) → shown (leave_blank st) ≡ shown st
shown-leave_blank st = elim (Bool-cases st.in_blank) [
  | inl b ↦ simp b (shown-finish_string st)
  | inr b ↦ simp b refl
]

-- what a cell shows
abbrev pub cell_shown : CharCell → Shown
cell_shown blank = glyph 32 none none
cell_shown (fill value bg fg element_id) = glyph value (some fg) (some bg)

-- What the steps leave in the scan's own variables.
set_fg_state :
    (c : Color) (o : Option Color) (st : Scan)
    → ((set_fg c o st).cur_fg_color ≡ some c)
      × ((set_fg c o st).cur_bg_color ≡ st.cur_bg_color)
      × ((set_fg c o st).in_blank ≡ st.in_blank)
set_fg_state c none st = (refl, refl, refl)
set_fg_state c (some d) st = elim (Bool-cases (color_eq c d)) [
  | inl e ↦ rw e (refl, refl, refl)
  | inr e ↦ rw e (refl, refl, refl)
]

set_bg_state :
    (c : Color) (o : Option Color) (st : Scan)
    → ((set_bg c o st).cur_bg_color ≡ some c)
      × ((set_bg c o st).cur_fg_color ≡ st.cur_fg_color)
      × ((set_bg c o st).in_blank ≡ st.in_blank)
set_bg_state c none st = (refl, refl, refl)
set_bg_state c (some d) st = elim (Bool-cases (color_eq c d)) [
  | inl e ↦ rw e (refl, refl, refl)
  | inr e ↦ rw e (refl, refl, refl)
]

leave_blank_state :
    (st : Scan)
    → ((leave_blank st).cur_fg_color ≡ st.cur_fg_color)
      × ((leave_blank st).cur_bg_color ≡ st.cur_bg_color)
      × ((leave_blank st).in_blank ≡ false)
leave_blank_state st = elim (Bool-cases st.in_blank) [
  | inl e ↦ simp e (refl, refl, refl)
  | inr e ↦ simp e (refl, refl, refl)
]

-- The screen with a cell more.
abbrev pub with_cell : Screen → CharCell → Screen
with_cell sc blank = record { out = sc.out ++ (glyph 32 none none ∷ []); fg = none; bg = none }
with_cell sc (fill value bg fg element_id) = record {
  out = sc.out ++ (glyph value (some fg) (some bg) ∷ []);
  fg = some fg;
  bg = some bg;
}

-- How a step changes what is shown, and that the scan's colors are the screen's again.
abbrev pub Leads : Scan → Screen → Type 0
Leads st sc = (shown st ≡ sc) × Agrees st

compile_fill_lem :
    (value : ℕ) (bg fg : Color) (id : ℕ) (st : Scan)
    → Agrees st
    → Leads (compile_fill value bg fg st) (with_cell (shown st) (fill value bg fg id))
unfolding compile_fill
compile_fill_lem value bg fg id st a =
    let left = leave_blank st in
    let l = leave_blank_state st in
    let fs = set_fg fg left.cur_fg_color left in
    let f = set_fg_state fg left.cur_fg_color left in
    let bs = set_bg bg fs.cur_bg_color fs in
    let g = set_bg_state bg fs.cur_bg_color fs in
    let e₁ : shown left ≡ shown st = shown-leave_blank st in
    let e₂ : shown fs ≡ record (shown st) { fg = some fg } =
      shown-set_fg fg left.cur_fg_color left (ap (λ (sc : Screen). sc.fg) e₁ ∙ a.fg ∙ sym l.0)
      ∙ ap (λ (sc : Screen). record sc { fg = some fg }) e₁ in
    let e₃ : shown bs ≡ record (shown st) { fg = some fg; bg = some bg } =
      shown-set_bg bg fs.cur_bg_color fs (ap (λ (sc : Screen). sc.bg) e₂ ∙ a.bg ∙ sym (f.1 ∙ l.1))
      ∙ ap (λ (sc : Screen). record sc { bg = some bg }) e₂ in
    let e : shown (push_char value bs) ≡ with_cell (shown st) (fill value bg fg id) =
      shown-push_char value bs ∙ ap (λ (sc : Screen). show_char sc value) e₃ in
    (
      e,
      record {
        fg = ap (λ (sc : Screen). sc.fg) e ∙ sym (g.1 ∙ f.0);
        bg = ap (λ (sc : Screen). sc.bg) e ∙ sym g.0;
        blank_fg = λ b. absurd (false≢true (sym (g.2 ∙ f.2 ∙ l.2) ∙ b));
        blank_bg = λ b. absurd (false≢true (sym (g.2 ∙ f.2 ∙ l.2) ∙ b));
      },
    )

shown-enter_blank :
    (st : Scan) → Agrees st → shown (enter_blank st) ≡ record (shown st) { fg = none; bg = none }
shown-enter_blank st a = elim (Bool-cases st.in_blank) [
  | inl b ↦
      simp b (λ i. record (shown st) { fg = (a.fg ∙ a.blank_fg b) i; bg = (a.bg ∙ a.blank_bg b) i })
  | inr b ↦ simp b (
      shown-push reset_color (record (finish_string st) { in_blank = true }) refl
      ∙ ap (λ (sc : Screen). record sc { fg = none; bg = none }) (shown-finish_string st))
]

compile_blank_lem : (st : Scan) → Agrees st → Leads (compile_blank st) (with_cell (shown st) blank)
unfolding compile_blank
compile_blank_lem st a =
    let e : shown (compile_blank st) ≡ with_cell (shown st) blank =
      shown-push_char 32 (enter_blank st)
      ∙ ap (λ (sc : Screen). show_char sc 32) (shown-enter_blank st a) in
    (
      e,
      record {
        fg = ap (λ (sc : Screen). sc.fg) e;
        bg = ap (λ (sc : Screen). sc.bg) e;
        blank_fg = λ b. refl;
        blank_bg = λ b. refl;
      },
    )

pub compile_cell_lem :
    (c : CharCell) (st : Scan) → Agrees st → Leads (compile_cell c st) (with_cell (shown st) c)
compile_cell_lem blank st a = compile_blank_lem st a
compile_cell_lem (fill value bg fg id) st a = compile_fill_lem value bg fg id st a
