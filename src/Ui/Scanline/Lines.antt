-- ===== src/Ui/Scanline/Lines.antt =====
-- What the scan leaves on the screen where a row begins.
use wrb.Common.{
  ◌++◌, ◌∷◌, if◌then◌else◌, ltb, [], ℕ, Option, none, some, ◌≡◌, refl, ap, ◌∙◌, sym, Bool-cases,
  inl, inr, false,
}
use wrb.Ui.Color.{Color}
use wrb.Ui.Scanline.{
  clear_line, newline, push, start_line, reset_color, next_line, carry_bg, carry_fg, fg_color,
  bg_color, Scan, finish_string,
}
use wrb.Ui.Scanline.Screen.{
  step, erase_row, erase_row-push, line_break, Screen, shown, shown-finish_string, shown-push,
}
use wrb.Ui.Scanline.Steps.{Agrees, Leads}

-- A scan with the same variables, but for the commands and the string.
abbrev Same : Scan → Scan → Type 0
Same st st' =
    (st'.cur_fg_color ≡ st.cur_fg_color)
    × (st'.cur_bg_color ≡ st.cur_bg_color)
    × (st'.in_blank ≡ st.in_blank)
    × (st'.cur_str ≡ st.cur_str)

carry_fg-Same : (o : Option Color) (st : Scan) → Same st (carry_fg o st)
carry_fg-Same none st = (refl, refl, refl, refl)
carry_fg-Same (some c) st = (refl, refl, refl, refl)

carry_bg-Same : (o : Option Color) (st : Scan) → Same st (carry_bg o st)
carry_bg-Same none st = (refl, refl, refl, refl)
carry_bg-Same (some c) st = (refl, refl, refl, refl)

next_line-Same : (i : ℕ) (st : Scan) → Same st (next_line i st)
next_line-Same i st = elim (Bool-cases (ltb 0 i)) [
  | inl e ↦ rw e (refl, refl, refl, refl)
  | inr e ↦ rw e (refl, refl, refl, refl)
]

shown-carry_fg :
    (o : Option Color) (st : Scan)
    → st.cur_str ≡ []
    → (o ≡ none → (shown st).fg ≡ none)
    → shown (carry_fg o st) ≡ record (shown st) { fg = o }
shown-carry_fg none st e h = λ i. record (shown st) { fg = h refl i }
shown-carry_fg (some c) st e h = shown-push (fg_color c) st e

shown-carry_bg :
    (o : Option Color) (st : Scan)
    → st.cur_str ≡ []
    → (o ≡ none → (shown st).bg ≡ none)
    → shown (carry_bg o st) ≡ record (shown st) { bg = o }
shown-carry_bg none st e h = λ i. record (shown st) { bg = h refl i }
shown-carry_bg (some c) st e h = shown-push (bg_color c) st e

-- A new line begins, unless it is the first.
abbrev next_row : ℕ → Screen → Screen
next_row i sc = record sc { out = if ltb 0 i then sc.out ++ (line_break ∷ []) else sc.out }

-- The screen after the commands that end a row, before the colors are set again.
abbrev pub line_screen : ℕ → Screen → Screen
line_screen i sc = if ltb 0 i then record (next_row i sc) { fg = none; bg = none } else sc

shown-next_line :
    (i : ℕ) (st : Scan) → st.cur_str ≡ [] → shown (next_line i st) ≡ line_screen i (shown st)
shown-next_line i st e = elim (Bool-cases (ltb 0 i)) [
  | inl later ↦ rw later (
      shown-push reset_color (push newline st) e
      ∙ ap (λ (sc : Screen). record sc { fg = none; bg = none }) (shown-push newline st e))
  | inr first ↦ rw first refl
]

-- The colors after a line begins, and its output.
line_colors :
    (i : ℕ) (sc : Screen)
    → (sc.fg ≡ none → (line_screen i sc).fg ≡ none)
      × (sc.bg ≡ none → (line_screen i sc).bg ≡ none)
      × ((line_screen i sc).out ≡ (next_row i sc).out)
line_colors i sc = elim (Bool-cases (ltb 0 i)) [
  | inl later ↦ rw later ((λ h. refl), (λ h. refl), refl)
  | inr first ↦ rw first ((λ h. h), (λ h. h), refl)
]

-- Clearing the line where a row begins erases nothing.
erase-line_screen :
    (i : ℕ) (sc : Screen)
    → (ltb 0 i ≡ false → sc.out ≡ [])
    → step (line_screen i sc) clear_line ≡ line_screen i sc
unfolding erase_row
erase-line_screen i sc h = elim (Bool-cases (ltb 0 i)) [
  | inl later ↦
      rw later (λ k. record (record sc { fg = none; bg = none }) { out = erase_row-push sc.out k })
  | inr first ↦ rw first (λ k. record sc { out = (ap erase_row (h first) ∙ sym (h first)) k })
]

pub start_line_lem :
    (i : ℕ) (st : Scan)
    → Agrees st
    → (ltb 0 i ≡ false → (shown st).out ≡ [])
    → Leads (start_line i st) (next_row i (shown st))
unfolding start_line
start_line_lem i st a top =
    let fin = finish_string st in
    let nl = next_line i fin in
    let n = next_line-Same i fin in
    let cl = push clear_line nl in
    let cf = carry_fg st.cur_fg_color cl in
    let f = carry_fg-Same st.cur_fg_color cl in
    let b = carry_bg-Same st.cur_bg_color cf in
    let line : shown nl ≡ line_screen i (shown st) =
      shown-next_line i fin refl ∙ ap (line_screen i) (shown-finish_string st) in
    let cleared : shown cl ≡ shown nl =
      shown-push clear_line nl n.3
      ∙ ap (λ (sc : Screen). step sc clear_line) line
      ∙ erase-line_screen i (shown st) top
      ∙ sym line in
    let colors = line_colors i (shown st) in
    let fg_set : shown cf ≡ record (shown nl) { fg = st.cur_fg_color } =
      shown-carry_fg st.cur_fg_color cl n.3
        (λ h. ap (λ (sc : Screen). sc.fg) (cleared ∙ line) ∙ colors.0 (a.fg ∙ h))
      ∙ ap (λ (sc : Screen). record sc { fg = st.cur_fg_color }) cleared in
    let e : shown (carry_bg st.cur_bg_color cf) ≡ next_row i (shown st) =
      shown-carry_bg st.cur_bg_color cf (f.3 ∙ n.3) (λ h.
        ap (λ (sc : Screen). sc.bg)
          (fg_set ∙ ap (λ (sc : Screen). record sc { fg = st.cur_fg_color }) line)
        ∙ colors.1 (a.bg ∙ h))
      ∙ ap (λ (sc : Screen). record sc { bg = st.cur_bg_color })
          (fg_set ∙ ap (λ (sc : Screen). record sc { fg = st.cur_fg_color }) line)
      ∙ (λ k. record (next_row i (shown st)) {
        out = colors.2 k;
        fg = (sym a.fg) k;
        bg = (sym a.bg) k;
      }) in
    (
      e,
      record {
        fg = ap (λ (sc : Screen). sc.fg) e ∙ a.fg ∙ sym (b.0 ∙ f.0 ∙ n.0);
        bg = ap (λ (sc : Screen). sc.bg) e ∙ a.bg ∙ sym (b.1 ∙ f.1 ∙ n.1);
        blank_fg = λ h. (b.0 ∙ f.0 ∙ n.0) ∙ a.blank_fg (sym (b.2 ∙ f.2 ∙ n.2) ∙ h);
        blank_bg = λ h. (b.1 ∙ f.1 ∙ n.1) ∙ a.blank_bg (sym (b.2 ∙ f.2 ∙ n.2) ∙ h);
      },
    )
