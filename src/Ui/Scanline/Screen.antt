-- ===== src/Ui/Scanline/Screen.antt =====
-- What a screen shows when it is given drawing commands.
use wrb.Common.{
  ℕ, Bool, true, false, if◌then◌else◌, Option, none, some, List, [], ◌∷◌, ◌++◌, ◌≡◌, refl, ap, ◌∙◌,
  sym, append-nil, append_assoc,
}
use wrb.Ui.Color.{Color}
use wrb.Ui.Scanline.{
  push_char, Scanline, fg_color, bg_color, text, newline, clear_line, reset_color, Scan, push,
  finish_cmds, finish_string,
}

-- A character in its colors, `none` where a color is the terminal's own; a place whose character
-- was erased; or the end of a row.
pub data Shown : Type 0 where
  glyph : ℕ → Option Color → Option Color → Shown
  erased : Shown
  line_break : Shown

-- what is shown, and the colors that are set
pub record Screen : Type 0 where
  pub out : List Shown
  pub fg : Option Color
  pub bg : Option Color

abbrev pub glyphs : Option Color → Option Color → List ℕ → List Shown
glyphs fg bg [] = []
glyphs fg bg (c ∷ s) = glyph c fg bg ∷ glyphs fg bg s

-- a row ends in what is shown
abbrev pub has_break : List Shown → Bool
has_break [] = false
has_break (glyph c fg bg ∷ out) = has_break out
has_break (erased ∷ out) = has_break out
has_break (line_break ∷ out) = true

-- Clearing the current line erases each character after the last end of a row, and leaves the
-- cursor where it is.
unfoldable pub erase_row : List Shown → List Shown
erase_row [] = []
erase_row (glyph c fg bg ∷ out) = (if has_break out then glyph c fg bg else erased) ∷ erase_row out
erase_row (erased ∷ out) = erased ∷ erase_row out
erase_row (line_break ∷ out) = line_break ∷ erase_row out

abbrev pub step : Screen → Scanline → Screen
step sc (fg_color c) = record sc { fg = some c }
step sc (bg_color c) = record sc { bg = some c }
step sc (text s) = record sc { out = sc.out ++ glyphs sc.fg sc.bg s }
step sc newline = record sc { out = sc.out ++ (line_break ∷ []) }
step sc clear_line = record sc { out = erase_row sc.out }
step sc reset_color = record sc { fg = none; bg = none }

unfoldable pub run : Screen → List Scanline → Screen
run sc [] = sc
run sc (c ∷ cmds) = run (step sc c) cmds

abbrev pub empty_screen : Screen
empty_screen = record { out = []; fg = none; bg = none }

-- the screen after the commands of a scan, and then its pending text
abbrev pub shown : Scan → Screen
shown st = step (run empty_screen st.cmds) (text st.cur_str)

has_break-push : (out : List Shown) → has_break (out ++ (line_break ∷ [])) ≡ true
has_break-push [] = refl
has_break-push (glyph c fg bg ∷ out) = has_break-push out
has_break-push (erased ∷ out) = has_break-push out
has_break-push (line_break ∷ out) = refl

-- Where a row has just ended, there is nothing to erase.
pub erase_row-push :
    (out : List Shown) → erase_row (out ++ (line_break ∷ [])) ≡ out ++ (line_break ∷ [])
unfolding erase_row
erase_row-push [] = refl
erase_row-push (glyph c fg bg ∷ out) =
    rw (has_break-push out) (ap (λ (l : List Shown). glyph c fg bg ∷ l) (erase_row-push out))
erase_row-push (erased ∷ out) = ap (λ (l : List Shown). erased ∷ l) (erase_row-push out)
erase_row-push (line_break ∷ out) = ap (λ (l : List Shown). line_break ∷ l) (erase_row-push out)

pub run-append : (sc : Screen) (cs ds : List Scanline) → run sc (cs ++ ds) ≡ run (run sc cs) ds
unfolding run
run-append sc [] ds = refl
run-append sc (c ∷ cs) ds = run-append (step sc c) cs ds

pub run_push :
    (sc : Screen) (cs : List Scanline) (c : Scanline) → run sc (cs ++ (c ∷ [])) ≡ step (run sc cs) c
unfolding run
run_push sc cs c = run-append sc cs (c ∷ [])

pub step_nothing : (sc : Screen) → step sc (text []) ≡ sc
step_nothing sc = λ i. record sc { out = append-nil sc.out i }

pub run-finish_cmds :
    (cs : List Scanline) (s : List ℕ)
    → run empty_screen (finish_cmds cs s) ≡ step (run empty_screen cs) (text s)
run-finish_cmds cs [] = sym (step_nothing (run empty_screen cs))
run-finish_cmds cs (c ∷ s) = run_push empty_screen cs (text (c ∷ s))

-- Finishing the string does not change what is shown; a command is then obeyed.
pub shown-finish_string : (st : Scan) → shown (finish_string st) ≡ shown st
shown-finish_string st =
    step_nothing (run empty_screen (finish_cmds st.cmds st.cur_str))
    ∙ run-finish_cmds st.cmds st.cur_str

pub shown-push :
    (c : Scanline) (st : Scan) → st.cur_str ≡ [] → shown (push c st) ≡ step (shown st) c
shown-push c st e =
    rw
      (
        e,
        step_nothing (run empty_screen st.cmds),
        step_nothing (run empty_screen (st.cmds ++ (c ∷ []))),
      )
      (run_push empty_screen st.cmds c)

glyphs-append :
    (fg bg : Option Color) (s t : List ℕ) → glyphs fg bg (s ++ t) ≡ glyphs fg bg s ++ glyphs fg bg t
glyphs-append fg bg [] t = refl
glyphs-append fg bg (c ∷ s) t = ap (λ (l : List Shown). glyph c fg bg ∷ l) (glyphs-append fg bg s t)

-- the screen with one more character in its colors
abbrev pub show_char : Screen → ℕ → Screen
show_char sc c = record sc { out = sc.out ++ (glyph c sc.fg sc.bg ∷ []) }

pub shown-push_char : (c : ℕ) (st : Scan) → shown (push_char c st) ≡ show_char (shown st) c
shown-push_char c st = λ i. record (run empty_screen st.cmds) { out = same i }
  where
    sc : Screen
    sc = run empty_screen st.cmds

    same :
        sc.out ++ glyphs sc.fg sc.bg (st.cur_str ++ (c ∷ []))
        ≡ (sc.out ++ glyphs sc.fg sc.bg st.cur_str) ++ (glyph c sc.fg sc.bg ∷ [])
    same = simp (glyphs-append, append_assoc) refl
