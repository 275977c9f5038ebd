-- ===== src/Ui/Scanline.antt =====
-- `Scanline` (src/ui/scanline.rs): the drawing commands that a buffer is compiled to. `none` is a
-- panic: the remainder by a width of zero.
pub mod Screen
pub mod Steps
pub mod Lines
pub mod Compile
pub mod Rows
use wrb.Common.{
  ℕ, suc, ◌+◌, Bool, true, false, Option, none, some, List, [], ◌∷◌, ◌++◌, ltb, leb, ◌==◌, ◌&&◌,
  if◌then◌else◌, add_u64, and_then, map,
}
use wrb.Ui.Color.{Color, color_eq}
use wrb.Ui.CharBuff.{CharBuff, CharCell, blank, fill, div_rem}

pub data Scanline : Type 0 where
  fg_color : Color → Scanline
  bg_color : Color → Scanline
  text : List ℕ → Scanline
  newline : Scanline
  clear_line : Scanline
  reset_color : Scanline

-- The variables of the loop over the cells.
pub record Scan : Type 0 where
  pub cmds : List Scanline
  pub cur_fg_color : Option Color
  pub cur_bg_color : Option Color
  pub cur_str : List ℕ
  pub in_blank : Bool

abbrev pub push : Scanline → Scan → Scan
push c st = record st { cmds = st.cmds ++ (c ∷ []) }

abbrev pub finish_cmds : List Scanline → List ℕ → List Scanline
finish_cmds cmds [] = cmds
finish_cmds cmds (c ∷ cur_str) = cmds ++ (text (c ∷ cur_str) ∷ [])

abbrev pub finish_string : Scan → Scan
finish_string st = record st { cmds = finish_cmds st.cmds st.cur_str; cur_str = [] }

abbrev pub carry_fg : Option Color → Scan → Scan
carry_fg none st = st
carry_fg (some fg) st = push (fg_color fg) st

abbrev pub carry_bg : Option Color → Scan → Scan
carry_bg none st = st
carry_bg (some bg) st = push (bg_color bg) st

abbrev pub next_line : ℕ → Scan → Scan
next_line i st = if ltb 0 i then push reset_color (push newline st) else st

-- The commands at the first cell of a row: the end of the row before, and the colors.
unfoldable pub start_line : ℕ → Scan → Scan
start_line i st =
    carry_bg st.cur_bg_color
      (carry_fg st.cur_fg_color (push clear_line (next_line i (finish_string st))))

abbrev pub leave_blank : Scan → Scan
leave_blank st = if st.in_blank then record (finish_string st) { in_blank = false } else st

abbrev pub change_fg : Color → Scan → Scan
change_fg fg st = record (push (fg_color fg) (finish_string st)) { cur_fg_color = some fg }

abbrev pub set_fg : Color → Option Color → Scan → Scan
set_fg fg none st = change_fg fg st
set_fg fg (some cur) st =
    if color_eq fg cur then record st { cur_fg_color = some fg } else change_fg fg st

abbrev pub change_bg : Color → Scan → Scan
change_bg bg st = record (push (bg_color bg) (finish_string st)) { cur_bg_color = some bg }

abbrev pub set_bg : Color → Option Color → Scan → Scan
set_bg bg none st = change_bg bg st
set_bg bg (some cur) st =
    if color_eq bg cur then record st { cur_bg_color = some bg } else change_bg bg st

abbrev pub push_char : ℕ → Scan → Scan
push_char value st = record st { cur_str = st.cur_str ++ (value ∷ []) }

abbrev pub enter_blank : Scan → Scan
enter_blank st =
    if st.in_blank then st else push reset_color (record (finish_string st) { in_blank = true })

unfoldable pub compile_blank : Scan → Scan
compile_blank st = record (push_char 32 (enter_blank st)) {
  cur_fg_color = none;
  cur_bg_color = none;
}

unfoldable pub compile_fill : ℕ → Color → Color → Scan → Scan
compile_fill value bg fg st =
    let left = leave_blank st in
    let fg_set = set_fg fg left.cur_fg_color left in
    push_char value (set_bg bg fg_set.cur_bg_color fg_set)

abbrev pub compile_cell : CharCell → Scan → Scan
compile_cell blank st = compile_blank st
compile_cell (fill value bg fg element_id) st = compile_fill value bg fg st

-- `if i % buff.num_cols == 0`
abbrev pub at_line : ℕ → Option (ℕ × ℕ) → Scan → Option Scan
at_line i none st = none
at_line i (some (q, r)) st = some (if r == 0 then start_line i st else st)

-- The loop over the cells, from the one with the number `i`.
unfoldable pub compile_cells : ℕ → ℕ → List CharCell → Scan → Option Scan
unfolding start_line compile_blank compile_fill
compile_cells num_cols i [] st = some st
compile_cells num_cols i (cell ∷ cells) st =
    and_then (at_line i (div_rem i num_cols) st)
      (λ st'. compile_cells num_cols (suc i) cells (compile_cell cell st'))

abbrev pub is_newline : Scanline → Bool
is_newline newline = true
is_newline (fg_color c) = false
is_newline (bg_color c) = false
is_newline (text s) = false
is_newline clear_line = false
is_newline reset_color = false

-- The commands of the rows from `start_row` and before `end_row`.
unfoldable pub in_range : ℕ → ℕ → ℕ → List Scanline → List Scanline
in_range start_row end_row row_num [] = []
in_range start_row end_row row_num (cmd ∷ cmds) =
    let rest =
      in_range start_row end_row (if is_newline cmd then add_u64 row_num 1 else row_num) cmds in
    if leb start_row row_num && ltb row_num end_row then cmd ∷ rest else rest

abbrev pub new_scan : Scan
new_scan = record {
  cmds = [];
  cur_fg_color = none;
  cur_bg_color = none;
  cur_str = [];
  in_blank = true;
}

abbrev pub finish_scan : ℕ → ℕ → Scan → Option (List Scanline)
finish_scan start_row num_rows st =
    some
      (in_range start_row (add_u64 start_row num_rows) 0 (push reset_color (finish_string st)).cmds)

unfoldable pub compile_rows : CharBuff → ℕ → ℕ → Option (List Scanline)
unfolding compile_cells in_range
compile_rows b start_row num_rows =
    and_then (compile_cells b.num_cols 0 b.cells new_scan) (finish_scan start_row num_rows)

-- `u64::MAX`
abbrev pub u64_max : ℕ
u64_max = 0xffffffffffffffff

abbrev pub compile : CharBuff → Option (List Scanline)
compile b = compile_rows b 0 u64_max

-- The escape sequences of the terminal library.
pub record Termion : Type 0 where
  pub set_fg : Color → List ℕ
  pub set_bg : Color → List ℕ
  pub clear_current_line : List ℕ
  pub reset_fg : List ℕ
  pub reset_bg : List ℕ

abbrev pub into_term_code : Termion → Scanline → List ℕ
into_term_code t (fg_color c) = t.set_fg c
into_term_code t (bg_color c) = t.set_bg c
into_term_code t (text s) = s
into_term_code t newline = 13 ∷ (10 ∷ [])
into_term_code t clear_line = t.clear_current_line
into_term_code t reset_color = t.reset_fg ++ t.reset_bg

abbrev pub into_text : Scanline → List ℕ
into_text (fg_color c) = []
into_text (bg_color c) = []
into_text clear_line = []
into_text reset_color = []
into_text (text s) = s
into_text newline = 10 ∷ []
