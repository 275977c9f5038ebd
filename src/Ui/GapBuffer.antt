-- ===== src/Ui/GapBuffer.antt =====
-- `GapBuffer` (src/ui/forms/textarea.rs): a long text with a gap of zeros at the cursor. `none` is
-- a panic: an index out of range or a failed assertion, but where the code returns an option.
pub mod Move
pub mod Represents
pub mod Lines
pub mod Edit
pub mod Realloc
pub mod Compose
pub mod Start
pub mod Area
pub mod Extent
pub mod Iter
pub mod Walk
pub mod Read
mod Runs
use wrb.Common.{
  ℕ, zero, suc, ◌+◌, ◌-◌, ◌*◌, ◌/◌, ◌%◌, Bool, true, false, not, ◌||◌, ◌&&◌, Option, none, some,
  List, [], ◌∷◌, ◌++◌, ltb, leb, ◌==◌, if◌then◌else◌, add_u64, length, get_elem?, set, replicate,
  and_then,
}

pub record GapBuffer : Type 0 where
  -- message contents, plus a `gap`-sized range of 0's at `cursor`
  pub buffer : List ℕ
  -- location of the gap
  pub cursor : ℕ
  -- current size of the gap
  pub gap : ℕ
  -- size the gap will be instantiated to
  pub gap_size : ℕ
  -- which text line the cursor is in
  pub lineno : ℕ
  -- offset into `buffer` where the line begins
  pub line_start : ℕ

-- The code's constants.
abbrev pub default_gap_size : ℕ
default_gap_size = 65536

-- `buffer[i] = v`, and the buffer then
abbrev pub set_elem? : List ℕ → ℕ → ℕ → Option (List ℕ)
set_elem? buffer i v = if ltb i (length buffer) then some (set buffer i v) else none

-- `str::len`: the bytes of the characters.
abbrev pub char_len : ℕ → ℕ
char_len c = if ltb c 0x80 then 1 else (if ltb c 0x800 then 2 else (if ltb c 0x10000 then 3 else 4))

unfoldable pub str_len : List ℕ → ℕ
str_len [] = 0
str_len (c ∷ text) = char_len c + str_len text

-- `char::from_u32`
abbrev pub char_from_u32 : ℕ → Option ℕ
char_from_u32 x = if ltb x 0xd800 || (leb 0xe000 x && leb x 0x10ffff) then some x else none

unfoldable pub count_lines : List ℕ → ℕ
count_lines [] = 0
count_lines (c ∷ text) = let rest = count_lines text in if c == 10 then suc rest else rest

-- `chr`: the character after the gap. What is not a character is replaced.
abbrev pub read_char : Option ℕ → Option ℕ
read_char none = none
read_char (some x) = elim (char_from_u32 x) [ none ↦ some 0xfffd | some c ↦ some c ]

unfoldable pub chr : GapBuffer → Option ℕ
chr g = read_char (get_elem? g.buffer (g.cursor + g.gap))

abbrev pub is_none : Option ℕ → Bool
is_none none = true
is_none (some c) = false

-- `while i > 0 && buffer[i] != '\n' { i = i.saturating_sub(1) }`
unfoldable pub scan_back : List ℕ → ℕ → Option ℕ
scan_back buffer zero = some 0
scan_back buffer (suc i) =
    let rest = scan_back buffer i in
    and_then (get_elem? buffer (suc i)) (λ c. if c == 10 then some (suc i) else rest)

-- The steps after the loop: past the newline, where one was found in the text.
abbrev pub line_after : GapBuffer → ℕ → ℕ → ℕ
line_after g i c =
    if ltb 0 g.cursor && (ltb (suc i + g.gap) (length g.buffer) && c == 10) then suc i else i

abbrev pub past_newline : GapBuffer → ℕ → Option ℕ
past_newline g i = and_then (get_elem? g.buffer i) (λ c. some (line_after g i c))

unfoldable pub find_line_start : GapBuffer → Option ℕ
unfolding scan_back chr
find_line_start g = and_then (get_elem? g.buffer (g.cursor - 1)) (λ c.
    if c == 10 && is_none (chr g)
    then some g.cursor
    else and_then (scan_back g.buffer (g.cursor - 1)) (past_newline g))

-- `self.line_start = self.find_line_start()`
abbrev pub set_line_start : GapBuffer → Option GapBuffer
set_line_start g = and_then (find_line_start g) (λ i. some (record g { line_start = i }))

-- The loop that writes a text into the buffer, from the index `i`.
unfoldable pub write_text : List ℕ → ℕ → List ℕ → Option (List ℕ)
write_text buffer i [] = some buffer
write_text buffer i (c ∷ text) =
    and_then (set_elem? buffer i c) (λ buffer. write_text buffer (suc i) text)

unfoldable pub new : List ℕ → ℕ → Option GapBuffer
unfolding find_line_start write_text str_len count_lines
new start_text gap_size =
    and_then (write_text (replicate (str_len start_text + gap_size) 0) 0 start_text) (λ buffer.
      set_line_start (record {
        buffer = buffer;
        cursor = str_len start_text;
        gap = gap_size;
        gap_size = gap_size;
        lineno = count_lines start_text;
        line_start = 0;
      }))

-- The cursor is the length of the buffer, its gap included.
unfoldable pub set_text : GapBuffer → List ℕ → Option GapBuffer
unfolding find_line_start write_text str_len count_lines
set_text g text = and_then (write_text (replicate (str_len text + g.gap_size) 0) 0 text) (λ buffer.
    set_line_start (record g {
      cursor = length buffer;
      buffer = buffer;
      gap = g.gap_size;
      lineno = count_lines text;
    }))

-- The loop of `realloc`, with the rounds that are left: the characters from the cursor on move.
unfoldable pub move_text : ℕ → ℕ → ℕ → ℕ → List ℕ → Option (List ℕ)
move_text gap_start cursor zero i buffer = some buffer
move_text gap_start cursor (suc n) i buffer =
    if leb gap_start (cursor + i)
    then some buffer
    else and_then (get_elem? buffer (cursor + i)) (λ ch.
      and_then (set_elem? buffer (gap_start + cursor + i) ch)
        (λ moved. and_then (set_elem? moved (cursor + i) 0) (move_text gap_start cursor n (suc i))))

unfoldable pub realloc : GapBuffer → Option GapBuffer
unfolding move_text
realloc g =
    and_then
      (move_text (length g.buffer) g.cursor g.gap_size 0 (g.buffer ++ replicate g.gap_size 0))
      (λ buffer. some (record g { buffer = buffer; gap = g.gap_size }))

-- `assert_eq!(self.buffer[self.cursor], 0)`, and the character is put there.
abbrev pub insert_at_gap : ℕ → GapBuffer → Option GapBuffer
insert_at_gap ch g = and_then (get_elem? g.buffer g.cursor) (λ c.
    if c == 0
    then (let put = record g {
      buffer = set g.buffer g.cursor ch;
      cursor = g.cursor + 1;
      gap = g.gap - 1;
      lineno = if ch == 10 then g.lineno + 1 else g.lineno;
    } in
        if ch == 10 then set_line_start put else some put)
    else none)

unfoldable pub insert : GapBuffer → ℕ → Option GapBuffer
unfolding find_line_start realloc
insert g ch = and_then (if g.gap == 0 then realloc g else some g) (insert_at_gap ch)

-- What follows the check of the cursor in `backspace`; `chr` is read before the cursor moves.
abbrev pub erase_before : GapBuffer → ℕ → Option GapBuffer
erase_before g chr = and_then (set_elem? g.buffer (g.cursor - 1) 0) (λ buffer.
    let erased = record g {
      buffer = buffer;
      cursor = g.cursor - 1;
      gap = g.gap + 1;
      lineno = if chr == 10 then g.lineno - 1 else g.lineno;
    } in
    if chr == 10 then set_line_start erased else some erased)

unfoldable pub backspace : GapBuffer → Option GapBuffer
unfolding find_line_start
backspace g =
    if g.cursor == 0 then some g else and_then (get_elem? g.buffer g.cursor) (erase_before g)
