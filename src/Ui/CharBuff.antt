-- ===== src/Ui/CharBuff.antt =====
-- `CharBuff` (src/ui/charbuff.rs): a grid of character cells of a known width, and what prints to
-- it. A character is its code point. `none` is a panic: a division by a width of zero.
pub mod Cells
pub mod Wrap
use wrb.Common.{
  ℕ, zero, suc, ◌+◌, ◌-◌, ◌*◌, ◌/◌, ◌%◌, Bool, true, false, ◌||◌, ◌&&◌, Option, none, some, List,
  [], ◌∷◌, ◌++◌, ltb, leb, ◌==◌, if◌then◌else◌, add_u64, mul_u64, length, get_elem?, set,
}
use wrb.Ui.Color.{Color}

pub data CharCell : Type 0 where
  blank : CharCell
  fill : (value : ℕ) (bg fg : Color) (element_id : ℕ) → CharCell

pub record CharBuff : Type 0 where
  pub num_cols : ℕ
  pub cells : List CharCell

abbrev pub new : ℕ → CharBuff
new num_cols = record { num_cols = num_cols; cells = [] }

abbrev pub clear : CharBuff → CharBuff
clear b = record b { cells = [] }

-- A division by zero panics.
abbrev pub div_rem : ℕ → ℕ → Option (ℕ × ℕ)
div_rem a zero = none
div_rem a (suc n) = some (a / suc n, a % suc n)

unfoldable pub num_rows : CharBuff → Option ℕ
num_rows b = elim (div_rem (length b.cells) b.num_cols) [ none ↦ none | some (q, _) ↦ some q ]

-- `c <= '\x1f' || c.is_control()`
abbrev pub is_control : ℕ → Bool
is_control c = leb c 0x1f || (leb 0x7f c && leb c 0x9f)

-- `char::REPLACEMENT_CHARACTER`
abbrev pub replacement_character : ℕ
replacement_character = 0xfffd

-- who prints, and in which colors
pub record Style : Type 0 where
  pub element_id : ℕ
  pub bg : Color
  pub fg : Color

abbrev pub char_cell : Style → ℕ → CharCell
char_cell s c = fill (if is_control c then replacement_character else c) s.bg s.fg s.element_id

-- `while self.cells.len() < offset { self.cells.push(Blank) }`, with the rounds that are left.
unfoldable pub pad : ℕ → List CharCell → List CharCell
pad zero cells = cells
pad (suc n) cells = pad n (cells ++ (blank ∷ []))

abbrev pub put_cell : List CharCell → ℕ → CharCell → List CharCell
put_cell cells offset c =
    if ltb offset (length cells) then set cells offset c else cells ++ (c ∷ [])

unfoldable pub put_chars : Style → List CharCell → ℕ → List ℕ → List CharCell
put_chars s cells offset [] = cells
put_chars s cells offset (c ∷ text) =
    put_chars s (put_cell cells offset (char_cell s c)) (suc offset) text

-- `usize::try_from(self.num_cols * start_row + start_col)`, which does not fail on 64 bits
abbrev pub offset_at : CharBuff → ℕ → ℕ → ℕ
offset_at b row col = add_u64 (mul_u64 b.num_cols row) col

-- The cells are written, and the place after them is computed.
abbrev pub print_result : CharBuff → List CharCell → Option (ℕ × ℕ) → Option (CharBuff × ℕ × ℕ)
print_result b cells none = none
print_result b cells (some (row, col)) = some (record b { cells = cells }, row, col)

-- Print at a place, with no word-wrapping; also the place after it. `offset += 1` cannot overflow,
-- since it is at most the number of cells.
unfoldable pub print_at_iter : CharBuff → Style → ℕ → ℕ → List ℕ → Option (CharBuff × ℕ × ℕ)
unfolding pad put_chars
print_at_iter b s start_row start_col text =
    let offset = offset_at b start_row start_col in
    print_result b (put_chars s (pad (offset - length b.cells) b.cells) offset text)
      (div_rem (offset + length text) b.num_cols)

abbrev pub print_at : CharBuff → Style → ℕ → ℕ → List ℕ → Option (CharBuff × ℕ × ℕ)
print_at = print_at_iter

-- The cell at a coordinate, if one is allocated.
unfoldable pub charcell_at : CharBuff → ℕ → ℕ → Option CharCell
charcell_at b row col = get_elem? b.cells (offset_at b row col)

abbrev pub cell_element : Option CharCell → Option ℕ
cell_element none = none
cell_element (some blank) = none
cell_element (some (fill value bg fg element_id)) = some element_id

unfoldable pub element_at : CharBuff → ℕ → ℕ → Option ℕ
element_at b row col = cell_element (charcell_at b row col)

abbrev pub dump_cell : Option CharCell → ℕ
dump_cell (some (fill value bg fg element_id)) = value
dump_cell (some blank) = b'_'
dump_cell none = b'*'

-- The loops over the columns and the rows, from the column and the row that are next.
unfoldable pub dump_cols : CharBuff → ℕ → ℕ → ℕ → List ℕ
dump_cols b row zero col = 10 ∷ []
dump_cols b row (suc n) col = dump_cell (charcell_at b row col) ∷ dump_cols b row n (suc col)

unfoldable pub dump_rows : CharBuff → ℕ → ℕ → List ℕ
unfolding dump_cols
dump_rows b zero row = []
dump_rows b (suc n) row = dump_cols b row b.num_cols 0 ++ dump_rows b n (suc row)

abbrev pub dump_charbuff : CharBuff → ℕ → List ℕ
dump_charbuff b num_rows = dump_rows b num_rows 0
