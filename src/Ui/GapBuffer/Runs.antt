-- ===== src/Ui/GapBuffer/Runs.antt =====
-- The theorems on `GapBuffer` at concrete buffers, and tests.
use wrb.Common.{
  ◌<◌, ◌≤◌, ◌*◌, ℕ, ◌≡◌, refl, arith, some, none, List, [], ◌∷◌, ◌++◌, true, ◌+◌, length,
}
use wrb.Ui.GapBuffer.{GapBuffer, new, insert, backspace, set_text, str_len, count_lines}
use wrb.Ui.GapBuffer.Move.{left, right, delete, overwrite}
use wrb.Ui.GapBuffer.Represents.{Meta, with_gap}
use wrb.Ui.GapBuffer.Walk.Place.{Place, place_at, word_left, line_begin}
use wrb.Ui.GapBuffer.Iter.{collect, iter_at_offset, length-collect_area}
use wrb.Ui.GapBuffer.Area.{cursor_location, cursor_location_bounds}
use wrb.Ui.GapBuffer.Extent.{start_of_area, start_of_area_le}
use wrb.Ui.GapBuffer.Edit.{insert_lem, backspace_lem, left_lem, right_lem, up_line, down_line}
use wrb.Ui.GapBuffer.Compose.{overwrite_lem, delete_at_end}
use wrb.Ui.GapBuffer.Realloc.{insert_full_at_end, insert_full_panics, backspace_full_panics}
use wrb.Ui.GapBuffer.Start.{padded, new_lem, set_text-insert_panics}
use wrb.Ui.GapBuffer.Read.{to_string, len, to_string-with_gap}

abbrev meta : Meta
meta = record { gap_size = 2; lineno = 1; line_start = 3 }

-- "ab", a newline
abbrev before : List ℕ
before = 97 ∷ 98 ∷ 10 ∷ []

-- "cd"
abbrev after : List ℕ
after = 99 ∷ 100 ∷ []

insert_lem_example :
    (line_start : ℕ) × (insert (with_gap meta before 2 after) 10
      ≡ some (
          with_gap
            (record { gap_size = 2; lineno = 2; line_start = line_start })
            (97 ∷ 98 ∷ 10 ∷ 10 ∷ [])
            1
            after))
insert_lem_example = insert_lem meta before after 1 10

backspace_lem_example :
    backspace (with_gap meta before 1 after) ≡ some (with_gap meta (97 ∷ 98 ∷ []) 2 after)
backspace_lem_example = backspace_lem meta (97 ∷ 98 ∷ []) after 10 0

left_lem_example :
    (line_start : ℕ) × (left (with_gap meta before 2 after)
      ≡ some (with_gap (up_line meta 10 line_start) (97 ∷ 98 ∷ []) 2 (10 ∷ after), true))
left_lem_example = left_lem meta (97 ∷ 98 ∷ []) after 10 2

right_lem_example :
    (line_start : ℕ) × (right (with_gap meta before 0 after)
      ≡ some (with_gap (down_line meta 99 line_start) (97 ∷ 98 ∷ 10 ∷ 99 ∷ []) 0 (100 ∷ []), true))
right_lem_example = right_lem meta before (100 ∷ []) 99 0

overwrite_lem_example :
    (m' : Meta) × (overwrite (with_gap meta before 2 after) 120
      ≡ some (with_gap m' (97 ∷ 98 ∷ 10 ∷ 120 ∷ []) 2 (100 ∷ [])))
overwrite_lem_example = overwrite_lem meta before (100 ∷ []) 99 120 1

delete_at_end_example :
    delete (with_gap meta before 2 []) ≡ some (with_gap meta (97 ∷ 98 ∷ []) 3 [])
delete_at_end_example = delete_at_end meta (97 ∷ 98 ∷ []) 10 1

insert_full_at_end_example :
    (line_start : ℕ) × (insert (with_gap meta before 0 []) 120
      ≡ some (
          with_gap
            (record { gap_size = 2; lineno = 1; line_start = line_start })
            (97 ∷ 98 ∷ 10 ∷ 120 ∷ [])
            1
            []))
insert_full_at_end_example = insert_full_at_end meta before 1 120 refl

insert_full_panics_example : insert (with_gap meta before 0 after) 120 ≡ none
insert_full_panics_example =
    insert_full_panics meta before (100 ∷ []) 99 120 (omega arith) (omega arith)

backspace_full_panics_example : backspace (with_gap meta before 0 []) ≡ none
backspace_full_panics_example = backspace_full_panics meta before (omega arith)

-- "é" is one character and two bytes.
new_lem_example :
    (line_start : ℕ) × (new (0xe9 ∷ 10 ∷ []) 2
      ≡ some (
          with_gap
            (record {
              gap_size = 2;
              lineno = count_lines (0xe9 ∷ 10 ∷ []);
              line_start = line_start;
            })
            (padded (0xe9 ∷ 10 ∷ []))
            2
            []))
new_lem_example = new_lem (0xe9 ∷ 10 ∷ []) 2 (omega arith)

padded_example : padded (0xe9 ∷ 10 ∷ []) ≡ 0xe9 ∷ 10 ∷ 0 ∷ []
unfolding str_len
padded_example = refl

set_text-insert_panics_example :
    (g' : GapBuffer) × (set_text (with_gap meta before 0 []) after ≡ some g')
    × (insert g' 120 ≡ none)
set_text-insert_panics_example =
    set_text-insert_panics (with_gap meta before 0 []) after 120 (omega arith)

to_string-with_gap_example :
    (to_string (with_gap meta before 2 after) ≡ before ++ after)
    × (len (with_gap meta before 2 after) ≡ length before + length after)
to_string-with_gap_example =
    to_string-with_gap meta 2 before after (refl, (refl, (refl, (refl, (refl, tt)))))

-- The place between `before` and `after`.
abbrev second_line : Place
second_line = place_at (10 ∷ 98 ∷ 97 ∷ []) after

-- From an empty last line, `line_start` goes to the line before it.
empty_last_line : line_begin (place_at (10 ∷ 98 ∷ 97 ∷ []) []) ≡ place_at [] (97 ∷ 98 ∷ 10 ∷ [])
empty_last_line = refl

-- In the first word, `left_word` goes after its first character.
first_word : word_left (place_at (98 ∷ 97 ∷ []) (99 ∷ [])) ≡ place_at (97 ∷ []) (98 ∷ 99 ∷ [])
first_word = refl

length-collect_area_example :
    length (collect 40 (iter_at_offset (with_gap meta before 2 after) 3 4 0)) ≡ 3 * 4
length-collect_area_example =
    length-collect_area (with_gap meta before 2 after) 3 4 0 40 (omega arith) (omega arith)

-- The cursor is after the newline.
located : cursor_location (with_gap meta before 2 after) 0 3 4 ≡ some (1, 0)
unfolding cursor_location
located = refl

cursor_location_bounds_example : (1 < 3) × (0 < 4) × (0 ≤ 3)
cursor_location_bounds_example =
    cursor_location_bounds (with_gap meta before 2 after) 0 3 4 1 0 located

start_of_area_le_example : start_of_area (with_gap meta before 2 after) 0 3 4 ≤ 3
start_of_area_le_example = start_of_area_le (with_gap meta before 2 after) 0 3 4
