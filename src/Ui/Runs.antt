-- ===== src/Ui/Runs.antt =====
-- The theorems on colors and buffers at concrete values, and tests.
use wrb.Ui.Viewport.{Viewport, translate_coordinate, get_ui_coordinate, print_to, corner}
use wrb.Ui.Viewport
use wrb.Common.Map.{lookup}
use wrb.Common.Order.{nat_ord}
use wrb.Ui.Viewport.Coordinates.{translate_coordinate_lem, get_ui_coordinate-print_to}
use wrb.Ui.Scanline.{Scanline, compile}
use wrb.Ui.Scanline.Screen.{run, empty_screen}
use wrb.Ui.Scanline.Compile.{cells_shown}
use wrb.Ui.Scanline.Rows.{compile_lem}
use wrb.Common.{
  ◌+◌, ◌-◌, ◌<◌, ◌↔◌, ltb, if◌then◌else◌, Option, ℕ, ◌≡◌, refl, arith, none, some, List, [], ◌∷◌,
  true,
}
use wrb.Ui.Color.{Color, from_u32, to_clarity_value, color_round_trip}
use wrb.Ui.CharBuff.{blank, fill, CharBuff, Style, new, num_rows, element_at, dump_charbuff}
use wrb.Ui.CharBuff.Cells.{PrintsAt, print_at_iter_lem}
use wrb.Ui.CharBuff.Wrap.{inner_print, print}
use wrb.Ui.CharBuff.Wrap.Print.{PrintsWords, inner_print_lem}

abbrev black : Color
black = record { r = 0; g = 0; b = 0 }

abbrev orange : Color
orange = record { r = 255; g = 128; b = 1 }

abbrev plain : Style
plain = record { element_id = 7; bg = black; fg = orange }

-- "ab cde"
abbrev two_words : List ℕ
two_words = 97 ∷ 98 ∷ 32 ∷ 99 ∷ 100 ∷ 101 ∷ []

color_round_trip_example :
    (from_u32 (to_clarity_value orange) ≡ orange)
    × (to_clarity_value (from_u32 0xff8001) ≡ 0xff8001)
color_round_trip_example =
    color_round_trip orange 0xff8001
      (record { r_byte = omega arith; g_byte = omega arith; b_byte = omega arith }) (omega arith)

print_at_iter_lem_example : PrintsAt (new 5) plain 1 3 two_words
print_at_iter_lem_example =
    print_at_iter_lem (new 5) plain 1 3 two_words (omega arith) (omega arith)

inner_print_lem_example : PrintsWords (new 5) plain 1 1 two_words true
inner_print_lem_example =
    inner_print_lem (new 5) plain 1 1 two_words true (omega arith) (omega arith) (omega arith)

abbrev dump_printed : Option (CharBuff × ℕ × ℕ) → List ℕ
dump_printed none = []
dump_printed (some (b, row, col)) = dump_charbuff b 2

-- The second word does not fit the row.
wrapped_rows :
    dump_printed (print (new 5) plain 0 0 two_words)
    ≡ 97 ∷ 98 ∷ 32 ∷ b'_' ∷ b'_' ∷ 10 ∷ 99 ∷ 100 ∷ 101 ∷ b'*' ∷ b'*' ∷ 10 ∷ []
unfolding inner_print wrb.Ui.CharBuff.print_at_iter wrb.Ui.CharBuff.dump_rows
    wrb.Ui.CharBuff.charcell_at
wrapped_rows = refl

abbrev view : Viewport
view = Viewport.new 1 2 3 4 5

translate_coordinate_lem_example : (translate_coordinate view 10 10 14 15 ≡ some (2, 2)) ↔ (
    (14 ≡ view.start_row + 10 + 2)
    × (2 < view.num_rows)
    × (15 ≡ view.start_col + 10 + 2)
    × (2 < view.buff.num_cols))
translate_coordinate_lem_example =
    translate_coordinate_lem view 10 10 14 15 2 2 (omega arith) (omega arith)

-- The fourth character is in the next row, left of the element's corner, and is not found.
get_ui_coordinate-print_to_example :
    (v' : Viewport) × (end_row : ℕ) × (end_col : ℕ) × (print_to view plain 1 3 two_words
      ≡ some (v', end_row, end_col))
    × (get_ui_coordinate v' 2 1 ≡ (
        let top = corner (lookup 7 view.element_coords) 1 3 in
        if ltb 1 top.1 then none else some (7, 2 - top.0, 1 - top.1)))
get_ui_coordinate-print_to_example =
    get_ui_coordinate-print_to view plain 1 3 two_words 3 2 1 (omega arith) (omega arith)
      (omega arith) refl

abbrev orange_ab : CharBuff
orange_ab = record {
  num_cols = 2;
  cells = fill 97 black orange 7 ∷ fill 98 black orange 7 ∷ blank ∷ fill 99 orange black 8 ∷ [];
}

compile_lem_example :
    (cmds : List Scanline) × (compile orange_ab ≡ some cmds)
    × ((run empty_screen cmds).out ≡ cells_shown 2 0 orange_ab.cells)
compile_lem_example = compile_lem orange_ab (omega arith) (omega arith)
