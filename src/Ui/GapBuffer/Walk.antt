-- ===== src/Ui/GapBuffer/Walk.antt =====
-- The moves of the cursor by words and lines (`left_word` to `down` of src/ui/forms/textarea.rs).
-- A loop has one round more than there are characters in its direction, which it cannot use up.
pub mod Place
pub mod Text
pub mod Loops
pub mod LineStart
pub mod Moves
use wrb.Common.{
  ℕ, zero, suc, ◌+◌, ◌-◌, Bool, true, false, not, Option, none, some, List, [], ◌∷◌, ◌==◌,
  if◌then◌else◌, length, and_then,
}
use wrb.Ui.CharBuff.Wrap.{is_whitespace}
use wrb.Ui.GapBuffer.{GapBuffer, chr}
use wrb.Ui.GapBuffer.Move.{left, right}

-- `self.chr().map(test).unwrap_or(default)`
abbrev pub test_char : (ℕ → Bool) → Bool → Option ℕ → Bool
test_char test default none = default
test_char test default (some c) = test c

abbrev pub at_space : GapBuffer → Bool
at_space g = test_char is_whitespace true (chr g)

abbrev pub at_newline : GapBuffer → Bool
at_newline g = test_char (λ c. c == 10) true (chr g)

abbrev pub in_line : GapBuffer → Bool
in_line g = test_char (λ c. not (c == 10)) true (chr g)

abbrev pub at_end : GapBuffer → Bool
at_end g = test_char (λ c. false) true (chr g)

-- `while test { if !move() { break; } }`
unfoldable pub move_while :
    (GapBuffer → Bool) → (GapBuffer → Option (GapBuffer × Bool)) → ℕ → GapBuffer → Option GapBuffer
move_while test move zero g = some g
move_while test move (suc n) g =
    if test g
    then and_then (move g) (λ m. if m.1 then move_while test move n m.0 else some m.0)
    else some g

abbrev pub while_left : (GapBuffer → Bool) → GapBuffer → Option GapBuffer
while_left test g = move_while test left (suc g.cursor) g

abbrev pub while_right : (GapBuffer → Bool) → GapBuffer → Option GapBuffer
while_right test g = move_while test right (suc (length g.buffer - g.gap - g.cursor)) g

-- `self.cursor == old_cursor`
abbrev pub stayed : ℕ → GapBuffer → Option (GapBuffer × Bool)
stayed old_cursor g = some (g, g.cursor == old_cursor)

unfoldable pub left_word : GapBuffer → Option (GapBuffer × Bool)
left_word g = and_then (while_left at_space g) (λ g₁.
    and_then (while_left (λ h. not (at_space h)) g₁)
      (λ g₂. and_then (right g₂) (λ m. stayed g.cursor m.0)))

unfoldable pub right_word : GapBuffer → Option (GapBuffer × Bool)
right_word g = and_then (while_right at_space g) (stayed g.cursor)

-- `if test { if !move() { return false; } }`, and then the rest.
abbrev pub move_if :
    Bool
    → (GapBuffer → Option (GapBuffer × Bool))
    → (GapBuffer → Option (GapBuffer × Bool))
    → GapBuffer
    → Option (GapBuffer × Bool)
move_if test move rest g =
    if test then and_then (move g) (λ m. if m.1 then rest m.0 else some (m.0, false)) else rest g

abbrev pub past_line_start : ℕ → GapBuffer → Option (GapBuffer × Bool)
past_line_start old_cursor g =
    and_then (while_left in_line g) (λ h. move_if (at_newline h) right (stayed old_cursor) h)

abbrev pub before_newline : ℕ → GapBuffer → Option (GapBuffer × Bool)
before_newline old_cursor g = move_if (at_newline g) left (past_line_start old_cursor) g

-- `line_start`, which has the name of a field
unfoldable pub to_line_start : GapBuffer → Option (GapBuffer × Bool)
to_line_start g = move_if (at_end g) left (before_newline g.cursor) g

unfoldable pub line_end : GapBuffer → Option (GapBuffer × Bool)
line_end g = and_then (while_right in_line g) (stayed g.cursor)

-- `for _ in 0..col { if at a newline { break; } self.right(); }`
unfoldable pub to_column : ℕ → GapBuffer → Option GapBuffer
to_column zero g = some g
to_column (suc col) g = if at_newline g then some g else and_then (right g) (λ m. to_column col m.0)

unfoldable pub up : GapBuffer → ℕ → Option GapBuffer
up g col =
    if g.line_start == 0
    then some g
    else and_then (to_line_start g)
        (λ a. and_then (left a.0) (λ b. and_then (to_line_start b.0) (λ c. to_column col c.0)))

unfoldable pub down : GapBuffer → ℕ → Option GapBuffer
down g col =
    and_then (line_end g)
      (λ a. and_then (right a.0) (λ b. and_then (to_line_start b.0) (λ c. to_column col c.0)))
