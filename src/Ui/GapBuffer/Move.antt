-- ===== src/Ui/GapBuffer/Move.antt =====
-- The operations that move the cursor, and those that move and edit.
use wrb.Common.{
  ℕ, ◌+◌, ◌-◌, Bool, true, false, Option, some, ◌==◌, if◌then◌else◌, length, get_elem?, and_then,
}
use wrb.Ui.GapBuffer.{GapBuffer, set_elem?, set_line_start, find_line_start, insert, backspace}

-- The gap moves over the character before it, and `true` is returned.
abbrev pub move_left : GapBuffer → ℕ → Option (GapBuffer × Bool)
move_left g ch = and_then (set_elem? g.buffer (g.cursor - 1) 0) (λ cleared.
    and_then (set_elem? cleared (g.cursor - 1 + g.gap) ch) (λ buffer.
      let moved = record g {
        buffer = buffer;
        cursor = g.cursor - 1;
        lineno = if ch == 10 then g.lineno + 1 else g.lineno;
      } in
      and_then (if ch == 10 then set_line_start moved else some moved) (λ g'. some (g', true))))

unfoldable pub left : GapBuffer → Option (GapBuffer × Bool)
unfolding find_line_start
left g =
    if g.cursor == 0
    then some (g, false)
    else and_then (get_elem? g.buffer (g.cursor - 1)) (move_left g)

abbrev pub move_right : GapBuffer → ℕ → Option (GapBuffer × Bool)
move_right g ch = and_then (set_elem? g.buffer (g.cursor + g.gap) 0) (λ cleared.
    and_then (set_elem? cleared g.cursor ch) (λ buffer.
      let moved = record g {
        buffer = buffer;
        cursor = g.cursor + 1;
        lineno = if ch == 10 then g.lineno - 1 else g.lineno;
      } in
      and_then (if ch == 10 then set_line_start moved else some moved) (λ g'. some (g', true))))

unfoldable pub right : GapBuffer → Option (GapBuffer × Bool)
unfolding find_line_start
right g =
    if g.cursor + g.gap == length g.buffer
    then some (g, false)
    else and_then (get_elem? g.buffer (g.cursor + g.gap)) (move_right g)

-- delete a character at the cursor
unfoldable pub delete : GapBuffer → Option GapBuffer
delete g = and_then (right g) (λ moved. backspace moved.0)

-- replace a character at the cursor
unfoldable pub replace : GapBuffer → ℕ → Option GapBuffer
replace g ch = and_then (delete g) (λ deleted.
    and_then (insert deleted ch) (λ inserted. and_then (left inserted) (λ moved. some moved.0)))

-- overwrite a character at the cursor, or insert it at the end
unfoldable pub overwrite : GapBuffer → ℕ → Option GapBuffer
overwrite g ch =
    if g.cursor + g.gap == length g.buffer
    then insert g ch
    else and_then (replace g ch) (λ replaced. and_then (right replaced) (λ moved. some moved.0))
