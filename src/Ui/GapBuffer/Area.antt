-- ===== src/Ui/GapBuffer/Area.antt =====
-- The operations of `GapBuffer` on lines, and on the rows and columns that it is shown in
-- (src/ui/forms/textarea.rs). A loop has the rounds that are left; the text is at most as long.
use wrb.Common.{
  ap, ◌≡◌, ◌<◌, ◌≤◌, arith, Bool-cases, Option-cases, inl, inr, leb→gt, ℕ, zero, suc, ◌+◌, ◌-◌,
  ◌||◌, Option, none, some, ltb, leb, ◌==◌, if◌then◌else◌, add_u64, length, get_elem?, and_then,
}
use wrb.Ui.GapBuffer.{GapBuffer}
use wrb.Ui.GapBuffer.Read.{get}

-- `while i + gap < buffer.len() && buffer[i] != '\n' { i += 1 }`
unfoldable pub scan_forward : GapBuffer → ℕ → ℕ → ℕ
scan_forward g zero i = i
scan_forward g (suc n) i =
    let rest = scan_forward g n (suc i) in
    let c = get_elem? g.buffer i in elim c [ none ↦ i | some c ↦ if c == 10 then i else rest ]

-- The index after the newline, if one was found; reading past the buffer panics.
abbrev pub skip_newline : GapBuffer → ℕ → Option ℕ
skip_newline g i = and_then (get_elem? g.buffer i) (λ c. some (if c == 10 then suc i else i))

unfoldable pub find_next_line_start_at : GapBuffer → ℕ → Option ℕ
unfolding scan_forward
find_next_line_start_at g start_idx =
    if start_idx + g.gap == length g.buffer
    then some start_idx
    else skip_newline g (scan_forward g (length g.buffer - g.gap - start_idx) start_idx)

unfoldable pub find_next_lines_start_at : GapBuffer → ℕ → ℕ → Option ℕ
unfolding find_next_line_start_at
find_next_lines_start_at g i zero = some i
find_next_lines_start_at g i (suc num_lines) =
    and_then (find_next_line_start_at g i) (λ j. find_next_lines_start_at g j num_lines)

-- The row and the column that the cursor's loop is in.
pub record Place : Type 0 where
  pub row : ℕ
  pub col : ℕ

-- Past a character: to the next row at a newline, and at the last column.
abbrev pub wrap_place : ℕ → Place → Place
wrap_place num_cols p = if leb num_cols p.col then record { row = add_u64 p.row 1; col = 0 } else p

abbrev pub after_char : ℕ → ℕ → Place → Place
after_char num_cols c p = wrap_place num_cols (
    if c == 10
    then record { row = add_u64 p.row 1; col = 0 }
    else record p { col = add_u64 p.col 1 })

-- The loop of `cursor_location`, from the index `i`, with the characters before the cursor that
-- are left.
unfoldable pub locate : GapBuffer → ℕ → ℕ → ℕ → ℕ → Place → Option (ℕ × ℕ)
unfolding get
locate g num_rows num_cols zero i p = some (p.row, p.col)
locate g num_rows num_cols (suc n) i p = elim (get g i) [
  | none ↦ some (p.row, p.col)
  | some c ↦
      (let q = after_char num_cols c p in
        let rest = locate g num_rows num_cols n (suc i) q in
        if leb num_rows q.row then none else rest)
]

-- The row and the column of the cursor, if it is visible.
unfoldable pub cursor_location : GapBuffer → ℕ → ℕ → ℕ → Option (ℕ × ℕ)
unfolding locate
cursor_location g scroll num_rows num_cols =
    if ltb g.cursor scroll || (num_rows == 0 || num_cols == 0)
    then none
    else locate g num_rows num_cols (g.cursor - scroll) scroll (record { row = 0; col = 0 })

after_char_col :
    (num_cols c : ℕ) (p : Place) → 0 < num_cols → (after_char num_cols c p).col < num_cols
after_char_col num_cols c p pos = elim (Bool-cases (c == 10)) [
  | inl e ↦ rw e (ground arith)
  | inr e ↦ rw e (ground arith)
]

some_place :
    (a b r c : ℕ) → ◌≡◌ {A = Option (ℕ × ℕ)} (some (a, b)) (some (r, c)) → (a ≡ r) × (b ≡ c)
some_place a b r c e = (ap first e, ap second e)
  where
    first : Option (ℕ × ℕ) → ℕ
    first none = a
    first (some (x, y)) = x

    second : Option (ℕ × ℕ) → ℕ
    second none = b
    second (some (x, y)) = y

nothing : (p : ℕ × ℕ) → ◌≡◌ {A = Option (ℕ × ℕ)} none (some p) → ⊥
nothing p e = cc

locate_bounds :
    (g : GapBuffer) (num_rows num_cols n i : ℕ) (p : Place) (r c : ℕ)
    → p.row < num_rows
    → p.col < num_cols
    → locate g num_rows num_cols n i p ≡ some (r, c)
    → (r < num_rows) × (c < num_cols)
unfolding locate
locate_bounds g num_rows num_cols zero i p r c hr hc e =
    let s = some_place p.row p.col r c e in (omega (arith, s.0), omega (arith, s.1))
locate_bounds g num_rows num_cols (suc n) i p r c hr hc e = elim (Option-cases (get g i)) [
  | inl none_left ↦
      let s = some_place p.row p.col r c (rw (none_left, locate) at e) in
      (omega (arith, s.0), omega (arith, s.1))
  | inr (ch, here) ↦ elim (Bool-cases (leb num_rows (after_char num_cols ch p).row)) [
    | inl below ↦ absurd (nothing (r, c) (rw (here, below, locate) at e))
    | inr visible ↦
        locate_bounds g num_rows num_cols n (suc i) (after_char num_cols ch p) r c
          (leb→gt num_rows (after_char num_cols ch p).row visible)
          (after_char_col num_cols ch p (omega arith)) (rw (here, visible, locate) at e)
  ]
]

-- Where the cursor has a place in the area, it is in one of the area's rows and columns, and the
-- area does not begin after the cursor.
pub cursor_location_bounds :
    (g : GapBuffer) (scroll num_rows num_cols r c : ℕ)
    → cursor_location g scroll num_rows num_cols ≡ some (r, c)
    → (r < num_rows) × (c < num_cols) × (scroll ≤ g.cursor)
unfolding cursor_location
cursor_location_bounds g scroll num_rows num_cols r c e =
    elim (Bool-cases (ltb g.cursor scroll || (num_rows == 0 || num_cols == 0))) [
      | inl hidden ↦ absurd (nothing (r, c) (rw hidden at e))
      | inr shown ↦
          let b =
            locate_bounds g num_rows num_cols (g.cursor - scroll) scroll
              (record { row = 0; col = 0 }) r c (ground (arith, shown)) (ground (arith, shown))
              (rw shown at e) in
          (b.0, b.1, ground (arith, shown))
    ]
