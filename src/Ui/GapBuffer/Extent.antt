-- ===== src/Ui/GapBuffer/Extent.antt =====
-- Where the visible part of a text begins and ends (`start_of_area` and `end_of_area` of
-- src/ui/forms/textarea.rs).
use wrb.Common.{
  ℕ, zero, suc, ◌+◌, ◌-◌, ◌%◌, ◌≤◌, ◌≡◌, refl, arith, Bool, ◌||◌, ◌&&◌, ◌⊎◌, inl, inr, Option, none,
  some, ltb, leb, ◌==◌, if◌then◌else◌, length, Bool-cases, Option-cases,
}
use wrb.Ui.GapBuffer.{GapBuffer}
use wrb.Ui.GapBuffer.Read.{get}
use wrb.Ui.GapBuffer.Area.{cursor_location}

-- A character ends a row if it is a newline or at the last column.
abbrev pub ends_row : ℕ → ℕ → ℕ → ℕ → Bool
ends_row num_cols i line_len c = c == 10 || (ltb 0 i && line_len % num_cols == 0)

-- The loop of `end_of_area`, with the rounds that are left; it stops at the end of the text.
unfoldable pub scan_rows : GapBuffer → ℕ → ℕ → ℕ → ℕ → ℕ → ℕ → ℕ
unfolding get
scan_rows g num_rows num_cols zero i row line_len = i
scan_rows g num_rows num_cols (suc n) i row line_len = elim (get g i) [
  | none ↦ i
  | some c ↦
      (let rest =
          scan_rows g num_rows num_cols n (i + 1)
            (if ends_row num_cols (i + 1) (line_len + 1) c then row + 1 else row)
            (if c == 10 then 0 else line_len + 1) in
        if ltb row num_rows then rest else i)
]

unfoldable pub end_of_area : GapBuffer → ℕ → ℕ → ℕ → ℕ
unfolding scan_rows
end_of_area g scroll num_rows num_cols =
    if num_rows == 0 || num_cols == 0
    then 0
    else scan_rows g num_rows num_cols (suc (length g.buffer)) scroll 0 0

-- The loop of `start_of_area`: the index, and the last character that was read.
unfoldable pub back_rows : GapBuffer → ℕ → ℕ → ℕ → ℕ → Option ℕ → ℕ × Option ℕ
back_rows g num_cols zero row line_len last_c = (0, last_c)
back_rows g num_cols (suc i) row line_len last_c = elim (get g (suc i)) [
  | none ↦ (suc i, last_c)
  | some c ↦
      (let rest =
          back_rows g num_cols i (if ends_row num_cols i (line_len + 1) c then row - 1 else row)
            (if c == 10 then 0 else line_len + 1) (some c) in
        if row == 0 then (suc i, last_c) else rest)
]

-- `if last_c == '\n' { i += 2 }`
abbrev pub past_last : ℕ → Option ℕ → ℕ
past_last i none = i
past_last i (some c) = if c == 10 then i + 2 else i

-- the rows from the first to the cursor's
abbrev pub rows_back : ℕ → Option (ℕ × ℕ) → ℕ
rows_back num_rows none = num_rows - 1 + 1
rows_back num_rows (some (row, col)) = row + 1

unfoldable pub start_of_area : GapBuffer → ℕ → ℕ → ℕ → ℕ
unfolding back_rows
start_of_area g scroll num_rows num_cols =
    if num_rows == 0 || num_cols == 0
    then 0
    else (if leb g.cursor 1
        then 0
        else (let b =
              back_rows g num_cols (g.cursor - 1)
                (rows_back num_rows (cursor_location g scroll num_rows num_cols)) 0 none in
            past_last b.0 b.1))

-- The loop goes back by a character at least where it has read one.
back_rows_le :
    (g : GapBuffer) (num_cols i row line_len : ℕ) (last_c : Option ℕ)
    → (((back_rows g num_cols i row line_len last_c).0 ≡ i)
        × ((back_rows g num_cols i row line_len last_c).1 ≡ last_c))
      ⊎ (suc (back_rows g num_cols i row line_len last_c).0 ≤ i)
unfolding back_rows
back_rows_le g num_cols zero row line_len last_c = inl (refl, refl)
back_rows_le g num_cols (suc i) row line_len last_c = elim (Option-cases (get g (suc i))) [
  | inl e ↦ rw (e, back_rows) (inl (refl, refl))
  | inr (c, e) ↦ elim (Bool-cases (row == 0)) [
    | inl z ↦ rw (e, z, back_rows) (inl (refl, refl))
    | inr z ↦
        rw (e, z, back_rows)
          (inr (
            further (
              back_rows_le g num_cols i
                (if ends_row num_cols i (line_len + 1) c then row - 1 else row)
                (if c == 10 then 0 else line_len + 1) (some c))))
  ]
]
  where
    further : {P : Type 0} → {j k : ℕ} → ((j ≡ k) × P) ⊎ (suc j ≤ k) → suc j ≤ suc k
    further (inl (e, p)) = omega (arith, e)
    further (inr h) = omega (arith, h)

past_last_le :
    (j i : ℕ) (last_c : Option ℕ)
    → ((j ≡ i) × (last_c ≡ none)) ⊎ (suc j ≤ i)
    → past_last j last_c ≤ i + 1
past_last_le j i last_c (inl (e, z)) = rw z (omega (arith, e))
past_last_le j i none (inr h) = omega (arith, h)
past_last_le j i (some c) (inr h) = ground (arith, h)

-- The visible part of the text does not begin after the cursor.
pub start_of_area_le :
    (g : GapBuffer) (scroll num_rows num_cols : ℕ)
    → start_of_area g scroll num_rows num_cols ≤ g.cursor
unfolding start_of_area
start_of_area_le g scroll num_rows num_cols =
    let rows = rows_back num_rows (cursor_location g scroll num_rows num_cols) in
    let b = back_rows g num_cols (g.cursor - 1) rows 0 none in
    ground (
      arith,
      past_last_le b.0 (g.cursor - 1) b.1 (back_rows_le g num_cols (g.cursor - 1) rows 0 none),
    )
