-- ===== src/Ui/CharBuff/Cells.antt =====
-- What `print_at_iter` leaves in each cell, and where it ends.
use mathlib.Core.Option
use native.Mathlib.Nat.{mod-eq_of_lt, div-add-mod, mod-lt}
use wrb.Common.{
  lt→ltb, ge→ltb, ℕ, zero, suc, ◌+◌, ◌-◌, ◌*◌, ◌/◌, ◌%◌, ◌^◌, ◌≤◌, ◌<◌, ◌≡◌, refl, ◌∙◌, arith,
  Option, none, some, List, [], ◌∷◌, ◌++◌, ltb, ◌==◌, if◌then◌else◌, length, get_elem?, set, max,
  length-append, length-set, get_elem?-append_left, get_elem?-append_length, get_elem?_past,
  get_elem?-set_self, get_elem?-set_ne, Bool-cases, inl, inr,
}
use wrb.Ui.CharBuff.{
  CharBuff, CharCell, blank, Style, char_cell, pad, put_cell, put_chars, offset_at, print_at_iter,
  div_rem,
}

-- The cell at `i` after `text` is put at `offset`: a character of the text, or what was there, or a
-- blank before the text.
abbrev pub printed : Style → List CharCell → ℕ → List ℕ → ℕ → Option CharCell
printed s cells offset text i =
    if ltb i offset
    then (if ltb i (length cells) then get_elem? cells i else some blank)
    else (if ltb i (offset + length text)
        then Option.map (char_cell s) (get_elem? text (i - offset))
        else get_elem? cells i)

-- The cells of the text itself.
pub printed_inside :
    (s : Style) (cells : List CharCell) (offset : ℕ) (text : List ℕ) (k : ℕ)
    → k < length text
    → printed s cells offset text (offset + k) ≡ Option.map (char_cell s) (get_elem? text k)
printed_inside s cells offset text k h =
    let e : offset + k - offset ≡ k = omega arith in
    rw
      (
        ge→ltb (offset + k) offset (omega arith),
        lt→ltb (offset + k) (offset + length text) (omega arith),
        e,
      )
      refl

pub printed_before :
    (s : Style) (cells : List CharCell) (offset : ℕ) (text : List ℕ) (i : ℕ)
    → i < offset
    → i < length cells
    → printed s cells offset text i ≡ get_elem? cells i
printed_before s cells offset text i h l = ground arith

length-pad : (n : ℕ) (cells : List CharCell) → length (pad n cells) ≡ length cells + n
unfolding pad
length-pad zero cells = omega arith
length-pad (suc n) cells =
    omega (arith, length-pad n (cells ++ (blank ∷ [])), length-append cells (blank ∷ []))

length-put_cell :
    (cells : List CharCell) (offset : ℕ) (c : CharCell)
    → offset ≤ length cells
    → length (put_cell cells offset c) ≡ max (length cells) (suc offset)
length-put_cell cells offset c h =
    ground (arith, length-set cells offset c, length-append cells (c ∷ []))

length-put_chars :
    (s : Style) (cells : List CharCell) (offset : ℕ) (text : List ℕ)
    → offset ≤ length cells
    → length (put_chars s cells offset text) ≡ max (length cells) (offset + length text)
unfolding put_chars
length-put_chars s cells offset [] h = omega arith
length-put_chars s cells offset (c ∷ text) h = omega (
  arith,
  length-put_chars s (put_cell cells offset (char_cell s c)) (suc offset) text
      (omega (arith, length-put_cell cells offset (char_cell s c) h)),
  length-put_cell cells offset (char_cell s c) h,
)

get_elem?-pad :
    (n : ℕ) (cells : List CharCell) (i : ℕ)
    → get_elem? (pad n cells) i ≡ (
        if ltb i (length cells)
        then get_elem? cells i
        else (if ltb i (length cells + n) then some blank else none))
unfolding pad
get_elem?-pad zero cells i = ground (arith, get_elem?_past cells i)
get_elem?-pad (suc n) cells i =
    get_elem?-pad n (cells ++ (blank ∷ [])) i
    ∙ ground (
      arith,
      length-append cells (blank ∷ []),
      get_elem?-append_left cells (blank ∷ []) i,
      last i,
    )
  where
    last : (i : ℕ) → i ≡ length cells → get_elem? (cells ++ (blank ∷ [])) i ≡ some blank
    last i e = rw e (get_elem?-append_length cells [] blank)

get_elem?-put_cell :
    (cells : List CharCell) (offset : ℕ) (c : CharCell) (i : ℕ)
    → offset ≤ length cells
    → get_elem? (put_cell cells offset c) i ≡ (if i == offset then some c else get_elem? cells i)
get_elem?-put_cell cells offset c i h = elim (Bool-cases (ltb offset (length cells))) [
  | inl inside ↦ rw inside (ground (arith, written, get_elem?-set_ne cells offset i c))
  | inr at_end ↦ rw at_end (
      ground (
        arith,
        get_elem?-append_left cells (c ∷ []) i,
        appended,
        get_elem?_past cells i,
        get_elem?_past (cells ++ (c ∷ [])) i,
        length-append cells (c ∷ []),
      ))
]
  where
    written : i ≡ offset → offset < length cells → get_elem? (set cells offset c) i ≡ some c
    written e l = rw e (get_elem?-set_self cells offset c l)

    appended : i ≡ length cells → get_elem? (cells ++ (c ∷ [])) i ≡ some c
    appended e = rw e (get_elem?-append_length cells [] c)

get_elem?-put_chars :
    (s : Style) (cells : List CharCell) (offset : ℕ) (text : List ℕ) (i : ℕ)
    → offset ≤ length cells
    → get_elem? (put_chars s cells offset text) i ≡ (
        if ltb i offset
        then get_elem? cells i
        else (if ltb i (offset + length text)
            then Option.map (char_cell s) (get_elem? text (i - offset))
            else get_elem? cells i))
unfolding put_chars
get_elem?-put_chars s cells offset [] i h = ground arith
get_elem?-put_chars s cells offset (c ∷ text) i h =
    get_elem?-put_chars s (put_cell cells offset (char_cell s c)) (suc offset) text i
      (omega (arith, length-put_cell cells offset (char_cell s c) h))
    ∙ ground (arith, get_elem?-put_cell cells offset (char_cell s c) i h, first, later)
  where
    first : i ≡ offset → get_elem? (c ∷ text) (i - offset) ≡ some c
    first e = let z : i - offset ≡ 0 = omega arith in rw z

    later : offset < i → get_elem? (c ∷ text) (i - offset) ≡ get_elem? text (i - suc offset)
    later l = let z : i - offset ≡ suc (i - suc offset) = omega arith in rw z

pub offset_at-eq :
    (b : CharBuff) (row col : ℕ)
    → b.num_cols * row + col < 2 ^ 64
    → offset_at b row col ≡ b.num_cols * row + col
offset_at-eq b row col h = grind (arith, mod-eq_of_lt)

pub div_rem_pos : (a n : ℕ) → 0 < n → div_rem a n ≡ some (a / n, a % n)
div_rem_pos a zero h = absurd (omega arith)
div_rem_pos a (suc n) h = refl

print_at_iter_value :
    (b : CharBuff) (s : Style) (row col : ℕ) (text : List ℕ) (offset : ℕ)
    → 0 < b.num_cols
    → offset_at b row col ≡ offset
    → print_at_iter b s row col text
      ≡ some (
        record b { cells = put_chars s (pad (offset - length b.cells) b.cells) offset text },
        (offset + length text) / b.num_cols,
        (offset + length text) % b.num_cols,
      )
unfolding print_at_iter
print_at_iter_value b s row col text offset width e =
    rw (e, div_rem_pos (offset + length text) b.num_cols width) refl

-- The result of printing a text at a place of a buffer, without word-wrapping.
abbrev pub PrintsAt : CharBuff → Style → ℕ → ℕ → List ℕ → Type 0
PrintsAt b s row col text =
    (b' : CharBuff) × (q : ℕ) × (r : ℕ) × (print_at_iter b s row col text ≡ some (b', q, r))
    × (b'.num_cols ≡ b.num_cols)
    × ((i : ℕ) → get_elem? b'.cells i ≡ printed s b.cells (b.num_cols * row + col) text i)
    × (length b'.cells ≡ max (length b.cells) (b.num_cols * row + col + length text))
    × (q * b.num_cols + r ≡ b.num_cols * row + col + length text)
    × (r < b.num_cols)

-- Where a text is printed at a place of a buffer that has a width, it returns: the cells before the
-- place stay, or become blank where there were none; then comes the text, with control characters
-- replaced; the cells after it stay, and no more are allocated. The width stays. The place that is returned is that
-- of the next character.
pub print_at_iter_lem :
    (b : CharBuff) (s : Style) (row col : ℕ) (text : List ℕ)
    → 0 < b.num_cols
    → b.num_cols * row + col < 2 ^ 64
    → PrintsAt b s row col text
print_at_iter_lem b s row col text width room = (
  record b { cells = put_chars s padded offset text },
  (offset + length text) / b.num_cols,
  (offset + length text) % b.num_cols,
  print_at_iter_value b s row col text offset width (offset_at-eq b row col room),
  refl,
  λ i.
      get_elem?-put_chars s padded offset text i reaches
      ∙ ground (arith, get_elem?-pad (offset - length b.cells) b.cells i, get_elem?_past b.cells i),
  omega (arith, length-put_chars s padded offset text reaches, padded_length),
  grind (arith, div-add-mod (offset + length text) b.num_cols),
  grind (arith, mod-lt),
)
  where
    offset : ℕ
    offset = b.num_cols * row + col

    padded : List CharCell
    padded = pad (offset - length b.cells) b.cells

    padded_length : length padded ≡ length b.cells + (offset - length b.cells)
    padded_length = length-pad (offset - length b.cells) b.cells

    reaches : offset ≤ length padded
    reaches = omega (arith, padded_length)
