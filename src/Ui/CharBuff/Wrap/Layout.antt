-- ===== src/Ui/CharBuff/Wrap/Layout.antt =====
-- Where `print_part` puts a word, and where the pen is then.
use native.Mathlib.Nat.{mod-eq_of_lt, div-add-mod, mod-lt, div-eq_of_lt}
use mathlib.Core.Path.{subst}
use native.Mathlib.Decide.{dec_lt}
use wrb.Common.{
  ℕ, zero, suc, ◌+◌, ◌*◌, ◌/◌, ◌%◌, ◌^◌, ◌≤◌, ◌<◌, ◌≡◌, refl, ◌∙◌, arith, none, some, List, [], ◌∷◌,
  Option, if◌then◌else◌, ltb, ◌⊎◌, add_u64, length, get_elem?, max, inl, inr, lt→ltb, ge→ltb,
}
use wrb.Ui.CharBuff.{CharBuff, Style}
use wrb.Ui.CharBuff.Cells.{printed, print_at_iter_lem, div_rem_pos}
use wrb.Ui.CharBuff.Wrap.{Pen, print_word}

-- a text and the row and the column where it is printed
pub record Placement : Type 0 where
  pub row : ℕ
  pub col : ℕ
  pub text : List ℕ

-- the cell of its first character, in rows of `n` cells
abbrev pub start : ℕ → Placement → ℕ
start n p = n * p.row + p.col

-- Rows are large enough a number for `l` more characters.
abbrev pub HasRoom : ℕ → ℕ → ℕ → Type 0
HasRoom n row l = n * (row + 2 * l + 2) < 2 ^ 64

-- It stands in one row, or is longer than a row and begins one.
abbrev pub IsWhole : ℕ → Placement → Type 0
IsWhole n p = (p.col + length p.text ≤ n) ⊎ ((n < length p.text) × (p.col ≡ 0))

-- Where a word goes: to the place, if it ends before the last column of the row, and to the
-- beginning of the next row if not. Then the row and the column after it.
abbrev pub place : ℕ → ℕ → ℕ → List ℕ → Placement
place n row col w =
    if ltb (col + length w) n
    then record { row = row; col = col; text = w }
    else record { row = row + 1; col = 0; text = w }

abbrev pub row_after : ℕ → ℕ → ℕ → List ℕ → ℕ
row_after n row col w = if ltb (col + length w) n then row else row + 1 + length w / n

abbrev pub col_after : ℕ → ℕ → List ℕ → ℕ
col_after n col w = if ltb (col + length w) n then col + length w else length w % n

-- Where the words of a text go, in rows of `n` cells: each where the one before it ended, and what
-- follows a newline to the beginning of the next row.
unfoldable pub layout : ℕ → ℕ → ℕ → List (Option (List ℕ)) → List Placement
layout n row col [] = []
layout n row col (none ∷ words) = layout n (row + 1) 0 words
layout n row col (some w ∷ words) =
    place n row col w ∷ layout n (row_after n row col w) (col_after n col w) words

-- What `print_word` does to a pen, and where it puts the word.
pub record WordPrinted (s : Style) (n : ℕ) (p q : Pen) (at : Placement) : Type 0 where
  pub width : q.buff.num_cols ≡ n
  pub placed : at ≡ place n p.row p.idx at.text
  pub row_then : q.row ≡ row_after n p.row p.idx at.text
  pub col_then : q.idx ≡ col_after n p.idx at.text
  pub after : n * p.row + p.idx ≤ start n at
  pub whole : IsWhole n at
  pub cells : (i : ℕ) → get_elem? q.buff.cells i ≡ printed s p.buff.cells (start n at) at.text i
  pub allocated : length q.buff.cells ≡ max (length p.buff.cells) (start n at + length at.text)
  pub pen : n * q.row + q.idx ≡ start n at + length at.text
  pub within : q.idx ≤ n
  pub rows : q.row ≤ p.row + 1 + length at.text
  pub returned : n * q.ret.0 + q.ret.1 ≡ start n at + length at.text

pub mul_ge : (n a : ℕ) → 0 < n → a ≤ n * a
mul_ge zero a h = absurd (omega arith)
mul_ge (suc n) a h = omega arith

pub mul_le : (n a b : ℕ) → a ≤ b → n * a ≤ n * b
mul_le zero a b h = omega arith
mul_le (suc n) a b h = omega (arith, mul_le n a b h)

pub add_u64-eq : (a b : ℕ) → a + b < 2 ^ 64 → add_u64 a b ≡ a + b
add_u64-eq a b h = grind (arith, mod-eq_of_lt)

pub quotient_le : (a n : ℕ) → 0 < n → a / n ≤ a
quotient_le a n pos = omega (arith, div-add-mod a n, mul_ge n (a / n) pos)

IsWhole-at_start :
    (n : ℕ) (part : List ℕ) (row : ℕ) → IsWhole n (record { row = row; col = 0; text = part })
IsWhole-at_start n part row = elim (dec_lt n (length part)) [
  | yes more ↦ inr (more, refl)
  | no fits ↦ inl (omega arith)
]

abbrev printed_pen : Pen → List ℕ → CharBuff → ℕ → ℕ → ℕ → ℕ → Pen
printed_pen p part b ret_row ret_col row idx = record {
  buff = b;
  row = add_u64 row (length part / p.buff.num_cols);
  idx = idx;
  ret = (ret_row, ret_col);
}

-- The word is printed where the pen is, and fits there.
print_word_here :
    (s : Style) (part : List ℕ) (p : Pen)
    → 0 < p.buff.num_cols
    → p.idx + length part < p.buff.num_cols
    → HasRoom p.buff.num_cols p.row (length part)
    → (q : Pen) × (print_word s p part (length part) ≡ some q)
      × WordPrinted s p.buff.num_cols p q (record { row = p.row; col = p.idx; text = part })
unfolding print_word
print_word_here s part p pos fits room =
    let n = p.buff.num_cols in
    let r = print_at_iter_lem p.buff s p.row p.idx part pos (omega arith) in
    let wide = mul_ge n (p.row + 2 * length part + 2) pos in
    let none_full : length part / n ≡ 0 = div-eq_of_lt (omega arith) in
    let col : add_u64 p.idx (length part) ≡ p.idx + length part =
      add_u64-eq p.idx (length part) (omega (arith, wide)) in
    let row : add_u64 p.row (length part / n) ≡ p.row =
      add_u64-eq p.row (length part / n) (omega (arith, wide)) ∙ omega arith in
    (
      printed_pen p part r.0 r.1 r.2 p.row (add_u64 p.idx (length part)),
      rw
          (
            lt→ltb (add_u64 p.idx (length part)) n (omega (arith, col)),
            r.3,
            div_rem_pos (length part) n pos,
          )
          refl,
      record {
        width = r.4;
        placed = rw (lt→ltb (p.idx + length part) n fits) refl;
        row_then = rw (lt→ltb (p.idx + length part) n fits) row;
        col_then = rw (lt→ltb (p.idx + length part) n fits) col;
        after = omega arith;
        whole = inl (omega arith);
        cells = r.5;
        allocated = r.6;
        pen = rw (row, col) (omega arith);
        within = omega (arith, col);
        rows = omega (arith, row);
        returned = omega (arith, r.7);
      },
    )

-- The word does not fit, and is printed from the beginning of the next row.
print_word_wrapped :
    (s : Style) (part : List ℕ) (p : Pen)
    → 0 < p.buff.num_cols
    → p.idx ≤ p.buff.num_cols
    → p.buff.num_cols ≤ p.idx + length part
    → HasRoom p.buff.num_cols p.row (length part)
    → (q : Pen) × (print_word s p part (length part) ≡ some q)
      × WordPrinted s p.buff.num_cols p q (record { row = p.row + 1; col = 0; text = part })
unfolding print_word
print_word_wrapped s part p pos inside full room =
    let n = p.buff.num_cols in
    let r = print_at_iter_lem p.buff s (p.row + 1) 0 part pos (omega arith) in
    let wide = mul_ge n (p.row + 2 * length part + 2) pos in
    let few = quotient_le (length part) n pos in
    let parts = div-add-mod (length part) n in
    let col : add_u64 p.idx (length part) ≡ p.idx + length part =
      add_u64-eq p.idx (length part)
        (omega (arith, wide, mul_ge (p.row + 2 * length part + 2) n (omega arith))) in
    let down : add_u64 p.row 1 ≡ p.row + 1 = add_u64-eq p.row 1 (omega (arith, wide)) in
    let row : add_u64 (p.row + 1) (length part / n) ≡ p.row + 1 + length part / n =
      add_u64-eq (p.row + 1) (length part / n) (omega (arith, wide)) in
    (
      printed_pen p part r.0 r.1 r.2 (p.row + 1) (length part % n),
      rw
          (
            ge→ltb (add_u64 p.idx (length part)) n (omega (arith, col)),
            down,
            r.3,
            div_rem_pos (length part) n pos,
          )
          refl,
      record {
        width = r.4;
        placed = rw (ge→ltb (p.idx + length part) n full) refl;
        row_then = rw (ge→ltb (p.idx + length part) n full) row;
        col_then = rw (ge→ltb (p.idx + length part) n full) refl;
        after = omega arith;
        whole = IsWhole-at_start n part (p.row + 1);
        cells = r.5;
        allocated = r.6;
        pen = rw row (omega arith);
        within = omega (arith, mod-lt (length part) pos);
        rows = omega (arith, row);
        returned = omega (arith, r.7);
      },
    )

-- A word that the pen prints, with where it stands and where the pen is then.
pub print_word_lem :
    (s : Style) (n : ℕ) (part : List ℕ) (p : Pen)
    → p.buff.num_cols ≡ n
    → 0 < n
    → p.idx ≤ n
    → HasRoom n p.row (length part)
    → (at : Placement) × (q : Pen) × (print_word s p part (length part) ≡ some q)
      × (at.text ≡ part)
      × WordPrinted s n p q at
print_word_lem s n part p w =
    subst
      (λ n.
        0 < n
        → p.idx ≤ n
        → HasRoom n p.row (length part)
        → (at : Placement) × (q : Pen) × (print_word s p part (length part) ≡ some q)
          × (at.text ≡ part)
          × WordPrinted s n p q at)
      w
      λ pos inside room. elim (dec_lt (p.idx + length part) p.buff.num_cols) [
        | yes fits ↦ let r = print_word_here s part p pos fits room in (_, r.0, r.1, refl, r.2)
        | no full ↦
            let r = print_word_wrapped s part p pos inside (omega arith) room in
            (_, r.0, r.1, refl, r.2)
      ]
