-- ===== src/Ui/CharBuff/Wrap/Print.antt =====
-- What word-wrapped printing leaves in a buffer.
use mathlib.Core.Path.{subst}
use wrb.Common.{
  map, true, Bool, ℕ, suc, ◌+◌, ◌*◌, ◌≤◌, ◌<◌, ◌≡◌, refl, ap, ◌∙◌, sym, arith, some, List, [], ◌∷◌,
  ◌++◌, if◌then◌else◌, add_u64, length, get_elem?, false, All, length-append,
}
use wrb.Ui.CharBuff.{CharBuff, Style}
use wrb.Ui.CharBuff.Wrap.{
  Pen, PrintPartType, word, newline, print_word, print_part, print_parts, inner_print, split_parts,
  finish_print,
}
use wrb.Ui.CharBuff.Wrap.Split.{IsPart-split_parts, parts_text-split_parts, parts_text, IsPart}
use wrb.Ui.CharBuff.Wrap.Layout.{
  layout, Placement, HasRoom, IsWhole, print_word_lem, add_u64-eq, mul_ge, mul_le,
}
use wrb.Ui.CharBuff.Wrap.Words.{words_of, part_word, map-split_parts}
use wrb.Ui.CharBuff.Wrap.Printed.{
  InOrder, Shows, placed_text, end_of, without_newlines, Printed, Printed-newline, Printed-word,
  plain_part,
}

print_parts_lem :
    (s : Style) (n : ℕ) (parts : List PrintPartType) (p : Pen)
    → p.buff.num_cols ≡ n
    → 0 < n
    → p.idx ≤ n
    → All IsPart parts
    → HasRoom n p.row (length (parts_text parts))
    → (q : Pen) × (ps : List Placement) × (print_parts s parts p ≡ some q)
      × Printed s n (parts_text parts) (map part_word parts) p q ps
unfolding print_parts print_part parts_text placed_text without_newlines end_of layout
print_parts_lem s n [] p w pos inside all room = (
  p,
  [],
  refl,
  record {
    width = w;
    laid = refl;
    printed_text = refl;
    in_order = tt;
    whole = tt;
    shows = tt;
    kept = λ i h l. refl;
    grown = omega arith;
    returned = refl;
  },
)
print_parts_lem s n (newline ∷ parts) p w pos inside (a, all) room =
    let l = length (parts_text parts) in
    let e : add_u64 p.row 1 ≡ p.row + 1 =
      add_u64-eq p.row 1 (omega (arith, mul_ge n (p.row + 2 * suc l + 2) pos)) in
    let r =
      print_parts_lem s n parts (record p { row = add_u64 p.row 1; idx = 0 }) w pos (omega arith)
        all
        (rw e (
          omega (arith, mul_le n (p.row + 1 + 2 * l + 2) (p.row + 2 * suc l + 2) (omega arith)))) in
    (
      r.0,
      r.1,
      r.2,
      Printed-newline s n (parts_text parts) (map part_word parts) p r.0 r.1 inside e r.3,
    )
print_parts_lem s n (word part charlen ∷ parts) p w pos inside (a, all) room =
    let l = length (parts_text parts) in
    let longer = length-append part (parts_text parts) in
    let m = print_word_lem s n part p w pos inside (
      omega (
        arith,
        mul_le n (p.row + 2 * length part + 2) (p.row + 2 * length (part ++ parts_text parts) + 2)
            (omega (arith, longer)),
      )) in
    let printed_word : print_word s p part charlen ≡ some m.1 =
      ap (λ (c : ℕ). print_word s p part c) (sym a.0) ∙ m.2 in
    let r = print_parts_lem s n parts m.1 m.4.width pos m.4.within all (
      omega (
        arith,
        mul_le n (m.1.row + 2 * l + 2) (p.row + 2 * length (part ++ parts_text parts) + 2)
            (omega (arith, longer, m.4.rows, ap length m.3, a.0, a.1)),
      )) in
    (
      r.0,
      m.0 ∷ r.1,
      rw printed_word r.2,
      subst
          (λ t.
            Printed s n (t ++ parts_text parts) (some t ∷ map part_word parts) p r.0 (m.0 ∷ r.1))
          m.3
          (Printed-word s n (parts_text parts) (map part_word parts) p m.1 r.0 m.0 r.1
            (subst (λ t. without_newlines t ≡ t) (sym m.3) (plain_part part charlen a)) m.4 r.3),
    )

-- The result of word-wrapped printing of a text at a place of a buffer.
abbrev pub PrintsWords : CharBuff → Style → ℕ → ℕ → List ℕ → Bool → Type 0
PrintsWords b s row col text end_line =
    let ps = layout b.num_cols row col (words_of text) in
    (b' : CharBuff) × (r : ℕ) × (c : ℕ) × (inner_print b s row col text end_line
      ≡ some (b', if end_line then add_u64 r 1 else r, if end_line then 0 else c))
    × (b'.num_cols ≡ b.num_cols)
    × (placed_text ps ≡ without_newlines text)
    × All (IsWhole b.num_cols) ps
    × InOrder b.num_cols (b.num_cols * row + col) ps
    × All (Shows s b.num_cols b'.cells) ps
    × ((i : ℕ)
        → i < b.num_cols * row + col
        → i < length b.cells
        → get_elem? b'.cells i ≡ get_elem? b.cells i)
    × (b.num_cols * r + c ≡ end_of b.num_cols (b.num_cols * row + col) ps)

-- Word-wrapped printing from a place within a row, where the buffer has a width and rows are large
-- enough a number for the text, returns a buffer of the same width. Every character of the text's
-- words is in its cell at the end, where `layout` puts the words: these are the longest runs
-- without whitespace and each whitespace character but the newline; a word goes where the one
-- before it ended if it then ends before the last column of the row, and to the beginning of the
-- next row if not; a newline goes to the beginning of the next row. So each word is in one row
-- unless it is longer than a row, which then begins one; each is after those before it and after
-- the place; and together they are the text without its newlines. The allocated cells before the
-- place stay. The place that is returned is the one after the last word, or the place given where
-- there is none; with a final newline, the row below it.
pub inner_print_lem :
    (b : CharBuff) (s : Style) (row col : ℕ) (text : List ℕ) (end_line : Bool)
    → 0 < b.num_cols
    → col ≤ b.num_cols
    → HasRoom b.num_cols row (length text)
    → PrintsWords b s row col text end_line
unfolding inner_print parts_text split_parts
inner_print_lem b s row col text end_line pos inside room =
    let same : parts_text (split_parts [] [] 0 text) ≡ text = parts_text-split_parts [] [] 0 text in
    let r =
      print_parts_lem s b.num_cols (split_parts [] [] 0 text)
        (record { buff = b; row = row; idx = col; ret = (row, col) }) refl pos inside
        (IsPart-split_parts [] [] 0 text refl tt tt)
        (subst (λ t. HasRoom b.num_cols row (length t)) (sym same) room) in
    let laid : r.1 ≡ layout b.num_cols row col (words_of text) =
      r.3.laid ∙ ap (layout b.num_cols row col) (map-split_parts [] [] 0 text tt) in
    (
      r.0.buff,
      r.0.ret.0,
      r.0.ret.1,
      rw r.2 (finished r.0 end_line),
      r.3.width,
      rw (sym laid) (r.3.printed_text ∙ ap without_newlines same),
      subst (All (IsWhole b.num_cols)) laid r.3.whole,
      subst (InOrder b.num_cols (b.num_cols * row + col)) laid r.3.in_order,
      subst (All (Shows s b.num_cols r.0.buff.cells)) laid r.3.shows,
      r.3.kept,
      r.3.returned ∙ ap (end_of b.num_cols (b.num_cols * row + col)) laid,
    )
  where
    finished :
        (q : Pen) (end_line : Bool)
        → finish_print end_line q
          ≡ some (
            q.buff,
            if end_line then add_u64 q.ret.0 1 else q.ret.0,
            if end_line then 0 else q.ret.1,
          )
    finished q true = refl
    finished q false = refl
