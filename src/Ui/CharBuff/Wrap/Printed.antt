-- ===== src/Ui/CharBuff/Wrap/Printed.antt =====
-- What the pen of word-wrapped printing has done.
use mathlib.Core.Option
use wrb.Common.{
  none, Option, ℕ, ◌+◌, ◌*◌, ◌≤◌, ◌<◌, ◌≡◌, refl, ap, ◌∙◌, arith, some, List, [], ◌∷◌, ◌++◌,
  if◌then◌else◌, ◌==◌, add_u64, length, get_elem?, false, All, inl, inr,
}
use wrb.Ui.CharBuff.{CharCell, Style, char_cell}
use wrb.Ui.CharBuff.Cells.{printed_inside, printed_before}
use wrb.Ui.CharBuff.Wrap.{Pen, word, is_whitespace}
use wrb.Ui.CharBuff.Wrap.Split.{IsPart}
use wrb.Ui.CharBuff.Wrap.Layout.{
  layout, row_after, col_after, Placement, start, IsWhole, WordPrinted,
}

-- Each placement begins at or after `from` and after the last cell of those before it.
abbrev pub InOrder : ℕ → ℕ → List Placement → Type 0
InOrder n from [] = Unit {0}
InOrder n from (p ∷ ps) = (from ≤ start n p) × InOrder n (start n p + length p.text) ps

-- The cells hold the characters of a placement.
abbrev pub Shows : Style → ℕ → List CharCell → Placement → Type 0
Shows s n cells p =
    (k : ℕ)
    → k < length p.text
    → get_elem? cells (start n p + k) ≡ Option.map (char_cell s) (get_elem? p.text k)

unfoldable pub placed_text : List Placement → List ℕ
placed_text [] = []
placed_text (p ∷ ps) = p.text ++ placed_text ps

-- the cell after the last placement, or `ret` where there is none
unfoldable pub end_of : ℕ → ℕ → List Placement → ℕ
end_of n ret [] = ret
end_of n ret (p ∷ ps) = end_of n (start n p + length p.text) ps

unfoldable pub without_newlines : List ℕ → List ℕ
without_newlines [] = []
without_newlines (c ∷ text) = if c == 10 then without_newlines text else c ∷ without_newlines text

-- What the pen has done from one state to another: the words of the text are at the placements.
pub record Printed (s : Style) (n : ℕ) (text : List ℕ) (words : List (Option (List ℕ))) (p q : Pen)
    (ps : List Placement) : Type 0 where
  pub width : q.buff.num_cols ≡ n
  pub laid : ps ≡ layout n p.row p.idx words
  pub printed_text : placed_text ps ≡ without_newlines text
  pub in_order : InOrder n (n * p.row + p.idx) ps
  pub whole : All (IsWhole n) ps
  pub shows : All (Shows s n q.buff.cells) ps
  pub kept :
      (i : ℕ)
      → i < n * p.row + p.idx
      → i < length p.buff.cells
      → get_elem? q.buff.cells i ≡ get_elem? p.buff.cells i
  pub grown : length p.buff.cells ≤ length q.buff.cells
  pub returned : n * q.ret.0 + q.ret.1 ≡ end_of n (n * p.ret.0 + p.ret.1) ps

InOrder-from : (n a b : ℕ) (ps : List Placement) → a ≤ b → InOrder n b ps → InOrder n a ps
InOrder-from n a b [] h o = tt
InOrder-from n a b (p ∷ ps) h (o, os) = (omega arith, os)

without_newlines-append :
    (xs ys : List ℕ) → without_newlines (xs ++ ys) ≡ without_newlines xs ++ without_newlines ys
unfolding without_newlines
without_newlines-append [] ys = refl
without_newlines-append (x ∷ xs) ys = ground (arith, without_newlines-append xs ys)

without_newlines_id :
    (xs : List ℕ) → All (λ c. is_whitespace c ≡ false) xs → without_newlines xs ≡ xs
unfolding without_newlines
without_newlines_id [] h = refl
without_newlines_id (x ∷ xs) (p, h) = ground (arith, without_newlines_id xs h)

-- The rest after a newline.
pub Printed-newline :
    (s : Style) (n : ℕ) (text : List ℕ) (words : List (Option (List ℕ))) (p q : Pen)
    (ps : List Placement)
    → p.idx ≤ n
    → add_u64 p.row 1 ≡ p.row + 1
    → Printed s n text words (record p { row = add_u64 p.row 1; idx = 0 }) q ps
    → Printed s n (10 ∷ text) (none ∷ words) p q ps
unfolding without_newlines layout
Printed-newline s n text words p q ps inside e r = record {
  width = r.width;
  laid = r.laid ∙ ap (λ (k : ℕ). layout n k 0 words) e;
  printed_text = r.printed_text;
  in_order =
      InOrder-from n (n * p.row + p.idx) (n * add_u64 p.row 1 + 0) ps (rw e (omega arith))
        r.in_order;
  whole = r.whole;
  shows = r.shows;
  kept = λ i h. r.kept i (rw e (omega arith));
  grown = r.grown;
  returned = r.returned;
}

-- The rest after a word.
pub Printed-word :
    (s : Style) (n : ℕ) (text : List ℕ) (words : List (Option (List ℕ))) (p m q : Pen)
    (at : Placement) (ps : List Placement)
    → without_newlines at.text ≡ at.text
    → WordPrinted s n p m at
    → Printed s n text words m q ps
    → Printed s n (at.text ++ text) (some at.text ∷ words) p q (at ∷ ps)
unfolding placed_text end_of layout
Printed-word s n text words p m q at ps plain a r = record {
  width = r.width;
  laid =
      ap (λ (l : List Placement). at ∷ l)
        (r.laid ∙ (λ i. layout n (a.row_then i) (a.col_then i) words))
      ∙ ap
          (λ (w : Placement).
            w ∷ layout n (row_after n p.row p.idx at.text) (col_after n p.idx at.text) words)
          a.placed;
  printed_text = simp (without_newlines-append, plain, r.printed_text) refl;
  in_order = (
    a.after,
    InOrder-from n (start n at + length at.text) (n * m.row + m.idx) ps (omega (arith, a.pen))
        r.in_order,
  );
  whole = (a.whole, r.whole);
  shows = (
    λ k h.
        r.kept (start n at + k) (omega (arith, a.pen)) (omega (arith, a.allocated))
        ∙ a.cells (start n at + k)
        ∙ printed_inside s p.buff.cells (start n at) at.text k h,
    r.shows,
  );
  kept = λ i h l.
      r.kept i (omega (arith, a.pen, a.after)) (omega (arith, a.allocated))
      ∙ a.cells i
      ∙ printed_before s p.buff.cells (start n at) at.text i (omega (arith, a.after)) l;
  grown = omega (arith, a.allocated, r.grown);
  returned = r.returned ∙ ap (λ (t : ℕ). end_of n t ps) a.returned;
}

pub plain_part :
    (part : List ℕ) (charlen : ℕ) → IsPart (word part charlen) → without_newlines part ≡ part
unfolding without_newlines
plain_part part charlen (e, some_text, inl letters) = without_newlines_id part letters
plain_part part charlen (e, some_text, inr (c, one, space, other)) = rw one (ground arith)
