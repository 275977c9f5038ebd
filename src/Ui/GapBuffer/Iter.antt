-- ===== src/Ui/GapBuffer/Iter.antt =====
-- `GapBufferIterator` (src/ui/forms/textarea.rs): the characters of a text area, with its rows
-- filled up by spaces.
use wrb.Common.{
  ltb→lt, ltb→ge, ℕ, zero, suc, ◌+◌, ◌-◌, ◌*◌, ◌%◌, ◌^◌, ◌<◌, ◌≤◌, ◌≡◌, refl, ap, ◌∙◌, arith, Bool,
  true, false, not, ◌&&◌, Option, none, some, List, [], ◌∷◌, if◌then◌else◌, ltb, leb, ◌==◌, mul_u64,
  length, Bool-cases, inl, inr, gt→leb, le→leb,
}
use native.Mathlib.Nat.{mod-eq_of_lt}
use wrb.Ui.GapBuffer.{GapBuffer}
use wrb.Ui.GapBuffer.Read.{get}

pub record GapBufferIterator : Type 0 where
  pub idx : ℕ
  pub print_idx : ℕ
  pub num_rows : ℕ
  pub num_cols : ℕ
  pub newline_pad : Bool
  pub tab_pad : ℕ
  pub buff : GapBuffer

abbrev pub tab_len : ℕ
tab_len = 3

-- `iter_at_offset`; `iter` is at the offset zero.
abbrev pub iter_at_offset : GapBuffer → ℕ → ℕ → ℕ → GapBufferIterator
iter_at_offset g num_rows num_cols offset = record {
  idx = offset;
  print_idx = 0;
  num_rows = num_rows;
  num_cols = num_cols;
  newline_pad = false;
  tab_pad = 0;
  buff = g;
}

abbrev pub iter : GapBuffer → ℕ → ℕ → GapBufferIterator
iter g num_rows num_cols = iter_at_offset g num_rows num_cols 0

abbrev pub area : GapBufferIterator → ℕ
area it = mul_u64 it.num_rows it.num_cols

abbrev pub advance : GapBufferIterator → GapBufferIterator
advance it = record it { idx = it.idx + 1; print_idx = it.print_idx + 1 }

-- A newline and a tab are spaces that others follow; past the text are spaces.
abbrev pub next_char : GapBufferIterator → Option ℕ → Option ℕ × GapBufferIterator
next_char it none =
    (if ltb 0 it.num_rows && leb (it.print_idx + 1) (area it) then some 32 else none, advance it)
next_char it (some chr) =
    if chr == 10
    then (some 32, record (advance it) { newline_pad = true })
    else (if chr == 9
        then (some 32, record (advance it) { tab_pad = tab_len })
        else (some chr, advance it))

-- There is a column where the area has a cell, so that the remainder is defined.
abbrev pub next_pad : GapBufferIterator → Option ℕ × GapBufferIterator
next_pad it = (
  some 32,
  record it {
    print_idx = it.print_idx + 1;
    newline_pad = not ((it.print_idx + 1) % it.num_cols == 0);
  },
)

unfoldable pub next : GapBufferIterator → Option ℕ × GapBufferIterator
unfolding get
next it =
    if leb (area it) it.print_idx
    then (none, it)
    else (if it.newline_pad
        then next_pad it
        else (if ltb 0 it.tab_pad
            then (some 32, record it { tab_pad = it.tab_pad - 1; print_idx = it.print_idx + 1 })
            else next_char it (get it.buff it.idx)))

-- What the iterator yields in at most `n` calls, until there is nothing.
abbrev pub yielded : Option ℕ → List ℕ → List ℕ
yielded none rest = []
yielded (some c) rest = c ∷ rest

unfoldable pub collect : ℕ → GapBufferIterator → List ℕ
collect zero it = []
collect (suc n) it = yielded (next it).0 (collect n (next it).1)

-- The next character, and the iterator then.
abbrev Yields : GapBufferIterator → Option ℕ × GapBufferIterator → Type 0
Yields it r =
    (c : ℕ) × (r.0 ≡ some c)
    × (r.1.print_idx ≡ suc it.print_idx)
    × (r.1.num_rows ≡ it.num_rows)
    × (r.1.num_cols ≡ it.num_cols)

next_char-Yields :
    (it : GapBufferIterator) (o : Option ℕ) → it.print_idx < area it → Yields it (next_char it o)
next_char-Yields it none h =
    (32, ground (arith, some_rows it.num_rows it.num_cols), omega arith, refl, refl)
  where
    some_rows : (r c : ℕ) → r ≡ 0 → mul_u64 r c ≡ 0
    some_rows r c e = rw e (omega arith)
next_char-Yields it (some c) h = elim (Bool-cases (c == 10)) [
  | inl e ↦ rw e (32, refl, omega arith, refl, refl)
  | inr e ↦ elim (Bool-cases (c == 9)) [
    | inl t ↦ rw (e, t) (32, refl, omega arith, refl, refl)
    | inr t ↦ rw (e, t) (c, refl, omega arith, refl, refl)
  ]
]

next-Yields : (it : GapBufferIterator) → it.print_idx < area it → Yields it (next it)
unfolding next
next-Yields it h = elim (Bool-cases it.newline_pad) [
  | inl p ↦ simp (gt→leb (area it) it.print_idx h, p) (32, refl, omega arith, refl, refl)
  | inr p ↦ elim (Bool-cases (ltb 0 it.tab_pad)) [
    | inl t ↦ simp (gt→leb (area it) it.print_idx h, p, t) (32, refl, omega arith, refl, refl)
    | inr t ↦
        simp (gt→leb (area it) it.print_idx h, p, t) (next_char-Yields it (get it.buff it.idx) h)
  ]
]

next_at_end : (it : GapBufferIterator) → area it ≤ it.print_idx → (next it).0 ≡ none
unfolding next
next_at_end it h = rw (le→leb (area it) it.print_idx h) refl

length-collect :
    (n : ℕ) (it : GapBufferIterator)
    → area it ≤ it.print_idx + n
    → it.print_idx ≤ area it
    → length (collect n it) ≡ area it - it.print_idx
unfolding collect
length-collect zero it h l = omega arith
length-collect (suc n) it h l = elim (Bool-cases (ltb it.print_idx (area it))) [
  | inl more ↦
      let y = next-Yields it (ltb→lt it.print_idx (area it) more) in
      let same : area (next it).1 ≡ area it = rw (y.3, y.4) refl in
      let ih =
        length-collect n (next it).1 (omega (arith, same, y.2))
          (omega (arith, same, y.2, ltb→lt it.print_idx (area it) more)) in
      ap (λ (o : Option ℕ). length (yielded o (collect n (next it).1))) y.1
      ∙ omega (arith, ih, same, y.2, ltb→lt it.print_idx (area it) more)
  | inr done ↦
      ap (λ (o : Option ℕ). length (yielded o (collect n (next it).1)))
        (finished (ltb→ge it.print_idx (area it) done))
      ∙ omega (arith, ltb→ge it.print_idx (area it) done)
]
  where
    finished : area it ≤ it.print_idx → (next it).0 ≡ none
    finished h = next_at_end it h

-- An iterator yields exactly as many characters as its area has cells, from whichever offset, and
-- then nothing more, whatever the text is: the number of calls does not matter once it is as large.
pub length-collect_area :
    (g : GapBuffer) (num_rows num_cols offset n : ℕ)
    → num_rows * num_cols < 2 ^ 64
    → num_rows * num_cols ≤ n
    → length (collect n (iter_at_offset g num_rows num_cols offset)) ≡ num_rows * num_cols
length-collect_area g num_rows num_cols offset n small enough =
    let cells : mul_u64 num_rows num_cols ≡ num_rows * num_cols = mod-eq_of_lt small in
    length-collect n (iter_at_offset g num_rows num_cols offset) (omega (arith, cells))
      (omega arith)
    ∙ omega (arith, cells)
