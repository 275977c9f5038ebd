-- ===== src/Ui/GapBuffer/Represents.antt =====
-- A gap buffer as the text before its gap and the text after it.
use wrb.Common.{
  ℕ, ◌+◌, ◌≡◌, ap, sym, arith, some, List, ◌∷◌, ◌++◌, length, get_elem?, replicate, append_assoc,
  length-append, get_elem?-append_length, set-append_length, lt→ltb,
}
use wrb.Ui.GapBuffer.{GapBuffer, set_elem?}

-- the fields that are not the text
pub record Meta : Type 0 where
  pub gap_size : ℕ
  pub lineno : ℕ
  pub line_start : ℕ

-- The buffer with a text, a gap of `n`, and a text.
abbrev pub with_gap : Meta → List ℕ → ℕ → List ℕ → GapBuffer
with_gap m before n after = record {
  buffer = before ++ (replicate n 0 ++ after);
  cursor = length before;
  gap = n;
  gap_size = m.gap_size;
  lineno = m.lineno;
  line_start = m.line_start;
}

-- the text of the buffer
abbrev pub whole_text : List ℕ → List ℕ → List ℕ
whole_text before after = before ++ after

pub set_elem?-append_length :
    (xs ys : List ℕ) (y v : ℕ) → set_elem? (xs ++ (y ∷ ys)) (length xs) v ≡ some (xs ++ (v ∷ ys))
set_elem?-append_length xs ys y v =
    rw (lt→ltb (length xs) (length (xs ++ (y ∷ ys))) (omega (arith, length-append xs (y ∷ ys))))
      (ap some (set-append_length xs ys y v))

-- The same at the place after two texts.
pub set_elem?-append_append :
    (xs zs ys : List ℕ) (y v : ℕ)
    → set_elem? (xs ++ (zs ++ (y ∷ ys))) (length xs + length zs) v ≡ some (xs ++ (zs ++ (v ∷ ys)))
set_elem?-append_append xs zs ys y v =
    rw
      (
        sym (append_assoc xs zs (y ∷ ys)),
        sym (length-append xs zs),
        sym (append_assoc xs zs (v ∷ ys)),
      )
      (set_elem?-append_length (xs ++ zs) ys y v)

pub get_elem?-append_append :
    (xs zs ys : List ℕ) (y : ℕ)
    → get_elem? (xs ++ (zs ++ (y ∷ ys))) (length xs + length zs) ≡ some y
get_elem?-append_append xs zs ys y =
    rw (sym (append_assoc xs zs (y ∷ ys)), sym (length-append xs zs))
      (get_elem?-append_length (xs ++ zs) ys y)
