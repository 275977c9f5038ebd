-- ===== src/Ui/GapBuffer/Walk/Loops.antt =====
-- The loops of the cursor's moves: where they end.
use wrb.Common.{
  ℕ, zero, suc, ◌+◌, ◌<◌, ◌≡◌, refl, ap, ◌∙◌, sym, arith, Bool, true, false, not, Option, none,
  some, List, [], ◌∷◌, ◌++◌, ◌==◌, ltb, leb, ◌||◌, ◌&&◌, if◌then◌else◌, length, get_elem?,
  replicate, length-append, length-replicate, ==_refl, Bool-cases, inl, inr,
}
use wrb.Ui.CharBuff.Wrap.{is_whitespace}
use wrb.Ui.GapBuffer.{GapBuffer, chr, read_char}
use wrb.Ui.GapBuffer.Move.{left, right}
use wrb.Ui.GapBuffer.Represents.{Meta, get_elem?-append_append}
use wrb.Ui.GapBuffer.Edit.{left_lem, right_lem, up_line, down_line}
use wrb.Ui.GapBuffer.Walk.{move_while, to_column, at_space, at_newline, in_line, at_end, test_char}
use wrb.Ui.GapBuffer.Walk.Place.{
  Place, place_at, one_back, one_ahead, space_ahead, newline_ahead, line_ahead, back_while,
  ahead_while, column_ahead, gap_at, rev,
}

-- The result is the buffer with the gap at a place, with a flag or without.
abbrev pub Goes : ℕ → Place → Bool → Option (GapBuffer × Bool) → Type 0
Goes n p moved r = (m : Meta) × (r ≡ some (gap_at m n p, moved))

abbrev pub Comes : ℕ → Place → Option GapBuffer → Type 0
Comes n p r = (m : Meta) × (r ≡ some (gap_at m n p))

abbrev pub is_some_char : List ℕ → Bool
is_some_char [] = false
is_some_char (c ∷ l) = true

pub left-Goes :
    (m : Meta) (n : ℕ) (behind ahead : List ℕ)
    → Goes n
        (one_back (place_at behind ahead))
        (is_some_char behind)
        (left (gap_at m n (place_at behind ahead)))
unfolding left
left-Goes m n [] ahead = (m, refl)
left-Goes m n (c ∷ behind) ahead =
    let l = left_lem m (rev behind) ahead c n in (up_line m c l.0, l.1)

end_full :
    (m : Meta) (n : ℕ) (before : List ℕ)
    → length before + n ≡ length (before ++ (replicate n 0 ++ []))
end_full m n before = omega (
  arith,
  length-append before (replicate n 0 ++ []),
  length-append (replicate n zero) [],
  length-replicate n zero,
)

pub right-Goes :
    (m : Meta) (n : ℕ) (behind ahead : List ℕ)
    → Goes n
        (one_ahead (place_at behind ahead))
        (is_some_char ahead)
        (right (gap_at m n (place_at behind ahead)))
unfolding right
right-Goes m n behind [] =
    (m, rw (end_full m n (rev behind), ==_refl (length (rev behind ++ (replicate n 0 ++ [])))) refl)
right-Goes m n behind (c ∷ ahead) =
    let r = right_lem m (rev behind) ahead c n in (down_line m c r.0, r.1)

-- The tests read the first character ahead.
abbrev first_of : List ℕ → Option ℕ
first_of [] = none
first_of (c ∷ ahead) = some c

get_elem?-end : (xs : List ℕ) → get_elem? xs (length xs) ≡ none
get_elem?-end [] = refl
get_elem?-end (x ∷ xs) = get_elem?-end xs

chr_lem :
    (m : Meta) (n : ℕ) (behind ahead : List ℕ)
    → chr (gap_at m n (place_at behind ahead)) ≡ read_char (first_of ahead)
unfolding chr
chr_lem m n behind [] =
    rw (end_full m n (rev behind), get_elem?-end (rev behind ++ (replicate n 0 ++ []))) refl
chr_lem m n behind (c ∷ ahead) =
    rw
      (
        ap (λ (k : ℕ). length (rev behind) + k) (sym (length-replicate n zero)),
        get_elem?-append_append (rev behind) (replicate n 0) ahead c,
      )
      refl

-- What is not a character is read as one that is neither whitespace nor a newline, which it is not
-- itself.
read_char_lem :
    (c : ℕ)
    → (d : ℕ) × (read_char (some c) ≡ some d)
      × (is_whitespace d ≡ is_whitespace c)
      × ((d == 10) ≡ (c == 10))
read_char_lem c = elim (Bool-cases (ltb c 0xd800 || (leb 0xe000 c && leb c 0x10ffff))) [
  | inl e ↦ (c, read e, refl, refl)
  | inr e ↦ (0xfffd, read e, ground arith, ground arith)
]
  where
    read :
        {b : Bool}
        → (ltb c 0xd800 || (leb 0xe000 c && leb c 0x10ffff)) ≡ b
        → read_char (some c) ≡ elim (if b then some c else none) as (λ o. Option ℕ) [
          | none ↦ some 0xfffd
          | some x ↦ some x
        ]
    read e =
        ap
          (λ (b : Bool). elim (if b then some c else none) as (λ o. Option ℕ) [
            | none ↦ some 0xfffd
            | some x ↦ some x
          ])
          e

-- A test of the buffer that is a test of the text ahead.
abbrev pub Reads : (GapBuffer → Bool) → (List ℕ → Bool) → Type 0
Reads test t =
    (m : Meta) (n : ℕ) (behind ahead : List ℕ) → test (gap_at m n (place_at behind ahead)) ≡ t ahead

pub at_space-Reads : Reads at_space space_ahead
at_space-Reads m n behind [] = ap (test_char is_whitespace true) (chr_lem m n behind [])
at_space-Reads m n behind (c ∷ ahead) =
    let r = read_char_lem c in
    ap (test_char is_whitespace true) (chr_lem m n behind (c ∷ ahead) ∙ r.1) ∙ r.2

pub at_newline-Reads : Reads at_newline newline_ahead
at_newline-Reads m n behind [] = ap (test_char (λ d. d == 10) true) (chr_lem m n behind [])
at_newline-Reads m n behind (c ∷ ahead) =
    let r = read_char_lem c in
    ap (test_char (λ d. d == 10) true) (chr_lem m n behind (c ∷ ahead) ∙ r.1) ∙ r.3

pub in_line-Reads : Reads in_line line_ahead
in_line-Reads m n behind [] = ap (test_char (λ d. not (d == 10)) true) (chr_lem m n behind [])
in_line-Reads m n behind (c ∷ ahead) =
    let r = read_char_lem c in
    ap (test_char (λ d. not (d == 10)) true) (chr_lem m n behind (c ∷ ahead) ∙ r.1) ∙ ap not r.3

pub at_end-Reads : Reads at_end (λ ahead. not (is_some_char ahead))
at_end-Reads m n behind [] = ap (test_char (λ d. false) true) (chr_lem m n behind [])
at_end-Reads m n behind (c ∷ ahead) =
    ap (test_char (λ d. false) true) (chr_lem m n behind (c ∷ ahead) ∙ (read_char_lem c).1)

-- With a round more than there are characters, a loop ends where its test fails or the text does.
pub move_while-left :
    (test : GapBuffer → Bool) (t : List ℕ → Bool) (k : ℕ) (m : Meta) (n : ℕ) (behind ahead : List ℕ)
    → Reads test t
    → length behind < k
    → Comes n
        (back_while t behind ahead)
        (move_while test left k (gap_at m n (place_at behind ahead)))
unfolding move_while
move_while-left test t zero m n behind ahead reads h = absurd (omega arith)
move_while-left test t (suc k) m n [] ahead reads h =
    let l = left-Goes m n [] ahead in
    elim (Bool-cases (t ahead)) [
      | inl e ↦ (l.0, rw (reads m n [] ahead ∙ e, l.1) refl)
      | inr e ↦ (m, rw (reads m n [] ahead ∙ e) refl)
    ]
move_while-left test t (suc k) m n (c ∷ behind) ahead reads h =
    let l = left-Goes m n (c ∷ behind) ahead in
    let ih = move_while-left test t k l.0 n behind (c ∷ ahead) reads (omega arith) in
    elim (Bool-cases (t ahead)) [
      | inl e ↦ rw e (ih.0, rw (reads m n (c ∷ behind) ahead ∙ e, l.1) ih.1)
      | inr e ↦ rw e (m, rw (reads m n (c ∷ behind) ahead ∙ e) refl)
    ]

pub move_while-right :
    (test : GapBuffer → Bool) (t : List ℕ → Bool) (k : ℕ) (m : Meta) (n : ℕ) (behind ahead : List ℕ)
    → Reads test t
    → length ahead < k
    → Comes n
        (ahead_while t behind ahead)
        (move_while test right k (gap_at m n (place_at behind ahead)))
unfolding move_while
move_while-right test t zero m n behind ahead reads h = absurd (omega arith)
move_while-right test t (suc k) m n behind [] reads h =
    let l = right-Goes m n behind [] in
    elim (Bool-cases (t [])) [
      | inl e ↦ (l.0, rw (reads m n behind [] ∙ e, l.1) refl)
      | inr e ↦ (m, rw (reads m n behind [] ∙ e) refl)
    ]
move_while-right test t (suc k) m n behind (c ∷ ahead) reads h =
    let l = right-Goes m n behind (c ∷ ahead) in
    let ih = move_while-right test t k l.0 n (c ∷ behind) ahead reads (omega arith) in
    elim (Bool-cases (t (c ∷ ahead))) [
      | inl e ↦ rw e (ih.0, rw (reads m n behind (c ∷ ahead) ∙ e, l.1) ih.1)
      | inr e ↦ rw e (m, rw (reads m n behind (c ∷ ahead) ∙ e) refl)
    ]

pub to_column_lem :
    (col : ℕ) (m : Meta) (n : ℕ) (behind ahead : List ℕ)
    → Comes n (column_ahead col behind ahead) (to_column col (gap_at m n (place_at behind ahead)))
unfolding to_column
to_column_lem zero m n behind ahead = (m, refl)
to_column_lem (suc col) m n behind [] = (m, rw (at_newline-Reads m n behind []) refl)
to_column_lem (suc col) m n behind (c ∷ ahead) =
    let r = right-Goes m n behind (c ∷ ahead) in
    let ih = to_column_lem col r.0 n (c ∷ behind) ahead in
    elim (Bool-cases (c == 10)) [
      | inl e ↦ rw e (m, rw (at_newline-Reads m n behind (c ∷ ahead) ∙ e) refl)
      | inr e ↦ rw e (ih.0, rw (at_newline-Reads m n behind (c ∷ ahead) ∙ e, r.1) ih.1)
    ]
