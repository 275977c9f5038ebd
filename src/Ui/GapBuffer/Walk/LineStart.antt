-- ===== src/Ui/GapBuffer/Walk/LineStart.antt =====
-- Where `line_start` leaves the cursor.
use wrb.Common.{
  ℕ, zero, suc, ◌-◌, ◌≡◌, refl, ap, ◌∙◌, arith, Bool, false, Option, some, List, [], ◌∷◌, ◌++◌,
  ◌==◌, if◌then◌else◌, length, replicate, length-append, length-replicate, Bool-cases, inl, inr,
}
use mathlib.Core.Path.{subst}
use wrb.Ui.GapBuffer.{GapBuffer}
use wrb.Ui.GapBuffer.Move.{right}
use wrb.Ui.GapBuffer.Represents.{Meta}
use wrb.Ui.GapBuffer.Walk.{
  while_left, while_right, move_if, past_line_start, before_newline, to_line_start, at_newline,
  in_line, stayed,
}
use wrb.Ui.GapBuffer.Walk.Place.{
  Place, place_at, one_ahead, newline_ahead, line_ahead, back_while, ahead_while, back_to_newline,
  line_begin, rev, gap_at,
}
use wrb.Ui.GapBuffer.Walk.Loops.{
  Comes, is_some_char, left-Goes, right-Goes, Reads, at_newline-Reads, in_line-Reads, at_end-Reads,
  move_while-left, move_while-right,
}

length-rev : (xs : List ℕ) → length (rev xs) ≡ length xs
length-rev [] = refl
length-rev (x ∷ xs) = omega (arith, length-append (rev xs) (x ∷ []), length-rev xs)

pub while_left_lem :
    (test : GapBuffer → Bool) (t : List ℕ → Bool) (m : Meta) (n : ℕ) (p : Place)
    → Reads test t
    → Comes n (back_while t p.behind p.ahead) (while_left test (gap_at m n p))
while_left_lem test t m n p reads =
    move_while-left test t (suc (length (rev p.behind))) m n p.behind p.ahead reads
      (omega (arith, length-rev p.behind))

pub while_right_lem :
    (test : GapBuffer → Bool) (t : List ℕ → Bool) (m : Meta) (n : ℕ) (p : Place)
    → Reads test t
    → Comes n (ahead_while t p.behind p.ahead) (while_right test (gap_at m n p))
while_right_lem test t m n p reads =
    let g = gap_at m n p in
    move_while-right test t (suc (length g.buffer - g.gap - g.cursor)) m n p.behind p.ahead reads (
      omega (
        arith,
        length-append (rev p.behind) (replicate n 0 ++ p.ahead),
        length-append (replicate n zero) p.ahead,
        length-replicate n zero,
      ))

-- After the loop, a newline is stepped over again.
abbrev land : Place → Place
land q = if newline_ahead q.ahead then one_ahead q else q

land-back_while :
    (behind ahead : List ℕ) (c : ℕ)
    → land (back_while line_ahead behind (c ∷ ahead)) ≡ back_to_newline (c ∷ behind) ahead
land-back_while [] ahead c = refl
land-back_while (b ∷ behind) ahead c = elim (Bool-cases (c == 10)) [
  | inl e ↦ rw e (
      ap
        (λ (k : Bool).
          if k then place_at (c ∷ (b ∷ behind)) ahead else place_at (b ∷ behind) (c ∷ ahead))
        e)
  | inr e ↦ rw e (land-back_while behind (c ∷ ahead) b)
]

-- The result is the buffer with the gap at a place, with some flag.
abbrev pub Lands : ℕ → Place → Option (GapBuffer × Bool) → Type 0
Lands n p r = (moved : Bool) × (m : Meta) × (r ≡ some (gap_at m n p, moved))

step_ahead_lem :
    (old : ℕ) (m : Meta) (n : ℕ) (q : Place)
    → Lands n (land q) (move_if (at_newline (gap_at m n q)) right (stayed old) (gap_at m n q))
step_ahead_lem old m n q =
    let r = right-Goes m n q.behind q.ahead in
    elim (Bool-cases (newline_ahead q.ahead)) [
      | inl e ↦ rw e (elim (Bool-cases (is_some_char q.ahead)) [
        | inl some_char ↦ (
          (gap_at r.0 n (one_ahead q)).cursor == old,
          r.0,
          rw (at_newline-Reads m n q.behind q.ahead ∙ e, r.1, some_char) refl,
        )
        | inr none_left ↦
            (false, r.0, rw (at_newline-Reads m n q.behind q.ahead ∙ e, r.1, none_left) refl)
      ])
      | inr e ↦
          rw e
            ((gap_at m n q).cursor == old, m, rw (at_newline-Reads m n q.behind q.ahead ∙ e) refl)
    ]

past_line_start_lem :
    (old : ℕ) (m : Meta) (n c : ℕ) (behind ahead : List ℕ)
    → Lands n
        (back_to_newline (c ∷ behind) ahead)
        (past_line_start old (gap_at m n (place_at behind (c ∷ ahead))))
past_line_start_lem old m n c behind ahead =
    let q = back_while line_ahead behind (c ∷ ahead) in
    let a = while_left_lem in_line line_ahead m n (place_at behind (c ∷ ahead)) in_line-Reads in
    let s = step_ahead_lem old a.0 n q in
    subst (λ k. Lands n k (past_line_start old (gap_at m n (place_at behind (c ∷ ahead)))))
      (land-back_while behind ahead c) (s.0, s.1, rw a.1 s.2)

before_newline_lem :
    (old : ℕ) (m : Meta) (n c : ℕ) (behind ahead : List ℕ)
    → Lands n
        (back_to_newline behind (c ∷ ahead))
        (before_newline old (gap_at m n (place_at behind (c ∷ ahead))))
before_newline_lem old m n c [] ahead =
    let p = past_line_start_lem old m n c [] ahead in
    let l = left-Goes m n [] (c ∷ ahead) in
    elim (Bool-cases (c == 10)) [
      | inl e ↦ (false, l.0, rw (at_newline-Reads m n [] (c ∷ ahead) ∙ e, l.1) refl)
      | inr e ↦ (
        p.0,
        p.1,
        rw (at_newline-Reads m n [] (c ∷ ahead) ∙ e) p.2
            ∙ ap
                (λ (k : Bool). some (
                  gap_at p.1 n (if k then place_at (c ∷ []) ahead else place_at [] (c ∷ ahead)),
                  p.0,
                ))
                e,
      )
    ]
before_newline_lem old m n c (b ∷ behind) ahead =
    let p = past_line_start_lem old m n c (b ∷ behind) ahead in
    let l = left-Goes m n (b ∷ behind) (c ∷ ahead) in
    let q = past_line_start_lem old l.0 n b behind (c ∷ ahead) in
    elim (Bool-cases (c == 10)) [
      | inl e ↦ (q.0, q.1, rw (at_newline-Reads m n (b ∷ behind) (c ∷ ahead) ∙ e, l.1) q.2)
      | inr e ↦ (
        p.0,
        p.1,
        rw (at_newline-Reads m n (b ∷ behind) (c ∷ ahead) ∙ e) p.2
            ∙ ap
                (λ (k : Bool). some (
                  gap_at p.1 n (
                      if k
                      then place_at (c ∷ (b ∷ behind)) ahead
                      else back_to_newline (b ∷ behind) (c ∷ ahead)),
                  p.0,
                ))
                e,
      )
    ]

pub to_line_start_lem :
    (m : Meta) (n : ℕ) (behind ahead : List ℕ)
    → Lands n
        (line_begin (place_at behind ahead))
        (to_line_start (gap_at m n (place_at behind ahead)))
unfolding to_line_start
to_line_start_lem m n [] [] =
    let l = left-Goes m n [] [] in (false, l.0, rw (at_end-Reads m n [] [], l.1) refl)
to_line_start_lem m n (b ∷ behind) [] =
    let l = left-Goes m n (b ∷ behind) [] in
    let r = before_newline_lem (gap_at m n (place_at (b ∷ behind) [])).cursor l.0 n b behind [] in
    (r.0, r.1, rw (at_end-Reads m n (b ∷ behind) [], l.1) r.2)
to_line_start_lem m n behind (c ∷ ahead) =
    let r =
      before_newline_lem (gap_at m n (place_at behind (c ∷ ahead))).cursor m n c behind ahead in
    (r.0, r.1, rw (at_end-Reads m n behind (c ∷ ahead)) r.2)
