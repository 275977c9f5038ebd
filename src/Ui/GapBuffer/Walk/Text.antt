-- ===== src/Ui/GapBuffer/Walk/Text.antt =====
-- The moves of a place in a text keep the text.
use wrb.Common.{
  ℕ, zero, suc, ◌≡◌, refl, ◌∙◌, sym, Bool, not, All, List, [], ◌∷◌, ◌==◌, append_assoc, Bool-cases,
  inl, inr,
}
use wrb.Ui.GapBuffer.Walk.Place.{
  Place, place_at, one_back, one_ahead, space_ahead, line_ahead, back_while, ahead_while,
  back_to_newline, word_left, word_right, line_begin, line_finish, column_ahead, in_column, rev,
  place_text,
}

step_text :
    (c : ℕ) (behind ahead : List ℕ)
    → place_text (place_at (c ∷ behind) ahead) ≡ place_text (place_at behind (c ∷ ahead))
step_text c behind ahead = append_assoc (rev behind) (c ∷ []) ahead

one_back-text : (p : Place) → place_text (one_back p) ≡ place_text p
one_back-text p = go p.behind p.ahead
  where
    go :
        (behind ahead : List ℕ)
        → place_text (one_back (place_at behind ahead)) ≡ place_text (place_at behind ahead)
    go [] ahead = refl
    go (c ∷ behind) ahead = sym (step_text c behind ahead)

one_ahead-text : (p : Place) → place_text (one_ahead p) ≡ place_text p
one_ahead-text p = go p.behind p.ahead
  where
    go :
        (behind ahead : List ℕ)
        → place_text (one_ahead (place_at behind ahead)) ≡ place_text (place_at behind ahead)
    go behind [] = refl
    go behind (c ∷ ahead) = step_text c behind ahead

back_while-text :
    (t : List ℕ → Bool) (behind ahead : List ℕ)
    → place_text (back_while t behind ahead) ≡ place_text (place_at behind ahead)
back_while-text t [] ahead = refl
back_while-text t (c ∷ behind) ahead = elim (Bool-cases (t ahead)) [
  | inl e ↦ rw e (back_while-text t behind (c ∷ ahead) ∙ sym (step_text c behind ahead))
  | inr e ↦ rw e refl
]

ahead_while-text :
    (t : List ℕ → Bool) (behind ahead : List ℕ)
    → place_text (ahead_while t behind ahead) ≡ place_text (place_at behind ahead)
ahead_while-text t behind [] = refl
ahead_while-text t behind (c ∷ ahead) = elim (Bool-cases (t (c ∷ ahead))) [
  | inl e ↦ rw e (ahead_while-text t (c ∷ behind) ahead ∙ step_text c behind ahead)
  | inr e ↦ rw e refl
]

back_to_newline-text :
    (behind ahead : List ℕ)
    → place_text (back_to_newline behind ahead) ≡ place_text (place_at behind ahead)
back_to_newline-text [] ahead = refl
back_to_newline-text (c ∷ behind) ahead = elim (Bool-cases (c == 10)) [
  | inl e ↦ rw e refl
  | inr e ↦ rw e (back_to_newline-text behind (c ∷ ahead) ∙ sym (step_text c behind ahead))
]

line_begin-text : (p : Place) → place_text (line_begin p) ≡ place_text p
line_begin-text p = go p.behind p.ahead
  where
    go :
        (behind ahead : List ℕ)
        → place_text (line_begin (place_at behind ahead)) ≡ place_text (place_at behind ahead)
    go [] [] = refl
    go (b ∷ behind) [] = back_to_newline-text behind (b ∷ []) ∙ sym (step_text b behind [])
    go behind (c ∷ ahead) = back_to_newline-text behind (c ∷ ahead)

column_ahead-text :
    (col : ℕ) (behind ahead : List ℕ)
    → place_text (column_ahead col behind ahead) ≡ place_text (place_at behind ahead)
column_ahead-text zero behind ahead = refl
column_ahead-text (suc col) behind [] = refl
column_ahead-text (suc col) behind (c ∷ ahead) = elim (Bool-cases (c == 10)) [
  | inl e ↦ rw e refl
  | inr e ↦ rw e (column_ahead-text col (c ∷ behind) ahead ∙ step_text c behind ahead)
]

-- Every move of a place is to a place of the same text.
pub moves_text :
    (col : ℕ) (p : Place)
    → All
        (λ q. place_text q ≡ place_text p)
        (word_left p
          ∷ word_right p
          ∷ line_begin p
          ∷ line_finish p
          ∷ in_column col (line_begin (one_back (line_begin p)))
          ∷ in_column col (line_begin (one_ahead (line_finish p)))
          ∷ [])
moves_text col p =
    let spaces = back_while space_ahead p.behind p.ahead in
    let word = back_while (λ t. not (space_ahead t)) spaces.behind spaces.ahead in
    let finish = ahead_while-text line_ahead p.behind p.ahead in
    (
      one_ahead-text word
          ∙ back_while-text (λ t. not (space_ahead t)) spaces.behind spaces.ahead
          ∙ back_while-text space_ahead p.behind p.ahead,
      (
        ahead_while-text space_ahead p.behind p.ahead,
        (
          line_begin-text p,
          (
            finish,
            (
              column-text (one_back (line_begin p))
                  ∙ one_back-text (line_begin p)
                  ∙ line_begin-text p,
              (
                column-text (one_ahead (line_finish p)) ∙ one_ahead-text (line_finish p) ∙ finish,
                tt,
              ),
            ),
          ),
        ),
      ),
    )
  where
    column-text : (q : Place) → place_text (in_column col (line_begin q)) ≡ place_text q
    column-text q =
        column_ahead-text col (line_begin q).behind (line_begin q).ahead ∙ line_begin-text q
