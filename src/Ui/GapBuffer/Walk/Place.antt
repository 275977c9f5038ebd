-- ===== src/Ui/GapBuffer/Walk/Place.antt =====
-- A place in a text, and where the moves of a cursor by words and lines lead from it: what
-- `left_word` to `down` of src/ui/forms/textarea.rs do, on lists instead of a buffer with a gap.
use wrb.Common.{ℕ, zero, suc, Bool, true, not, List, [], ◌∷◌, ◌++◌, ◌==◌, if◌then◌else◌, length}
use wrb.Ui.CharBuff.Wrap.{is_whitespace}
use wrb.Ui.GapBuffer.{GapBuffer}
use wrb.Ui.GapBuffer.Represents.{Meta, with_gap}

-- The characters before the place, the nearest first, and those after it.
pub record Place : Type 0 where
  pub behind : List ℕ
  pub ahead : List ℕ

abbrev pub place_at : List ℕ → List ℕ → Place
place_at behind ahead = record { behind = behind; ahead = ahead }

abbrev pub one_back : Place → Place
one_back p = elim p.behind [ [] ↦ p | c ∷ behind ↦ place_at behind (c ∷ p.ahead) ]

abbrev pub one_ahead : Place → Place
one_ahead p = elim p.ahead [ [] ↦ p | c ∷ ahead ↦ place_at (c ∷ p.behind) ahead ]

-- What the text ahead begins with; its end counts as each of them.
abbrev pub space_ahead : List ℕ → Bool
space_ahead [] = true
space_ahead (c ∷ ahead) = is_whitespace c

abbrev pub newline_ahead : List ℕ → Bool
newline_ahead [] = true
newline_ahead (c ∷ ahead) = c == 10

abbrev pub line_ahead : List ℕ → Bool
line_ahead [] = true
line_ahead (c ∷ ahead) = not (c == 10)

-- Back while the text ahead passes the test, and ahead while it does.
abbrev pub back_while : (List ℕ → Bool) → List ℕ → List ℕ → Place
back_while test [] ahead = place_at [] ahead
back_while test (c ∷ behind) ahead =
    if test ahead then back_while test behind (c ∷ ahead) else place_at (c ∷ behind) ahead

abbrev pub ahead_while : (List ℕ → Bool) → List ℕ → List ℕ → Place
ahead_while test behind [] = place_at behind []
ahead_while test behind (c ∷ ahead) =
    if test (c ∷ ahead) then ahead_while test (c ∷ behind) ahead else place_at behind (c ∷ ahead)

-- Back over whitespace, back over the word before it, and one ahead again.
abbrev pub word_left : Place → Place
word_left p =
    let spaces = back_while space_ahead p.behind p.ahead in
    one_ahead (back_while (λ t. not (space_ahead t)) spaces.behind spaces.ahead)

abbrev pub word_right : Place → Place
word_right p = ahead_while space_ahead p.behind p.ahead

-- After the last newline behind, or at the beginning of the text.
abbrev pub back_to_newline : List ℕ → List ℕ → Place
back_to_newline [] ahead = place_at [] ahead
back_to_newline (c ∷ behind) ahead =
    if c == 10 then place_at (c ∷ behind) ahead else back_to_newline behind (c ∷ ahead)

-- The beginning of the line. From the end of the text it is that of the character before.
abbrev pub line_begin : Place → Place
line_begin p = elim p.ahead [
  | [] ↦ elim p.behind [ [] ↦ p | b ∷ behind ↦ back_to_newline behind (b ∷ []) ]
  | c ∷ ahead ↦ back_to_newline p.behind p.ahead
]

abbrev pub line_finish : Place → Place
line_finish p = ahead_while line_ahead p.behind p.ahead

-- At most `col` characters ahead, and not over a newline.
abbrev pub column_ahead : ℕ → List ℕ → List ℕ → Place
column_ahead zero behind ahead = place_at behind ahead
column_ahead (suc col) behind [] = place_at behind []
column_ahead (suc col) behind (c ∷ ahead) =
    if c == 10 then place_at behind (c ∷ ahead) else column_ahead col (c ∷ behind) ahead

abbrev pub in_column : ℕ → Place → Place
in_column col p = column_ahead col p.behind p.ahead

-- Reading order.
abbrev pub rev : List ℕ → List ℕ
rev [] = []
rev (c ∷ behind) = rev behind ++ (c ∷ [])

-- the text
abbrev pub place_text : Place → List ℕ
place_text p = rev p.behind ++ p.ahead

-- The buffer with a gap of `n` at the place.
abbrev pub gap_at : Meta → ℕ → Place → GapBuffer
gap_at m n p = with_gap m (rev p.behind) n p.ahead

-- The second place is where the first is.
abbrev pub is_same : Place → Place → Bool
is_same p q = length (rev q.behind) == length (rev p.behind)
