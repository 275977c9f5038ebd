-- ===== src/Ui/Forms/Editor.antt =====
-- An editor of a line: the characters before the cursor, last first, and those after it. What the
-- functions of src/ui/forms/textline.rs on a text do to its two parts.
use wrb.Common.{
  ℕ, suc, ◌+◌, ◌<◌, ◌≤◌, Bool, not, ◌||◌, List, [], ◌∷◌, ◌++◌, ◌≡◌, refl, ap, ◌∙◌, arith,
  if◌then◌else◌, ◌==◌, ltb, length, All,
}
use wrb.Ui.GapBuffer.{str_len}
use wrb.Ui.Forms.{
  TextLine, Key, key_left, key_right, key_up, key_down, key_backspace, key_delete, key_insert,
  key_home, key_end, key_char, key_ctrl, key_other, remove_char, write_char,
}

pub record Editor : Type 0 where
  pub before : List ℕ
  pub after : List ℕ
  pub insert : Bool

-- The first list backwards, and then the second.
abbrev pub rev_onto : List ℕ → List ℕ → List ℕ
rev_onto [] after = after
rev_onto (c ∷ before) after = rev_onto before (c ∷ after)

abbrev pub step_left : List ℕ → List ℕ → Bool → Editor
step_left [] after insert = record { before = []; after = after; insert = insert }
step_left (c ∷ before) after insert = record { before = before; after = c ∷ after; insert = insert }

abbrev pub step_right : List ℕ → List ℕ → Bool → Editor
step_right before [] insert = record { before = before; after = []; insert = insert }
step_right before (c ∷ after) insert = record {
  before = c ∷ before;
  after = after;
  insert = insert;
}

abbrev pub drop_one : List ℕ → List ℕ
drop_one [] = []
drop_one (c ∷ text) = text

abbrev pub typed : ℕ → ℕ → Editor → Editor
typed max_len c e =
    if (c == 10 || c == 13) || not (ltb (length e.before + length e.after) max_len)
    then e
    else record e { before = c ∷ e.before; after = if e.insert then e.after else drop_one e.after }

-- What a key does to the editor.
abbrev pub edit : ℕ → Key → Editor → Editor
edit max_len key_left e = step_left e.before e.after e.insert
edit max_len key_right e = step_right e.before e.after e.insert
edit max_len key_backspace e = record e { before = drop_one e.before }
edit max_len key_delete e = record e { after = drop_one e.after }
edit max_len key_insert e = record e { insert = not e.insert }
edit max_len key_home e = record e { before = []; after = rev_onto e.before e.after }
edit max_len key_end e = record e { before = rev_onto e.after e.before; after = [] }
edit max_len (key_char c) e = typed max_len c e
edit max_len (key_ctrl c) e =
    if c == 104
    then record e { before = drop_one e.before }
    else (if c == 63 then record e { after = drop_one e.after } else e)
edit max_len key_up e = e
edit max_len key_down e = e
edit max_len (key_other k) e = e

-- The line has the editor's text, and its cursor between the two parts.
abbrev pub shows : TextLine → Editor → TextLine
shows t e = record t {
  inner_text = rev_onto e.before e.after;
  cursor = length e.before;
  insert = e.insert;
}

pub record IsAscii (max_len : ℕ) (e : Editor) : Type 0 where
  pub before : All (λ c. c < 0x80) e.before
  pub after : All (λ c. c < 0x80) e.after
  pub short : length e.before + length e.after ≤ max_len

pub str_len-rev_onto :
    (before after : List ℕ)
    → All (λ c. c < 0x80) before
    → All (λ c. c < 0x80) after
    → str_len (rev_onto before after) ≡ length before + length after
unfolding str_len
str_len-rev_onto [] [] b a = refl
str_len-rev_onto [] (c ∷ after) b (l, a) = ground (arith, str_len-rev_onto [] after tt a)
str_len-rev_onto (c ∷ before) after (l, b) a =
    str_len-rev_onto before (c ∷ after) b (l, a) ∙ omega arith

pub remove_char-rev_onto :
    (i : ℕ) (before after : List ℕ)
    → remove_char (length before + i) (rev_onto before after)
      ≡ rev_onto before (remove_char i after)
unfolding remove_char
remove_char-rev_onto i [] after = ap (λ k. remove_char k after) (omega arith)
remove_char-rev_onto i (c ∷ before) after =
    ap (λ k. remove_char k (rev_onto before (c ∷ after))) (omega arith)
    ∙ remove_char-rev_onto (suc i) before (c ∷ after)

pub write_char-rev_onto :
    (i c : ℕ) (insert : Bool) (before after : List ℕ)
    → write_char (length before + i) c insert (rev_onto before after)
      ≡ rev_onto before (write_char i c insert after)
unfolding write_char
write_char-rev_onto i c insert [] after = ap (λ k. write_char k c insert after) (omega arith)
write_char-rev_onto i c insert (x ∷ before) after =
    ap (λ k. write_char k c insert (rev_onto before (x ∷ after))) (omega arith)
    ∙ write_char-rev_onto (suc i) c insert before (x ∷ after)

pub rev_onto-rev_onto :
    (after before rest : List ℕ)
    → rev_onto (rev_onto after before) rest ≡ rev_onto before (after ++ rest)
rev_onto-rev_onto [] before rest = refl
rev_onto-rev_onto (c ∷ after) before rest = rev_onto-rev_onto after (c ∷ before) rest

pub length-rev_onto :
    (before after : List ℕ) → length (rev_onto before after) ≡ length before + length after
length-rev_onto [] after = omega arith
length-rev_onto (c ∷ before) after = omega (arith, length-rev_onto before (c ∷ after))

pub rev_onto-append :
    (before after rest : List ℕ) → rev_onto before after ++ rest ≡ rev_onto before (after ++ rest)
rev_onto-append [] after rest = refl
rev_onto-append (c ∷ before) after rest = rev_onto-append before (c ∷ after) rest
