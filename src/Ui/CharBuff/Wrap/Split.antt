-- ===== src/Ui/CharBuff/Wrap/Split.antt =====
-- What `inner_print` splits a text into.
use mathlib.Core.Path.{subst}
use wrb.Common.{
  ℕ, ◌+◌, ◌<◌, ◌≡◌, refl, ap, ◌∙◌, sym, arith, true, false, List, [], ◌∷◌, ◌++◌, ◌==◌, length, All,
  Bool-cases, inl, inr, append_assoc, append-nil, length-append, All-append, ◌≢◌, ◌⊎◌,
}
use wrb.Ui.CharBuff.Wrap.{
  PrintPartType, word, newline, is_whitespace, finish_word, space_part, split_parts,
}

-- the characters of a part
abbrev pub part_text : PrintPartType → List ℕ
part_text (word part charlen) = part
part_text newline = 10 ∷ []

unfoldable pub parts_text : List PrintPartType → List ℕ
parts_text [] = []
parts_text (p ∷ parts) = part_text p ++ parts_text parts

-- A word is not empty, is counted right, and is one whitespace character or has none.
abbrev pub IsPart : PrintPartType → Type 0
IsPart newline = Unit
IsPart (word part charlen) =
    (length part ≡ charlen)
    × (0 < charlen)
    × (All (λ c. is_whitespace c ≡ false) part
        ⊎ ((c : ℕ) × (part ≡ c ∷ []) × (is_whitespace c ≡ true) × (c ≢ 10)))

pub parts_text-append :
    (ps qs : List PrintPartType) → parts_text (ps ++ qs) ≡ parts_text ps ++ parts_text qs
unfolding parts_text
parts_text-append [] qs = refl
parts_text-append (p ∷ ps) qs =
    rw (parts_text-append ps qs) (sym (append_assoc (part_text p) (parts_text ps) (parts_text qs)))

parts_text-finish_word :
    (parts : List PrintPartType) (cur : List ℕ) (n : ℕ)
    → parts_text (finish_word parts cur n) ≡ parts_text parts ++ cur
unfolding parts_text
parts_text-finish_word parts [] n = sym (append-nil (parts_text parts))
parts_text-finish_word parts (c ∷ cur) n =
    parts_text-append parts (word (c ∷ cur) n ∷ []) ∙ simp append-nil refl

space_part_text : (c : ℕ) → parts_text (space_part c ∷ []) ≡ c ∷ []
unfolding parts_text
space_part_text c = ground arith

-- The parts hold the characters of the text, in order.
pub parts_text-split_parts :
    (parts : List PrintPartType) (cur : List ℕ) (n : ℕ) (text : List ℕ)
    → parts_text (split_parts parts cur n text) ≡ parts_text parts ++ (cur ++ text)
unfolding split_parts
parts_text-split_parts parts cur n [] =
    parts_text-finish_word parts cur n
    ∙ ap (λ (t : List ℕ). parts_text parts ++ t) (sym (append-nil cur))
parts_text-split_parts parts cur n (c ∷ text) = elim (Bool-cases (is_whitespace c)) [
  | inl space ↦ rw space (
      parts_text-split_parts (finish_word parts cur n ++ (space_part c ∷ [])) [] 0 text
      ∙ simp (parts_text-append, parts_text-finish_word, space_part_text, append_assoc) refl)
  | inr letter ↦
      rw letter
        (parts_text-split_parts parts (cur ++ (c ∷ [])) (n + 1) text ∙ simp append_assoc refl)
]

IsPart-space_part : (c : ℕ) → is_whitespace c ≡ true → IsPart (space_part c)
IsPart-space_part c h = elim (Bool-cases (c == 10)) [
  | inl e ↦ rw e tt
  | inr e ↦ rw e (refl, omega arith, inr (c, refl, h, ground arith))
]

IsPart-finish_word :
    (parts : List PrintPartType) (cur : List ℕ)
    → All IsPart parts
    → All (λ c. is_whitespace c ≡ false) cur
    → All IsPart (finish_word parts cur (length cur))
IsPart-finish_word parts [] h k = h
IsPart-finish_word parts (c ∷ cur) h k =
    All-append IsPart parts (word (c ∷ cur) (length (c ∷ cur)) ∷ []) h
      ((refl, omega arith, inl k), tt)

pub IsPart-split_parts :
    (parts : List PrintPartType) (cur : List ℕ) (n : ℕ) (text : List ℕ)
    → length cur ≡ n
    → All IsPart parts
    → All (λ c. is_whitespace c ≡ false) cur
    → All IsPart (split_parts parts cur n text)
unfolding split_parts
IsPart-split_parts parts cur n [] e h k =
    subst (λ m. All IsPart (finish_word parts cur m)) e (IsPart-finish_word parts cur h k)
IsPart-split_parts parts cur n (c ∷ text) e h k = elim (Bool-cases (is_whitespace c)) [
  | inl space ↦ rw space (
      IsPart-split_parts (finish_word parts cur n ++ (space_part c ∷ [])) [] 0 text refl
        (All-append IsPart (finish_word parts cur n) (space_part c ∷ [])
          (subst (λ m. All IsPart (finish_word parts cur m)) e (IsPart-finish_word parts cur h k))
          (IsPart-space_part c space, tt))
        tt)
  | inr letter ↦ rw letter (
      IsPart-split_parts parts (cur ++ (c ∷ [])) (n + 1) text
        (omega (arith, length-append cur (c ∷ []))) h
        (All-append (λ c. is_whitespace c ≡ false) cur (c ∷ []) k (letter, tt)))
]
