-- ===== src/Ui/CharBuff/Wrap/Words.antt =====
-- The words of a text, as `inner_print` finds them.
use wrb.Common.{
  ℕ, ◌+◌, ◌≡◌, refl, ap, ◌∙◌, sym, arith, Bool, true, false, not, Option, none, some, List, [], ◌∷◌,
  ◌++◌, ◌==◌, if◌then◌else◌, All, All-append, Bool-cases, inl, inr, append_assoc, append-nil, map,
  map-append,
}
use wrb.Ui.CharBuff.Wrap.{
  PrintPartType, word, newline, is_whitespace, finish_word, space_part, split_parts,
}

-- The text begins with a character that is not whitespace.
abbrev pub starts_word : List ℕ → Bool
starts_word [] = false
starts_word (c ∷ text) = not (is_whitespace c)

-- The first word has one more character before it; where a newline or nothing is first, the
-- character is a word.
abbrev pub longer_word : ℕ → List (Option (List ℕ)) → List (Option (List ℕ))
longer_word c [] = some (c ∷ []) ∷ []
longer_word c (none ∷ words) = some (c ∷ []) ∷ (none ∷ words)
longer_word c (some w ∷ words) = some (c ∷ w) ∷ words

-- The words of a text, with `none` for a newline: the longest runs without whitespace, and each
-- whitespace character but the newline.
unfoldable pub words_of : List ℕ → List (Option (List ℕ))
words_of [] = []
words_of (c ∷ text) =
    let rest = words_of text in
    if c == 10
    then none ∷ rest
    else if is_whitespace c
    then some (c ∷ []) ∷ rest
    else if starts_word text
    then longer_word c rest
    else some (c ∷ []) ∷ rest

-- What a part is among the words.
abbrev pub part_word : PrintPartType → Option (List ℕ)
part_word (word part charlen) = some part
part_word newline = none

abbrev one_word : List ℕ → List (Option (List ℕ))
one_word [] = []
one_word (c ∷ cur) = some (c ∷ cur) ∷ []

letter_plain : (c : ℕ) → is_whitespace c ≡ false → (c == 10) ≡ false
letter_plain c h = elim (Bool-cases (c == 10)) [ inl e ↦ absurd (ground arith) | inr e ↦ e ]

-- A run without whitespace is one word where none of it follows.
words_of_run :
    (cur text : List ℕ)
    → All (λ c. is_whitespace c ≡ false) cur
    → starts_word text ≡ false
    → words_of (cur ++ text) ≡ one_word cur ++ words_of text
unfolding words_of
words_of_run [] text h e = refl
words_of_run (c ∷ []) text (l, h) e = rw (letter_plain c l, l, e) refl
words_of_run (c ∷ d ∷ cur) text (l, (k, h)) e =
    let ih : words_of (d ∷ cur ++ text) ≡ some (d ∷ cur) ∷ words_of text =
      words_of_run (d ∷ cur) text (k, h) e in
    rw (letter_plain c l, l)
      (ap
          (λ (b : Bool).
            if not b
            then longer_word c (words_of (d ∷ cur ++ text))
            else some (c ∷ []) ∷ words_of (d ∷ cur ++ text))
          k
        ∙ ap (longer_word c) ih)

map-finish_word :
    (parts : List PrintPartType) (cur : List ℕ) (n : ℕ)
    → map part_word (finish_word parts cur n) ≡ map part_word parts ++ one_word cur
map-finish_word parts [] n = sym (append-nil (map part_word parts))
map-finish_word parts (c ∷ cur) n = map-append part_word parts (word (c ∷ cur) n ∷ [])

words_of_space :
    (c : ℕ) (text : List ℕ)
    → is_whitespace c ≡ true
    → words_of (c ∷ text) ≡ part_word (space_part c) ∷ words_of text
unfolding words_of
words_of_space c text h = elim (Bool-cases (c == 10)) [ inl e ↦ rw e refl | inr e ↦ rw (e, h) refl ]

-- The loop splits a text into its words.
pub map-split_parts :
    (parts : List PrintPartType) (cur : List ℕ) (n : ℕ) (text : List ℕ)
    → All (λ c. is_whitespace c ≡ false) cur
    → map part_word (split_parts parts cur n text) ≡ map part_word parts ++ words_of (cur ++ text)
unfolding split_parts words_of
map-split_parts parts cur n [] h =
    map-finish_word parts cur n
    ∙ ap (λ (l : List (Option (List ℕ))). map part_word parts ++ l)
        (sym (append-nil (one_word cur)) ∙ sym (words_of_run cur [] h refl))
map-split_parts parts cur n (c ∷ text) h = elim (Bool-cases (is_whitespace c)) [
  | inl space ↦
      rw space (map-split_parts (finish_word parts cur n ++ (space_part c ∷ [])) [] 0 text tt)
      ∙ ap (λ (l : List (Option (List ℕ))). l ++ words_of text)
          (map-append part_word (finish_word parts cur n) (space_part c ∷ [])
            ∙ ap (λ (l : List (Option (List ℕ))). l ++ (part_word (space_part c) ∷ []))
                (map-finish_word parts cur n))
      ∙ simp append_assoc refl
      ∙ ap (λ (l : List (Option (List ℕ))). map part_word parts ++ (one_word cur ++ l))
          (sym (words_of_space c text space))
      ∙ ap (λ (l : List (Option (List ℕ))). map part_word parts ++ l)
          (sym (words_of_run cur (c ∷ text) h (ap not space)))
  | inr letter ↦ rw letter (
      map-split_parts parts (cur ++ (c ∷ [])) (n + 1) text
        (All-append (λ c. is_whitespace c ≡ false) cur (c ∷ []) h (letter, tt))
      ∙ simp append_assoc refl)
]
