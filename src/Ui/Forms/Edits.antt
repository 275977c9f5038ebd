-- ===== src/Ui/Forms/Edits.antt =====
-- `TextLine::handle_event` (src/ui/forms/textline.rs) against the editor.
use wrb.Common.{
  ◌&&◌, append-nil, sym, ◌-◌, inl, inr, Bool-cases, inr, inl, Bool-cases, ap₂, true, false, min, ℕ,
  ◌+◌, ◌≤◌, Bool, ◌||◌, List, [], ◌∷◌, ◌≡◌, refl, ap, ◌∙◌, arith, if◌then◌else◌, ◌==◌, ltb, length,
}
use wrb.Ui.GapBuffer.{str_len}
use wrb.Ui.Forms.{
  type_char, delete, backspace, handle_key, TextLine, Key, key_left, key_right, key_up, key_down,
  key_backspace, key_delete, key_insert, key_home, key_end, key_char, key_ctrl, key_other,
  remove_char, write_char,
}
use wrb.Ui.Forms.Editor.{
  Editor, IsAscii, shows, edit, typed, step_left, step_right, drop_one, rev_onto, str_len-rev_onto,
  remove_char-rev_onto, write_char-rev_onto, rev_onto-rev_onto, length-rev_onto, rev_onto-append,
}

line_eq :
    (t : TextLine) (insert : Bool) {text text' : List ℕ} {i j : ℕ}
    → text ≡ text'
    → i ≡ j
    → ◌≡◌ {A = TextLine}
        (record t { inner_text = text; cursor = i; insert = insert })
        (record t { inner_text = text'; cursor = j; insert = insert })
line_eq t insert e f =
    ap₂ (λ (text : List ℕ) (k : ℕ). record t { inner_text = text; cursor = k; insert = insert }) e f

remove_char_here :
    (before after : List ℕ) (c : ℕ)
    → remove_char (length before) (rev_onto before (c ∷ after)) ≡ rev_onto before after
unfolding remove_char
remove_char_here before after c =
    ap (λ k. remove_char k (rev_onto before (c ∷ after))) (omega arith)
    ∙ remove_char-rev_onto 0 before (c ∷ after)

write_char_here :
    (before after : List ℕ) (x c : ℕ) (insert : Bool)
    → write_char (length before) c insert (rev_onto before (x ∷ after))
      ≡ rev_onto (c ∷ before) (if insert then x ∷ after else after)
unfolding write_char
write_char_here before after x c true =
    ap (λ k. write_char k c true (rev_onto before (x ∷ after))) (omega arith)
    ∙ write_char-rev_onto 0 c true before (x ∷ after)
write_char_here before after x c false =
    ap (λ k. write_char k c false (rev_onto before (x ∷ after))) (omega arith)
    ∙ write_char-rev_onto 0 c false before (x ∷ after)

neither : {A : Type 0} (b : Bool) (x y : A) → (if b && false then x else y) ≡ y
neither true x y = refl
neither false x y = refl

abbrev at_place : List ℕ → List ℕ → Bool → Editor
at_place before after insert = record { before = before; after = after; insert = insert }

module _ (t : TextLine) where
  backspace_lem :
      (before after : List ℕ) (insert : Bool)
      → backspace (shows t (at_place before after insert))
        ≡ shows t (at_place (drop_one before) after insert)
  backspace_lem [] after insert = refl
  backspace_lem (c ∷ before) after insert =
      let some_before : ltb 0 (length (c ∷ before)) ≡ true = ground arith in
      let back : length (c ∷ before) - 1 ≡ length before = omega arith in
      rw some_before (
        line_eq t insert
          (ap (λ k. remove_char k (rev_onto before (c ∷ after))) back
            ∙ remove_char_here before after c)
          back)

  module _ (before : List ℕ) (insert : Bool) where
    delete_lem :
        (after : List ℕ)
        → str_len (rev_onto before after) ≡ length before + length after
        → delete (shows t (at_place before after insert))
          ≡ shows t (at_place before (drop_one after) insert)
    delete_lem [] e =
        let at_end : ltb (length before) (str_len (rev_onto before [])) ≡ false =
          rw e (ground arith) in
        rw at_end refl
    delete_lem (c ∷ after) e =
        let in_text : ltb (length before) (str_len (rev_onto before (c ∷ after))) ≡ true =
          rw e (ground arith) in
        rw in_text (line_eq t insert (remove_char_here before after c) refl)

    right_lem :
        (after : List ℕ)
        → str_len (rev_onto before after) ≡ length before + length after
        → length before + length after ≤ t.max_len
        → handle_key (shows t (at_place before after insert)) key_right
          ≡ shows t (step_right before after insert)
    unfolding handle_key
    right_lem [] e short =
        line_eq t insert refl
          (ap (λ n. min (min (length before + 1) n) t.max_len) e ∙ omega (arith, short))
    right_lem (c ∷ after) e short =
        line_eq t insert refl
          (ap (λ n. min (min (length before + 1) n) t.max_len) e ∙ omega (arith, short))

    type_char_room :
        (after : List ℕ) (c : ℕ)
        → str_len (rev_onto before after) ≡ length before + length after
        → c == 10 || c == 13 ≡ false
        → ltb (length before + length after) t.max_len ≡ true
        → type_char (shows t (at_place before after insert)) c
          ≡ shows t (at_place (c ∷ before) (if insert then after else drop_one after) insert)
    type_char_room [] c e text room =
        let at_end : length before == str_len (rev_onto before []) ≡ true = rw e (ground arith) in
        let fits : ltb (str_len (rev_onto before [])) t.max_len ≡ true = rw e room in
        rw (text, at_end, fits)
          (line_eq t insert (rev_onto-append before [] (c ∷ []) ∙ no_after insert) (omega arith))
      where
        no_after :
            (b : Bool) → rev_onto before (c ∷ []) ≡ rev_onto (c ∷ before) (if b then [] else [])
        no_after true = refl
        no_after false = refl
    type_char_room (x ∷ after) c e text room =
        let not_end : length before == str_len (rev_onto before (x ∷ after)) ≡ false =
          rw e (ground arith) in
        let fits : ltb (str_len (rev_onto before (x ∷ after))) t.max_len ≡ true = rw e room in
        rw (text, not_end, fits)
          (line_eq t insert (write_char_here before after x c insert) (omega arith))

    type_char_lem :
        (after : List ℕ) (c : ℕ)
        → str_len (rev_onto before after) ≡ length before + length after
        → type_char (shows t (at_place before after insert)) c
          ≡ shows t (typed t.max_len c (at_place before after insert))
    type_char_lem after c e = elim (Bool-cases (c == 10 || c == 13)) [
      | inl newline ↦ rw newline refl
      | inr text ↦ elim (Bool-cases (ltb (length before + length after) t.max_len)) [
        | inl room ↦ type_char_room after c e text room ∙ rw (text, room) refl
        | inr full ↦
            let no_room : ltb (str_len (rev_onto before after)) t.max_len ≡ false = rw e full in
            rw (text, full, no_room)
              (neither (length before == str_len (rev_onto before after)) _ _)
      ]
    ]

-- A key that is handled by a text line does to the characters before and after the cursor what it
-- does to the editor, if the line is in ASCII and is not longer than its greatest length.
pub handle_key_lem :
    (t : TextLine) (e : Editor) (key : Key)
    → IsAscii t.max_len e
    → handle_key (shows t e) key ≡ shows t (edit t.max_len key e)
unfolding handle_key
handle_key_lem t e key a = by_key key
  where
    bytes : str_len (rev_onto e.before e.after) ≡ length e.before + length e.after
    bytes = str_len-rev_onto e.before e.after a.before a.after

    left_key :
        (before : List ℕ)
        → handle_key (shows t (at_place before e.after e.insert)) key_left
          ≡ shows t (step_left before e.after e.insert)
    left_key [] = line_eq t e.insert refl (omega arith)
    left_key (c ∷ before) = line_eq t e.insert refl (omega arith)

    ctrl_key :
        (c : ℕ) → handle_key (shows t e) (key_ctrl c) ≡ shows t (edit t.max_len (key_ctrl c) e)
    ctrl_key c = elim (Bool-cases (c == 104)) [
      | inl h ↦ rw h (backspace_lem t e.before e.after e.insert)
      | inr other ↦ elim (Bool-cases (c == 63)) [
        | inl q ↦ rw (other, q) (delete_lem t e.before e.insert e.after bytes)
        | inr neither ↦ rw (other, neither) refl
      ]
    ]

    by_key : (key : Key) → handle_key (shows t e) key ≡ shows t (edit t.max_len key e)
    by_key key_left = left_key e.before
    by_key key_right = right_lem t e.before e.insert e.after bytes a.short
    by_key key_up = refl
    by_key key_down = refl
    by_key key_backspace = backspace_lem t e.before e.after e.insert
    by_key key_delete = delete_lem t e.before e.insert e.after bytes
    by_key key_insert = refl
    by_key key_home = refl
    by_key key_end =
        line_eq t e.insert
          (sym
            (rev_onto-rev_onto e.after e.before [] ∙ ap (rev_onto e.before) (append-nil e.after)))
          (bytes ∙ omega (arith, length-rev_onto e.after e.before))
    by_key (key_char c) = type_char_lem t e.before e.insert e.after c bytes
    by_key (key_ctrl c) = ctrl_key c
    by_key (key_other k) = refl
