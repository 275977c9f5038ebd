-- ===== src/Ui/GapBuffer/Edit.antt =====
-- What each edit and each move does to the texts before and after the gap.
use mathlib.Core.Path.{subst}
use wrb.Common.{
  ◌≢◌, ℕ, zero, suc, ◌+◌, ◌-◌, ◌<◌, ◌≡◌, refl, ap, ◌∙◌, sym, arith, some, List, [], ◌∷◌, ◌++◌,
  length, get_elem?, set, replicate, append_assoc, length-append, length-replicate,
  get_elem?-append_length, set-append_length, if◌then◌else◌, ◌==◌, true, false, Bool, and_then,
  replicate-snoc, ne→==,
}
use wrb.Ui.GapBuffer.{GapBuffer, insert, backspace, set_line_start, set_elem?}
use wrb.Ui.GapBuffer.Move.{left, right}
use wrb.Ui.GapBuffer.Lines.{set_line_start_total}
use wrb.Ui.GapBuffer.Represents.{
  Meta, with_gap, set_elem?-append_length, set_elem?-append_append, get_elem?-append_append,
}

-- The texts may be regrouped.
with_gap-eq :
    (m : Meta) (n : ℕ) (before after buffer : List ℕ) (cursor gap : ℕ)
    → buffer ≡ before ++ (replicate n 0 ++ after)
    → cursor ≡ length before
    → gap ≡ n
    → record (with_gap m before n after) { buffer = buffer; cursor = cursor; gap = gap }
      ≡ with_gap m before n after
with_gap-eq m n before after buffer cursor gap p q r =
    λ i. record (with_gap m before n after) { buffer = p i; cursor = q i; gap = r i }

length-with_gap :
    (m : Meta) (n : ℕ) (before after : List ℕ)
    → length (with_gap m before n after).buffer ≡ length before + n + length after
length-with_gap m n before after = omega (
  arith,
  length-append before (replicate n 0 ++ after),
  length-append (replicate n zero) after,
  length-replicate n zero,
)

-- A test for a newline, after which the line's start is found again, or nothing is done.
relined :
    (b : Bool) (m : Meta) (n : ℕ) (before after : List ℕ)
    → 0 < length before + n + length after
    → (line_start : ℕ) × ((if b
          then set_line_start (with_gap m before n after)
          else some (with_gap m before n after))
        ≡ some (with_gap (record m { line_start = line_start }) before n after))
relined true m n before after h =
    let r =
      set_line_start_total (with_gap m before n after)
        (omega (arith, length-with_gap m n before after))
        (omega (arith, length-with_gap m n before after)) in
    (r.0, r.1)
relined false m n before after h = (m.line_start, refl)

-- Inserting a character where there is a gap puts it before the gap, which is one shorter then; the
-- line number goes up by one for a newline and stays for another character.
pub insert_lem :
    (m : Meta) (before after : List ℕ) (n ch : ℕ)
    → (line_start : ℕ) × (insert (with_gap m before (suc n) after) ch
        ≡ some (
            with_gap
              (record m {
                lineno = if ch == 10 then m.lineno + 1 else m.lineno;
                line_start = line_start;
              })
              (before ++ (ch ∷ []))
              n
              after))
unfolding insert
insert_lem m before after n ch =
    let m' : Meta = record m { lineno = if ch == 10 then m.lineno + 1 else m.lineno } in
    let rest = replicate n 0 ++ after in
    let put =
      with_gap-eq m' n (before ++ (ch ∷ [])) after (set (before ++ (0 ∷ rest)) (length before) ch)
        (length before + 1) (suc n - 1)
        (set-append_length before rest 0 ch ∙ sym (append_assoc before (ch ∷ []) rest))
        (sym (length-append before (ch ∷ []))) (omega arith) in
    let r =
      relined (ch == 10) m' n (before ++ (ch ∷ [])) after
        (omega (arith, length-append before (ch ∷ []))) in
    (
      r.0,
      rw (ne→== (suc n) 0 (λ e. absurd (omega (arith, e))), get_elem?-append_length before rest 0)
          (ap (λ (g : GapBuffer). if ch == 10 then set_line_start g else some g) put ∙ r.1),
    )

-- Where there is a gap, `backspace` drops the character before it, and does not look at which.
pub backspace_lem :
    (m : Meta) (before after : List ℕ) (c n : ℕ)
    → backspace (with_gap m (before ++ (c ∷ [])) (suc n) after)
      ≡ some (with_gap m before (suc (suc n)) after)
unfolding backspace
backspace_lem m before after c n =
    let rest = replicate n 0 ++ after in
    let longer : length (before ++ (c ∷ [])) ≡ length before + 1 = length-append before (c ∷ []) in
    let cleared : set_elem? ((before ++ (c ∷ [])) ++ (0 ∷ rest)) (length (before ++ (c ∷ [])) - 1) 0
        ≡ some (before ++ (0 ∷ (0 ∷ rest))) =
      let at : length (before ++ (c ∷ [])) - 1 ≡ length before = omega (arith, longer) in
      rw (at, append_assoc before (c ∷ []) (0 ∷ rest))
        (set_elem?-append_length before (0 ∷ rest) c 0) in
    rw
      (
        ne→== (length (before ++ (c ∷ []))) 0 (λ e. absurd (omega (arith, longer, e))),
        get_elem?-append_length (before ++ (c ∷ [])) rest 0,
        cleared,
      )
      (ap some (
        with_gap-eq m (suc (suc n)) before after (before ++ (0 ∷ (0 ∷ rest)))
          (length (before ++ (c ∷ [])) - 1) (suc n + 1) refl (omega (arith, longer)) (omega arith)))

-- The character that `left` and `right` move over changes the line number.
abbrev pub up_line : Meta → ℕ → ℕ → Meta
up_line m ch line_start = record m {
  lineno = if ch == 10 then m.lineno + 1 else m.lineno;
  line_start = line_start;
}

abbrev pub down_line : Meta → ℕ → ℕ → Meta
down_line m ch line_start = record m {
  lineno = if ch == 10 then m.lineno - 1 else m.lineno;
  line_start = line_start;
}

-- `left` moves the character before the gap behind it, at any size of the gap, and counts a newline
-- up; it returns true.
pub left_lem :
    (m : Meta) (before after : List ℕ) (c n : ℕ)
    → (line_start : ℕ) × (left (with_gap m (before ++ (c ∷ [])) n after)
        ≡ some (with_gap (up_line m c line_start) before n (c ∷ after), true))
unfolding left
left_lem m before after c n =
    let rest = replicate n 0 ++ after in
    let longer : length (before ++ (c ∷ [])) ≡ length before + 1 = length-append before (c ∷ []) in
    let at : length (before ++ (c ∷ [])) - 1 ≡ length before = omega (arith, longer) in
    let read : get_elem? ((before ++ (c ∷ [])) ++ rest) (length (before ++ (c ∷ [])) - 1) ≡ some c =
      rw (at, append_assoc before (c ∷ []) rest) (get_elem?-append_length before rest c) in
    let cleared : set_elem? ((before ++ (c ∷ [])) ++ rest) (length (before ++ (c ∷ [])) - 1) 0
        ≡ some (before ++ (replicate n 0 ++ (0 ∷ after))) =
      rw (at, append_assoc before (c ∷ []) rest, replicate-snoc n 0 after)
        (set_elem?-append_length before rest c 0) in
    let put : set_elem? (before ++ (replicate n 0 ++ (0 ∷ after)))
          (length (before ++ (c ∷ [])) - 1 + n) c
        ≡ some (before ++ (replicate n 0 ++ (c ∷ after))) =
      let there : length (before ++ (c ∷ [])) - 1 + n ≡ length before + length (replicate n zero) =
        omega (arith, at, length-replicate n zero) in
      rw there (set_elem?-append_append before (replicate n 0) after 0 c) in
    let m' : Meta = record m { lineno = if c == 10 then m.lineno + 1 else m.lineno } in
    let moved =
      with_gap-eq m' n before (c ∷ after) (before ++ (replicate n 0 ++ (c ∷ after)))
        (length (before ++ (c ∷ [])) - 1) n refl at refl in
    let r = relined (c == 10) m' n before (c ∷ after) (omega arith) in
    (
      r.0,
      rw
          (
            ne→== (length (before ++ (c ∷ []))) 0 (λ e. absurd (omega (arith, longer, e))),
            read,
            cleared,
            put,
          )
          (ap
              (λ (g : GapBuffer).
                and_then (if c == 10 then set_line_start g else some g) (λ g'. some (g', true)))
              moved
            ∙ rw r.1 refl),
    )

-- `right` moves the character after the gap before it, at any size of the gap, and counts a newline
-- down; it returns true.
pub right_lem :
    (m : Meta) (before after : List ℕ) (c n : ℕ)
    → (line_start : ℕ) × (right (with_gap m before n (c ∷ after))
        ≡ some (with_gap (down_line m c line_start) (before ++ (c ∷ [])) n after, true))
unfolding right
right_lem m before after c n =
    let zeros : length (replicate n zero) ≡ n = length-replicate n zero in
    let read : get_elem? (before ++ (replicate n 0 ++ (c ∷ after))) (length before + n) ≡ some c =
      subst (λ k. get_elem? (before ++ (replicate n 0 ++ (c ∷ after))) (length before + k) ≡ some c)
        zeros (get_elem?-append_append before (replicate n 0) after c) in
    let cleared : set_elem? (before ++ (replicate n 0 ++ (c ∷ after))) (length before + n) 0
        ≡ some (before ++ (0 ∷ (replicate n 0 ++ after))) =
      subst
        (λ k.
          set_elem? (before ++ (replicate n 0 ++ (c ∷ after))) (length before + k) 0
          ≡ some (before ++ (0 ∷ (replicate n 0 ++ after))))
        zeros
        (set_elem?-append_append before (replicate n 0) after c 0
          ∙ ap (λ (zs : List ℕ). some (before ++ zs)) (replicate-snoc n 0 after)) in
    let put : set_elem? (before ++ (0 ∷ (replicate n 0 ++ after))) (length before) c
        ≡ some (before ++ (c ∷ (replicate n 0 ++ after))) =
      set_elem?-append_length before (replicate n 0 ++ after) 0 c in
    let m' : Meta = record m { lineno = if c == 10 then m.lineno - 1 else m.lineno } in
    let moved =
      with_gap-eq m' n (before ++ (c ∷ [])) after (before ++ (c ∷ (replicate n 0 ++ after)))
        (length before + 1) n (sym (append_assoc before (c ∷ []) (replicate n 0 ++ after)))
        (sym (length-append before (c ∷ []))) refl in
    let r =
      relined (c == 10) m' n (before ++ (c ∷ [])) after
        (omega (arith, length-append before (c ∷ []))) in
    let more : length before + n ≢ length (before ++ (replicate n 0 ++ (c ∷ after))) =
      λ e. absurd (omega (arith, e, length-with_gap m n before (c ∷ after))) in
    (
      r.0,
      rw
          (
            ne→== (length before + n) (length (before ++ (replicate n 0 ++ (c ∷ after)))) more,
            read,
            cleared,
            put,
          )
          (ap
              (λ (g : GapBuffer).
                and_then (if c == 10 then set_line_start g else some g) (λ g'. some (g', true)))
              moved
            ∙ rw r.1 refl),
    )
