-- ===== src/Ui/Root/Cycle.antt =====
-- The focus order of `Root::make_focus_order` (src/ui/root.rs) as maps: the element after each, and
-- the one before.
use wrb.Common.{
  ==_iff, false, some, none, ℕ, true, false, Option, none, some, List, [], ◌∷◌, ◌≡◌, refl, sym, ◌∙◌,
  ap, arith, inl, inr, Bool-cases, if◌then◌else◌, ◌==◌, All,
}
use wrb.Common.Order.{nat_ord, beq_refl, beq_sym}
use wrb.Common.Map.{lookup, insert, lookup-insert}
use wrb.Ui.Root.Focus.{link_next, link_prev, last_of}

abbrev pub IsAbsent : ℕ → List ℕ → Type 0
IsAbsent k ids = All (λ j. (k == j) ≡ false) ids

-- No element appears twice.
abbrev pub IsDistinct : List ℕ → Type 0
IsDistinct [] = Unit {0}
IsDistinct (id ∷ ids) = IsAbsent id ids × IsDistinct ids

-- The element after `k` in a list that starts with `id`, with `first` after the last, or else `d`.
abbrev pub after : ℕ → ℕ → List ℕ → Option ℕ → ℕ → Option ℕ
after first id [] d k = if k == id then some first else d
after first id (next ∷ ids) d k = if k == id then some next else after first next ids d k

-- The element before `k`, for those after the first.
abbrev pub before : ℕ → List ℕ → Option ℕ → ℕ → Option ℕ
before id [] d k = d
before id (next ∷ ids) d k = if k == next then some id else before next ids d k

after_absent :
    (first id : ℕ) (ids : List ℕ) (d : Option ℕ) (k : ℕ)
    → IsAbsent k (id ∷ ids)
    → after first id ids d k ≡ d
after_absent first id [] d k (ne, a) = rw ne refl
after_absent first id (next ∷ ids) d k (ne, a) = rw ne (after_absent first next ids d k a)

before_absent :
    (id : ℕ) (ids : List ℕ) (d : Option ℕ) (k : ℕ) → IsAbsent k ids → before id ids d k ≡ d
before_absent id [] d k a = refl
before_absent id (next ∷ ids) d k (ne, a) = rw ne (before_absent next ids d k a)

same-IsAbsent : (k id : ℕ) (ids : List ℕ) → k == id ≡ true → IsAbsent id ids → IsAbsent k ids
same-IsAbsent k id ids e a = rw ((==_iff k id).0 e) a

pub lookup-link_next :
    (first id : ℕ) (ids : List ℕ) (order : List (ℕ × ℕ)) (k : ℕ)
    → IsDistinct (id ∷ ids)
    → (if k == last_of id ids then some first else lookup k (link_next id ids order))
      ≡ after first id ids (lookup k order) k
unfolding link_next
lookup-link_next first id [] order k distinct = refl
lookup-link_next first id (next ∷ ids) order k (absent, distinct) =
    lookup-link_next first next ids (insert id next order) k distinct
    ∙ elim (Bool-cases (k == id)) [
      | inl same ↦
          rw (lookup-insert id k next order, same)
            (after_absent first next ids (some next) k
              (same-IsAbsent k id (next ∷ ids) same absent))
      | inr other ↦ rw (lookup-insert id k next order, other) refl
    ]

pub lookup-link_prev :
    (id : ℕ) (ids : List ℕ) (order : List (ℕ × ℕ)) (k : ℕ)
    → IsDistinct (id ∷ ids)
    → lookup k (link_prev id ids order) ≡ before id ids (lookup k order) k
unfolding link_prev
lookup-link_prev id [] order k distinct = refl
lookup-link_prev id (next ∷ ids) order k (absent, (absent', distinct)) =
    lookup-link_prev next ids (insert next id order) k (absent', distinct)
    ∙ elim (Bool-cases (k == next)) [
      | inl same ↦
          rw (lookup-insert next k id order, same)
            (before_absent next ids (some id) k (same-IsAbsent k next ids same absent'))
      | inr other ↦ rw (lookup-insert next k id order, other) refl
    ]

-- An element that is not the last comes before the one after it.
pub before-after :
    (first id : ℕ) (ids : List ℕ) (k m : ℕ)
    → IsDistinct (id ∷ ids)
    → k == last_of id ids ≡ false
    → after first id ids none k ≡ some m
    → (before id ids none m ≡ some k) × ((j : ℕ) → IsAbsent j ids → m == j ≡ false)
before-after first id [] k m distinct other e = ground arith
before-after first id (next ∷ ids) k m (absent, distinct) other e = elim (Bool-cases (k == id)) [
  | inl same ↦
      let is_next : m ≡ next = cc (rw same at e) in
      let is_id : id ≡ k = sym ((==_iff k id).0 same) in
      (rw (is_next, beq_refl next) (ap some is_id), λ j a. rw is_next (beq_sym next j ∙ a.0))
  | inr apart ↦
      let (comes, absent') = before-after first next ids k m distinct other (rw apart at e) in
      (rw (absent' next distinct.0) comes, λ j a. absent' j a.1)
]
