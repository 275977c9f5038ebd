-- ===== src/Ui/SceneGraph/Top.antt =====
-- `SceneGraph::viewport_at` (src/ui/root.rs): which viewport is seen.
use wrb.Common.{
  ℕ, Bool, true, false, Option, none, some, List, [], ◌∷◌, ◌++◌, ◌≡◌, refl, sym, ◌∙◌, ap,
  Bool-cases, inl, inr, if◌then◌else◌, All, append_assoc,
}
use wrb.Ui.SceneGraph.{SceneGraph, covers, search_back, search_levels, viewport_at}

-- The viewports from back to front.
abbrev pub in_order : List (List ℕ) → List ℕ
in_order [] = []
in_order (ids ∷ levels) = ids ++ in_order levels

-- An entry that passes the test and that none after it does.
abbrev pub IsLast : (ℕ → Bool) → List ℕ → ℕ → Type 0
IsLast test ids id =
    (before : List ℕ) × (after : List ℕ) × (ids ≡ before ++ (id ∷ after))
    × (test id ≡ true)
    × All (λ j. test j ≡ false) after

-- What a search from the back gives.
abbrev pub IsSearch : (ℕ → Bool) → List ℕ → Option ℕ → Type 0
IsSearch test ids none = All (λ j. test j ≡ false) ids
IsSearch test ids (some id) = IsLast test ids id

module _ (test : ℕ → Bool) where
  IsSearch-cons :
      (id : ℕ) (ids : List ℕ) (found : Option ℕ)
      → IsSearch test ids found
      → IsSearch test
          (id ∷ ids)
          (elim found [ some found ↦ some found | none ↦ if test id then some id else none ])
  IsSearch-cons id ids (some found) (before, after, e, hit, misses) =
      (id ∷ before, after, ap (id ∷◌) e, hit, misses)
  IsSearch-cons id ids none misses = elim (Bool-cases (test id)) [
    | inl hit ↦ rw hit ([], ids, refl, hit, misses)
    | inr miss ↦ rw miss (miss, misses)
  ]

  search_back-IsSearch : (ids : List ℕ) → IsSearch test ids (search_back test ids)
  unfolding search_back
  search_back-IsSearch [] = tt
  search_back-IsSearch (id ∷ ids) =
      IsSearch-cons id ids (search_back test ids) (search_back-IsSearch ids)

  All-append :
      (xs ys : List ℕ)
      → All (λ j. test j ≡ false) xs
      → All (λ j. test j ≡ false) ys
      → All (λ j. test j ≡ false) (xs ++ ys)
  All-append [] ys a b = b
  All-append (x ∷ xs) ys (p, a) b = (p, All-append xs ys a b)

  IsSearch-missed :
      (ids later : List ℕ) (found : Option ℕ)
      → IsSearch test ids found
      → All (λ j. test j ≡ false) later
      → IsSearch test (ids ++ later) found
  IsSearch-missed ids later none misses more = All-append ids later misses more
  IsSearch-missed ids later (some found) (before, after, e, hit, misses) more = (
    before,
    after ++ later,
    ap (λ (xs : List ℕ). xs ++ later) e ∙ append_assoc before (found ∷ after) later,
    hit,
    All-append after later misses more,
  )

  IsSearch-append :
      (ids later : List ℕ) (found : Option ℕ)
      → IsSearch test later found
      → IsSearch test
          (ids ++ later)
          (elim found [ some found ↦ some found | none ↦ search_back test ids ])
  IsSearch-append ids later (some found) (before, after, e, hit, misses) = (
    ids ++ before,
    after,
    ap (ids ++◌) e ∙ sym (append_assoc ids before (found ∷ after)),
    hit,
    misses,
  )
  IsSearch-append ids later none misses =
      IsSearch-missed ids later (search_back test ids) (search_back-IsSearch ids) misses

  search_levels-IsSearch :
      (levels : List (List ℕ)) → IsSearch test (in_order levels) (search_levels test levels)
  unfolding search_levels
  search_levels-IsSearch [] = tt
  search_levels-IsSearch (ids ∷ levels) =
      IsSearch-append ids (in_order levels) (search_levels test levels)
        (search_levels-IsSearch levels)

-- The viewport that viewport_at gives covers the place, and none does that comes later in the
-- hierarchy, level by level; where it gives none, no viewport of the hierarchy covers the place.
pub viewport_at-IsSearch :
    (sg : SceneGraph) (row col : ℕ) (check_visible : Bool)
    → IsSearch
        (covers sg row col check_visible)
        (in_order sg.hierarchy)
        (viewport_at sg row col check_visible)
unfolding viewport_at
viewport_at-IsSearch sg row col check_visible =
    search_levels-IsSearch (covers sg row col check_visible) sg.hierarchy
