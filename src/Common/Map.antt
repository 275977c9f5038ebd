-- ===== src/Common/Map.antt =====
-- `BTreeMap<K, V>` as an association list in the order of its keys.
use mathlib.Core.Path.{◌≡◌, refl, ap}
use mathlib.Core.Logic.{inl, inr}
use mathlib.Core.Bool.{true, false}
use mathlib.Core.Option.{Option, none, some}
use mathlib.Core.List.{List, [], ◌∷◌, ◌++◌}
use Prim.Native.Nat.{suc}
use native.Mathlib.Omega.{arith}
use wrb.Common.Tests.{Bool-cases, if◌then◌else◌}
use wrb.Common.Lists.{length, All}
use wrb.Common.Order.{Ord, blt-ne, beq_sym, beq_refl, blt_asymm}

module _ {ℓ κ} {K : Type ℓ} ⦃o : Ord K⦄ {V : Type κ} where
  unfoldable pub lookup : K → List (K × V) → Option V
  lookup k [] = none
  lookup k ((j, w) ∷ m) = if o.beq k j then some w else lookup k m

  unfoldable pub insert : K → V → List (K × V) → List (K × V)
  insert k v [] = (k, v) ∷ []
  insert k v ((j, w) ∷ m) =
      if o.beq k j
      then (k, v) ∷ m
      else (if o.blt k j then (k, v) ∷ ((j, w) ∷ m) else (j, w) ∷ insert k v m)

  unfoldable pub remove : K → List (K × V) → List (K × V)
  remove k [] = []
  remove k ((j, w) ∷ m) = if o.beq k j then m else (j, w) ∷ remove k m

  -- Every key of the map is above `k`, and every key is below `k`.
  abbrev pub Above : K → List (K × V) → Type 0
  Above k [] = Unit {0}
  Above k ((j, w) ∷ m) = (o.blt k j ≡ true) × Above k m

  abbrev pub Below : K → List (K × V) → Type 0
  Below k [] = Unit {0}
  Below k ((j, w) ∷ m) = (o.blt j k ≡ true) × Below k m

  abbrev pub IsSorted : List (K × V) → Type 0
  IsSorted [] = Unit {0}
  IsSorted ((k, v) ∷ m) = Above k m × IsSorted m

module _ {ℓ κ} {K : Type ℓ} ⦃o : Ord K⦄ {V : Type κ} where
  swap_tests :
      (j i k : K) (v w r : Option V)
      → o.beq k i ≡ false
      → (if o.beq j i then w else (if o.beq j k then v else r))
        ≡ (if o.beq j k then v else (if o.beq j i then w else r))
  swap_tests j i k v w r ne = elim (Bool-cases (o.beq j k)) [
    | inl e ↦ rw (e, (o.beq_iff j k).0 e, ne)
    | inr e ↦ rw e
  ]

  pub lookup-insert :
      (k j : K) (v : V) (m : List (K × V))
      → lookup j (insert k v m) ≡ (if o.beq j k then some v else lookup j m)
  unfolding lookup insert
  lookup-insert k j v [] = refl
  lookup-insert k j v ((i, w) ∷ m) = elim (Bool-cases (o.beq k i)) [
    | inl e ↦ rw (e, (o.beq_iff k i).0 e) (ground arith)
    | inr e ↦ elim (Bool-cases (o.blt k i)) [
      | inl l ↦ rw (e, l)
      | inr l ↦ rw (e, l, lookup-insert k j v m) (swap_tests j i k (some v) (some w) (lookup j m) e)
    ]
  ]

  pub lookup-insert_same : (k : K) (v : V) (m : List (K × V)) → lookup k (insert k v m) ≡ some v
  lookup-insert_same k v m = rw (lookup-insert k k v m, beq_refl k) refl

  Above-insert :
      (k j : K) (v : V) (m : List (K × V)) → o.blt j k ≡ true → Above j m → Above j (insert k v m)
  unfolding insert
  Above-insert k j v [] h a = (h, tt)
  Above-insert k j v ((i, w) ∷ m) h (a, as') = ground (arith, Above-insert k j v m)

  pub Above-trans : (k j : K) (m : List (K × V)) → o.blt k j ≡ true → Above j m → Above k m
  Above-trans k j [] h a = tt
  Above-trans k j ((i, w) ∷ m) h (a, more) = (o.blt_trans k j i h a, Above-trans k j m h more)

  pub insert-IsSorted : (k : K) (v : V) (m : List (K × V)) → IsSorted m → IsSorted (insert k v m)
  unfolding insert
  insert-IsSorted k v [] s = (tt, tt)
  insert-IsSorted k v ((i, w) ∷ m) (a, s) = elim (Bool-cases (o.beq k i)) [
    | inl e ↦ rw (e, (o.beq_iff k i).0 e) (a, s)
    | inr e ↦ elim (Bool-cases (o.blt k i)) [
      | inl l ↦ rw (e, l) ((l, Above-trans k i m l a), (a, s))
      | inr l ↦ rw (e, l) (Above-insert k i v m (o.blt_total k i e l) a, insert-IsSorted k v m s)
    ]
  ]

  -- An insertion above every key goes to the end.
  pub insert_last :
      (k : K) (v : V) (m : List (K × V)) → Below k m → insert k v m ≡ m ++ ((k, v) ∷ [])
  unfolding insert
  insert_last k v [] b = refl
  insert_last k v ((i, w) ∷ m) (b, more) =
      rw (beq_sym k i, blt-ne i k b, blt_asymm i k b) (ap ((i, w) ∷◌) (insert_last k v m more))

  -- A new key makes the map longer by one.
  pub length-insert_new :
      (k : K) (v : V) (m : List (K × V))
      → lookup k m ≡ none
      → length (insert k v m) ≡ suc (length m)
  unfolding lookup insert
  length-insert_new k v [] h = refl
  length-insert_new k v ((i, w) ∷ m) h = ground (arith, length-insert_new k v m)

  pub lookup-Above : (k : K) (m : List (K × V)) → Above k m → lookup k m ≡ none
  unfolding lookup
  lookup-Above k [] a = refl
  lookup-Above k ((i, w) ∷ m) (a, more) = rw (blt-ne k i a) (lookup-Above k m more)

  pub lookup-Below : (k : K) (m : List (K × V)) → Below k m → lookup k m ≡ none
  unfolding lookup
  lookup-Below k [] b = refl
  lookup-Below k ((i, w) ∷ m) (b, more) = rw (beq_sym k i, blt-ne i k b) (lookup-Below k m more)

  without_head :
      (i j : K) (w : V) (m : List (K × V))
      → Above i m
      → lookup j m ≡ (if o.beq j i then none else (if o.beq j i then some w else lookup j m))
  without_head i j w m a = elim (Bool-cases (o.beq j i)) [
    | inl e ↦ rw (e, (o.beq_iff j i).0 e) (lookup-Above i m a)
    | inr e ↦ rw e
  ]

  pub lookup-remove :
      (k j : K) (m : List (K × V))
      → IsSorted m
      → lookup j (remove k m) ≡ (if o.beq j k then none else lookup j m)
  unfolding lookup remove
  lookup-remove k j [] s = ground arith
  lookup-remove k j ((i, w) ∷ m) (a, s) = elim (Bool-cases (o.beq k i)) [
    | inl e ↦ rw (e, (o.beq_iff k i).0 e) (without_head i j w m a)
    | inr e ↦ rw (e, lookup-remove k j m s) (swap_tests j i k none (some w) (lookup j m) e)
  ]

  Above-remove : (k j : K) (m : List (K × V)) → Above j m → Above j (remove k m)
  unfolding remove
  Above-remove k j [] a = tt
  Above-remove k j ((i, w) ∷ m) (a, more) = ground (arith, Above-remove k j m)

  pub remove-IsSorted : (k : K) (m : List (K × V)) → IsSorted m → IsSorted (remove k m)
  unfolding remove
  remove-IsSorted k [] s = tt
  remove-IsSorted k ((i, w) ∷ m) (a, s) = ground (arith, remove-IsSorted k m, Above-remove k i m)

  -- The keys before a key of a sorted map are below it.
  pub Below-of_sorted :
      (l : List (K × V)) (k : K) (v : V) (m : List (K × V))
      → IsSorted (l ++ ((k, v) ∷ m))
      → Below k l
  Below-of_sorted [] k v m s = tt
  Below-of_sorted ((i, w) ∷ l) k v m (a, s) = (Above-mid i l k v m a, Below-of_sorted l k v m s)
    where
      Above-mid :
          (i : K) (l : List (K × V)) (k : K) (v : V) (m : List (K × V))
          → Above i (l ++ ((k, v) ∷ m))
          → o.blt i k ≡ true
      Above-mid i [] k v m a = a.0
      Above-mid i ((_, _) ∷ l) k v m a = Above-mid i l k v m a.1

  pub Above-lookup :
      (k j : K) (m : List (K × V)) {v : V} → Above k m → lookup j m ≡ some v → o.blt k j ≡ true
  unfolding lookup
  Above-lookup k j [] a e = cc
  Above-lookup k j ((i, w) ∷ m) (a, more) e = elim (Bool-cases (o.beq j i)) [
    | inl same ↦ rw ((o.beq_iff j i).0 same) a
    | inr other ↦ Above-lookup k j m more (rw other at e)
  ]

  -- What holds of every value that is found holds of every entry.
  pub All-lookup {η} :
      (P : V → Type η) (m : List (K × V))
      → IsSorted m
      → ((k : K) (v : V) → lookup k m ≡ some v → P v)
      → All (λ (e : K × V). P e.1) m
  unfolding lookup
  All-lookup P [] s h = tt
  All-lookup P ((k, v) ∷ m) (a, s) h = (
    h k v (rw (beq_refl k)),
    All-lookup P m s (λ j w e. h j w (rw (beq_sym j k, blt-ne k j (Above-lookup k j m a e)) e)),
  )
