-- ===== src/Common/Order.antt =====
-- The order of the keys of a `BTreeMap`: of numbers, and of `String`s by their bytes.
use Prim.Native.Nat.{ℕ}
use mathlib.Core.Path.{◌≡◌, refl, sym, ◌∙◌}
use mathlib.Core.Logic.{◌↔◌, inl, inr}
use mathlib.Core.Bool.{Bool, true, false, false≢true}
use mathlib.Core.List.{List, [], ◌∷◌}
use native.Mathlib.Omega.{arith}
use wrb.Common.Tests.{Bool-cases, ◌==◌, ltb, ==_iff, if◌then◌else◌}

pub record Ord {ℓ} (K : Type ℓ) : Type ℓ where
  pub beq : K → K → Bool
  pub blt : K → K → Bool
  pub beq_iff : (a b : K) → (beq a b ≡ true) ↔ (a ≡ b)
  pub blt_irrefl : (a : K) → blt a a ≡ false
  pub blt_trans : (a b c : K) → blt a b ≡ true → blt b c ≡ true → blt a c ≡ true
  pub blt_total : (a b : K) → beq a b ≡ false → blt a b ≡ false → blt b a ≡ true

module _ {ℓ} {K : Type ℓ} ⦃o : Ord K⦄ where
  pub beq_refl : (a : K) → o.beq a a ≡ true
  beq_refl a = (o.beq_iff a a).1 refl

  pub blt-ne : (a b : K) → o.blt a b ≡ true → o.beq a b ≡ false
  blt-ne a b h = elim (Bool-cases (o.beq a b)) [
    | inl e ↦ absurd (false≢true (sym (o.blt_irrefl b) ∙ (rw ((o.beq_iff a b).0 e) at h)))
    | inr e ↦ e
  ]

  pub beq_sym : (a b : K) → o.beq a b ≡ o.beq b a
  beq_sym a b = elim (Bool-cases (o.beq a b)) [
    | inl e ↦ rw ((o.beq_iff a b).0 e)
    | inr e ↦ elim (Bool-cases (o.beq b a)) [
      | inl e' ↦ absurd (false≢true (sym e ∙ (rw ((o.beq_iff b a).0 e') (beq_refl a))))
      | inr e' ↦ e ∙ sym e'
    ]
  ]

  pub blt_asymm : (a b : K) → o.blt a b ≡ true → o.blt b a ≡ false
  blt_asymm a b h = elim (Bool-cases (o.blt b a)) [
    | inl l ↦ absurd (false≢true (sym (o.blt_irrefl a) ∙ o.blt_trans a b a h l))
    | inr e ↦ e
  ]

pub nat_irrefl : (a : ℕ) → ltb a a ≡ false
nat_irrefl a = ground arith

pub nat_trans : (a b c : ℕ) → ltb a b ≡ true → ltb b c ≡ true → ltb a c ≡ true
nat_trans a b c p q = ground arith

pub nat_total : (a b : ℕ) → (a == b) ≡ false → ltb a b ≡ false → ltb b a ≡ true
nat_total a b p q = ground arith

instance abbrev pub nat_ord : Ord ℕ
nat_ord = record {
  beq = ◌==◌;
  blt = ltb;
  beq_iff = ==_iff;
  blt_irrefl = nat_irrefl;
  blt_trans = nat_trans;
  blt_total = nat_total;
}

-- `str` compares by bytes, and a proper prefix comes first.
abbrev pub text_beq : List ℕ → List ℕ → Bool
text_beq [] [] = true
text_beq [] (_ ∷ _) = false
text_beq (_ ∷ _) [] = false
text_beq (a ∷ s) (b ∷ t) = let rest = text_beq s t in if a == b then rest else false

abbrev pub text_blt : List ℕ → List ℕ → Bool
text_blt [] [] = false
text_blt [] (_ ∷ _) = true
text_blt (_ ∷ _) [] = false
text_blt (a ∷ s) (b ∷ t) =
    let rest = text_blt s t in if ltb a b then true else (if a == b then rest else false)

pub text_beq_refl : (s : List ℕ) → text_beq s s ≡ true
text_beq_refl [] = refl
text_beq_refl (a ∷ s) = ground (arith, text_beq_refl s)

pub text_eq : (s t : List ℕ) → text_beq s t ≡ true → s ≡ t
text_eq [] [] h = refl
text_eq [] (_ ∷ _) h = cc
text_eq (_ ∷ _) [] h = cc
text_eq (a ∷ s) (b ∷ t) h = ground (arith, text_eq s t)

pub text_beq_iff : (s t : List ℕ) → (text_beq s t ≡ true) ↔ (s ≡ t)
text_beq_iff s t = (text_eq s t, λ e. rw e (text_beq_refl t))

pub text_irrefl : (s : List ℕ) → text_blt s s ≡ false
text_irrefl [] = refl
text_irrefl (a ∷ s) = ground (arith, text_irrefl s)

pub text_trans : (s t u : List ℕ) → text_blt s t ≡ true → text_blt t u ≡ true → text_blt s u ≡ true
text_trans [] [] u p q = cc
text_trans [] (_ ∷ _) [] p q = cc
text_trans [] (_ ∷ _) (_ ∷ _) p q = refl
text_trans (_ ∷ _) [] u p q = cc
text_trans (_ ∷ _) (_ ∷ _) [] p q = cc
text_trans (a ∷ s) (b ∷ t) (c ∷ u) p q = ground (arith, text_trans s t u)

pub text_total : (s t : List ℕ) → text_beq s t ≡ false → text_blt s t ≡ false → text_blt t s ≡ true
text_total [] [] p q = cc
text_total [] (_ ∷ _) p q = cc
text_total (_ ∷ _) [] p q = refl
text_total (a ∷ s) (b ∷ t) p q = ground (arith, text_total s t)

instance abbrev pub text_ord : Ord (List ℕ)
text_ord = record {
  beq = text_beq;
  blt = text_blt;
  beq_iff = text_beq_iff;
  blt_irrefl = text_irrefl;
  blt_trans = text_trans;
  blt_total = text_total;
}
