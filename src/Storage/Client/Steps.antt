-- ===== src/Storage/Client/Steps.antt =====
-- The steps of a method of the wrbpod: what a step that succeeds hands on, and what a method that
-- succeeded must have done.
use wrb.Common.{Bool, true, false, Option, none, some, ◌≡◌, refl, sym, ◌∙◌, ℕ}
use wrb.Storage.Codec.{Result, ok, err}
use wrb.Storage.Client.{Error, Action, ◌>>=◌, and_do, or_raise, raise_if, from_runtime}

module _ {S A B : Type 0} (m : Action S A) (f : A → Action S B) (s : S) where
  pub step_ok : {a : A} {s' : S} → m s ≡ some (ok a, s') → (m >>= f) s ≡ f a s'
  step_ok e = rw (e, and_do)

  pub step_err : {x : Error} {s' : S} → m s ≡ some (err x, s') → (m >>= f) s ≡ some (err x, s')
  step_err e = rw (e, and_do)

  pub step_none : m s ≡ none → (m >>= f) s ≡ none
  step_none e = rw (e, and_do)

  pub step_inv :
      {P : Type 0} {b : B} {s'' : S}
      → (m >>= f) s ≡ some (ok b, s'')
      → ((a : A) (s' : S) → m s ≡ some (ok a, s') → f a s' ≡ some (ok b, s'') → P)
      → P
  step_inv {P} {b} {s''} e k = on_result (m s) refl
    where
      on_result : (x : Option (Result Error A × S)) → m s ≡ x → P
      on_result none p = cc (sym (step_none p) ∙ e)
      on_result (some (ok a, s')) p = k a s' p (sym (step_ok p) ∙ e)
      on_result (some (err x, s')) p = cc (sym (step_err p) ∙ e)

pub or_raise_inv :
    {S A : Type 0} (o : Option A) (x : Error) {s s' : S} {a : A}
    → or_raise o x s ≡ some (ok a, s')
    → (o ≡ some a) × (s' ≡ s)
or_raise_inv none x h = cc
or_raise_inv (some b) x h = (cc, cc)

pub raise_if_inv :
    {S : Type 0} (b : Bool) (x : Error) {s s' : S} {u : Unit {0}}
    → raise_if b x s ≡ some (ok u, s')
    → (b ≡ false) × (s' ≡ s)
raise_if_inv true x h = cc
raise_if_inv false x h = (refl, cc)

pub from_runtime_inv : {A : Type 0} (r : Result ℕ A) {a : A} → from_runtime r ≡ ok a → r ≡ ok a
from_runtime_inv (ok b) h = cc
from_runtime_inv (err x) h = cc
