-- ===== src/Base/Results.antt =====
-- Go's `(T, error)`: a value or the error that came in its place.
use mathlib.Core.Bool.{Bool, true, false}
use mathlib.Core.Option.{Option, none, some}
use mathlib.Core.Path.{◌≡◌, refl}

pub data Outcome {ℓ} (E : Type 0) (A : Type ℓ) : Type ℓ where
  ok : A → Outcome E A
  err : E → Outcome E A

-- `if !test { return e }`
abbrev pub require : {E : Type 0} → Bool → E → Outcome E (Unit {0})
require t e = elim t [ true ↦ ok tt | false ↦ err e ]

module _ {ℓ} {E : Type 0} {A : Type ℓ} where
  -- `if err != nil { return fmt.Errorf("…: %w", err) }`
  abbrev pub wrap : (E → E) → Outcome E A → Outcome E A
  wrap f r = elim r [ ok a ↦ ok a | err e ↦ err (f e) ]

  abbrev pub or_fail : Option A → E → Outcome E A
  or_fail o e = elim o [ some a ↦ ok a | none ↦ err e ]

  abbrev pub is_ok : Outcome E A → Bool
  is_ok (ok a) = true
  is_ok (err e) = false

  pub wrap-eq-ok : (f : E → E) (r : Outcome E A) {a : A} → wrap f r ≡ ok a → r ≡ ok a
  wrap-eq-ok f (ok b) h = h
  wrap-eq-ok f (err e) h = cc

  pub or_fail-eq-ok : (o : Option A) (e : E) {a : A} → or_fail o e ≡ ok a → o ≡ some a
  or_fail-eq-ok (some b) e h = cc
  or_fail-eq-ok none e h = cc

pub require-eq-ok : {E : Type 0} (t : Bool) (e : E) {u : Unit {0}} → require t e ≡ ok u → t ≡ true
require-eq-ok true e h = refl
require-eq-ok false e h = cc

pub ok_injective {ℓ} :
    {E : Type 0} {A : Type ℓ} {a b : A} → Path (Outcome E A) (ok a) (ok b) → a ≡ b
ok_injective h = cc

module _ {ℓ κ} {E : Type 0} {A : Type ℓ} {B : Type κ} where
  -- The rest of a function runs only on a value.
  infixl 5 ◌>>=◌
  abbrev pub ◌>>=◌ : Outcome E A → (A → Outcome E B) → Outcome E B
  r >>= rest = elim r [ err e ↦ err e | ok a ↦ rest a ]

  -- A chain that returned a value went through its first step.
  pub bind-eq-ok :
      (r : Outcome E A) (rest : A → Outcome E B) {b : B}
      → (r >>= rest) ≡ ok b
      → (a : A) × (r ≡ ok a) × (rest a ≡ ok b)
  bind-eq-ok r rest {b} =
      elim r as (λ x. (x >>= rest) ≡ ok b → (a : A) × (x ≡ ok a) × (rest a ≡ ok b)) [
        | ok a ↦ λ done. (a, refl, done)
        | err e ↦ λ done. cc
      ]

infixl 5 ◌>>◌
abbrev pub ◌>>◌ {κ} : {E : Type 0} {B : Type κ} → Outcome E (Unit {0}) → Outcome E B → Outcome E B
first >> rest = first >>= λ _. rest
