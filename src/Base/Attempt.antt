-- ===== src/Base/Attempt.antt =====
-- The results of code that may raise, for the components with errors of their own.

use mathlib.Core.Path.{◌≡◌, refl}
use mathlib.Core.Logic.{◌⊎◌, inl, inr}
use mathlib.Core.Bool.{Bool, true, false}

-- The value that is returned, or the exception.
pub data Attempt {ℓ} (Error : Type 0) (Value : Type ℓ) : Type ℓ where
  returns : Value → Attempt Error Value
  raises : Error → Attempt Error Value

module _ {Error : Type 0} where
  infixl 5 ◌>>=◌ ◌>>◌
  abbrev pub ◌>>=◌ {ℓ κ} :
      {Value : Type ℓ} {Next : Type κ}
      → Attempt Error Value
      → (Value → Attempt Error Next)
      → Attempt Error Next
  raises x >>= continue = raises x
  returns v >>= continue = continue v

  abbrev pub ◌>>◌ {ℓ} :
      {Next : Type ℓ} → Attempt Error (Unit {0}) → Attempt Error Next → Attempt Error Next
  check >> rest = check >>= λ done. rest

  -- `if test: raise error`
  abbrev pub refuse_if : Bool → Error → Attempt Error (Unit {0})
  refuse_if true x = raises x
  refuse_if false x = returns tt

  pub Attempt-cases {ℓ} :
      {Value : Type ℓ} (r : Attempt Error Value)
      → ((v : Value) × (r ≡ returns v)) ⊎ ((x : Error) × (r ≡ raises x))
  Attempt-cases (returns v) = inl (v, refl)
  Attempt-cases (raises x) = inr (x, refl)

  pub returns-injective {ℓ} :
      {Value : Type ℓ} {a b : Value} → ◌≡◌ {A = Attempt Error Value} (returns a) (returns b) → a ≡ b
  returns-injective p = cc

  -- What follows a check that passed.
  pub refuse_if_returns {ℓ} :
      {Value : Type ℓ} (b : Bool) (x : Error) (k : Unit {0} → Attempt Error Value) {v : Value}
      → (refuse_if b x >>= k) ≡ returns v
      → (b ≡ false) × (k tt ≡ returns v)
  refuse_if_returns true x k h = cc
  refuse_if_returns false x k h = (refl, h)

  pub >>=-eq-returns {ℓ κ} :
      {Value : Type ℓ} {Next : Type κ} (first : Attempt Error Value)
      (continue : Value → Attempt Error Next) {end : Next}
      → (first >>= continue) ≡ returns end
      → (v : Value) × (first ≡ returns v) × (continue v ≡ returns end)
  >>=-eq-returns (raises x) continue h = cc
  >>=-eq-returns (returns v) continue h = (v, refl, h)
