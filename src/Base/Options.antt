-- ===== src/Base/Options.antt =====
-- Inversion of `Option.map` and of a chain of fallible steps.
use mathlib.Core.Path.{◌≡◌, refl, sym}
use mathlib.Core.Logic.{◌≢◌}
use mathlib.Core.Option
use mathlib.Core.Option.{Option, none, some}
use native.Mathlib.Omega.{arith}

module _ {ℓ κ} {A : Type ℓ} {B : Type κ} where
  infixl 5 ◌>>=◌
  abbrev pub ◌>>=◌ : Option A → (A → Option B) → Option B
  none >>= f = none
  some a >>= f = f a

  pub >>=-eq-some :
      (o : Option A) (f : A → Option B) {b : B}
      → (o >>= f) ≡ some b
      → (a : A) × (o ≡ some a) × (f a ≡ some b)
  >>=-eq-some none f e = cc
  >>=-eq-some (some a) f e = (a, refl, e)

  pub map-eq-some :
      (f : A → B) (o : Option A) {b : B}
      → Option.map f o ≡ some b
      → (a : A) × (o ≡ some a) × (f a ≡ b)
  map-eq-some f none e = cc
  map-eq-some f (some a) e = (a, refl, ground arith)

  pub map-ne-none : (f : A → B) (o : Option A) → Option.map f o ≢ none → o ≢ none
  map-ne-none f none h e = h refl
  map-ne-none f (some a) h e = cc

  pub map-ne-none_of : (f : A → B) (o : Option A) → o ≢ none → Option.map f o ≢ none
  map-ne-none_of f none h e = h refl
  map-ne-none_of f (some a) h e = cc

-- Two optional values that are present together, and then equal.
pub Option-eq {ℓ} :
    {A : Type ℓ} (o o' : Option A)
    → ((a : A) → o ≡ some a → o' ≡ some a)
    → ((a : A) → o' ≡ some a → o ≡ some a)
    → o ≡ o'
Option-eq none none to from = refl
Option-eq none (some a) to from = from a refl
Option-eq (some a) o' to from = sym (to a refl)
