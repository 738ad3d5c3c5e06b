-- ===== src/Prelude/Options.antt =====
-- The `?` of code that returns an `Option`.
use mathlib.Core.Path.{◌≡◌, refl}
use mathlib.Core.Bool.{Bool, true, false}
use mathlib.Core.Option.{Option, none, some}

infixl 5 ◌>>=◌ ◌>>◌
abbrev pub ◌>>=◌ {ℓ κ} : {A : Type ℓ} {B : Type κ} → Option A → (A → Option B) → Option B
some a >>= f = f a
none >>= f = none

abbrev pub ◌>>◌ {ℓ} : {B : Type ℓ} → Option (Unit {0}) → Option B → Option B
m >> k = m >>= λ _. k

-- An early `return None` unless the test passes.
abbrev pub guard : Bool → Option (Unit {0})
guard true = some tt
guard false = none

module _ {ℓ κ} {A : Type ℓ} {B : Type κ} where
  pub >>=-eq-some :
      (m : Option A) (f : A → Option B) {b : B}
      → (m >>= f) ≡ some b
      → (a : A) × (m ≡ some a) × (f a ≡ some b)
  >>=-eq-some (some a) f h = (a, refl, h)
  >>=-eq-some none f h = cc
