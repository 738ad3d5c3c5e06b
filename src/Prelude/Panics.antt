-- ===== src/Prelude/Panics.antt =====
-- Results of code that may panic.
use mathlib.Core.Path.{◌≡◌, refl}
use mathlib.Core.Option.{Option, none, some}

pub data Exec {ℓ} (A : Type ℓ) : Type ℓ where
  value : A → Exec A
  panic : Exec A

infixl 5 ◌>>=◌ ◌>>◌
abbrev pub ◌>>=◌ {ℓ κ} : {A : Type ℓ} {B : Type κ} → Exec A → (A → Exec B) → Exec B
value a >>= f = f a
panic >>= f = panic

abbrev pub ◌>>◌ {ℓ κ} : {A : Type ℓ} {B : Type κ} → Exec A → Exec B → Exec B
m >> k = m >>= λ _. k

abbrev pub map_exec {ℓ κ} : {A : Type ℓ} {B : Type κ} → (A → B) → Exec A → Exec B
map_exec f (value a) = value (f a)
map_exec f panic = panic

-- `expect`, `unwrap` and an index: a missing value is a panic.
abbrev pub of_option {ℓ} : {A : Type ℓ} → Option A → Exec A
of_option (some a) = value a
of_option none = panic

module _ {ℓ κ} {A : Type ℓ} {B : Type κ} where
  pub >>=-eq-value :
      (m : Exec A) (f : A → Exec B) {b : B}
      → (m >>= f) ≡ value b
      → (a : A) × (m ≡ value a) × (f a ≡ value b)
  >>=-eq-value (value a) f h = (a, refl, h)
  >>=-eq-value panic f h = cc

-- A property of what the code returns, if it returns.
abbrev pub Ensures {ℓ κ} : {A : Type ℓ} → (A → Type κ) → Exec A → Type κ
Ensures P (value a) = P a
Ensures P panic = Unit

module _ {ℓ κ μ} {A : Type ℓ} {B : Type κ} where
  pub bind-Ensures :
      (P : A → Type μ) (Q : B → Type μ) (m : Exec A) (f : A → Exec B)
      → Ensures P m
      → ((a : A) → P a → Ensures Q (f a))
      → Ensures Q (m >>= f)
  bind-Ensures P Q (value a) f h k = k a h
  bind-Ensures P Q panic f h k = tt

  pub bind_congr :
      (P : A → Type μ) (m : Exec A) (f g : A → Exec B)
      → Ensures P m
      → ((a : A) → P a → f a ≡ g a)
      → (m >>= f) ≡ (m >>= g)
  bind_congr P (value a) f g h k = k a h
  bind_congr P panic f g h k = refl
