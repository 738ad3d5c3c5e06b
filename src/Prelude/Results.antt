-- ===== src/Prelude/Results.antt =====
-- Rust's `Result` with a message, and its `?`.
use mathlib.Core.Path.{◌≡◌, refl}
use mathlib.Core.List.{List, [], ◌∷◌, ◌++◌}
use mathlib.Core.Option.{Option, none, some}
use dogwood.Prelude.Strings.{Str}

pub data Result {ℓ} (A : Type ℓ) : Type ℓ where
  ok : (result : A) → Result A
  err : (text : Str) → Result A

module _ {ℓ κ} {A : Type ℓ} {B : Type κ} where
  infixl 5 ◌>>=◌ ◌>>◌
  abbrev pub ◌>>=◌ : Result A → (A → Result B) → Result B
  err text >>= next = err text
  ok result >>= next = next result

  abbrev pub ◌>>◌ : Result A → Result B → Result B
  first >> second = first >>= λ _. second

-- `map_err(|e| format!("…{e}"))`
abbrev pub map_err {ℓ} : {A : Type ℓ} → Str → Result A → Result A
map_err message (ok a) = ok a
map_err message (err e) = err (message ++ e)

-- `ok_or_else`
abbrev pub ok_or {ℓ} : {A : Type ℓ} → Option A → Str → Result A
ok_or none e = err e
ok_or (some a) e = ok a

-- `map(f).collect::<Result<_, _>>()`: the first error, or all results.
abbrev pub collect {ℓ κ} : {A : Type ℓ} {B : Type κ} → (A → Result B) → List A → Result (List B)
collect f [] = ok []
collect f (a ∷ l) = let rest = collect f l in f a >>= λ b. rest >>= λ bs. ok (b ∷ bs)

-- What a successful step tells of the steps before it.
pub >>=-eq-ok {ℓ κ} :
    {A : Type ℓ} {B : Type κ} (m : Result A) (next : A → Result B) {b : B}
    → (m >>= next) ≡ ok b
    → (a : A) × (m ≡ ok a) × (next a ≡ ok b)
>>=-eq-ok (err text) next h = cc
>>=-eq-ok (ok result) next h = (result, refl, h)
