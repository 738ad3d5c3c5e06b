-- ===== src/Map.antt =====
-- Rust's `BTreeMap<String, V>`: an association list in the order of its keys.
pub mod Laws
use dogwood.Prelude.{
  Bool, true, false, Option, none, some, List, [], ◌∷◌, Str, str_eq, str_lt, if◌then◌else◌,
}

abbrev pub Map {ℓ} : Type ℓ → Type ℓ
Map V = List (Str × V)

module _ {ℓ} {V : Type ℓ} where
  unfoldable pub get : Map V → Str → Option V
  get [] k = none
  get ((j, v) ∷ m) k = if str_eq j k then some v else get m k

  unfoldable pub insert : Map V → Str → V → Map V
  insert [] k v = (k, v) ∷ []
  insert ((j, w) ∷ m) k v =
      if str_eq j k
      then (k, v) ∷ m
      else (if str_lt k j then (k, v) ∷ (j, w) ∷ m else (j, w) ∷ insert m k v)

  unfoldable pub remove : Map V → Str → Map V
  remove [] k = []
  remove ((j, w) ∷ m) k = let rest = remove m k in if str_eq j k then rest else (j, w) ∷ rest

  -- `m.extend(n)`: the entries of `n` are inserted one by one.
  unfoldable pub extend : Map V → Map V → Map V
  extend m [] = m
  extend m ((k, v) ∷ n) = extend (insert m k v) n

  -- `m.entry(k).or_insert(v)`
  unfoldable pub or_insert : Map V → Str → V → Map V
  or_insert m k v = elim (get m k) [ none ↦ insert m k v | some _ ↦ m ]

  abbrev pub contains_key : Map V → Str → Bool
  contains_key m k = elim (get m k) [ none ↦ false | some _ ↦ true ]
