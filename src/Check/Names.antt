-- ===== src/Check/Names.antt =====
-- Reading the sets of names that the static rules build, dogwood-language/src/extension/temporal/check.rs.
use dogwood.Prelude.{◌≡◌, ◌≢◌, true, [], ◌∷◌, Str, str_eq_iff, arith, ◌⊎◌, inl, inr}
use dogwood.Map
use dogwood.Map.Laws.{get-insert, get-remove_ne, get-remove_self}
use dogwood.LeafMap.{StrSet, set_insert, set_contains}

pub contains-set_insert :
    (s : StrSet) (n x : Str)
    → set_contains (set_insert s n) x ≡ true
    → (n ≡ x) ⊎ (set_contains s x ≡ true)
contains-set_insert s n x h = ground (arith, get-insert s n tt x, str_eq_iff n x)

pub contains-remove :
    (s : StrSet) (n x : Str)
    → set_contains (Map.remove s n) x ≡ true
    → (n ≢ x) × (set_contains s x ≡ true)
contains-remove s n x h =
    let apart : n ≢ x = λ e. removed e in (apart, ground (arith, get-remove_ne s n x apart))
  where
    removed : n ≡ x → ⊥
    removed e = let gone = get-remove_self s n in ground (arith)

pub contains-extend :
    (m n : StrSet) (x : Str)
    → set_contains (Map.extend m n) x ≡ true
    → (set_contains m x ≡ true) ⊎ (set_contains n x ≡ true)
unfolding Map.extend Map.get
contains-extend m [] x h = inl h
contains-extend m ((k, u) ∷ n) x h = elim (contains-extend (set_insert m k) n x h) [
  | inl left ↦ ground (arith, contains-set_insert m k x left, str_eq_iff k x)
  | inr right ↦ ground (arith)
]
