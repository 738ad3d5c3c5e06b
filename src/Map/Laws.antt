-- ===== src/Map/Laws.antt =====
-- Reading after each way to write.
use dogwood.Prelude.{
  ◌≡◌, ◌≢◌, refl, none, some, [], ◌∷◌, Str, str_eq, str_eq_iff, str_eq_refl, arith, if◌then◌else◌,
}
use dogwood.Map.{Map, get, insert, remove}

module _ {ℓ} {V : Type ℓ} where
  pub get-insert :
      (m : Map V) (k : Str) (v : V) (j : Str)
      → get (insert m k v) j ≡ (if str_eq k j then some v else get m j)
  unfolding get insert
  get-insert [] k v j = refl
  get-insert ((i, w) ∷ m) k v j =
      ground (arith, get-insert m k v j, str_eq_iff i k, str_eq_iff i j, str_eq_iff k j)

  pub get-insert_self : (m : Map V) (k : Str) (v : V) → get (insert m k v) k ≡ some v
  get-insert_self m k v = rw (get-insert m k v k, str_eq_refl k)

  pub get-insert_ne :
      (m : Map V) (k : Str) (v : V) (j : Str) → k ≢ j → get (insert m k v) j ≡ get m j
  get-insert_ne m k v j h = rw (get-insert m k v j) (ground (arith, str_eq_iff k j))

  pub get-remove_ne : (m : Map V) (k : Str) (j : Str) → k ≢ j → get (remove m k) j ≡ get m j
  unfolding get remove
  get-remove_ne [] k j h = refl
  get-remove_ne ((i, w) ∷ m) k j h =
      ground (arith, get-remove_ne m k j h, str_eq_iff i k, str_eq_iff i j)

  pub get-remove_self : (m : Map V) (k : Str) → get (remove m k) k ≡ none
  unfolding get remove
  get-remove_self [] k = refl
  get-remove_self ((i, w) ∷ m) k = ground (arith, get-remove_self m k)
