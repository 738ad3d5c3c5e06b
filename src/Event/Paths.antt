-- ===== src/Event/Paths.antt =====
-- `logged_leaves` and `field_path` of dogwood-language/src/interpreter/value.rs.
use dogwood.Prelude.{
  ◌≡◌, ◌∙◌, refl, sym, Option, none, some, List, [], ◌∷◌, ◌++◌, Str, str_eq_refl, str_eq_iff, arith,
  All,
}
use mathlib.Core.List.{append_assoc, append-nil}
use dogwood.Prelude.Options.{◌>>=◌}
use dogwood.Map
use dogwood.Map.{Map}
use dogwood.Value.{Value, object, Fields, end, field, members}
use dogwood.Event.{
  EventData, descend, path_descend, field_path, collect_value, collect_fields,
  collect_logged_leaves, logged_leaves,
}

-- The keys of a map are distinct, at every depth.
abbrev mutual
  pub IsKeyed : Value → Type 0
  IsKeyed (object fs) = AreKeyed fs
  IsKeyed _ = Unit

  pub AreKeyed : Fields → Type 0
  AreKeyed end = Unit
  AreKeyed (field k v fs) = IsKeyed v × (Map.get (members fs) k ≡ none) × AreKeyed fs

abbrev pub HasKeys : Map Value → Type 0
HasKeys [] = Unit
HasKeys ((k, v) ∷ m) = IsKeyed v × (Map.get m k ≡ none) × HasKeys m

-- Every listed leaf is a path below `start` whose rest leads from `v` to the leaf's value.
abbrev Leads : Value → List Str → List Str × Value → Type 0
Leads v start leaf = (rest : List Str) × (leaf.0 ≡ start ++ rest) × (descend rest v ≡ some leaf.1)

All-append : {A : Type 0} (P : A → Type 0) (xs ys : List A) → All P xs → All P ys → All P (xs ++ ys)
All-append P [] ys h k = k
All-append P (x ∷ xs) ys h k = (h.0, All-append P xs ys h.1 k)

All-map :
    {A : Type 0} (P Q : A → Type 0) (xs : List A) → ((x : A) → P x → Q x) → All P xs → All Q xs
All-map P Q [] f h = tt
All-map P Q (x ∷ xs) f h = (f x h.0, All-map P Q xs f h.1)

-- Each leaf of the members is below a key that reads a member.
abbrev LeadsIn : Map Value → List Str → List Str × Value → Type 0
LeadsIn m start leaf =
    (rest : List Str) × (leaf.0 ≡ start ++ rest) × (path_descend m rest ≡ some leaf.1)

lookup_rest :
    (m : Map Value) (k : Str) (v : Value) (j : Str) (w : Value)
    → Map.get m k ≡ none
    → Map.get m j ≡ some w
    → Map.get ((k, v) ∷ m) j ≡ some w
unfolding Map.get
lookup_rest m k v j w h e = ground (arith, str_eq_iff k j)

in_rest :
    (m : Map Value) (k : Str) (v : Value) (start : List Str) (leaf : List Str × Value)
    → Map.get m k ≡ none
    → LeadsIn m start leaf
    → LeadsIn ((k, v) ∷ m) start leaf
unfolding path_descend
in_rest m k v start leaf h ([], p, q) = cc
in_rest m k v start leaf h (j ∷ rest, p, q) = (j ∷ rest, p, found (Map.get m j) refl q)
  where
    found :
        (o : Option Value)
        → Map.get m j ≡ o
        → (o >>= descend rest) ≡ some leaf.1
        → (Map.get ((k, v) ∷ m) j >>= descend rest) ≡ some leaf.1
    found none e q = cc
    found (some w) e q = rw (lookup_rest m k v j w h e) q

in_first :
    (m : Map Value) (k : Str) (v : Value) (start : List Str) (leaf : List Str × Value)
    → Leads v (start ++ k ∷ []) leaf
    → LeadsIn ((k, v) ∷ m) start leaf
unfolding path_descend Map.get
in_first m k v start leaf (rest, p, q) =
    (k ∷ rest, p ∙ append_assoc start (k ∷ []) rest, rw (str_eq_refl k) q)

descend-members :
    (fs : Fields) (start : List Str) (leaf : List Str × Value)
    → LeadsIn (members fs) start leaf
    → Leads (object fs) start leaf
unfolding path_descend descend
descend-members fs start leaf ([], p, q) = cc
descend-members fs start leaf (j ∷ rest, p, q) = (j ∷ rest, p, q)

mutual
  unfolding collect_value descend members

  value-Leads :
      (v : Value) (path : List Str) → IsKeyed v → All (Leads v path) (collect_value path v)
  value-Leads (object fs) path h = (
    ([], sym (append-nil path), refl),
    All-map (LeadsIn (members fs) path) (Leads (object fs) path) (collect_fields path fs)
        (descend-members fs path) (fields-LeadsIn fs path h),
  )
  value-Leads _ path h = (([], sym (append-nil path), refl), tt)

  fields-LeadsIn :
      (fs : Fields) (path : List Str)
      → AreKeyed fs
      → All (LeadsIn (members fs) path) (collect_fields path fs)
  fields-LeadsIn end path h = tt
  fields-LeadsIn (field k v fs) path h =
      All-append _ (collect_value (path ++ k ∷ []) v) _
        (All-map _ _ _ (in_first (members fs) k v path) (value-Leads v (path ++ k ∷ []) h.0))
        (All-map _ _ _ (λ leaf. in_rest (members fs) k v path leaf h.1)
          (fields-LeadsIn fs path h.2))

leaves-LeadsIn : (m : Map Value) → HasKeys m → All (LeadsIn m []) (collect_logged_leaves m)
unfolding collect_logged_leaves
leaves-LeadsIn [] h = tt
leaves-LeadsIn ((k, v) ∷ m) h =
    All-append _ (collect_value (k ∷ []) v) _
      (All-map _ _ _ (in_first m k v []) (value-Leads v (k ∷ []) h.0))
      (All-map _ _ _ (λ leaf. in_rest m k v [] leaf h.1) (leaves-LeadsIn m h.2))

-- Where the keys of the logged fields are distinct at every depth, as in a map, every leaf that
-- `logged_leaves` lists is listed with a path by which `field_path` reads exactly its value.
pub logged_leaves-field_path :
    (d : EventData)
    → HasKeys d.logged
    → All (λ (leaf : List Str × Value). field_path d leaf.0 ≡ some leaf.1) (logged_leaves d)
unfolding logged_leaves field_path
logged_leaves-field_path d h =
    All-map _ _ _ (λ leaf (rest, p, q). rw p q) (leaves-LeadsIn d.logged h)
