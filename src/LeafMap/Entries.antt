-- ===== src/LeafMap/Entries.antt =====
-- The sets of a leaf map as its operations change them, dogwood-language/src/leaf_map.rs.
use dogwood.Prelude.{
  ◌≡◌, ◌∙◌, refl, ap, Bool, true, false, ◌&&◌, ◌||◌, Option, none, some, List, [], ◌∷◌, Str, str_eq,
  str_eq_iff, any, arith, if◌then◌else◌, Bool-cases, ◌⊎◌, inl, inr,
}
use dogwood.Map
use dogwood.Map.{Map}
use dogwood.Map.Laws.{get-insert}
use dogwood.LeafMap.{
  StrSet, set_insert, set_contains, LeafMap, extend_all, entry_or_empty, insert_target,
  insert_targets, seed_actions,
}

abbrev present : Option (Unit {0}) → Bool
present none = false
present (some _) = true

pub set_contains-insert :
    (s : StrSet) (j k : Str) → set_contains (set_insert s j) k ≡ (str_eq j k || set_contains s k)
set_contains-insert s j k = ap present (get-insert s j tt k) ∙ branch (str_eq j k)
  where
    branch : (b : Bool) → present (if b then some tt else Map.get s k) ≡ (b || set_contains s k)
    branch true = refl
    branch false = refl

pub set_contains-extend :
    (n s : StrSet) (k : Str)
    → set_contains (Map.extend s n) k ≡ (set_contains s k || set_contains n k)
unfolding Map.extend Map.get
set_contains-extend [] s k = ground arith
set_contains-extend ((j, v) ∷ n) s k =
    ground (arith, set_contains-extend n (set_insert s j) k, set_contains-insert s j k)

-- The id stands in the set of the action.
abbrev pub entry_has : Map StrSet → Str → Str → Bool
entry_has m uid id = set_contains (entry_or_empty (Map.get m uid)) id

entry_has-insert_target :
    (m : Map StrSet) (v uid j id : Str)
    → entry_has (insert_target m v j) uid id ≡ ((str_eq v uid && str_eq j id) || entry_has m uid id)
unfolding insert_target
entry_has-insert_target m v uid j id =
    rw (get-insert m v (set_insert (entry_or_empty (Map.get m v)) j) uid)
      (branch (Bool-cases (str_eq v uid)))
  where
    branch :
        (str_eq v uid ≡ true) ⊎ (str_eq v uid ≡ false)
        → set_contains
            (entry_or_empty (
              if str_eq v uid
              then some (set_insert (entry_or_empty (Map.get m v)) j)
              else Map.get m uid))
            id
          ≡ ((str_eq v uid && str_eq j id) || entry_has m uid id)
    branch (inl e) =
        let k : v ≡ uid = (str_eq_iff v uid).0 e in
        rw e (rw k (set_contains-insert (entry_or_empty (Map.get m uid)) j id))
    branch (inr e) = rw e refl

pub entry_has-insert_targets :
    (uids : List Str) (m : Map StrSet) (uid j id : Str)
    → entry_has (insert_targets m uids j) uid id
      ≡ ((any (λ v. str_eq v uid) uids && str_eq j id) || entry_has m uid id)
unfolding insert_targets
entry_has-insert_targets [] m uid j id = refl
entry_has-insert_targets (v ∷ uids) m uid j id = ground (
  arith,
  entry_has-insert_targets uids (insert_target m v j) uid j id,
  entry_has-insert_target m v uid j id,
)

pub entry_has-seed_actions :
    (groups uids : List Str) (m : Map StrSet) (uid id : Str)
    → entry_has m uid id ≡ false
    → entry_has (seed_actions groups uids m) uid id ≡ false
unfolding seed_actions Map.get
entry_has-seed_actions groups [] m uid id h = h
entry_has-seed_actions groups (v ∷ uids) m uid id h =
    entry_has-seed_actions groups uids _ uid id (branch (any (λ g. str_eq g v) groups))
  where
    empty_entry :
        (b : Bool) → set_contains (entry_or_empty (if b then some [] else Map.get m uid)) id ≡ false
    empty_entry true = refl
    empty_entry false = h

    branch : (b : Bool) → entry_has (if b then m else Map.insert m v []) uid id ≡ false
    branch true = h
    branch false = rw (get-insert m v [] uid) (empty_entry (str_eq v uid))

abbrev pub extend_entry : StrSet → Option StrSet → Option StrSet
extend_entry more none = none
extend_entry more (some s) = some (Map.extend s more)

pub get-extend_all :
    (m : Map StrSet) (more : StrSet) (uid : Str)
    → Map.get (extend_all m more) uid ≡ extend_entry more (Map.get m uid)
unfolding extend_all Map.get
get-extend_all [] more uid = refl
get-extend_all ((k, s) ∷ m) more uid = ground (arith, get-extend_all m more uid)

-- The id stands in the set of the action or in the set of every action.
abbrev pub has_leaf : LeafMap → Str → Str → Bool
has_leaf m uid id = set_contains m.always id || entry_has m.by_action uid id
