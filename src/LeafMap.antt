-- ===== src/LeafMap.antt =====
-- Which temporal leaves an action can need, dogwood-language/src/leaf_map.rs, and the action literals of
-- dogwood-language/src/api.rs. Cedar's parser of entity literals is a parameter: it gives the canonical
-- text of the entity, by which Cedar compares entities.
pub mod Entries
pub mod Needed
use dogwood.Prelude.{
  Bool, true, false, not, ◌||◌, Option, none, some, List, [], ◌∷◌, ◌++◌, map, Str, str, str_eq,
  join, any, if◌then◌else◌,
}
use dogwood.Prelude.Options.{◌>>=◌}
use dogwood.Map
use dogwood.Map.{Map}
use dogwood.Unicode.{Unicode, escape_debug}
use dogwood.Event.{Event, EventData}
use dogwood.Ast.{Condition}

pub record ActionRef : Type 0 where
  pub namespace : Option Str
  pub id : Str

pub data ActionScope : Type 0 where
  concrete_action : ActionRef → ActionScope
  action_list : List ActionRef → ActionScope
  unconstrained : ActionScope

-- The fields of `TemporalField` that the engine and the leaf map read.
pub record TemporalField : Type 0 where
  pub id : Str
  pub action : ActionScope
  pub target_actions : List ActionRef
  pub condition : Condition

-- `BTreeSet<String>`
abbrev pub StrSet : Type 0
StrSet = Map (Unit {0})

abbrev pub set_insert : StrSet → Str → StrSet
set_insert s k = Map.insert s k tt

abbrev pub set_contains : StrSet → Str → Bool
set_contains s k = Map.contains_key s k

-- The actions and the action groups of a Cedar schema, in canonical text.
pub record CedarActions : Type 0 where
  pub actions : List Str
  pub action_groups : List Str

abbrev pub action_type : List Str → Str
action_type [] = str "Action"
action_type (n ∷ ns) = join (str "::") (n ∷ ns)

module _ (u : Unicode) where
  unfoldable pub qualified_action_uid : List Str → Str → Str
  qualified_action_uid namespace action =
      action_type namespace ++ (str "::\"" ++ (escape_debug u action ++ str "\""))

  abbrev pub ref_type : Option Str → Str
  ref_type (some namespace) = namespace ++ str "::Action"
  ref_type none = str "Action"

  unfoldable pub action_ref_uid : ActionRef → Str
  action_ref_uid a = qualified_action_uid (ref_type a.namespace ∷ []) a.id

pub record LeafMap : Type 0 where
  pub by_action : Map StrSet
  pub always : StrSet
  pub unresolved : List (Str × Str)

-- `values_mut` over the sets of a map.
unfoldable pub extend_all : Map StrSet → StrSet → Map StrSet
extend_all [] more = []
extend_all ((k, s) ∷ m) more = (k, Map.extend s more) ∷ extend_all m more

abbrev pub fold_if : StrSet → LeafMap → LeafMap
fold_if [] m = m
fold_if (id ∷ ids) m = record m { by_action = extend_all m.by_action (id ∷ ids) }

unfoldable pub fold_always : LeafMap → LeafMap
fold_always m = fold_if m.always m

abbrev pub entry_or_empty : Option StrSet → StrSet
entry_or_empty none = []
entry_or_empty (some s) = s

-- `map.by_action.entry(uid).or_default()`, with the id inserted.
unfoldable pub insert_target : Map StrSet → Str → Str → Map StrSet
insert_target m uid id = Map.insert m uid (set_insert (entry_or_empty (Map.get m uid)) id)

unfoldable pub insert_targets : Map StrSet → List Str → Str → Map StrSet
insert_targets m [] id = m
insert_targets m (uid ∷ uids) id = insert_targets (insert_target m uid id) uids id

unfoldable pub seed_actions : List Str → List Str → Map StrSet → Map StrSet
seed_actions groups [] m = m
seed_actions groups (uid ∷ uids) m =
    seed_actions groups uids (if any (λ g. str_eq g uid) groups then m else Map.insert m uid [])

unfoldable pub seeded : CedarActions → LeafMap
seeded schema = record {
  by_action = seed_actions schema.action_groups schema.actions [];
  always = [];
  unresolved = [];
}

pub data Expansion : Type 0 where
  targets : List Str → Expansion
  why : Str → Expansion

module _ (parse_uid : Str → Option Str) (u : Unicode) where
  unfoldable pub event_action_uid : Event → Option Str
  event_action_uid e = parse_uid (qualified_action_uid u e.event.namespace e.event.action)

  unfoldable pub target_action_uid : ActionRef → Option Str
  target_action_uid a = parse_uid (action_ref_uid u a)

  -- `collect::<Option<Vec<_>>>()`
  unfoldable pub target_uids : List ActionRef → Option (List Str)
  target_uids [] = some []
  target_uids (a ∷ as_refs) = do
    uid ← target_action_uid a
    uids ← target_uids as_refs
    some (uid ∷ uids)

  abbrev pub or_unparsable : Option (List Str) → Expansion
  or_unparsable (some uids) = targets uids
  or_unparsable none = why (str "an action in the scope has no uid Cedar can parse")

  unfoldable pub expansion : ActionScope → List ActionRef → Expansion
  expansion unconstrained refs = why (str "bare `action` scope: the rule applies to every action")
  expansion scope [] = why (str "the action scope resolved to no concrete action")
  expansion scope (a ∷ refs) = or_unparsable (target_uids (a ∷ refs))

  abbrev pub add_expansion : LeafMap → Str → Expansion → LeafMap
  add_expansion m id (targets uids) = record m { by_action = insert_targets m.by_action uids id }
  add_expansion m id (why reason) = record m {
    always = set_insert m.always id;
    unresolved = m.unresolved ++ (id, reason) ∷ [];
  }

  unfoldable pub add_leaf : LeafMap → TemporalField → LeafMap
  add_leaf m leaf = add_expansion m leaf.id (expansion leaf.action leaf.target_actions)

  unfoldable pub add_leaves : LeafMap → List TemporalField → LeafMap
  add_leaves m [] = m
  add_leaves m (leaf ∷ leaves) = add_leaves (add_leaf m leaf) leaves

  unfoldable pub build : List TemporalField → CedarActions → LeafMap
  build leaves schema = fold_always (add_leaves (seeded schema) leaves)

  unfoldable pub needed_for : LeafMap → Event → Option StrSet
  needed_for m e = do uid ← event_action_uid e; Map.get m.by_action uid
