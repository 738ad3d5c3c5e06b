-- ===== src/CedarRequest.antt =====
-- The Cedar request of a decision, dogwood-language/src/api.rs: `value_to_expr`, `build_entity`,
-- `build_entities`, `build_context`, `build_request`.
use dogwood.Prelude.{
  Bool, true, false, Option, none, some, List, [], ◌∷◌, ◌++◌, map, Str, str, if◌then◌else◌,
}
use dogwood.Prelude.Results.{Result, ok, err, ◌>>=◌, map_err, ok_or, collect}
use dogwood.Map
use dogwood.Map.{Map}
use dogwood.Unicode.{Unicode, entity_uid_string}
use dogwood.Value
use dogwood.Value.{Value, Items, Fields}
use dogwood.Event.{EventData, EntityRecord, Scope}
use dogwood.LeafMap.{qualified_action_uid}
use dogwood.Provider.{Scripts, ProviderField, Resolver, eval_provider}
use dogwood.Cedar.{Cedar}
use dogwood.Engine.{Bindings}

-- `value_uid_string`
unfoldable pub value_uid_string : Unicode → Value → Option Str
value_uid_string u (Value.entity ty id) = some (entity_uid_string u ty id)
value_uid_string u _ = none

module _ (c : Cedar) (s : Scripts) (u : Unicode) where
  -- `parse_uid`: a malformed uid of a context value is the sentinel.
  abbrev pub or_unknown : Result c.Uid → c.Uid
  or_unknown (ok uid) = uid
  or_unknown (err e) = c.unknown_uid

  abbrev pub or_empty_string : Option c.Expr → c.Expr
  or_empty_string none = c.new_string []
  or_empty_string (some e) = e

  unfoldable mutual
    pub value_to_expr : Value → c.Expr
    value_to_expr (Value.bool b) = c.new_bool b
    value_to_expr (Value.int n) = c.new_long n
    value_to_expr (Value.string t) = c.new_string t
    value_to_expr (Value.decimal t) = c.new_decimal t
    value_to_expr (Value.entity ty id) =
        c.new_entity_uid (or_unknown (c.uid_from_str (entity_uid_string u ty id)))
    value_to_expr (Value.array items) = c.new_set (items_to_exprs items)
    value_to_expr (Value.object fs) = or_empty_string (c.new_record (fields_to_exprs fs))
    value_to_expr Value.null = c.new_string []

    pub items_to_exprs : Items → List c.Expr
    items_to_exprs Value.nil = []
    items_to_exprs (Value.cons v vs) = value_to_expr v ∷ items_to_exprs vs

    pub fields_to_exprs : Fields → List (Str × c.Expr)
    fields_to_exprs Value.end = []
    fields_to_exprs (Value.field k v fs) = (k, value_to_expr v) ∷ fields_to_exprs fs

  abbrev pub to_pairs : Map Value → List (Str × c.Expr)
  to_pairs m = map (λ (e : Str × Value). (e.0, value_to_expr e.1)) m

  -- A null attribute is absent.
  abbrev pub is_null : Value → Bool
  is_null Value.null = true
  is_null _ = false

  unfoldable pub drop_nulls : Map Value → Map Value
  drop_nulls [] = []
  drop_nulls ((k, v) ∷ m) = let rest = drop_nulls m in if is_null v then rest else (k, v) ∷ rest

  abbrev pub uids_of : List Value → List Str
  uids_of [] = []
  uids_of (v ∷ vs) = elim (value_uid_string u v) [ none ↦ uids_of vs | some uid ↦ uid ∷ uids_of vs ]

  unfoldable pub build_entity : Str × EntityRecord → Result c.Entity
  build_entity (uid, rec) = do
    id ← map_err (str "bad entity uid `" ++ uid ++ str "`: ") (c.uid_from_str uid)
    parents ←
        collect (λ p. map_err (str "bad parent uid `" ++ p ++ str "`: ") (c.uid_from_str p))
          (uids_of rec.parents)
    map_err (str "entity attribute: ") (c.new_entity id (to_pairs (drop_nulls rec.attrs)) parents)

  abbrev pub present : Option c.Uid → List c.Uid
  present none = []
  present (some uid) = uid ∷ []

  abbrev pub bare_entities : Map EntityRecord → List c.Uid → List c.Entity
  bare_entities supplied [] = []
  bare_entities supplied (uid ∷ uids) =
      let rest = bare_entities supplied uids in
      if Map.contains_key supplied (c.uid_to_string uid) then rest else c.with_uid uid ∷ rest

  -- The supplied entities, the scope entities that are not supplied, and the actions of the schema.
  unfoldable pub build_entities : c.Request → EventData → Result c.Entities
  build_entities request event = do
    supplied ← collect build_entity event.entities
    store ← map_err (str "entity conformance: ") (c.from_entities supplied)
    scoped ← map_err (str "scope entities: ") (
        c.add_entities store (
          bare_entities event.entities
            (present (c.principal request) ++ present (c.resource request))))
    actions ← map_err (str "action entities: ") c.action_entities
    map_err (str "action hierarchy: ") (c.add_entities scoped actions)

  -- The outputs of the providers, or the first error.
  unfoldable pub provider_outputs :
      List (ProviderField s) → Option Resolver → EventData → Map Value → Result (Map Value)
  provider_outputs [] resolver event out = ok out
  provider_outputs (f ∷ fields) resolver event out = do
    v ← eval_provider s u f resolver event
    provider_outputs fields resolver event (Map.insert out f.id v)

  abbrev pub provider_pairs :
      List (ProviderField s) → Option Resolver → EventData → Result (List (Str × c.Expr))
  provider_pairs [] resolver event = ok []
  provider_pairs (f ∷ fields) resolver event = do
    outputs ← provider_outputs (f ∷ fields) resolver event []
    ok ((str "providers", value_to_expr (Value.object (Value.of_members outputs))) ∷ [])

  unfoldable pub build_context :
      Bindings → List (ProviderField s) → Option Resolver → EventData → Result c.Context
  build_context bindings providers resolver event = do
    outputs ← provider_pairs providers resolver event
    map_err (str "context build: ") (
        c.context_from_pairs (
          to_pairs event.request_context
          ++ (map (λ (b : Str × Bool). (b.0, c.new_bool b.1)) bindings ++ outputs)))

  abbrev pub scope_uid : Option Value → Option Str
  scope_uid none = none
  scope_uid (some v) = value_uid_string u v

  unfoldable pub parse_uid_checked : Str → Result c.Uid
  parse_uid_checked t = map_err (str "malformed entity uid `" ++ t ++ str "`: ") (c.uid_from_str t)

  unfoldable pub build_request : EventData → Scope → c.Context → Result c.Request
  build_request event scope context = do
    principal ← ok_or (scope_uid scope.principal) (str "decision event has no principal in scope")
    resource ← ok_or (scope_uid scope.resource) (str "decision event has no resource in scope")
    principal_uid ← parse_uid_checked principal
    action_uid ← parse_uid_checked (qualified_action_uid u event.namespace event.action)
    resource_uid ← parse_uid_checked resource
    map_err (str "request build: ") (c.new_request principal_uid action_uid resource_uid context)
