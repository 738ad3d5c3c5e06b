-- ===== src/Provider.antt =====
-- Information providers, dogwood-language/src/api.rs: `eval_provider`, `eval_provider_raw`,
-- `resolve_provider_arg`, `resolve_field_path`, `resolve_scope_path`. The scripts that compute a value and
-- the conversion to its declared type are a parameter.
use dogwood.Prelude.{
  Bool, Option, none, some, List, [], ◌∷◌, ◌++◌, map, Str, str, str_eq, join, if◌then◌else◌,
}
use dogwood.Prelude.Results.{Result, ok, ◌>>=◌, ok_or}
use dogwood.Int.{ℤ}
use dogwood.Map
use dogwood.Map.{Map}
use dogwood.Unicode.{Unicode}
use dogwood.Value
use dogwood.Value.{Value, entity, null, Items}
use dogwood.Event.{EventData, request_context_path, resolve_entity_attr}

mutual
  pub data Arg : Type 0 where
    field : List Str → Arg
    string : Str → Arg
    integer : ℤ → Arg
    decimal : Str → Arg
    bool : Bool → Arg
    set : Args → Arg

  pub data Args : Type 0 where
    no_more : Args
    more_args : Arg → Args → Args

-- The scripts of the declarations, and the declared types of their outputs.
pub record Scripts : Type 1 where
  pub Decl : Type 0
  pub Ty : Type 0
  pub output_type : Decl → Ty
  pub method_type : Decl → Str → Option Ty
  pub evaluate : Str → Decl → List Value → Result Value
  pub run_methods : Str → Decl → Value → List (Str × List Value) → Result Value
  pub coerce_to_declared : Str → Value → Ty → Result Value

-- The caller's resolver: none declines.
abbrev pub Resolver : Type 0
Resolver = List Str → List Value → Option (Result Value)

abbrev pub or_null : Option Value → Value
or_null none = null
or_null (some v) = v

abbrev pub or_else : Option Value → Option Value → Option Value
or_else (some v) o = some v
or_else none o = o

abbrev pub last_segment : List Str → Str
last_segment [] = []
last_segment (x ∷ []) = x
last_segment (x ∷ y ∷ l) = last_segment (y ∷ l)

-- `skip_while(|seg| seg == "context")`
unfoldable pub skip_context : List Str → List Str
skip_context [] = []
skip_context (x ∷ l) = let rest = skip_context l in if str_eq x (str "context") then rest else x ∷ l

unfoldable pub read_context : EventData → List Str → Value
read_context event path = or_null (
    or_else (request_context_path event (skip_context path))
      (Map.get event.request_context (last_segment path)))

module _ (u : Unicode) where
  abbrev pub entity_path : EventData → Option Value → List Str → Value
  entity_path event (some (entity ty id)) [] = entity ty id
  entity_path event (some (entity ty id)) (a ∷ rest) =
      or_null (resolve_entity_attr u event ty id (a ∷ rest))
  entity_path event _ rest = null

  unfoldable pub resolve_scope_path : Str → List Str → EventData → Value
  resolve_scope_path reserved rest event = entity_path event (Map.get event.logged reserved) rest

  unfoldable pub resolve_field_path : List Str → EventData → Value
  resolve_field_path [] event = read_context event []
  resolve_field_path (root ∷ rest) event =
      if str_eq root (str "principal")
      then resolve_scope_path (str "callerPrincipal") rest event
      else (if str_eq root (str "resource")
          then resolve_scope_path (str "callerResource") rest event
          else read_context event (root ∷ rest))

  unfoldable mutual
    pub resolve_provider_arg : Arg → EventData → Value
    resolve_provider_arg (field path) event = resolve_field_path path event
    resolve_provider_arg (string s) event = Value.string s
    resolve_provider_arg (integer n) event = Value.int n
    resolve_provider_arg (decimal s) event = Value.decimal s
    resolve_provider_arg (bool b) event = Value.bool b
    resolve_provider_arg (set items) event = Value.array (resolve_set items event)

    pub resolve_set : Args → EventData → Items
    resolve_set no_more event = Value.nil
    resolve_set (more_args a items) event =
        Value.cons (resolve_provider_arg a event) (resolve_set items event)

  abbrev pub resolve_list : List Arg → EventData → List Value
  resolve_list args event = map (λ a. resolve_provider_arg a event) args

module _ (s : Scripts) where
  -- The fields of `ProviderField` that evaluation reads.
  pub record ProviderField : Type 0 where
    pub id : Str
    pub function : List Str
    pub args : List Arg
    pub methods : List (Str × List Arg)
    pub declaration : Option s.Decl

  abbrev pub key : ProviderField → Str
  key f = join (str "::") f.function

  abbrev pub undeclared : Str → Str
  undeclared k =
      str "provider `"
      ++ k
      ++ str
          "` was not declared (no entry in the providers declarations), so it has no implementation to evaluate"

  abbrev pub undeclared_chain : Str → Str
  undeclared_chain k =
      str "provider `"
      ++ k
      ++ str "` has a method chain but is not declared, so its methods cannot be evaluated"

  abbrev pub declared : ProviderField → Str → Result s.Decl
  declared f message = ok_or f.declaration message

  abbrev pub evaluate_declared : ProviderField → List Value → Result Value
  evaluate_declared f args = do decl ← declared f (undeclared (key f)); s.evaluate (key f) decl args

  abbrev pub base_of : ProviderField → List Value → Option (Result Value) → Result Value
  base_of f args (some result) = result
  base_of f args none = evaluate_declared f args

  abbrev pub ask : Option Resolver → List Str → List Value → Option (Result Value)
  ask none name args = none
  ask (some resolve) name args = resolve name args

  module _ (u : Unicode) where
    abbrev pub method_args : EventData → Str × List Arg → Str × List Value
    method_args event m = (m.0, resolve_list u m.1 event)

    -- The base value through the chain of methods.
    abbrev pub run_chain : ProviderField → EventData → List (Str × List Arg) → Value → Result Value
    run_chain f event [] base = ok base
    run_chain f event (m ∷ methods) base = do
      decl ← declared f (undeclared_chain (key f))
      s.run_methods (key f) decl base (map (method_args event) (m ∷ methods))

    unfoldable pub eval_provider_raw : ProviderField → Option Resolver → EventData → Result Value
    eval_provider_raw f resolver event = do
      base ←
          base_of f (resolve_list u f.args event)
            (ask resolver f.function (resolve_list u f.args event))
      run_chain f event f.methods base

    abbrev pub final_type : s.Decl → List (Str × List Arg) → Option s.Ty
    final_type decl [] = some (s.output_type decl)
    final_type decl (m ∷ []) = s.method_type decl m.0
    final_type decl (m ∷ n ∷ methods) = final_type decl (n ∷ methods)

    abbrev pub coerce_to : ProviderField → Value → Option s.Ty → Result Value
    coerce_to f v none = ok v
    coerce_to f v (some ty) = s.coerce_to_declared (key f) v ty

    abbrev pub convert : ProviderField → Value → Option s.Decl → Result Value
    convert f v none = ok v
    convert f v (some decl) = coerce_to f v (final_type decl f.methods)

    unfoldable pub eval_provider : ProviderField → Option Resolver → EventData → Result Value
    eval_provider f resolver event = do
      v ← eval_provider_raw f resolver event
      convert f v f.declaration
