-- ===== src/RequestEnv.antt =====
-- The environment of a decision, dogwood-language/src/interpreter/eval.rs: `request_env` and the
-- functions that seed it.
pub mod Keys
use dogwood.Prelude.{Bool, true, false, Option, none, some, List, [], ◌∷◌, ◌++◌, Str, str, ℕ}
use dogwood.Prelude.Panics.{Exec, value, ◌>>=◌}
use dogwood.Map
use dogwood.Map.{Map}
use dogwood.Unicode.{Unicode, entity_uid_string}
use dogwood.Value.{Value, entity, object, Fields, end, field}
use dogwood.Event.{
  EventData, EntityRecord, Trace, Scope, trace_event, trace_scope, resolve_entity_attr,
}
use dogwood.Rows.{Env}
use dogwood.Resolve.{scope_env_key}

-- A record seeds its members under dotted keys, then itself.
unfoldable mutual
  pub seed_env : Env → Str → Value → Env
  seed_env env key (object fs) = Map.insert (seed_members env key fs) key (object fs)
  seed_env env key v = Map.insert env key v

  pub seed_members : Env → Str → Fields → Env
  seed_members env key end = env
  seed_members env key (field k v fs) = seed_members (seed_env env (key ++ (str "." ++ k)) v) key fs

unfoldable pub seed_context : Env → Map Value → Env
seed_context env [] = env
seed_context env ((k, v) ∷ m) = seed_context (seed_env env (str "context." ++ k) v) m

-- The supplied attributes of the scope entity, under `@<root>.<attr>`.
unfoldable pub seed_attrs : Env → Str → Map Value → Env
seed_attrs env root [] = env
seed_attrs env root ((a, v) ∷ m) =
    seed_attrs (seed_env env (scope_env_key (root ∷ a ∷ [])) v) root m

abbrev pub seed_record : Env → Str → Option EntityRecord → Env
seed_record env root none = env
seed_record env root (some rec) = seed_attrs env root rec.attrs

abbrev pub seed_projection : Env → Str → Option Value → Env
seed_projection env key none = env
seed_projection env key (some v) = Map.or_insert env key v

-- `.id` and `.type`, unless a supplied attribute took the key.
unfoldable pub project_names : Unicode → Env → Str → Str → Str → EventData → List Str → Env
project_names u env root ty id event [] = env
project_names u env root ty id event (n ∷ names) =
    project_names u
      (seed_projection env (scope_env_key (root ∷ n ∷ []))
        (resolve_entity_attr u event ty id (n ∷ [])))
      root ty id event names

abbrev pub seed_entity : Unicode → Env → Str → Value → EventData → Env
seed_entity u env root (entity ty id) event =
    project_names u (seed_record env root (Map.get event.entities (entity_uid_string u ty id))) root
      ty id event (str "id" ∷ str "type" ∷ [])
seed_entity u env root _ event = env

unfoldable pub seed_scope_env : Unicode → Env → Str → Value → EventData → Env
seed_scope_env u env root v event =
    seed_entity u (Map.insert env (scope_env_key (root ∷ [])) v) root v event

abbrev pub seed_scope : Unicode → Env → Str → Option Value → EventData → Env
seed_scope u env root none event = env
seed_scope u env root (some v) event = seed_scope_env u env root v event

unfoldable pub request_env : Unicode → Trace → ℕ → Exec Env
request_env u trace i = do
  event ← trace_event trace i
  scope ← trace_scope trace i
  let env = seed_context [] event.request_context
  value (
      seed_scope u (seed_scope u env (str "principal") scope.principal event) (str "resource")
        scope.resource event)
