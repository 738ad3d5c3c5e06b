-- ===== src/RequestEnv/Keys.antt =====
-- The keys that `request_env` of dogwood-language/src/interpreter/eval.rs seeds, and identifiers.
use dogwood.Prelude.{
  ℕ, ◌≡◌, ◌≢◌, refl, Bool, true, false, ◌||◌, Option, none, some, List, [], ◌∷◌, ◌++◌, Str, str,
  any, ◌==◌, arith, ap, ◌∙◌, join,
}
use dogwood.Prelude.Panics.{value, >>=-eq-value}
use dogwood.Map
use dogwood.Map.{Map}
use dogwood.Map.Laws.{get-insert_ne}
use dogwood.Unicode.{Unicode}
use dogwood.Value.{Value, entity, object, Fields, end, field}
use dogwood.Event.{EventData, EntityRecord, Trace, trace_event, trace_scope}
use dogwood.Rows.{Env}
use dogwood.Resolve.{scope_env_key}
use dogwood.RequestEnv.{
  seed_env, seed_members, seed_context, seed_attrs, seed_record, seed_projection, project_names,
  seed_scope_env, seed_scope, request_env,
}

abbrev pub has_char : ℕ → Str → Bool
has_char c s = any (λ x. x == c) s

-- An identifier of the grammar has neither a dot nor an at sign.
pub record IsIdentifier (n : Str) : Type 0 where
  pub no_dot : has_char b'.' n ≡ false
  pub no_at : has_char b'@' n ≡ false

-- A key of the environment has one of the two.
abbrev pub IsKey : Str → Type 0
IsKey k = (has_char b'.' k || has_char b'@' k) ≡ true

has_char-append : (c : ℕ) (a b : Str) → has_char c (a ++ b) ≡ (has_char c a || has_char c b)
has_char-append c [] b = refl
has_char-append c (x ∷ a) b = ground (arith, has_char-append c a b)

pub IsKey-append : (a b : Str) → IsKey a → IsKey (a ++ b)
IsKey-append a b h = ground (arith, has_char-append b'.' a b, has_char-append b'@' a b)

pub key-ne-identifier : (n k : Str) → IsIdentifier n → IsKey k → k ≢ n
key-ne-identifier n k i h e = ground (arith, ap (has_char b'.') e, ap (has_char b'@') e)

pub scope_env_key-IsKey : (path : List Str) → IsKey (scope_env_key path)
unfolding scope_env_key
scope_env_key-IsKey path = IsKey-append (str "@") (join (str ".") path) refl

module _ (n : Str) (ident : IsIdentifier n) where
  abbrev Free : Env → Type 0
  Free env = Map.get env n ≡ none

  insert-Free : (env : Env) (k : Str) (v : Value) → IsKey k → Free env → Free (Map.insert env k v)
  insert-Free env k v h f = get-insert_ne env k v n (key-ne-identifier n k ident h) ∙ f

  mutual
    unfolding seed_env

    seed_env-Free : (v : Value) (env : Env) (k : Str) → IsKey k → Free env → Free (seed_env env k v)
    seed_env-Free (object fs) env k h f = insert-Free _ k _ h (seed_members-Free fs env k h f)
    seed_env-Free _ env k h f = insert-Free env k _ h f

    seed_members-Free :
        (fs : Fields) (env : Env) (k : Str) → IsKey k → Free env → Free (seed_members env k fs)
    seed_members-Free end env k h f = f
    seed_members-Free (field j v fs) env k h f =
        seed_members-Free fs _ k h
          (seed_env-Free v env (k ++ (str "." ++ j)) (IsKey-append k _ h) f)

  seed_context-Free : (m : Map Value) (env : Env) → Free env → Free (seed_context env m)
  unfolding seed_context
  seed_context-Free [] env f = f
  seed_context-Free ((k, v) ∷ m) env f =
      seed_context-Free m _
        (seed_env-Free v env (str "context." ++ k) (IsKey-append (str "context.") k refl) f)

  seed_attrs-Free :
      (m : Map Value) (env : Env) (root : Str) → Free env → Free (seed_attrs env root m)
  unfolding seed_attrs
  seed_attrs-Free [] env root f = f
  seed_attrs-Free ((a, v) ∷ m) env root f =
      seed_attrs-Free m _ root (seed_env-Free v env _ (scope_env_key-IsKey (root ∷ a ∷ [])) f)

  seed_record-Free :
      (o : Option EntityRecord) (env : Env) (root : Str) → Free env → Free (seed_record env root o)
  seed_record-Free none env root f = f
  seed_record-Free (some rec) env root f = seed_attrs-Free rec.attrs env root f

  or_insert-Free :
      (env : Env) (k : Str) (v : Value) → IsKey k → Free env → Free (Map.or_insert env k v)
  unfolding Map.or_insert
  or_insert-Free env k v h f = ground (arith, insert-Free env k v h f)

  seed_projection-Free :
      (o : Option Value) (env : Env) (k : Str) → IsKey k → Free env → Free (seed_projection env k o)
  seed_projection-Free none env k h f = f
  seed_projection-Free (some v) env k h f = or_insert-Free env k v h f

  module _ (u : Unicode) where
    project_names-Free :
        (names : List Str) (env : Env) (root ty id : Str) (event : EventData)
        → Free env
        → Free (project_names u env root ty id event names)
    unfolding project_names
    project_names-Free [] env root ty id event f = f
    project_names-Free (m ∷ names) env root ty id event f =
        project_names-Free names _ root ty id event
          (seed_projection-Free _ env _ (scope_env_key-IsKey (root ∷ m ∷ [])) f)

    seed_scope_env-Free :
        (v : Value) (env : Env) (root : Str) (event : EventData)
        → Free env
        → Free (seed_scope_env u env root v event)
    unfolding seed_scope_env
    seed_scope_env-Free (entity ty id) env root event f =
        project_names-Free _ _ root ty id event
          (seed_record-Free _ _ root (insert-Free env _ _ (scope_env_key-IsKey (root ∷ [])) f))
    seed_scope_env-Free _ env root event f = insert-Free env _ _ (scope_env_key-IsKey (root ∷ [])) f

    seed_scope-Free :
        (o : Option Value) (env : Env) (root : Str) (event : EventData)
        → Free env
        → Free (seed_scope u env root o event)
    seed_scope-Free none env root event f = f
    seed_scope-Free (some v) env root event f = seed_scope_env-Free v env root event f

    -- The environment of a request, where it is returned, binds no name that has neither a dot nor
    -- an at sign.
    pub request_env-identifier :
        (t : Trace) (i : ℕ) {env : Env} → request_env u t i ≡ value env → Map.get env n ≡ none
    unfolding request_env Map.get
    request_env-identifier t i {env} h =
        let (event, p, q) = >>=-eq-value (trace_event t i) _ h in
        let (scope, r, s) = >>=-eq-value (trace_scope t i) _ q in
        let seeded = seed_scope-Free scope.resource _ (str "resource") event (
          seed_scope-Free scope.principal _ (str "principal") event
            (seed_context-Free event.request_context [] refl)) in
        let e : _ ≡ env = cc s in rw (← e) seeded
