-- ===== src/Resolve.antt =====
-- Terms and predicates that need no trace history, dogwood-language/src/interpreter/eval.rs:
-- `resolve_term`, `match_args`, `match_predicate`, `in_window`.
pub mod Window
use dogwood.Prelude.{
  ℕ, Bool, true, false, ◌&&◌, ◌||◌, not, Option, none, some, List, [], ◌∷◌, ◌++◌, Str, str, str_eq,
  join, if◌then◌else◌,
}
use dogwood.Prelude.Panics.{Exec, value, panic, ◌>>=◌}
use dogwood.Int.{ℤ, pos, leb_ℤ, saturating_sub}
use dogwood.Map
use dogwood.Value
use dogwood.Value.{Value, Items, dom_eq}
use dogwood.Event.{EventData, Trace, field_path, trace_ts, trace_event}
use dogwood.Ast
use dogwood.Ast.{
  Interval, interval_seconds, NamedArgs, no_args, arg, Predicate, pred, Term, Terms, no_terms, item,
  integer, var, wildcard, context_field, scope_field, agg, arithmetic, param_ref, binder_ref,
  arg_path,
}
use dogwood.Rows.{Env}

-- The keys of the environment: context fields and scope fields have disjoint prefixes.
unfoldable pub context_key : List Str → Str
context_key path = str "context." ++ join (str ".") path

unfoldable pub scope_env_key : List Str → Str
scope_env_key path = str "@" ++ join (str ".") path

-- The arms of `resolve_term` that stop at a missing item.
abbrev pub cons_value : Exec (Option Value) → Exec (Option Items) → Exec (Option Items)
cons_value head rest = do
  v ← head
  elim v [
    | none ↦ value none
    | some w ↦ (do r ← rest; value (elim r [ none ↦ none | some vs ↦ some (Value.cons w vs) ]))
  ]

abbrev pub array_value : Option Items → Option Value
array_value none = none
array_value (some vs) = some (Value.array vs)

unfoldable mutual
  pub resolve_term : Env → Term → Exec (Option Value)
  resolve_term env (integer n) = value (some (Value.int n))
  resolve_term env (Term.decimal s) = value (some (Value.decimal s))
  resolve_term env (Term.string s) = value (some (Value.string s))
  resolve_term env (Term.bool b) = value (some (Value.bool b))
  resolve_term env (Term.entity ty id) = value (some (Value.entity ty id))
  resolve_term env (Term.array items) = do vals ← resolve_terms env items; value (array_value vals)
  resolve_term env (var n) = value (Map.get env n)
  resolve_term env (context_field path) = value (Map.get env (context_key path))
  resolve_term env (scope_field path) = value (Map.get env (scope_env_key path))
  resolve_term env wildcard = value none
  resolve_term env (agg e) = panic
  resolve_term env (arithmetic op l r) = panic
  resolve_term env (param_ref p) = panic
  resolve_term env (binder_ref b) = panic

  pub resolve_terms : Env → Terms → Exec (Option Items)
  resolve_terms env no_terms = value (some Value.nil)
  resolve_terms env (item t ts) = cons_value (resolve_term env t) (resolve_terms env ts)

abbrev pub or_get : Option Value → Option Value → Option Value
or_get (some v) o = some v
or_get none o = o

-- A variable that is bound already is compared, another is bound to the field.
abbrev pub match_var : Option Value → Value → Str → Env → Option Env
match_var (some bound) field_val n bindings = if dom_eq bound field_val then some bindings else none
match_var none field_val n bindings = some (Map.insert bindings n field_val)

abbrev pub match_resolved : Option Value → Value → Env → Option Env
match_resolved none field_val bindings = none
match_resolved (some v) field_val bindings = if dom_eq v field_val then some bindings else none

-- One argument against the value of its field: the bindings so far, or no match.
unfoldable pub match_arg : Env → Value → Term → Env → Exec (Option Env)
match_arg env field_val wildcard bindings = value (some bindings)
match_arg env field_val (var n) bindings =
    value (match_var (or_get (Map.get env n) (Map.get bindings n)) field_val n bindings)
match_arg env field_val other bindings = do
  v ← resolve_term env other
  value (match_resolved v field_val bindings)

abbrev pub then_match : Exec (Option Env) → (Env → Exec (Option Env)) → Exec (Option Env)
then_match m k = do r ← m; elim r [ none ↦ value none | some b ↦ k b ]

abbrev pub match_field : Env → Option Value → Term → Env → Exec (Option Env)
match_field env none t bindings = value none
match_field env (some field_val) t bindings = match_arg env field_val t bindings

-- The loop of `match_args`, with the bindings so far.
unfoldable pub match_args_from : Env → EventData → NamedArgs → Env → Exec (Option Env)
match_args_from env event no_args bindings = value (some bindings)
match_args_from env event (arg n t rest) bindings =
    then_match (match_field env (field_path event (arg_path n)) t bindings)
      (match_args_from env event rest)

unfoldable pub match_args : Env → EventData → NamedArgs → Exec (Option Env)
match_args env event args = match_args_from env event args []

unfoldable pub path_eq : List Str → List Str → Bool
path_eq [] [] = true
path_eq (x ∷ xs) (y ∷ ys) = str_eq x y && path_eq xs ys
path_eq _ _ = false

abbrev pub same_identity : EventData → List Str → Str → Str → Bool
same_identity event namespace action kind =
    (str_eq event.action action && str_eq event.kind kind) && path_eq event.namespace namespace

-- A predicate matches the event at `i` with the new bindings, if identity and arguments agree.
unfoldable pub match_predicate : Trace → ℕ → Env → Predicate → Exec (Option Env)
match_predicate trace i env (pred namespace action kind args) = do
  event ← trace_event trace i
  if same_identity event namespace action kind then match_args env event args else value none

-- `delta >= 0 && delta <= within.seconds()`
unfoldable pub in_window : Trace → ℕ → ℕ → Interval → Exec Bool
in_window trace i j within = do
  now ← trace_ts trace i
  before ← trace_ts trace j
  let delta = saturating_sub now before
  value (leb_ℤ (pos 0) delta && leb_ℤ delta (interval_seconds within))
