-- ===== src/Pins/Unforgeable.antt =====
-- Matching of injected predicates: `inject_into_predicate` of dogwood-language/src/event_schema/pin.rs.
use dogwood.Prelude.{
  ℕ, ◌≡◌, ◌∙◌, refl, sym, ap, fun_ext, Bool, true, false, ◌&&◌, Option, none, some, List, [], ◌∷◌,
  Str, str, join, all, arith, if◌then◌else◌,
}
use dogwood.Prelude.Panics.{Exec, value, panic, map_exec}
use dogwood.Map
use dogwood.Value.{Value, dom_eq}
use dogwood.Event.{EventData, Trace, field_path, trace_event}
use dogwood.Ast.{NamedArgs, no_args, arg, pred, append_args, arg_path}
use dogwood.Rows.{Env}
use dogwood.Resolve.{
  context_key, scope_env_key, resolve_term, match_arg, match_field, match_args_from, match_args,
  match_predicate, then_match, same_identity, match_resolved,
}
use dogwood.Pins.{
  PinRoot, context, scope, Pin, DerivedEvent, pins_of, get_event, pin_term, pin_args,
  inject_into_predicate,
}

-- The request value that a pin asks for.
abbrev pub pin_value : Env → PinRoot → List Str → Option Value
pin_value env scope path = Map.get env (scope_env_key path)
pin_value env context path = Map.get env (context_key path)

abbrev pub both_agree : Option Value → Option Value → Bool
both_agree (some v) (some w) = dom_eq w v
both_agree _ _ = false

-- The event's field has the request's value.
abbrev pub pin_holds : Env → EventData → Pin → Bool
pin_holds env event p =
    both_agree (field_path event (arg_path (join (str ".") p.field_path)))
      (pin_value env p.root p.context_path)

abbrev pub keep_if : Bool → Option Env → Option Env
keep_if true r = r
keep_if false r = none

then_match_assoc :
    (m : Exec (Option Env)) (f g : Env → Exec (Option Env))
    → then_match (then_match m f) g ≡ then_match m (λ b. then_match (f b) g)
then_match_assoc (value none) f g = refl
then_match_assoc (value (some b)) f g = refl
then_match_assoc panic f g = refl

match_args-append :
    (env : Env) (event : EventData) (a b : NamedArgs) (bs : Env)
    → match_args_from env event (append_args a b) bs
      ≡ then_match (match_args_from env event a bs) (match_args_from env event b)
unfolding match_args_from append_args
match_args-append env event no_args b bs = refl
match_args-append env event (arg n t rest) b bs =
    ap (then_match (match_field env (field_path event (arg_path n)) t bs))
      (fun_ext (λ c. match_args-append env event rest b c))
    ∙ sym (then_match_assoc (match_field env (field_path event (arg_path n)) t bs) _ _)

match_pin :
    (env : Env) (root : PinRoot) (path : List Str) (o : Option Value) (bs : Env)
    → match_field env o (pin_term root path) bs
      ≡ value (keep_if (both_agree o (pin_value env root path)) (some bs))
unfolding pin_term match_arg resolve_term
match_pin env root path none bs = refl
match_pin env scope path (some v) bs = agree (Map.get env (scope_env_key path))
  where
    agree :
        (r : Option Value)
        → value (match_resolved r v bs) ≡ value (keep_if (both_agree (some v) r) (some bs))
    agree none = refl
    agree (some w) = ground arith
match_pin env context path (some v) bs = agree (Map.get env (context_key path))
  where
    agree :
        (r : Option Value)
        → value (match_resolved r v bs) ≡ value (keep_if (both_agree (some v) r) (some bs))
    agree none = refl
    agree (some w) = ground arith

pub match_pin_args :
    (env : Env) (event : EventData) (ps : List Pin) (bs : Env)
    → match_args_from env event (pin_args ps) bs
      ≡ value (keep_if (all (pin_holds env event) ps) (some bs))
unfolding match_args_from pin_args
match_pin_args env event [] bs = refl
match_pin_args env event (p ∷ ps) bs =
    let ih = match_pin_args env event ps bs in
    rw
      (match_pin env p.root p.context_path
        (field_path event (arg_path (join (str ".") p.field_path))) bs)
      (rest (pin_holds env event p) ih)
  where
    rest :
        (b : Bool)
        → match_args_from env event (pin_args ps) bs
          ≡ value (keep_if (all (pin_holds env event) ps) (some bs))
        → then_match (value (keep_if b (some bs))) (match_args_from env event (pin_args ps))
          ≡ value (keep_if (b && all (pin_holds env event) ps) (some bs))
    rest true ih = ih
    rest false ih = refl

pub keep_none : (b : Bool) → keep_if b none ≡ none
keep_none true = refl
keep_none false = refl

keep_branch :
    (keep same : Bool) (m m' : Exec (Option Env))
    → m' ≡ map_exec (keep_if keep) m
    → (if same then m' else value none) ≡ map_exec (keep_if keep) (if same then m else value none)
keep_branch keep true m m' e = e
keep_branch keep false m m' e = rw (keep_none keep)

keep_match :
    (m : Exec (Option Env)) (b : Bool)
    → then_match m (λ bs. value (keep_if b (some bs))) ≡ map_exec (keep_if b) m
keep_match (value none) b = rw (keep_none b)
keep_match (value (some bs)) b = refl
keep_match panic b = refl

-- At a timepoint of the trace, the injected predicate matches exactly where the predicate as written
-- matches and every pin of its derived event has the value of the request, and then with the same
-- bindings.
pub inject-match_predicate :
    (schema : List DerivedEvent) (t : Trace) (i : ℕ) (env : Env) (event : EventData)
    (namespace : List Str) (action kind : Str) (args : NamedArgs)
    → trace_event t i ≡ value event
    → match_predicate t i env (inject_into_predicate schema (pred namespace action kind args))
      ≡ map_exec
          (keep_if (all (pin_holds env event) (pins_of (get_event schema namespace action kind))))
          (match_predicate t i env (pred namespace action kind args))
unfolding inject_into_predicate match_predicate match_args
inject-match_predicate schema t i env event namespace action kind args h = rw h (
    keep_branch (all (pin_holds env event) (pins_of (get_event schema namespace action kind)))
      (same_identity event namespace action kind) (match_args_from env event args []) _
      (match_args-append env event args _ []
        ∙ ap (then_match (match_args_from env event args []))
            (fun_ext (match_pin_args env event (pins_of (get_event schema namespace action kind))))
        ∙ keep_match (match_args_from env event args []) _))
