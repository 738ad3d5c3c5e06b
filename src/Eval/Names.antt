-- ===== src/Eval/Names.antt =====
-- The names that rows bind, dogwood-language/src/interpreter/eval.rs: those of the variables in the
-- condition.
use dogwood.Prelude.{
  ℕ, Bool, true, false, Option, none, some, List, [], ◌∷◌, Str, str_eq, str_lt, All, if◌then◌else◌,
}
use dogwood.Prelude.Panics.{Exec, value, panic, ◌>>=◌, Ensures, bind-Ensures}
use dogwood.Map
use dogwood.Map.{Map}
use dogwood.Value.{Value, dom_eq}
use dogwood.Event.{EventData, Trace, trace_event, field_path}
use dogwood.Ast.{
  BinderSlot, name, TypedBinder, Condition, and, or, formerly, previous, since, predicate,
  comparison, exists, tp, call, sigil_ref, refine, Predicate, pred, NamedArgs, no_args, arg, Term,
  var, wildcard, agg, arithmetic, AggExpr, sum, count, agg_call, arg_path,
}
use dogwood.Rows.{Env, Row}
use dogwood.Resolve.{
  match_arg, match_field, match_args_from, match_args, match_predicate, match_var, match_resolved,
  then_match, same_identity, resolve_term,
}
use dogwood.RequestEnv.Keys.{IsIdentifier}

abbrev pub SlotIdentifier : BinderSlot → Type 0
SlotIdentifier (name n) = IsIdentifier n
SlotIdentifier _ = Unit

abbrev pub SlotIdentifiers : List TypedBinder → Type 0
SlotIdentifiers [] = Unit
SlotIdentifiers (v ∷ vs) = SlotIdentifier v.slot × SlotIdentifiers vs

abbrev pub VarIdentifier : Term → Type 0
VarIdentifier (var n) = IsIdentifier n
VarIdentifier _ = Unit

abbrev pub ArgIdentifiers : NamedArgs → Type 0
ArgIdentifiers no_args = Unit
ArgIdentifiers (arg n t rest) = VarIdentifier t × ArgIdentifiers rest

abbrev pub PredicateIdentifiers : Predicate → Type 0
PredicateIdentifiers (pred ns a k args) = ArgIdentifiers args

-- Every variable of the condition is an identifier of the grammar.
abbrev mutual
  pub HasIdentifiers : Condition → Type 0
  HasIdentifiers (and l r) = HasIdentifiers l × HasIdentifiers r
  HasIdentifiers (or l r) = HasIdentifiers l × HasIdentifiers r
  HasIdentifiers (Condition.not c) = HasIdentifiers c
  HasIdentifiers (formerly w c) = HasIdentifiers c
  HasIdentifiers (previous w c) = HasIdentifiers c
  HasIdentifiers (since l w r) = HasIdentifiers l × HasIdentifiers r
  HasIdentifiers (predicate p) = PredicateIdentifiers p
  HasIdentifiers (comparison op l r) = OperandIdentifiers l × OperandIdentifiers r
  HasIdentifiers (exists x c) = SlotIdentifier x.slot × HasIdentifiers c
  HasIdentifiers (tp x) = SlotIdentifier x
  HasIdentifiers (call c) = Unit
  HasIdentifiers (sigil_ref s n) = Unit
  HasIdentifiers (refine c fs) = Unit

  pub OperandIdentifiers : Term → Type 0
  OperandIdentifiers (agg e) = AggIdentifiers e
  OperandIdentifiers (arithmetic op l r) = OperandIdentifiers l × OperandIdentifiers r
  OperandIdentifiers (var n) = IsIdentifier n
  OperandIdentifiers _ = Unit

  pub AggIdentifiers : AggExpr → Type 0
  AggIdentifiers (sum x vs c) = SlotIdentifiers vs × HasIdentifiers c
  AggIdentifiers (count vs c) = SlotIdentifiers vs × HasIdentifiers c
  AggIdentifiers (agg_call c) = Unit

abbrev pub Named : Row → Type 0
Named row = All (λ (c : Str × Value). IsIdentifier c.0) row

abbrev pub AllNamed : List Row → Type 0
AllNamed rows = All Named rows

abbrev pub OptionOf : (Row → Type 0) → Option Row → Type 0
OptionOf P none = Unit
OptionOf P (some row) = P row

abbrev pub OptionNamed : Option Row → Type 0
OptionNamed o = OptionOf Named o

insert-Named :
    (row : Row) (n : Str) (v : Value) → IsIdentifier n → Named row → Named (Map.insert row n v)
unfolding Map.insert
insert-Named [] n v h k = (h, tt)
insert-Named ((j, w) ∷ row) n v h k = tests (str_eq j n) (str_lt n j) (insert-Named row n v h k.1)
  where
    tests :
        (same less : Bool)
        → Named (Map.insert row n v)
        → Named (
            if same
            then (n, v) ∷ row
            else (if less then (n, v) ∷ (j, w) ∷ row else (j, w) ∷ Map.insert row n v))
    tests true less ih = (h, k.1)
    tests false true ih = (h, k)
    tests false false ih = (k.0, ih)

if-Named : (b : Bool) (row : Row) → Named row → OptionNamed (if b then some row else none)
if-Named true row h = h
if-Named false row h = tt

match_var-Named :
    (o : Option Value) (v : Value) (n : Str) (row : Row)
    → IsIdentifier n
    → Named row
    → OptionNamed (match_var o v n row)
match_var-Named (some bound) v n row h k = if-Named (dom_eq bound v) row k
match_var-Named none v n row h k = insert-Named row n v h k

match_resolved-Named :
    (o : Option Value) (v : Value) (row : Row) → Named row → OptionNamed (match_resolved o v row)
match_resolved-Named none v row k = tt
match_resolved-Named (some w) v row k = if-Named (dom_eq w v) row k

resolved-Named :
    (m : Exec (Option Value)) (v : Value) (row : Row)
    → Named row
    → Ensures OptionNamed (m >>= λ w. value (match_resolved w v row))
resolved-Named (value o) v row k = match_resolved-Named o v row k
resolved-Named panic v row k = tt

match_arg-Named :
    (t : Term) (env : Env) (v : Value) (row : Row)
    → VarIdentifier t
    → Named row
    → Ensures OptionNamed (match_arg env v t row)
unfolding match_arg
match_arg-Named wildcard env v row h k = k
match_arg-Named (var n) env v row h k = match_var-Named _ v n row h k
match_arg-Named t env v row h k = resolved-Named (resolve_term env t) v row k

match_field-Named :
    (o : Option Value) (t : Term) (env : Env) (row : Row)
    → VarIdentifier t
    → Named row
    → Ensures OptionNamed (match_field env o t row)
match_field-Named none t env row h k = tt
match_field-Named (some v) t env row h k = match_arg-Named t env v row h k

then_match-Named :
    (m : Exec (Option Env)) (f : Env → Exec (Option Env))
    → Ensures OptionNamed m
    → ((row : Row) → Named row → Ensures OptionNamed (f row))
    → Ensures OptionNamed (then_match m f)
then_match-Named (value none) f h k = tt
then_match-Named (value (some row)) f h k = k row h
then_match-Named panic f h k = tt

match_args-Named :
    (args : NamedArgs) (env : Env) (event : EventData) (row : Row)
    → ArgIdentifiers args
    → Named row
    → Ensures OptionNamed (match_args_from env event args row)
unfolding match_args_from
match_args-Named no_args env event row h k = k
match_args-Named (arg n t rest) env event row h k =
    then_match-Named _ _ (match_field-Named (field_path event (arg_path n)) t env row h.0 k)
      (λ row' k'. match_args-Named rest env event row' h.1 k')

-- A match binds only identifiers.
pub match_predicate-Named :
    (t : Trace) (i : ℕ) (env : Env) (p : Predicate)
    → PredicateIdentifiers p
    → Ensures OptionNamed (match_predicate t i env p)
unfolding match_predicate match_args
match_predicate-Named t i env (pred ns a k args) h =
    bind-Ensures (λ e. Unit {0}) OptionNamed (trace_event t i) _ (any_event (trace_event t i))
      (λ event u. same (same_identity event ns a k) event)
  where
    any_event : (m : Exec EventData) → Ensures (λ e. Unit {0}) m
    any_event (value e) = tt
    any_event panic = tt

    same :
        (b : Bool) (event : EventData)
        → Ensures OptionNamed (if b then match_args_from env event args [] else value none)
    same true event = match_args-Named args env event [] h tt
    same false event = tt
