-- ===== src/Eval/Returning.antt =====
-- Panics in terms, bindings and arguments, dogwood-language/src/interpreter/eval.rs.
use dogwood.Prelude.{refl, Bool, true, false, Option, none, some, List, [], ◌∷◌, if◌then◌else◌}
use dogwood.Prelude.Panics.{Exec, value, panic, ◌>>=◌, map_exec}
use dogwood.Event.{EventData, field_path}
use dogwood.Value.{Value, Items}
use dogwood.Ast.{
  WithinSpec, concrete, within_param, within_interval, BinderSlot, name, slot_param, slot_binder,
  slot_name, TypedBinder, binder_name, NamedArgs, no_args, arg, Term, var, wildcard, agg,
  arithmetic, Terms, no_terms, item, arg_path,
}
use dogwood.Rows.{Env, Row, project, project_all, project_dedup}
use dogwood.Loop.Laws.{Returns}
use dogwood.Resolve.{
  resolve_term, resolve_terms, match_arg, match_field, match_args_from, cons_value, then_match,
}
use dogwood.Eval.{shed_for_binders}
use dogwood.Eval.Expanded.{IsConcrete, IsNamed, AreNamed, IsPlain, ArePlain, ArgsPlain}

module _ {ℓ κ} {A : Type ℓ} {B : Type κ} where
  pub bind-Returns :
      (m : Exec A) (f : A → Exec B) → Returns m → ((a : A) → Returns (f a)) → Returns (m >>= f)
  bind-Returns (value a) f p q = q a
  bind-Returns panic f p q = cc p.1

  pub map_exec-Returns : (f : A → B) (m : Exec A) → Returns m → Returns (map_exec f m)
  map_exec-Returns f (value a) p = (f a, refl)
  map_exec-Returns f panic p = cc p.1

pub value-Returns {ℓ} : {A : Type ℓ} (a : A) → Returns (value a)
value-Returns a = (a, refl)

pub if_exec-Returns {ℓ} :
    {A : Type ℓ} (b : Bool) (m n : Exec A) → Returns m → Returns n → Returns (if b then m else n)
if_exec-Returns true m n p q = p
if_exec-Returns false m n p q = q

pub within-Returns : (w : WithinSpec) → IsConcrete w → Returns (within_interval w)
unfolding within_interval
within-Returns (concrete w) h = (w, refl)
within-Returns (within_param p) h = absurd h

pub slot-Returns : (x : BinderSlot) → IsNamed x → Returns (slot_name x)
unfolding slot_name
slot-Returns (name n) h = (n, refl)
slot-Returns (slot_param p) h = absurd h
slot-Returns (slot_binder p) h = absurd h

pub binder-Returns : (x : TypedBinder) → IsNamed x.slot → Returns (binder_name x)
unfolding binder_name
binder-Returns x h = slot-Returns x.slot h

pub shed-Returns :
    (vs : List TypedBinder) (env : Env) → AreNamed vs → Returns (shed_for_binders env vs)
unfolding shed_for_binders
shed-Returns [] env h = value-Returns env
shed-Returns (v ∷ vs) env h = bind-Returns _ _ (binder-Returns v h.0) (λ n. shed-Returns vs _ h.1)

project-Returns : (vs : List TypedBinder) (row : Row) → AreNamed vs → Returns (project vs row)
unfolding project
project-Returns [] row h = value-Returns []
project-Returns (v ∷ vs) row h =
    bind-Returns _ _ (binder-Returns v h.0)
      (λ n. bind-Returns _ _ (project-Returns vs row h.1) (λ r. value-Returns _))

project_all-Returns :
    (vs : List TypedBinder) (rel : List Row) → AreNamed vs → Returns (project_all vs rel)
unfolding project_all
project_all-Returns vs [] h = value-Returns []
project_all-Returns vs (row ∷ rel) h =
    bind-Returns _ _ (project-Returns vs row h)
      (λ r. bind-Returns _ _ (project_all-Returns vs rel h) (λ rs. value-Returns _))

pub project_dedup-Returns :
    (rel : List Row) (vs : List TypedBinder) → AreNamed vs → Returns (project_dedup rel vs)
unfolding project_dedup
project_dedup-Returns rel vs h =
    bind-Returns _ _ (project_all-Returns vs rel h) (λ r. value-Returns _)

cons_value-Returns :
    (m : Exec (Option Value)) (rest : Exec (Option Items))
    → Returns m
    → Returns rest
    → Returns (cons_value m rest)
cons_value-Returns (value none) rest p q = value-Returns none
cons_value-Returns (value (some v)) rest p q = bind-Returns rest _ q (λ r. value-Returns _)
cons_value-Returns panic rest p q = cc p.1

mutual
  unfolding resolve_term

  pub resolve_term-Returns : (t : Term) (env : Env) → IsPlain t → Returns (resolve_term env t)
  resolve_term-Returns (Term.array ts) env h =
      bind-Returns _ _ (resolve_terms-Returns ts env h) (λ r. value-Returns _)
  resolve_term-Returns (agg e) env h = absurd h
  resolve_term-Returns (arithmetic op l r) env h = absurd h
  resolve_term-Returns (Term.param_ref p) env h = absurd h
  resolve_term-Returns (Term.binder_ref p) env h = absurd h
  resolve_term-Returns _ env h = value-Returns _

  resolve_terms-Returns : (ts : Terms) (env : Env) → ArePlain ts → Returns (resolve_terms env ts)
  resolve_terms-Returns no_terms env h = value-Returns _
  resolve_terms-Returns (item t ts) env h =
      cons_value-Returns _ _ (resolve_term-Returns t env h.0) (resolve_terms-Returns ts env h.1)

then_match-Returns :
    (m : Exec (Option Env)) (k : Env → Exec (Option Env))
    → Returns m
    → ((b : Env) → Returns (k b))
    → Returns (then_match m k)
then_match-Returns (value none) k p q = value-Returns none
then_match-Returns (value (some b)) k p q = q b
then_match-Returns panic k p q = cc p.1

match_arg-Returns :
    (env : Env) (v : Value) (t : Term) (b : Env) → IsPlain t → Returns (match_arg env v t b)
unfolding match_arg
match_arg-Returns env v wildcard b h = value-Returns _
match_arg-Returns env v (var n) b h = value-Returns _
match_arg-Returns env v t b h =
    bind-Returns _ _ (resolve_term-Returns t env h) (λ r. value-Returns _)

match_field-Returns :
    (env : Env) (o : Option Value) (t : Term) (b : Env)
    → IsPlain t
    → Returns (match_field env o t b)
match_field-Returns env none t b h = value-Returns none
match_field-Returns env (some v) t b h = match_arg-Returns env v t b h

pub match_args-Returns :
    (env : Env) (e : EventData) (args : NamedArgs) (b : Env)
    → ArgsPlain args
    → Returns (match_args_from env e args b)
unfolding match_args_from
match_args-Returns env e no_args b h = value-Returns _
match_args-Returns env e (arg n t rest) b h =
    then_match-Returns _ _ (match_field-Returns env (field_path e (arg_path n)) t b h.0)
      (λ b'. match_args-Returns env e rest b' h.1)
