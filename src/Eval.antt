-- ===== src/Eval.antt =====
-- The temporal evaluator, dogwood-language/src/interpreter/eval.rs: `eval_condition`,
-- `match_occurrences`, `eval_agg_expr`, `resolve_term_at`.
pub mod Steps
pub mod Semantics
pub mod Returning
pub mod Operators
pub mod Decides
pub mod Expanded
pub mod Total
pub mod Past
pub mod Names
pub mod RowEach
pub mod RowInvariant
pub mod RowNames
pub mod RowDistinct
pub mod SameKeys
pub mod Holds
use dogwood.Prelude.{
  ℕ, zero, suc, ◌+◌, ◌-◌, Bool, true, false, ◌&&◌, ◌||◌, Option, none, some, List, [], ◌∷◌, ◌++◌,
  Str, length, if◌then◌else◌,
}
use mathlib.Core.Bool
use dogwood.Prelude.Panics.{Exec, value, panic, ◌>>=◌, map_exec}
use dogwood.Int.{ℤ, pos, leb_ℤ, ltb_ℤ, saturating_add, saturating_sub, saturating_mul}
use dogwood.Map
use dogwood.Value.{Value, dom_eq, as_int}
use dogwood.Value
use dogwood.Event.{Trace}
use dogwood.Ast
use dogwood.Ast.{
  Interval, WithinSpec, within_interval, CmpOp, ArithOp, BinderSlot, slot_name, TypedBinder,
  binder_name, Condition, and, or, formerly, previous, since, predicate, comparison, exists, tp,
  call, sigil_ref, refine, Predicate, Term, var, agg, arithmetic, AggExpr, sum, count, agg_call,
}
use dogwood.Rows.{Env, Row, push_all_new, drop_column, project_dedup, join_all, sum_column}
use dogwood.Loop.{any_down, all_up, collect_up, collect_rows, keep_rows}
use dogwood.Resolve.{resolve_term, match_predicate, in_window}
unfoldable pub use Steps.*

unfoldable mutual
  pub eval_condition : Trace → ℕ → Env → Condition → Exec Bool
  eval_condition trace i env (and left right) =
      eval_and trace i env (as_predicate left) (eval_condition trace i env left)
        (λ env'. eval_condition trace i env' right)
  eval_condition trace i env (or left right) =
      or_else_bool (eval_condition trace i env left) (eval_condition trace i env right)
  eval_condition trace i env (Condition.not inner) =
      map_exec Bool.not (eval_condition trace i env inner)
  eval_condition trace i env (formerly within body) = do
    w ← within_interval within
    scan_formerly trace i w (λ j. eval_condition trace j env body)
  eval_condition trace i env (previous within body) =
      eval_previous trace i (within_interval within) (λ j. eval_condition trace j env body)
  eval_condition trace i env (since left within right) = do
    w ← within_interval within
    eval_since trace i w (λ k. eval_condition trace k env left)
        (λ j. eval_condition trace j env right)
  eval_condition trace i env (predicate p) = map_exec is_some (match_predicate trace i env p)
  eval_condition trace i env (comparison op left right) =
      eval_comparison op (resolve_term_at trace i env left) (resolve_term_at trace i env right)
  eval_condition trace i env (exists x body) = do
    n ← binder_name x
    map_exec is_nonempty (match_occurrences trace i (Map.remove env n) body)
  eval_condition trace i env (tp x) = do n ← slot_name x; value (tp_holds i (Map.get env n))
  eval_condition trace i env (call c) = panic
  eval_condition trace i env (sigil_ref s n) = panic
  eval_condition trace i env (refine base fields) = panic

  -- The rows of bindings that satisfy a condition.
  pub match_occurrences : Trace → ℕ → Env → Condition → Exec (List Row)
  match_occurrences trace i env (predicate p) = map_exec option_row (match_predicate trace i env p)
  match_occurrences trace i env (and left right) =
      and_rows env (match_occurrences trace i env left)
        (λ env'. match_occurrences trace i env' right)
  match_occurrences trace i env (or left right) =
      let rest = match_occurrences trace i env right in
      do lrows ← match_occurrences trace i env left; rrows ← rest; value (push_all_new lrows rrows)
  match_occurrences trace i env (formerly within body) = do
    w ← within_interval within
    formerly_rows trace i w (λ j. match_occurrences trace j env body)
  match_occurrences trace i env (previous within body) =
      previous_rows trace i (within_interval within) (λ j. match_occurrences trace j env body)
  match_occurrences trace i env (since left within right) = do
    w ← within_interval within
    since_rows trace i w env (λ k env'. eval_condition trace k env' left)
        (λ j. match_occurrences trace j env right)
  match_occurrences trace i env (tp x) = do n ← slot_name x; value (tp_rows i n (Map.get env n))
  match_occurrences trace i env (exists x body) = do
    n ← binder_name x
    rows ← match_occurrences trace i (Map.remove env n) body
    value (push_all_new [] (drop_all n rows))
  match_occurrences trace i env (comparison op left right) =
      comparison_rows op (unbound_var env left) (unbound_var env right)
        (resolve_term_at trace i env left) (resolve_term_at trace i env right)
  match_occurrences trace i env (Condition.not inner) =
      filter_witness (map_exec Bool.not (eval_condition trace i env inner))
  match_occurrences trace i env (call c) = panic
  match_occurrences trace i env (sigil_ref s n) = panic
  match_occurrences trace i env (refine base fields) = panic

  pub eval_agg_expr : Trace → ℕ → Env → AggExpr → Exec ℤ
  eval_agg_expr trace i env (sum bound_var for_vars body) = do
    inner ← shed_for_binders env for_vars
    rows ← match_occurrences trace i inner body
    rel ← project_dedup rows for_vars
    n ← slot_name bound_var
    value (sum_column rel n)
  eval_agg_expr trace i env (count for_vars body) = do
    inner ← shed_for_binders env for_vars
    rows ← match_occurrences trace i inner body
    rel ← project_dedup rows for_vars
    value (pos (length rel))
  eval_agg_expr trace i env (agg_call c) = panic

  -- The resolver of comparison operands, the only place for an aggregate.
  pub resolve_term_at : Trace → ℕ → Env → Term → Exec (Option Value)
  resolve_term_at trace i env (agg e) = do
    n ← eval_agg_expr trace i env e
    value (some (Value.int n))
  resolve_term_at trace i env (arithmetic op left right) =
      resolve_arith op (resolve_term_at trace i env left) (resolve_term_at trace i env right)
  resolve_term_at trace i env other = resolve_term env other
