-- ===== src/Eval/Total.antt =====
-- Panics in the evaluator, dogwood-language/src/interpreter/eval.rs.
use dogwood.Prelude.{ℕ, suc, ◌<◌, true, arith}
use dogwood.Event.{Trace, trace_len}
use dogwood.Ast.{
  Condition, and, or, formerly, previous, since, predicate, comparison, exists, tp, call, sigil_ref,
  refine, Term, agg, arithmetic, AggExpr, sum, count, agg_call,
}
use dogwood.Rows.{Env}
use dogwood.Loop.Laws.{Returns, any_down-Returns, collect_up-Returns, collect_rows-Returns}
use dogwood.Eval.{
  scan_formerly, eval_since, formerly_rows, since_rows, eval_condition, match_occurrences,
  eval_agg_expr, resolve_term_at, and_rows,
}
use dogwood.Eval.Expanded.{IsExpanded, IsAggregate, IsOperand}
use dogwood.Eval.Returning.{
  bind-Returns, map_exec-Returns, value-Returns, if_exec-Returns, within-Returns, slot-Returns,
  binder-Returns, shed-Returns, project_dedup-Returns, resolve_term-Returns,
}
use dogwood.Eval.Operators.{
  in_window-Returns, match_predicate-Returns, in_window_and-Returns, rows_in_window-Returns,
  eval_and-Returns, eval_previous-Returns, previous_rows-Returns, anchor_holds-Returns,
  anchor_rows-Returns, comparison-Returns, filter_witness-Returns, comparison_rows-Returns,
  resolve_arith-Returns,
}

module _ (t : Trace) where
  mutual
    unfolding eval_condition scan_formerly eval_since formerly_rows since_rows and_rows

    pub condition-Returns :
        (c : Condition) (i : ℕ) (env : Env)
        → i < trace_len t
        → IsExpanded c
        → Returns (eval_condition t i env c)
    condition-Returns (and l r) i env h x =
        eval_and-Returns t i env l _ _ h x.0 (condition-Returns l i env h x.0)
          (λ env'. condition-Returns r i env' h x.1)
    condition-Returns (or l r) i env h x =
        bind-Returns _ _ (condition-Returns l i env h x.0)
          (λ b. if_exec-Returns b _ _ (value-Returns true) (condition-Returns r i env h x.1))
    condition-Returns (Condition.not c) i env h x =
        map_exec-Returns _ _ (condition-Returns c i env h x)
    condition-Returns (formerly w c) i env h x = bind-Returns _ _ (within-Returns w x.0) (λ v.
        any_down-Returns _ i (λ j p.
          in_window_and-Returns t _ _ (in_window-Returns t i j v h (omega arith))
            (condition-Returns c j env (omega arith) x.1)))
    condition-Returns (previous w c) i env h x =
        eval_previous-Returns t i _ _ (within-Returns w x.0) h
          (λ j p. condition-Returns c j env (omega arith) x.1)
    condition-Returns (since l w r) i env h x = bind-Returns _ _ (within-Returns w x.0) (λ v.
        any_down-Returns _ i (λ j p.
          in_window_and-Returns t _ _ (in_window-Returns t i j v h (omega arith)) (
            anchor_holds-Returns t i j _ _ p (condition-Returns r j env (omega arith) x.2)
              (λ k q. condition-Returns l k env (omega arith) x.1))))
    condition-Returns (predicate p) i env h x =
        map_exec-Returns _ _ (match_predicate-Returns t i env p h x)
    condition-Returns (comparison op l r) i env h x =
        comparison-Returns op _ _ (term-Returns l i env h x.0) (term-Returns r i env h x.1)
    condition-Returns (exists v c) i env h x =
        bind-Returns _ _ (binder-Returns v x.0)
          (λ n. map_exec-Returns _ _ (rows-Returns c i _ h x.1))
    condition-Returns (tp v) i env h x = bind-Returns _ _ (slot-Returns v x) (λ n. value-Returns _)
    condition-Returns (call c) i env h x = absurd x
    condition-Returns (sigil_ref s n) i env h x = absurd x
    condition-Returns (refine c fs) i env h x = absurd x

    rows-Returns :
        (c : Condition) (i : ℕ) (env : Env)
        → i < trace_len t
        → IsExpanded c
        → Returns (match_occurrences t i env c)
    rows-Returns (predicate p) i env h x =
        map_exec-Returns _ _ (match_predicate-Returns t i env p h x)
    rows-Returns (and l r) i env h x = bind-Returns _ _ (rows-Returns l i env h x.0) (λ rows.
        collect_rows-Returns _ rows (λ row. map_exec-Returns _ _ (rows-Returns r i _ h x.1)))
    rows-Returns (or l r) i env h x =
        bind-Returns _ _ (rows-Returns l i env h x.0)
          (λ a. bind-Returns _ _ (rows-Returns r i env h x.1) (λ b. value-Returns _))
    rows-Returns (Condition.not c) i env h x =
        filter_witness-Returns _ (map_exec-Returns _ _ (condition-Returns c i env h x))
    rows-Returns (formerly w c) i env h x = bind-Returns _ _ (within-Returns w x.0) (λ v.
        collect_up-Returns _ 0 (suc i) (λ j p q.
          rows_in_window-Returns t _ _ (in_window-Returns t i j v h (omega arith))
            (rows-Returns c j env (omega arith) x.1)))
    rows-Returns (previous w c) i env h x =
        previous_rows-Returns t i _ _ (within-Returns w x.0) h
          (λ j p. rows-Returns c j env (omega arith) x.1)
    rows-Returns (since l w r) i env h x = bind-Returns _ _ (within-Returns w x.0) (λ v.
        bind-Returns _ _
          (collect_up-Returns _ 0 (suc i) (λ j p q.
            rows_in_window-Returns t _ _ (in_window-Returns t i j v h (omega arith)) (
              anchor_rows-Returns t i j env _ _ (omega arith)
                (rows-Returns r j env (omega arith) x.2)
                (λ k s env'. condition-Returns l k env' (omega arith) x.1))))
          (λ rows. value-Returns _))
    rows-Returns (comparison op l r) i env h x =
        comparison_rows-Returns op _ _ _ _ (term-Returns l i env h x.0) (term-Returns r i env h x.1)
    rows-Returns (exists v c) i env h x =
        bind-Returns _ _ (binder-Returns v x.0)
          (λ n. bind-Returns _ _ (rows-Returns c i _ h x.1) (λ rows. value-Returns _))
    rows-Returns (tp v) i env h x = bind-Returns _ _ (slot-Returns v x) (λ n. value-Returns _)
    rows-Returns (call c) i env h x = absurd x
    rows-Returns (sigil_ref s n) i env h x = absurd x
    rows-Returns (refine c fs) i env h x = absurd x

    agg-Returns :
        (e : AggExpr) (i : ℕ) (env : Env)
        → i < trace_len t
        → IsAggregate e
        → Returns (eval_agg_expr t i env e)
    agg-Returns (sum v vs c) i env h x = bind-Returns _ _ (shed-Returns vs env x.1) (λ inner.
        bind-Returns _ _ (rows-Returns c i inner h x.2) (λ rows.
          bind-Returns _ _ (project_dedup-Returns rows vs x.1)
            (λ rel. bind-Returns _ _ (slot-Returns v x.0) (λ n. value-Returns _))))
    agg-Returns (count vs c) i env h x = bind-Returns _ _ (shed-Returns vs env x.0) (λ inner.
        bind-Returns _ _ (rows-Returns c i inner h x.1)
          (λ rows. bind-Returns _ _ (project_dedup-Returns rows vs x.0) (λ rel. value-Returns _)))
    agg-Returns (agg_call c) i env h x = absurd x

    term-Returns :
        (e : Term) (i : ℕ) (env : Env)
        → i < trace_len t
        → IsOperand e
        → Returns (resolve_term_at t i env e)
    term-Returns (agg e) i env h x =
        bind-Returns _ _ (agg-Returns e i env h x) (λ n. value-Returns _)
    term-Returns (arithmetic op l r) i env h x =
        resolve_arith-Returns op _ _ (term-Returns l i env h x.0) (term-Returns r i env h x.1)
    term-Returns e i env h x = resolve_term-Returns e env x

-- On an expanded condition, at a timepoint of the trace, `eval_condition` returns a Boolean and does
-- not panic.
pub eval_condition-Returns :
    (t : Trace) (c : Condition) (i : ℕ) (env : Env)
    → i < trace_len t
    → IsExpanded c
    → Returns (eval_condition t i env c)
eval_condition-Returns t c i env h x = condition-Returns t c i env h x

pub match_occurrences-Returns :
    (t : Trace) (c : Condition) (i : ℕ) (env : Env)
    → i < trace_len t
    → IsExpanded c
    → Returns (match_occurrences t i env c)
match_occurrences-Returns t c i env h x = rows-Returns t c i env h x
