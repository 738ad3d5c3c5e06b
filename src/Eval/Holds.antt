-- ===== src/Eval/Holds.antt =====
-- `eval_condition` of dogwood-language/src/interpreter/eval.rs and the formal semantics.
use dogwood.Prelude.{ℕ, ◌<◌, ◌≡◌, ◌↔◌, inl, inr, true, arith}
use dogwood.Prelude.Panics.{value}
use dogwood.Map
use dogwood.Event.{Trace, trace_len}
use dogwood.Ast.{
  concrete, within_param, within_interval, name, slot_param, slot_binder, slot_name, binder_name,
  Condition, and, or, formerly, previous, since, predicate, comparison, exists, tp, call, sigil_ref,
  refine,
}
use dogwood.Rows.{Env}
use dogwood.Resolve.{match_predicate}
use dogwood.Eval.{as_predicate, eval_condition, resolve_term_at, tp_holds}
use dogwood.Eval.Expanded.{IsExpanded}
use dogwood.Eval.Total.{condition-Returns}
use dogwood.Eval.Semantics.{Holds}
use dogwood.Eval.Decides.{
  or_else_iff, not_iff, is_some_iff, comparison_iff, tp_iff, value_iff, and_iff, formerly_iff,
  previous_iff, since_iff, exists_iff,
}

module _ (t : Trace) where
  -- The evaluator decides the formal semantics: on an expanded condition, at a timepoint of the trace,
  -- `eval_condition` returns true exactly when the condition holds.
  pub eval_condition-Holds :
      (c : Condition) (i : ℕ) (env : Env)
      → i < trace_len t
      → IsExpanded c
      → (eval_condition t i env c ≡ value true) ↔ Holds t i env c
  unfolding eval_condition within_interval slot_name binder_name
  eval_condition-Holds (and l r) i env h x =
      and_iff t i env (as_predicate l) _ _ _ _ (eval_condition-Holds l i env h x.0)
        (λ env'. eval_condition-Holds r i env' h x.1)
  eval_condition-Holds (or l r) i env h x =
      let il = eval_condition-Holds l i env h x.0 in
      let ir = eval_condition-Holds r i env h x.1 in
      let o = or_else_iff _ (eval_condition t i env r) (condition-Returns t l i env h x.0) in
      (
        λ e. elim (o.0 e) [ inl a ↦ inl (il.0 a) | inr b ↦ inr (ir.0 b) ],
        elim [ inl a ↦ o.1 (inl (il.1 a)) | inr b ↦ o.1 (inr (ir.1 b)) ],
      )
  eval_condition-Holds (Condition.not c) i env h x =
      let ih = eval_condition-Holds c i env h x in
      let n = not_iff _ (condition-Returns t c i env h x) in
      (λ e a. n.0 e (ih.1 a), λ a. n.1 (λ e. a (ih.0 e)))
  eval_condition-Holds (formerly (concrete w) c) i env h x =
      formerly_iff t i w _ (λ j. Holds t j env c) h
        (λ j p. condition-Returns t c j env (omega arith) x.1)
        (λ j p. eval_condition-Holds c j env (omega arith) x.1)
  eval_condition-Holds (formerly (within_param p) c) i env h x = absurd x.0
  eval_condition-Holds (previous (concrete w) c) i env h x =
      previous_iff t i w _ (λ j. Holds t j env c)
        (λ j p. eval_condition-Holds c j env (omega arith) x.1)
  eval_condition-Holds (previous (within_param p) c) i env h x = absurd x.0
  eval_condition-Holds (since l (concrete w) r) i env h x =
      since_iff t i w _ _ (λ k. Holds t k env l) (λ j. Holds t j env r) h
        (λ k p. condition-Returns t l k env (omega arith) x.1)
        (λ k p. condition-Returns t r k env (omega arith) x.2)
        (λ k p. eval_condition-Holds l k env (omega arith) x.1)
        (λ k p. eval_condition-Holds r k env (omega arith) x.2)
  eval_condition-Holds (since l (within_param p) r) i env h x = absurd x.0
  eval_condition-Holds (predicate p) i env h x = is_some_iff (match_predicate t i env p)
  eval_condition-Holds (comparison op l r) i env h x =
      comparison_iff op (resolve_term_at t i env l) (resolve_term_at t i env r)
  eval_condition-Holds (exists v c) i env h x = exists_iff t i env v.slot c x.0
  eval_condition-Holds (tp (name n)) i env h x =
      let a = value_iff (tp_holds i (Map.get env n)) in
      let b = tp_iff i (Map.get env n) in (λ e. b.0 (a.0 e), λ e. a.1 (b.1 e))
  eval_condition-Holds (tp (slot_param p)) i env h x = absurd x
  eval_condition-Holds (tp (slot_binder p)) i env h x = absurd x
  eval_condition-Holds (call c) i env h x = absurd x
  eval_condition-Holds (sigil_ref s n) i env h x = absurd x
  eval_condition-Holds (refine c fs) i env h x = absurd x
