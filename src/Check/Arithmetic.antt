-- ===== src/Check/Arithmetic.antt =====
-- Arithmetic in comparison operands, dogwood-language/src/extension/temporal/check.rs:
-- `condition_has_arith`.
use dogwood.Prelude.{Bool, true, false, ◌||◌}
use dogwood.Ast.{
  Condition, and, or, formerly, previous, since, comparison, exists, refine, Term, agg, arithmetic,
  AggExpr, sum, count, agg_call,
}

unfoldable mutual
  pub condition_has_arith : Condition → Bool
  condition_has_arith (and l r) = condition_has_arith l || condition_has_arith r
  condition_has_arith (or l r) = condition_has_arith l || condition_has_arith r
  condition_has_arith (since l w r) = condition_has_arith l || condition_has_arith r
  condition_has_arith (Condition.not c) = condition_has_arith c
  condition_has_arith (formerly w c) = condition_has_arith c
  condition_has_arith (previous w c) = condition_has_arith c
  condition_has_arith (exists x c) = condition_has_arith c
  condition_has_arith (refine c fields) = condition_has_arith c
  condition_has_arith (comparison op l r) = term_has_arith l || term_has_arith r
  condition_has_arith _ = false

  pub term_has_arith : Term → Bool
  term_has_arith (arithmetic op l r) = true
  term_has_arith (agg e) = agg_has_arith e
  term_has_arith _ = false

  pub agg_has_arith : AggExpr → Bool
  agg_has_arith (sum x vars c) = condition_has_arith c
  agg_has_arith (count vars c) = condition_has_arith c
  agg_has_arith (agg_call c) = false
