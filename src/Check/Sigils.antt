-- ===== src/Check/Sigils.antt =====
-- Macro sigils left in a condition, dogwood-language/src/extension/temporal/check.rs: `body_has_sigil`.
use dogwood.Prelude.{Bool, true, false, ◌||◌}
use dogwood.Ast.{
  BinderSlot, name, Condition, and, or, formerly, previous, since, predicate, comparison, exists,
  tp, call, sigil_ref, refine, Predicate, pred, NamedArgs, no_args, arg, Term, agg, arithmetic,
  param_ref, binder_ref, Terms, no_terms, item, AggExpr, sum, count, agg_call,
}

abbrev pub slot_has_sigil : BinderSlot → Bool
slot_has_sigil (name n) = false
slot_has_sigil _ = true

unfoldable mutual
  pub body_has_sigil : Condition → Bool
  body_has_sigil (call c) = true
  body_has_sigil (sigil_ref s n) = true
  body_has_sigil (and l r) = body_has_sigil l || body_has_sigil r
  body_has_sigil (or l r) = body_has_sigil l || body_has_sigil r
  body_has_sigil (since l w r) = body_has_sigil l || body_has_sigil r
  body_has_sigil (Condition.not c) = body_has_sigil c
  body_has_sigil (formerly w c) = body_has_sigil c
  body_has_sigil (previous w c) = body_has_sigil c
  body_has_sigil (exists x c) = body_has_sigil c
  body_has_sigil (refine base fields) = body_has_sigil base || args_have_sigil fields
  body_has_sigil (comparison op l r) = term_has_sigil l || term_has_sigil r
  body_has_sigil (predicate p) = predicate_has_sigil p
  body_has_sigil (tp x) = slot_has_sigil x

  pub predicate_has_sigil : Predicate → Bool
  predicate_has_sigil (pred ns a k args) = args_have_sigil args

  pub args_have_sigil : NamedArgs → Bool
  args_have_sigil no_args = false
  args_have_sigil (arg n t rest) = term_has_sigil t || args_have_sigil rest

  pub term_has_sigil : Term → Bool
  term_has_sigil (param_ref p) = true
  term_has_sigil (binder_ref b) = true
  term_has_sigil (Term.array ts) = terms_have_sigil ts
  term_has_sigil (arithmetic op l r) = term_has_sigil l || term_has_sigil r
  term_has_sigil (agg e) = agg_has_sigil e
  term_has_sigil _ = false

  pub terms_have_sigil : Terms → Bool
  terms_have_sigil no_terms = false
  terms_have_sigil (item t ts) = term_has_sigil t || terms_have_sigil ts

  pub agg_has_sigil : AggExpr → Bool
  agg_has_sigil (agg_call c) = true
  agg_has_sigil (sum x vars c) = body_has_sigil c
  agg_has_sigil (count vars c) = body_has_sigil c
