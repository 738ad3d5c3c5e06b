-- ===== src/Check/Free.antt =====
-- The free variables of a condition, dogwood-language/src/extension/temporal/check.rs: `collect_free`,
-- `collect_term_var`.
use dogwood.Prelude.{List, [], ◌∷◌}
use dogwood.Map
use dogwood.LeafMap.{StrSet, set_insert}
use dogwood.Ast.{
  BinderSlot, name, TypedBinder, Condition, and, or, formerly, previous, since, predicate,
  comparison, exists, tp, call, sigil_ref, refine, Predicate, pred, NamedArgs, no_args, arg, Term,
  var, agg, arithmetic, Terms, no_terms, item, AggExpr, sum, count, agg_call,
}
use dogwood.Check.Restrict.{remove_slot}

abbrev pub slot_var : BinderSlot → StrSet → StrSet
slot_var (name n) out = set_insert out n
slot_var _ out = out

unfoldable pub remove_slots : List TypedBinder → StrSet → StrSet
remove_slots [] names = names
remove_slots (v ∷ vars) names = remove_slots vars (remove_slot v.slot names)

unfoldable mutual
  pub collect_free : Condition → StrSet → StrSet
  collect_free (and l r) out = collect_free r (collect_free l out)
  collect_free (or l r) out = collect_free r (collect_free l out)
  collect_free (Condition.not c) out = collect_free c out
  collect_free (formerly w c) out = collect_free c out
  collect_free (previous w c) out = collect_free c out
  collect_free (since l w r) out = collect_free r (collect_free l out)
  collect_free (predicate p) out = collect_pred_vars p out
  collect_free (refine base fields) out = collect_arg_vars fields (collect_free base out)
  collect_free (comparison op l r) out = collect_term_var r (collect_term_var l out)
  collect_free (tp x) out = slot_var x out
  collect_free (exists x c) out = Map.extend out (remove_slot x.slot (collect_free c []))
  collect_free (call c) out = out
  collect_free (sigil_ref s n) out = out

  pub collect_pred_vars : Predicate → StrSet → StrSet
  collect_pred_vars (pred ns a k args) out = collect_arg_vars args out

  pub collect_arg_vars : NamedArgs → StrSet → StrSet
  collect_arg_vars no_args out = out
  collect_arg_vars (arg n t rest) out = collect_arg_vars rest (collect_term_var t out)

  pub collect_term_var : Term → StrSet → StrSet
  collect_term_var (var n) out = set_insert out n
  collect_term_var (Term.array ts) out = collect_terms_var ts out
  collect_term_var (arithmetic op l r) out = collect_term_var r (collect_term_var l out)
  collect_term_var (agg e) out = collect_agg_var e out
  collect_term_var _ out = out

  pub collect_terms_var : Terms → StrSet → StrSet
  collect_terms_var no_terms out = out
  collect_terms_var (item t ts) out = collect_terms_var ts (collect_term_var t out)

  pub collect_agg_var : AggExpr → StrSet → StrSet
  collect_agg_var (sum x vars c) out = Map.extend out (remove_slots vars (collect_free c []))
  collect_agg_var (count vars c) out = Map.extend out (remove_slots vars (collect_free c []))
  collect_agg_var (agg_call c) out = out
