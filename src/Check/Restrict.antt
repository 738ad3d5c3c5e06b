-- ===== src/Check/Restrict.antt =====
-- The variables that a condition range-restricts, dogwood-language/src/extension/temporal/check.rs:
-- `collect_range_restricted`, `eq_restricted_var`, `term_contains_wildcard`.
use dogwood.Prelude.{Bool, true, false, not, ◌||◌, Option, none, some, [], Str, if◌then◌else◌}
use dogwood.Map
use dogwood.LeafMap.{StrSet, set_insert}
use dogwood.Ast.{
  CmpOp, BinderSlot, name, Condition, and, formerly, previous, since, predicate, comparison, exists,
  tp, refine, pred, NamedArgs, no_args, arg, Term, var, wildcard, arithmetic, Terms, no_terms, item,
}

unfoldable mutual
  pub term_contains_wildcard : Term → Bool
  term_contains_wildcard wildcard = true
  term_contains_wildcard (arithmetic op l r) = term_contains_wildcard l || term_contains_wildcard r
  term_contains_wildcard (Term.array ts) = terms_contain_wildcard ts
  term_contains_wildcard _ = false

  pub terms_contain_wildcard : Terms → Bool
  terms_contain_wildcard no_terms = false
  terms_contain_wildcard (item t ts) = term_contains_wildcard t || terms_contain_wildcard ts

abbrev pub bare_var : Term → Option Str
bare_var (var n) = some n
bare_var _ = none

unfoldable pub is_restrictor : Term → Bool
is_restrictor (var n) = false
is_restrictor wildcard = false
is_restrictor (arithmetic op l r) = not (term_contains_wildcard (arithmetic op l r))
is_restrictor _ = true

abbrev pub one_var : Option Str → Option Str → Bool → Bool → Option Str
one_var (some n) none left_ok right_ok = if right_ok then some n else none
one_var none (some n) left_ok right_ok = if left_ok then some n else none
one_var _ _ left_ok right_ok = none

unfoldable pub eq_restricted_var : Term → Term → Option Str
eq_restricted_var l r = one_var (bare_var l) (bare_var r) (is_restrictor l) (is_restrictor r)

abbrev pub insert_option : Option Str → StrSet → StrSet
insert_option none out = out
insert_option (some n) out = set_insert out n

-- `P{ f: x }` restricts `x`.
unfoldable pub collect_arg_names : NamedArgs → StrSet → StrSet
collect_arg_names no_args out = out
collect_arg_names (arg n t rest) out = collect_arg_names rest (insert_option (bare_var t) out)

abbrev pub remove_slot : BinderSlot → StrSet → StrSet
remove_slot (name n) names = Map.remove names n
remove_slot _ names = names

abbrev pub eq_var_of : CmpOp → Term → Term → Option Str
eq_var_of CmpOp.eq l r = eq_restricted_var l r
eq_var_of op l r = none

unfoldable pub collect_range_restricted : Condition → StrSet → StrSet
collect_range_restricted (and l r) out = collect_range_restricted r (collect_range_restricted l out)
collect_range_restricted (Condition.not c) out = out
collect_range_restricted (predicate (pred ns a k args)) out = collect_arg_names args out
collect_range_restricted (tp (name n)) out = set_insert out n
collect_range_restricted (comparison op l r) out = insert_option (eq_var_of op l r) out
collect_range_restricted (formerly w c) out = collect_range_restricted c out
collect_range_restricted (previous w c) out = collect_range_restricted c out
collect_range_restricted (since l w r) out = collect_range_restricted r out
collect_range_restricted (exists x c) out =
    Map.extend out (remove_slot x.slot (collect_range_restricted c []))
collect_range_restricted (refine base fields) out =
    collect_arg_names fields (collect_range_restricted base out)
collect_range_restricted _ out = out
