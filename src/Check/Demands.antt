-- ===== src/Check/Demands.antt =====
-- Evaluation-order demands, dogwood-language/src/extension/temporal/check.rs: `check_demands`,
-- `check_chain`, `check_conjunct_demands`, `descend_nested_chains`.
use dogwood.Prelude.{
  Bool, true, false, ◌||◌, Option, none, some, List, [], ◌∷◌, ◌++◌, Str, str, str_eq, any,
  if◌then◌else◌,
}
use dogwood.Prelude.Results.{Result, ok, ◌>>=◌, ◌>>◌}
use dogwood.LeafMap.{StrSet, set_contains}
use dogwood.Ast.{
  Condition, and, or, formerly, previous, since, predicate, comparison, exists, tp, call, sigil_ref,
  refine, Term, agg, arithmetic, AggExpr, sum, count, agg_call,
}
use dogwood.Check.{
  body_has_sigil, bare_var, eq_var_of, collect_range_restricted, collect_free, collect_term_var,
  remove_slot, remove_slots, find_missing, none_or, quoted,
}

abbrev pub binding_text : Str → Str → Str
binding_text bound n =
    str "the equality binding "
    ++ (quoted bound
        ++ (str " reads "
            ++ (quoted n
                ++ (str " inside its aggregate operand ("
                    ++ (quoted n
                        ++ (str
                              " is used in the aggregation body but not bound by its `for` list), and "
                            ++ (quoted n
                                ++ (str
                                      " is not range-restricted by a preceding conjunct; place the conjunct that binds "
                                    ++ (quoted n
                                        ++ str
                                            " before the equality, widening the `exists` scope if needed")))))))))

abbrev pub filter_text : Str → Str
filter_text n =
    str "variable "
    ++ (quoted n
        ++ (str
              " is used in a filter (a comparison or negation) that is not range-restricted by a preceding conjunct; place a conjunct that binds "
            ++ (quoted n ++ str " (a predicate, `tp`, or a binding equality) before it")))

abbrev pub since_text : Str → Str
since_text n =
    str "variable "
    ++ (quoted n
        ++ (str
              " is used in the left operand of a `since` but is restricted neither by the `since` anchor (its right operand) nor by a preceding conjunct; the left of a `since` is a per-step condition and cannot bind "
            ++ (quoted n
                ++ str " — restrict it in the anchor or in a conjunct before the `since`")))

unfoldable pub reject_unmet_filter_var : StrSet → StrSet → Result (Unit {0})
reject_unmet_filter_var names rho = none_or (find_missing (set_contains rho) names) filter_text

abbrev pub is_and : Condition → Bool
is_and (and l r) = true
is_and _ = false

-- The side of a binding equality that does not stand for the bound variable.
abbrev pub value_side : Option Str → Str → Term → Term → Term
value_side none bound l r = l
value_side (some n) bound l r = if str_eq n bound then r else l

-- A comparison binds or filters.
abbrev pub comparison_demands : Option Str → Term → Term → StrSet → Result (Unit {0})
comparison_demands (some bound) l r rho =
    none_or
      (find_missing (set_contains rho) (collect_term_var (value_side (bare_var l) bound l r) []))
      (binding_text bound)
comparison_demands none l r rho =
    reject_unmet_filter_var (collect_term_var r (collect_term_var l [])) rho

unfoldable pub check_conjunct_demands : Condition → StrSet → Result (Unit {0})
check_conjunct_demands (comparison op l r) rho = comparison_demands (eq_var_of op l r) l r rho
check_conjunct_demands (Condition.not c) rho = reject_unmet_filter_var (collect_free c []) rho
check_conjunct_demands (since l w r) rho =
    none_or
      (find_missing (λ n. set_contains (collect_range_restricted r []) n || set_contains rho n)
        (collect_free l []))
      since_text
check_conjunct_demands (formerly w c) rho =
    let rest = check_conjunct_demands c rho in if is_and c then ok tt else rest
check_conjunct_demands (previous w c) rho =
    let rest = check_conjunct_demands c rho in if is_and c then ok tt else rest
check_conjunct_demands (exists x c) rho =
    let rest = check_conjunct_demands c (remove_slot x.slot rho) in if is_and c then ok tt else rest
check_conjunct_demands _ rho = ok tt

unfoldable pub flatten_and : Condition → List Condition
flatten_and (and l r) = flatten_and l ++ flatten_and r
flatten_and c = c ∷ []

-- What the two recursions on a condition do with the restricted variables so far: the descent into its
-- nested chains, and the walk along the chain that it is.
pub record Visit : Type 0 where
  pub nested_chains : StrSet → Result (Unit {0})
  pub walk : StrSet → Result StrSet

-- `check_chain`, over the walk along its conjuncts.
abbrev pub check_chain_by : Condition → Visit → StrSet → Result (Unit {0})
check_chain_by c v rho =
    if any body_has_sigil (flatten_and c) then ok tt else (v.walk rho >>= λ restricted. ok tt)

-- A conjunct: its demands, its nested chains, and what it restricts for the later ones.
abbrev pub conjunct : Condition → (StrSet → Result (Unit {0})) → Visit
conjunct c nested = record {
  nested_chains = nested;
  walk = λ rho. check_conjunct_demands c rho >> nested rho >> ok (collect_range_restricted c rho);
}

abbrev pub chain_walk : Visit → Visit → StrSet → Result StrSet
chain_walk l r rho = l.walk rho >>= r.walk

unfoldable mutual
  pub visit : Condition → Visit
  visit (and l r) = record {
    nested_chains = λ rho.
        if any body_has_sigil (flatten_and (and l r))
        then ok tt
        else (chain_walk (visit l) (visit r) rho >>= λ restricted. ok tt);
    walk = chain_walk (visit l) (visit r);
  }
  visit (or l r) =
      conjunct (or l r) (λ rho. check_chain_by l (visit l) rho >> check_chain_by r (visit r) rho)
  visit (Condition.not c) = conjunct (Condition.not c) ((visit c).nested_chains)
  visit (formerly w c) = conjunct (formerly w c) (check_chain_by c (visit c))
  visit (previous w c) = conjunct (previous w c) (check_chain_by c (visit c))
  visit (since l w r) = conjunct (since l w r) (λ rho.
      check_chain_by l (visit l) (collect_range_restricted r rho) >> check_chain_by r (visit r) rho)
  visit (exists x c) =
      conjunct (exists x c) (λ rho. check_chain_by c (visit c) (remove_slot x.slot rho))
  visit (comparison op l r) =
      conjunct (comparison op l r) (λ rho. visit_operand l rho >> visit_operand r rho)
  visit (refine base fields) = conjunct (refine base fields) ((visit base).nested_chains)
  visit (predicate p) = conjunct (predicate p) (λ rho. ok tt)
  visit (tp x) = conjunct (tp x) (λ rho. ok tt)
  visit (call c) = conjunct (call c) (λ rho. ok tt)
  visit (sigil_ref s n) = conjunct (sigil_ref s n) (λ rho. ok tt)

  -- The aggregates of an operand, the leaves of its arithmetic.
  pub visit_operand : Term → StrSet → Result (Unit {0})
  visit_operand (agg e) rho = visit_agg e rho
  visit_operand (arithmetic op l r) rho = visit_operand l rho >> visit_operand r rho
  visit_operand _ rho = ok tt

  pub visit_agg : AggExpr → StrSet → Result (Unit {0})
  visit_agg (sum x vars c) rho = check_chain_by c (visit c) (remove_slots vars rho)
  visit_agg (count vars c) rho = check_chain_by c (visit c) (remove_slots vars rho)
  visit_agg (agg_call c) rho = ok tt

unfoldable pub descend_nested_chains : Condition → StrSet → Result (Unit {0})
descend_nested_chains c rho = (visit c).nested_chains rho

unfoldable pub check_chain : Condition → StrSet → Result (Unit {0})
check_chain c rho = check_chain_by c (visit c) rho

unfoldable pub check_demands : Condition → Result (Unit {0})
check_demands c = check_chain c []
