-- ===== src/Check/Chains.antt =====
-- What the evaluation-order rule gives at every depth: `check_demands` of
-- dogwood-language/src/extension/temporal/check.rs against the rows of the relational mode.
use dogwood.Prelude.{
  ◌≡◌, ◌∙◌, refl, Bool, true, false, List, [], ◌∷◌, Str, str_eq, str_eq_iff, inl, inr,
  if◌then◌else◌, Bool-cases,
}
use dogwood.Prelude.Results.{Result, ok, err, ◌>>=◌, ◌>>◌, >>=-eq-ok}
use dogwood.Map
use dogwood.LeafMap.{StrSet}
use dogwood.Ast.{
  BinderSlot, name, slot_param, slot_binder, TypedBinder, Condition, and, or, formerly, previous,
  since, predicate, comparison, exists, tp, call, sigil_ref, refine, Term, agg, arithmetic, AggExpr,
  sum, count, agg_call,
}
use dogwood.Eval.Expanded.{IsExpanded, IsAggregate, IsOperand}
use dogwood.Check.{collect_range_restricted, remove_slot, remove_slots}
use dogwood.Check.Names.{contains-remove}
use dogwood.Check.Restricted.{collected}
use dogwood.Check.Safe.{body_has_sigil-expanded, first_ok, then_ok}
use dogwood.Check.Ordered.{Lists, any-flatten_and, check_conjunct_demands-Lists, walk-adds}
use dogwood.Check.Demands.{
  visit, visit_operand, visit_agg, check_conjunct_demands, check_chain_by, conjunct,
}
use dogwood.Check.Places.{
  BoundBefore, outside, outside_all, Covered, Ordered, Inside, OperandOrdered, AggOrdered,
}

checked_chain :
    (s : Bool) (m : Result StrSet)
    → s ≡ false
    → (if s then ok tt else (m >>= λ rho. ok tt)) ≡ ok (tt {0})
    → (rho : StrSet) × (m ≡ ok rho)
checked_chain true m e h = cc
checked_chain false (ok rho) e h = (rho, refl)
checked_chain false (err text) e h = cc

module _ (x : Str) where
  -- If the checker has the variable, a condition before binds it.
  abbrev Knows : StrSet → List Condition → Type 0
  Knows rho before = Lists rho x → BoundBefore x before

  outside-Knows :
      (s : BinderSlot) (rho : StrSet) (before : List Condition)
      → Knows rho before
      → Knows (remove_slot s rho) (outside x s before)
  outside-Knows (name n) rho before k h =
      let (apart, listed) = contains-remove rho n x h in
      elim (Bool-cases (str_eq n x)) [
        | inl e ↦ absurd (apart ((str_eq_iff n x).0 e))
        | inr e ↦ rw e (k listed)
      ]
  outside-Knows (slot_param p) rho before k h = k h
  outside-Knows (slot_binder b) rho before k h = k h

  outside_all-Knows :
      (vars : List TypedBinder) (rho : StrSet) (before : List Condition)
      → Knows rho before
      → Knows (remove_slots vars rho) (outside_all x vars before)
  unfolding remove_slots
  outside_all-Knows [] rho before k = k
  outside_all-Knows (v ∷ vars) rho before k =
      outside_all-Knows vars (remove_slot v.slot rho) (outside x v.slot before)
        (outside-Knows v.slot rho before k)

  -- What a condition restricts is known to be bound behind it.
  restricted-Knows :
      (c : Condition) (rho : StrSet) (before : List Condition)
      → Knows rho before
      → Knows (collect_range_restricted c rho) (c ∷ before)
  restricted-Knows c rho before k h = elim (collected x c rho h) [
    | inl old ↦ inr (k old)
    | inr new ↦ inl new
  ]

  walked-Knows :
      (c : Condition) (rho rho' : StrSet) (before : List Condition)
      → Knows rho before
      → (visit c).walk rho ≡ ok rho'
      → Knows rho' (c ∷ before)
  walked-Knows c rho rho' before k p h = elim (walk-adds c rho rho' x p h) [
    | inl old ↦ inr (k old)
    | inr new ↦ inl new
  ]

  chain_walked :
      (c : Condition) (rho : StrSet)
      → IsExpanded c
      → check_chain_by c (visit c) rho ≡ ok tt
      → (rho' : StrSet) × ((visit c).walk rho ≡ ok rho')
  chain_walked c rho e h =
      checked_chain _ ((visit c).walk rho) (any-flatten_and c ∙ body_has_sigil-expanded c e) h

  -- The two checks of a conjunct.
  conjunct_ok :
      (c : Condition) (nested : StrSet → Result (Unit {0})) (rho rho' : StrSet)
      → (conjunct c nested).walk rho ≡ ok rho'
      → (check_conjunct_demands c rho ≡ ok tt) × (nested rho ≡ ok tt)
  conjunct_ok c nested rho rho' h =
      let (u, p, q) = >>=-eq-ok (check_conjunct_demands c rho >> nested rho) _ h in
      (first_ok _ _ p, then_ok _ _ p)

  covered :
      (c : Condition) (rho : StrSet) (before : List Condition)
      → Knows rho before
      → check_conjunct_demands c rho ≡ ok tt
      → Covered x before c
  covered c rho before k p reads = k (check_conjunct_demands-Lists c rho x reads p)

  mutual
    unfolding visit

    walk-Ordered :
        (c : Condition) (rho rho' : StrSet) (before : List Condition)
        → IsExpanded c
        → Knows rho before
        → (visit c).walk rho ≡ ok rho'
        → Ordered x before c
    walk-Ordered (and l r) rho rho' before e k h =
        let (mid, p, q) = >>=-eq-ok ((visit l).walk rho) _ h in
        (
          walk-Ordered l rho mid before e.0 k p,
          walk-Ordered r mid rho' (l ∷ before) e.1 (walked-Knows l rho mid before k p) q,
        )
    walk-Ordered (or l r) rho rho' before e k h =
        let (p, q) = conjunct_ok (or l r) ((visit (or l r)).nested_chains) rho rho' h in
        let (a, u) = chain_walked l rho e.0 (first_ok _ _ q) in
        let (b, v) = chain_walked r rho e.1 (then_ok _ _ q) in
        (
          covered (or l r) rho before k p,
          (walk-Ordered l rho a before e.0 k u, walk-Ordered r rho b before e.1 k v),
        )
    walk-Ordered (Condition.not c) rho rho' before e k h =
        let (p, q) =
          conjunct_ok (Condition.not c) ((visit (Condition.not c)).nested_chains) rho rho' h in
        (covered (Condition.not c) rho before k p, nested-Inside c rho before e k q)
    walk-Ordered (formerly w c) rho rho' before e k h =
        let (p, q) = conjunct_ok (formerly w c) ((visit (formerly w c)).nested_chains) rho rho' h in
        let (a, u) = chain_walked c rho e.1 q in
        (covered (formerly w c) rho before k p, walk-Ordered c rho a before e.1 k u)
    walk-Ordered (previous w c) rho rho' before e k h =
        let (p, q) = conjunct_ok (previous w c) ((visit (previous w c)).nested_chains) rho rho' h in
        let (a, u) = chain_walked c rho e.1 q in
        (covered (previous w c) rho before k p, walk-Ordered c rho a before e.1 k u)
    walk-Ordered (since l w r) rho rho' before e k h =
        let (p, q) = conjunct_ok (since l w r) ((visit (since l w r)).nested_chains) rho rho' h in
        let (a, u) = chain_walked l (collect_range_restricted r rho) e.1 (first_ok _ _ q) in
        let (b, v) = chain_walked r rho e.2 (then_ok _ _ q) in
        (
          covered (since l w r) rho before k p,
          (
            walk-Ordered l _ a (r ∷ before) e.1 (restricted-Knows r rho before k) u,
            walk-Ordered r rho b before e.2 k v,
          ),
        )
    walk-Ordered (exists v c) rho rho' before e k h =
        let (p, q) = conjunct_ok (exists v c) ((visit (exists v c)).nested_chains) rho rho' h in
        let (a, u) = chain_walked c (remove_slot v.slot rho) e.1 q in
        (
          covered (exists v c) rho before k p,
          walk-Ordered c (remove_slot v.slot rho) a (outside x v.slot before) e.1
              (outside-Knows v.slot rho before k) u,
        )
    walk-Ordered (comparison op l r) rho rho' before e k h =
        let (p, q) =
          conjunct_ok (comparison op l r) ((visit (comparison op l r)).nested_chains) rho rho' h in
        (
          covered (comparison op l r) rho before k p,
          (
            operand-Ordered l rho before e.0 k (first_ok _ _ q),
            operand-Ordered r rho before e.1 k (then_ok _ _ q),
          ),
        )
    walk-Ordered (predicate p) rho rho' before e k h = tt
    walk-Ordered (tp s) rho rho' before e k h = tt
    walk-Ordered (call c) rho rho' before e k h = tt
    walk-Ordered (sigil_ref s n) rho rho' before e k h = tt
    walk-Ordered (refine base fields) rho rho' before e k h = tt

    nested-Inside :
        (c : Condition) (rho : StrSet) (before : List Condition)
        → IsExpanded c
        → Knows rho before
        → (visit c).nested_chains rho ≡ ok tt
        → Inside x before c
    nested-Inside (and l r) rho before e k h =
        let (end, walked) =
          checked_chain _ ((visit l).walk rho >>= (visit r).walk)
            (any-flatten_and (and l r) ∙ body_has_sigil-expanded (and l r) e) h in
        let (mid, p, q) = >>=-eq-ok ((visit l).walk rho) _ walked in
        (
          walk-Ordered l rho mid before e.0 k p,
          walk-Ordered r mid end (l ∷ before) e.1 (walked-Knows l rho mid before k p) q,
        )
    nested-Inside (or l r) rho before e k q =
        let (a, u) = chain_walked l rho e.0 (first_ok _ _ q) in
        let (b, v) = chain_walked r rho e.1 (then_ok _ _ q) in
        (walk-Ordered l rho a before e.0 k u, walk-Ordered r rho b before e.1 k v)
    nested-Inside (Condition.not c) rho before e k h = nested-Inside c rho before e k h
    nested-Inside (formerly w c) rho before e k q =
        let (a, u) = chain_walked c rho e.1 q in walk-Ordered c rho a before e.1 k u
    nested-Inside (previous w c) rho before e k q =
        let (a, u) = chain_walked c rho e.1 q in walk-Ordered c rho a before e.1 k u
    nested-Inside (since l w r) rho before e k q =
        let (a, u) = chain_walked l (collect_range_restricted r rho) e.1 (first_ok _ _ q) in
        let (b, v) = chain_walked r rho e.2 (then_ok _ _ q) in
        (
          walk-Ordered l _ a (r ∷ before) e.1 (restricted-Knows r rho before k) u,
          walk-Ordered r rho b before e.2 k v,
        )
    nested-Inside (exists v c) rho before e k q =
        let (a, u) = chain_walked c (remove_slot v.slot rho) e.1 q in
        walk-Ordered c (remove_slot v.slot rho) a (outside x v.slot before) e.1
          (outside-Knows v.slot rho before k) u
    nested-Inside (comparison op l r) rho before e k q = (
      operand-Ordered l rho before e.0 k (first_ok _ _ q),
      operand-Ordered r rho before e.1 k (then_ok _ _ q),
    )
    nested-Inside (predicate p) rho before e k h = tt
    nested-Inside (tp s) rho before e k h = tt
    nested-Inside (call c) rho before e k h = tt
    nested-Inside (sigil_ref s n) rho before e k h = tt
    nested-Inside (refine base fields) rho before e k h = tt

    operand-Ordered :
        (t : Term) (rho : StrSet) (before : List Condition)
        → IsOperand t
        → Knows rho before
        → visit_operand t rho ≡ ok tt
        → OperandOrdered x before t
    operand-Ordered (agg a) rho before e k h = aggregate-Ordered a rho before e k h
    operand-Ordered (arithmetic op l r) rho before e k h = (
      operand-Ordered l rho before e.0 k (first_ok _ _ h),
      operand-Ordered r rho before e.1 k (then_ok _ _ h),
    )
    operand-Ordered _ rho before e k h = tt

    aggregate-Ordered :
        (a : AggExpr) (rho : StrSet) (before : List Condition)
        → IsAggregate a
        → Knows rho before
        → visit_agg a rho ≡ ok tt
        → AggOrdered x before a
    aggregate-Ordered (sum s vars c) rho before e k h =
        let (a, u) = chain_walked c (remove_slots vars rho) e.2 h in
        walk-Ordered c _ a (outside_all x vars before) e.2 (outside_all-Knows vars rho before k) u
    aggregate-Ordered (count vars c) rho before e k h =
        let (a, u) = chain_walked c (remove_slots vars rho) e.1 h in
        walk-Ordered c _ a (outside_all x vars before) e.1 (outside_all-Knows vars rho before k) u
    aggregate-Ordered (agg_call c) rho before e k h = tt
