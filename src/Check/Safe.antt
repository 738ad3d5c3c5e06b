-- ===== src/Check/Safe.antt =====
-- What the static rules on a condition give the evaluator: `check_condition`, `check_exists_safe`,
-- `check_aggregation` of dogwood-language/src/extension/temporal/check.rs.
use dogwood.Prelude.{
  ◌≡◌, refl, Bool, true, false, Option, none, some, List, [], ◌∷◌, Str, inl, inr, Bool-cases, any,
  if◌then◌else◌,
}
use dogwood.Prelude.Results.{Result, ok, err, ◌>>◌}
use dogwood.Ast.{
  BinderSlot, name, slot_param, slot_binder, TypedBinder, Condition, and, or, formerly, previous,
  since, predicate, comparison, exists, tp, call, sigil_ref, refine, pred, NamedArgs, no_args, arg,
  Term, agg, arithmetic, Terms, no_terms, item, AggExpr, sum, count, agg_call,
}
use dogwood.LeafMap.{StrSet, set_contains}
use dogwood.Eval.Expanded.{
  IsExpanded, IsNamed, AreNamed, IsOperand, IsAggregate, IsPlain, ArePlain, ArgsPlain,
}
use dogwood.Check.{
  check_condition, check_operand, check_agg_expr, check_aggregation, check_exists_safe,
  restricted_or, body_has_sigil, term_has_sigil, terms_have_sigil, args_have_sigil, agg_has_sigil,
  has_sigil_slots, is_sigil_slot, none_or, find_unmet, slot_text, collect_range_restricted,
  insert_slot, insert_slots,
}
use dogwood.Check.Restricted.{Restricts, collect_range_restricted-Binds}

-- Every row of the condition binds the binder, where the environment does not.
abbrev pub SlotRestricts : BinderSlot → Condition → Type 0
SlotRestricts (name n) c = Restricts n c
SlotRestricts _ c = ⊥

abbrev pub VarsRestrict : List TypedBinder → Condition → Type 0
VarsRestrict [] c = Unit
VarsRestrict (v ∷ vars) c = SlotRestricts v.slot c × VarsRestrict vars c

-- Every binder in the condition is bound by each row of its body.
abbrev mutual
  pub BindersBound : Condition → Type 0
  BindersBound (and l r) = BindersBound l × BindersBound r
  BindersBound (or l r) = BindersBound l × BindersBound r
  BindersBound (Condition.not c) = BindersBound c
  BindersBound (formerly w c) = BindersBound c
  BindersBound (previous w c) = BindersBound c
  BindersBound (since l w r) = BindersBound l × BindersBound r
  BindersBound (predicate p) = Unit
  BindersBound (comparison op l r) = OperandBound l × OperandBound r
  BindersBound (exists v c) = SlotRestricts v.slot c × BindersBound c
  BindersBound (tp x) = Unit
  BindersBound (call c) = Unit
  BindersBound (sigil_ref s n) = Unit
  BindersBound (refine c fs) = BindersBound c

  pub OperandBound : Term → Type 0
  OperandBound (agg e) = AggBound e
  OperandBound (arithmetic op l r) = OperandBound l × OperandBound r
  OperandBound _ = Unit

  pub AggBound : AggExpr → Type 0
  AggBound (sum x vars c) = VarsRestrict vars c × BindersBound c
  AggBound (count vars c) = VarsRestrict vars c × BindersBound c
  AggBound (agg_call c) = Unit

pub first_ok : (m n : Result (Unit {0})) → (m >> n) ≡ ok tt → m ≡ ok tt
first_ok (ok u) n h = refl
first_ok (err e) n h = cc

pub then_ok : (m n : Result (Unit {0})) → (m >> n) ≡ ok tt → n ≡ ok tt
then_ok (ok u) n h = h
then_ok (err e) n h = cc

mutual
  unfolding body_has_sigil

  pub body_has_sigil-expanded : (c : Condition) → IsExpanded c → body_has_sigil c ≡ false
  body_has_sigil-expanded (and l r) e =
      rw (body_has_sigil-expanded l e.0, body_has_sigil-expanded r e.1) refl
  body_has_sigil-expanded (or l r) e =
      rw (body_has_sigil-expanded l e.0, body_has_sigil-expanded r e.1) refl
  body_has_sigil-expanded (Condition.not c) e = body_has_sigil-expanded c e
  body_has_sigil-expanded (formerly w c) e = body_has_sigil-expanded c e.1
  body_has_sigil-expanded (previous w c) e = body_has_sigil-expanded c e.1
  body_has_sigil-expanded (since l w r) e =
      rw (body_has_sigil-expanded l e.1, body_has_sigil-expanded r e.2) refl
  body_has_sigil-expanded (predicate (pred ns a k args)) e = args_have_sigil-plain args e
  body_has_sigil-expanded (comparison op l r) e =
      rw (term_has_sigil-operand l e.0, term_has_sigil-operand r e.1) refl
  body_has_sigil-expanded (exists v c) e = body_has_sigil-expanded c e.1
  body_has_sigil-expanded (tp (name n)) e = refl
  body_has_sigil-expanded (tp (slot_param p)) e = absurd e
  body_has_sigil-expanded (tp (slot_binder b)) e = absurd e
  body_has_sigil-expanded (call c) e = absurd e
  body_has_sigil-expanded (sigil_ref s n) e = absurd e
  body_has_sigil-expanded (refine c fs) e = absurd e

  args_have_sigil-plain : (args : NamedArgs) → ArgsPlain args → args_have_sigil args ≡ false
  args_have_sigil-plain no_args e = refl
  args_have_sigil-plain (arg n t rest) e =
      rw (term_has_sigil-plain t e.0, args_have_sigil-plain rest e.1) refl

  term_has_sigil-plain : (t : Term) → IsPlain t → term_has_sigil t ≡ false
  term_has_sigil-plain (agg a) e = absurd e
  term_has_sigil-plain (arithmetic op l r) e = absurd e
  term_has_sigil-plain (Term.param_ref p) e = absurd e
  term_has_sigil-plain (Term.binder_ref b) e = absurd e
  term_has_sigil-plain (Term.array ts) e = terms_have_sigil-plain ts e
  term_has_sigil-plain _ e = refl

  terms_have_sigil-plain : (ts : Terms) → ArePlain ts → terms_have_sigil ts ≡ false
  terms_have_sigil-plain no_terms e = refl
  terms_have_sigil-plain (item t ts) e =
      rw (term_has_sigil-plain t e.0, terms_have_sigil-plain ts e.1) refl

  term_has_sigil-operand : (t : Term) → IsOperand t → term_has_sigil t ≡ false
  term_has_sigil-operand (agg a) e = agg_has_sigil-expanded a e
  term_has_sigil-operand (arithmetic op l r) e =
      rw (term_has_sigil-operand l e.0, term_has_sigil-operand r e.1) refl
  term_has_sigil-operand (Term.param_ref p) e = absurd e
  term_has_sigil-operand (Term.binder_ref b) e = absurd e
  term_has_sigil-operand (Term.array ts) e = terms_have_sigil-plain ts e
  term_has_sigil-operand _ e = refl

  agg_has_sigil-expanded : (a : AggExpr) → IsAggregate a → agg_has_sigil a ≡ false
  agg_has_sigil-expanded (sum x vs c) e = body_has_sigil-expanded c e.2
  agg_has_sigil-expanded (count vs c) e = body_has_sigil-expanded c e.1
  agg_has_sigil-expanded (agg_call c) e = absurd e

is_sigil_slot-named : (x : BinderSlot) → IsNamed x → is_sigil_slot x ≡ false
is_sigil_slot-named (name n) e = refl
is_sigil_slot-named (slot_param p) e = absurd e
is_sigil_slot-named (slot_binder b) e = absurd e

any_sigil-named :
    (vars : List TypedBinder)
    → AreNamed vars
    → any (λ (v : TypedBinder). is_sigil_slot v.slot) vars ≡ false
any_sigil-named [] e = refl
any_sigil-named (v ∷ vars) e = rw (is_sigil_slot-named v.slot e.0, any_sigil-named vars e.1) refl

exists_ok :
    (x : BinderSlot) (c : Condition)
    → IsNamed x
    → IsExpanded c
    → check_exists_safe x c ≡ ok tt
    → SlotRestricts x c
unfolding check_exists_safe
exists_ok (name n) c e k h =
    safe (body_has_sigil c) (set_contains (collect_range_restricted c []) n) refl
      (rw (body_has_sigil-expanded c k) at h)
  where
    safe :
        (s b : Bool)
        → set_contains (collect_range_restricted c []) n ≡ b
        → restricted_or b n ≡ ok tt
        → Restricts n c
    safe s true p q = collect_range_restricted-Binds n c p
    safe s false p q = cc
exists_ok (slot_param p) c e k h = absurd e
exists_ok (slot_binder b) c e k h = absurd e

pub none_or_ok : (o : Option Str) (text : Str → Str) → none_or o text ≡ ok tt → o ≡ none
none_or_ok none text h = refl
none_or_ok (some n) text h = cc

vars_restrict :
    (vars : List TypedBinder) (c : Condition)
    → AreNamed vars
    → find_unmet (set_contains (collect_range_restricted c [])) vars ≡ none
    → VarsRestrict vars c
unfolding find_unmet
vars_restrict [] c e h = tt
vars_restrict (v ∷ vars) c e h =
    elim (Bool-cases (set_contains (collect_range_restricted c []) (slot_text v.slot))) [
      | inl yes_in ↦ (slot v.slot e.0 yes_in, vars_restrict vars c e.1 (rw yes_in at h))
      | inr out ↦ let never = rw out at h in cc
    ]
  where
    slot :
        (x : BinderSlot)
        → IsNamed x
        → set_contains (collect_range_restricted c []) (slot_text x) ≡ true
        → SlotRestricts x c
    slot (name n) k p = collect_range_restricted-Binds n c p
    slot (slot_param q) k p = absurd k
    slot (slot_binder b) k p = absurd k

aggregation_ok :
    (x : Option BinderSlot) (vars : List TypedBinder) (c : Condition) (inner : StrSet)
    → AreNamed vars
    → check_aggregation x vars c inner ≡ ok tt
    → VarsRestrict vars c
unfolding check_aggregation
aggregation_ok x vars c inner e h = vars_restrict vars c e (none_or_ok _ _ (then_ok _ _ h))

branch_ok :
    (s : Bool) (m n : Result (Unit {0}))
    → s ≡ false
    → (if s then ok tt else (m >> n)) ≡ ok tt
    → (m ≡ ok tt) × (n ≡ ok tt)
branch_ok true m n e h = cc
branch_ok false m n e h = (first_ok m n h, then_ok m n h)

mutual
  unfolding check_condition

  condition-BindersBound :
      (c : Condition) (bound : StrSet)
      → IsExpanded c
      → check_condition c bound ≡ ok tt
      → BindersBound c
  condition-BindersBound (and l r) bound e h = (
    condition-BindersBound l bound e.0 (first_ok _ _ h),
    condition-BindersBound r bound e.1 (then_ok _ _ h),
  )
  condition-BindersBound (or l r) bound e h = (
    condition-BindersBound l bound e.0 (first_ok _ _ h),
    condition-BindersBound r bound e.1 (then_ok _ _ h),
  )
  condition-BindersBound (Condition.not c) bound e h = condition-BindersBound c bound e h
  condition-BindersBound (formerly w c) bound e h = condition-BindersBound c bound e.1 h
  condition-BindersBound (previous w c) bound e h = condition-BindersBound c bound e.1 h
  condition-BindersBound (since l w r) bound e h = (
    condition-BindersBound l bound e.1 (first_ok _ _ h),
    condition-BindersBound r bound e.2 (then_ok _ _ h),
  )
  condition-BindersBound (predicate p) bound e h = tt
  condition-BindersBound (comparison op l r) bound e h = (
    operand-OperandBound l bound e.0 (first_ok _ _ h),
    operand-OperandBound r bound e.1 (then_ok _ _ h),
  )
  condition-BindersBound (exists v c) bound e h = (
    exists_ok v.slot c e.0 e.1 (then_ok _ _ (first_ok _ _ h)),
    condition-BindersBound c (insert_slot v.slot bound) e.1 (then_ok _ _ h),
  )
  condition-BindersBound (tp x) bound e h = tt
  condition-BindersBound (call c) bound e h = absurd e
  condition-BindersBound (sigil_ref s n) bound e h = absurd e
  condition-BindersBound (refine c fs) bound e h = absurd e

  operand-OperandBound :
      (t : Term) (bound : StrSet) → IsOperand t → check_operand t bound ≡ ok tt → OperandBound t
  operand-OperandBound (agg a) bound e h = aggregate-AggBound a bound e h
  operand-OperandBound (arithmetic op l r) bound e h = (
    operand-OperandBound l bound e.0 (first_ok _ _ h),
    operand-OperandBound r bound e.1 (then_ok _ _ h),
  )
  operand-OperandBound _ bound e h = tt

  aggregate-AggBound :
      (a : AggExpr) (bound : StrSet) → IsAggregate a → check_agg_expr a bound ≡ ok tt → AggBound a
  aggregate-AggBound (sum x vars c) bound e h =
      let (p, q) =
        branch_ok (has_sigil_slots (some x) vars) _ _
          (rw (is_sigil_slot-named x e.0, any_sigil-named vars e.1) refl) h in
      (
        aggregation_ok (some x) vars c (insert_slots vars bound) e.1 p,
        condition-BindersBound c (insert_slots vars bound) e.2 q,
      )
  aggregate-AggBound (count vars c) bound e h =
      let (p, q) = branch_ok (has_sigil_slots none vars) _ _ (any_sigil-named vars e.0) h in
      (
        aggregation_ok none vars c (insert_slots vars bound) e.0 p,
        condition-BindersBound c (insert_slots vars bound) e.1 q,
      )
  aggregate-AggBound (agg_call c) bound e h = absurd e

-- Where the check of an expanded condition succeeds, every row of the body of an `exists` or of an
-- aggregate binds its variables, at any depth, wherever the environment does not.
pub check_condition-BindersBound :
    (c : Condition) (bound : StrSet)
    → IsExpanded c
    → check_condition c bound ≡ ok tt
    → BindersBound c
check_condition-BindersBound c bound e h = condition-BindersBound c bound e h
