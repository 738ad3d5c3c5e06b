-- ===== src/Check/Places.antt =====
-- What runs before a conjunct: the places of `check_demands` of dogwood-language/src/extension/temporal/check.rs,
-- with the conditions that the relational mode has gone through there.
use dogwood.Prelude.{List, [], ◌∷◌, Str, str_eq, ◌⊎◌, if◌then◌else◌}
use dogwood.Ast.{
  BinderSlot, name, slot_param, slot_binder, TypedBinder, Condition, and, or, formerly, previous,
  since, comparison, exists, Term, agg, arithmetic, AggExpr, sum, count, agg_call,
}
use dogwood.Check.Restricted.{Restricts}
use dogwood.Check.Ordered.{Consumes}

-- One of the conditions before binds the variable in every row.
abbrev pub BoundBefore : Str → List Condition → Type 0
BoundBefore x [] = ⊥
BoundBefore x (c ∷ before) = Restricts x c ⊎ BoundBefore x before

-- Behind a binder of the variable, nothing before it counts.
abbrev pub outside : Str → BinderSlot → List Condition → List Condition
outside x (name n) before = if str_eq n x then [] else before
outside x (slot_param p) before = before
outside x (slot_binder b) before = before

abbrev pub outside_all : Str → List TypedBinder → List Condition → List Condition
outside_all x [] before = before
outside_all x (v ∷ vars) before = outside_all x vars (outside x v.slot before)

abbrev pub Covered : Str → List Condition → Condition → Type 0
Covered x before c = Consumes c x → BoundBefore x before

-- Every conjunct of the condition, at any depth, reads the variable only if it is bound before. The list holds
-- the conditions that run before: the conjuncts to the left, and the anchor for the left side of a `since`.
abbrev mutual
  pub Ordered : Str → List Condition → Condition → Type 0
  Ordered x before (and l r) = Ordered x before l × Ordered x (l ∷ before) r
  Ordered x before (or l r) = Covered x before (or l r) × (Ordered x before l × Ordered x before r)
  Ordered x before (Condition.not c) = Covered x before (Condition.not c) × Inside x before c
  Ordered x before (formerly w c) = Covered x before (formerly w c) × Ordered x before c
  Ordered x before (previous w c) = Covered x before (previous w c) × Ordered x before c
  Ordered x before (since l w r) =
      Covered x before (since l w r) × (Ordered x (r ∷ before) l × Ordered x before r)
  Ordered x before (exists v c) =
      Covered x before (exists v c) × Ordered x (outside x v.slot before) c
  Ordered x before (comparison op l r) =
      Covered x before (comparison op l r) × (OperandOrdered x before l × OperandOrdered x before r)
  Ordered x before _ = Unit

  -- Of a negated condition, all but its own reading, which the negation has.
  pub Inside : Str → List Condition → Condition → Type 0
  Inside x before (and l r) = Ordered x before l × Ordered x (l ∷ before) r
  Inside x before (or l r) = Ordered x before l × Ordered x before r
  Inside x before (Condition.not c) = Inside x before c
  Inside x before (formerly w c) = Ordered x before c
  Inside x before (previous w c) = Ordered x before c
  Inside x before (since l w r) = Ordered x (r ∷ before) l × Ordered x before r
  Inside x before (exists v c) = Ordered x (outside x v.slot before) c
  Inside x before (comparison op l r) = OperandOrdered x before l × OperandOrdered x before r
  Inside x before _ = Unit

  pub OperandOrdered : Str → List Condition → Term → Type 0
  OperandOrdered x before (agg a) = AggOrdered x before a
  OperandOrdered x before (arithmetic op l r) =
      OperandOrdered x before l × OperandOrdered x before r
  OperandOrdered x before _ = Unit

  pub AggOrdered : Str → List Condition → AggExpr → Type 0
  AggOrdered x before (sum s vars c) = Ordered x (outside_all x vars before) c
  AggOrdered x before (count vars c) = Ordered x (outside_all x vars before) c
  AggOrdered x before (agg_call c) = Unit
