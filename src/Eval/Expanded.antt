-- ===== src/Eval/Expanded.antt =====
-- Conditions as macro expansion and validation leave them: no call, sigil, refinement or parameter,
-- and aggregates and arithmetic only as operands of comparisons.
use dogwood.Prelude.{List, [], ◌∷◌}
use dogwood.Ast.{
  WithinSpec, concrete, within_param, BinderSlot, name, slot_param, slot_binder, TypedBinder,
  Condition, and, or, formerly, previous, since, predicate, comparison, exists, tp, call, sigil_ref,
  refine, Predicate, pred, NamedArgs, no_args, arg, Term, agg, arithmetic, param_ref, binder_ref,
  Terms, no_terms, item, AggExpr, sum, count, agg_call,
}

abbrev pub IsConcrete : WithinSpec → Type 0
IsConcrete (concrete w) = Unit
IsConcrete (within_param p) = ⊥

abbrev pub IsNamed : BinderSlot → Type 0
IsNamed (name n) = Unit
IsNamed (slot_param p) = ⊥
IsNamed (slot_binder b) = ⊥

abbrev pub AreNamed : List TypedBinder → Type 0
AreNamed [] = Unit
AreNamed (v ∷ vs) = IsNamed v.slot × AreNamed vs

abbrev mutual
  pub IsPlain : Term → Type 0
  IsPlain (agg e) = ⊥
  IsPlain (arithmetic op l r) = ⊥
  IsPlain (param_ref p) = ⊥
  IsPlain (binder_ref b) = ⊥
  IsPlain (Term.array ts) = ArePlain ts
  IsPlain _ = Unit

  pub ArePlain : Terms → Type 0
  ArePlain no_terms = Unit
  ArePlain (item t ts) = IsPlain t × ArePlain ts

abbrev pub ArgsPlain : NamedArgs → Type 0
ArgsPlain no_args = Unit
ArgsPlain (arg n t rest) = IsPlain t × ArgsPlain rest

abbrev pub PredicatePlain : Predicate → Type 0
PredicatePlain (pred ns a k args) = ArgsPlain args

abbrev mutual
  pub IsExpanded : Condition → Type 0
  IsExpanded (and l r) = IsExpanded l × IsExpanded r
  IsExpanded (or l r) = IsExpanded l × IsExpanded r
  IsExpanded (Condition.not c) = IsExpanded c
  IsExpanded (formerly w c) = IsConcrete w × IsExpanded c
  IsExpanded (previous w c) = IsConcrete w × IsExpanded c
  IsExpanded (since l w r) = IsConcrete w × IsExpanded l × IsExpanded r
  IsExpanded (predicate p) = PredicatePlain p
  IsExpanded (comparison op l r) = IsOperand l × IsOperand r
  IsExpanded (exists x c) = IsNamed x.slot × IsExpanded c
  IsExpanded (tp x) = IsNamed x
  IsExpanded (call c) = ⊥
  IsExpanded (sigil_ref s n) = ⊥
  IsExpanded (refine c fs) = ⊥

  pub IsAggregate : AggExpr → Type 0
  IsAggregate (sum x vs c) = IsNamed x × AreNamed vs × IsExpanded c
  IsAggregate (count vs c) = AreNamed vs × IsExpanded c
  IsAggregate (agg_call c) = ⊥

  pub IsOperand : Term → Type 0
  IsOperand (agg e) = IsAggregate e
  IsOperand (arithmetic op l r) = IsOperand l × IsOperand r
  IsOperand t = IsPlain t
