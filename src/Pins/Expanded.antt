-- ===== src/Pins/Expanded.antt =====
-- `inject_pins` of dogwood-language/src/event_schema/pin.rs on expanded conditions.
use dogwood.Prelude.{List, [], ◌∷◌, Str}
use dogwood.Ast.{
  Condition, and, or, formerly, previous, since, predicate, comparison, exists, tp, call, sigil_ref,
  refine, Predicate, pred, NamedArgs, no_args, arg, Term, agg, AggExpr, sum, count, agg_call,
  append_args,
}
use dogwood.Eval.Expanded.{IsPlain, ArgsPlain, PredicatePlain, IsExpanded, IsOperand, IsAggregate}
use dogwood.Pins.{
  Pin, PinRoot, context, scope, DerivedEvent, pin_term, pin_args, inject_into_predicate,
  inject_pins, inject_into_operand, inject_into_agg,
}

pub pin_term-IsPlain : (root : PinRoot) (path : List Str) → IsPlain (pin_term root path)
unfolding pin_term
pin_term-IsPlain scope path = tt
pin_term-IsPlain context path = tt

pin_args-ArgsPlain : (ps : List Pin) → ArgsPlain (pin_args ps)
unfolding pin_args
pin_args-ArgsPlain [] = tt
pin_args-ArgsPlain (p ∷ ps) = (pin_term-IsPlain p.root p.context_path, pin_args-ArgsPlain ps)

append_args-ArgsPlain : (a b : NamedArgs) → ArgsPlain a → ArgsPlain b → ArgsPlain (append_args a b)
unfolding append_args
append_args-ArgsPlain no_args b h k = k
append_args-ArgsPlain (arg n t rest) b h k = (h.0, append_args-ArgsPlain rest b h.1 k)

module _ (schema : List DerivedEvent) where
  inject_into_predicate-PredicatePlain :
      (p : Predicate) → PredicatePlain p → PredicatePlain (inject_into_predicate schema p)
  unfolding inject_into_predicate
  inject_into_predicate-PredicatePlain (pred ns a k args) h =
      append_args-ArgsPlain args _ h (pin_args-ArgsPlain _)

  mutual
    unfolding inject_pins

    pub condition-IsExpanded : (c : Condition) → IsExpanded c → IsExpanded (inject_pins schema c)
    condition-IsExpanded (and l r) h = (condition-IsExpanded l h.0, condition-IsExpanded r h.1)
    condition-IsExpanded (or l r) h = (condition-IsExpanded l h.0, condition-IsExpanded r h.1)
    condition-IsExpanded (Condition.not c) h = condition-IsExpanded c h
    condition-IsExpanded (formerly w c) h = (h.0, condition-IsExpanded c h.1)
    condition-IsExpanded (previous w c) h = (h.0, condition-IsExpanded c h.1)
    condition-IsExpanded (since l w r) h =
        (h.0, condition-IsExpanded l h.1, condition-IsExpanded r h.2)
    condition-IsExpanded (predicate p) h = inject_into_predicate-PredicatePlain p h
    condition-IsExpanded (comparison op l r) h =
        (inject_into_operand-IsOperand l h.0, inject_into_operand-IsOperand r h.1)
    condition-IsExpanded (exists x c) h = (h.0, condition-IsExpanded c h.1)
    condition-IsExpanded (tp x) h = h
    condition-IsExpanded (call c) h = h
    condition-IsExpanded (sigil_ref s n) h = h
    condition-IsExpanded (refine c fs) h = absurd h

    inject_into_operand-IsOperand :
        (t : Term) → IsOperand t → IsOperand (inject_into_operand schema t)
    inject_into_operand-IsOperand (agg e) h = inject_into_agg-IsAggregate e h
    inject_into_operand-IsOperand _ h = h

    inject_into_agg-IsAggregate :
        (e : AggExpr) → IsAggregate e → IsAggregate (inject_into_agg schema e)
    inject_into_agg-IsAggregate (sum x vs c) h = (h.0, h.1, condition-IsExpanded c h.2)
    inject_into_agg-IsAggregate (count vs c) h = (h.0, condition-IsExpanded c h.1)
    inject_into_agg-IsAggregate (agg_call c) h = h

  -- Pin injection keeps an expanded condition expanded, the bodies of aggregates included.
  pub inject_pins-IsExpanded : (c : Condition) → IsExpanded c → IsExpanded (inject_pins schema c)
  inject_pins-IsExpanded c h = condition-IsExpanded c h
