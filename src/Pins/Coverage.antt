-- ===== src/Pins/Coverage.antt =====
-- Which predicates of a condition carry the pins of their kind after injection: `inject_pins`,
-- `inject_into_operand` of dogwood-language/src/event_schema/pin.rs.
use dogwood.Prelude.{◌≡◌, ◌↔◌, refl, List}
use dogwood.Ast.{
  Condition, and, or, formerly, previous, since, predicate, comparison, exists, tp, call, sigil_ref,
  refine, Predicate, pred, NamedArgs, Term, agg, arithmetic, Terms, no_terms, item, AggExpr, sum,
  count, agg_call, append_args,
}
use dogwood.Pins.{
  DerivedEvent, pins_of, pin_args, get_event, inject_into_predicate, inject_pins,
  inject_into_operand, inject_into_agg,
}

module _ (schema : List DerivedEvent) where
  -- The pins of the kind stand behind the arguments.
  abbrev pub HasPins : Predicate → Type 0
  HasPins (pred namespace action kind args) =
      (written : NamedArgs) × (args
        ≡ append_args written (pin_args (pins_of (get_event schema namespace action kind))))

  -- Every predicate of the condition has the pins of its kind, in aggregates too.
  abbrev mutual
    pub AllPinned : Condition → Type 0
    AllPinned (and l r) = AllPinned l × AllPinned r
    AllPinned (or l r) = AllPinned l × AllPinned r
    AllPinned (Condition.not c) = AllPinned c
    AllPinned (formerly w c) = AllPinned c
    AllPinned (previous w c) = AllPinned c
    AllPinned (since l w r) = AllPinned l × AllPinned r
    AllPinned (predicate p) = HasPins p
    AllPinned (comparison op l r) = TermPinned l × TermPinned r
    AllPinned (exists x c) = AllPinned c
    AllPinned (tp x) = Unit
    AllPinned (call c) = Unit
    AllPinned (sigil_ref s n) = Unit
    AllPinned (refine c fs) = AllPinned c

    pub TermPinned : Term → Type 0
    TermPinned (agg e) = AggPinned e
    TermPinned (arithmetic op l r) = TermPinned l × TermPinned r
    TermPinned (Term.array ts) = TermsPinned ts
    TermPinned _ = Unit

    pub TermsPinned : Terms → Type 0
    TermsPinned no_terms = Unit
    TermsPinned (item t ts) = TermPinned t × TermsPinned ts

    pub AggPinned : AggExpr → Type 0
    AggPinned (sum x vs c) = AllPinned c
    AggPinned (count vs c) = AllPinned c
    AggPinned (agg_call c) = Unit

  -- The predicates that injection does not reach, those of aggregates below the head of an operand, have
  -- their pins as written.
  abbrev mutual
    pub UnreachedPinned : Condition → Type 0
    UnreachedPinned (and l r) = UnreachedPinned l × UnreachedPinned r
    UnreachedPinned (or l r) = UnreachedPinned l × UnreachedPinned r
    UnreachedPinned (Condition.not c) = UnreachedPinned c
    UnreachedPinned (formerly w c) = UnreachedPinned c
    UnreachedPinned (previous w c) = UnreachedPinned c
    UnreachedPinned (since l w r) = UnreachedPinned l × UnreachedPinned r
    UnreachedPinned (predicate p) = Unit
    UnreachedPinned (comparison op l r) = OperandUnreached l × OperandUnreached r
    UnreachedPinned (exists x c) = UnreachedPinned c
    UnreachedPinned (tp x) = Unit
    UnreachedPinned (call c) = Unit
    UnreachedPinned (sigil_ref s n) = Unit
    UnreachedPinned (refine c fs) = UnreachedPinned c

    pub OperandUnreached : Term → Type 0
    OperandUnreached (agg e) = AggUnreached e
    OperandUnreached (arithmetic op l r) = TermPinned l × TermPinned r
    OperandUnreached (Term.array ts) = TermsPinned ts
    OperandUnreached _ = Unit

    pub AggUnreached : AggExpr → Type 0
    AggUnreached (sum x vs c) = UnreachedPinned c
    AggUnreached (count vs c) = UnreachedPinned c
    AggUnreached (agg_call c) = Unit

  both : {A B C D : Type 0} → A ↔ C → B ↔ D → (A × B) ↔ (C × D)
  both p q = (λ h. (p.0 h.0, q.0 h.1), λ h. (p.1 h.0, q.1 h.1))

  same : {A : Type 0} → A ↔ A
  same = (λ h. h, λ h. h)

  predicate_pinned : (p : Predicate) → HasPins (inject_into_predicate schema p)
  unfolding inject_into_predicate
  predicate_pinned (pred namespace action kind args) = (args, refl)

  mutual
    unfolding inject_pins

    condition_iff : (c : Condition) → AllPinned (inject_pins schema c) ↔ UnreachedPinned c
    condition_iff (and l r) = both (condition_iff l) (condition_iff r)
    condition_iff (or l r) = both (condition_iff l) (condition_iff r)
    condition_iff (Condition.not c) = condition_iff c
    condition_iff (formerly w c) = condition_iff c
    condition_iff (previous w c) = condition_iff c
    condition_iff (since l w r) = both (condition_iff l) (condition_iff r)
    condition_iff (predicate p) = (λ h. tt, λ h. predicate_pinned p)
    condition_iff (comparison op l r) = both (operand_iff l) (operand_iff r)
    condition_iff (exists x c) = condition_iff c
    condition_iff (tp x) = same
    condition_iff (call c) = same
    condition_iff (sigil_ref s n) = same
    condition_iff (refine c fs) = condition_iff c

    operand_iff : (t : Term) → TermPinned (inject_into_operand schema t) ↔ OperandUnreached t
    operand_iff (agg e) = agg_iff e
    operand_iff (arithmetic op l r) = same
    operand_iff _ = same

    agg_iff : (e : AggExpr) → AggPinned (inject_into_agg schema e) ↔ AggUnreached e
    agg_iff (sum x vs c) = condition_iff c
    agg_iff (count vs c) = condition_iff c
    agg_iff (agg_call c) = same

  -- After injection every predicate of the condition has the pins of its kind exactly if the predicates
  -- in aggregates below the head of an operand, as under arithmetic, have theirs as written.
  pub inject_pins-AllPinned : (c : Condition) → AllPinned (inject_pins schema c) ↔ UnreachedPinned c
  inject_pins-AllPinned c = condition_iff c
