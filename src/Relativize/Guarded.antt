-- ===== src/Relativize/Guarded.antt =====
-- The conditions that relativization guards without an encoding, and what injection keeps of them:
-- dogwood-language/src/event_schema/relativize.rs.
use dogwood.Prelude.{ℕ, ◌≡◌, refl, true, some, List, [], ◌∷◌, Str}
use dogwood.Prelude.Panics.{value}
use dogwood.Event.{EventData}
use dogwood.Ast.{
  Condition, and, or, formerly, previous, since, predicate, comparison, exists, tp, call, sigil_ref,
  refine, Predicate, pred, NamedArgs, no_args, arg, Term, agg, arithmetic, Terms, no_terms, item,
  AggExpr, sum, count, agg_call, append_args,
}
use dogwood.Rows.{Env}
use dogwood.Eval.Expanded.{IsPlain, ArePlain, ArgsPlain}
use dogwood.Eval.Names.{ArgIdentifiers, VarIdentifier}
use dogwood.Pins.{
  PinRoot, context, scope, Pin, DerivedEvent, get_event, pin_term, pin_args, inject_pins,
}
use dogwood.Pins.Expanded.{pin_term-IsPlain}
use dogwood.Relativize.{
  UniversalPin, mu_args, implies_mine, is_confined_negation, rewrite, rewrite_term, rewrite_terms,
}
use dogwood.Relativize.Foreign.{ConfinedOperand}

pin_term-VarIdentifier : (r : PinRoot) (path : List Str) → VarIdentifier (pin_term r path)
unfolding pin_term
pin_term-VarIdentifier context path = tt
pin_term-VarIdentifier scope path = tt

pub pin_args-ArgIdentifiers : (ps : List Pin) → ArgIdentifiers (pin_args ps)
unfolding pin_args
pin_args-ArgIdentifiers [] = tt
pin_args-ArgIdentifiers (p ∷ ps) =
    (pin_term-VarIdentifier p.root p.context_path, pin_args-ArgIdentifiers ps)

pub append_args-ArgIdentifiers :
    (a b : NamedArgs) → ArgIdentifiers a → ArgIdentifiers b → ArgIdentifiers (append_args a b)
unfolding append_args
append_args-ArgIdentifiers no_args b h k = k
append_args-ArgIdentifiers (arg n t a) b h k = (h.0, append_args-ArgIdentifiers a b h.1 k)

pub mu_args_plain : (us : List UniversalPin) → ArgsPlain (mu_args us) × ArgIdentifiers (mu_args us)
unfolding mu_args
mu_args_plain [] = (tt, tt)
mu_args_plain (u ∷ us) =
    let (a, b) = mu_args_plain us in
    ((pin_term-IsPlain u.root u.context_path, a), (pin_term-VarIdentifier u.root u.context_path, b))

-- No aggregate below the operand.
abbrev pub NoAggregate : Term → Type 0
NoAggregate (agg e) = ⊥
NoAggregate (arithmetic op l r) = NoAggregate l × NoAggregate r
NoAggregate _ = Unit

-- The conditions that relativization only guards: every predicate is of a declared kind, nothing reads
-- positions, each `since` has a negation of own events on its left, and an aggregate stands at the head of
-- its operand.
abbrev mutual
  pub IsGuarded : List DerivedEvent → Condition → Type 0
  IsGuarded schema (and l r) = IsGuarded schema l × IsGuarded schema r
  IsGuarded schema (or l r) = IsGuarded schema l × IsGuarded schema r
  IsGuarded schema (Condition.not c) = IsGuarded schema c
  IsGuarded schema (formerly w c) = IsGuarded schema c
  IsGuarded schema (previous w c) = ⊥
  IsGuarded schema (since l w r) =
      IsGuarded schema l × IsGuarded schema r × (is_confined_negation l ≡ true)
  IsGuarded schema (predicate p) = IsDeclared schema p
  IsGuarded schema (comparison op l r) = GuardedOperand schema l × GuardedOperand schema r
  IsGuarded schema (exists x c) = IsGuarded schema c
  IsGuarded schema (tp x) = ⊥
  IsGuarded schema (call c) = ⊥
  IsGuarded schema (sigil_ref s n) = ⊥
  IsGuarded schema (refine c fs) = ⊥

  pub IsDeclared : List DerivedEvent → Predicate → Type 0
  IsDeclared schema (pred namespace action kind args) =
      (e : DerivedEvent) × (get_event schema namespace action kind ≡ some e)

  pub GuardedOperand : List DerivedEvent → Term → Type 0
  GuardedOperand schema (agg e) = GuardedAgg schema e
  GuardedOperand schema (arithmetic op l r) = NoAggregate l × NoAggregate r
  GuardedOperand schema _ = Unit

  pub GuardedAgg : List DerivedEvent → AggExpr → Type 0
  GuardedAgg schema (sum x vs c) = IsGuarded schema c
  GuardedAgg schema (count vs c) = IsGuarded schema c
  GuardedAgg schema (agg_call c) = ⊥

pub NoAggregate-ConfinedOperand :
    (start : Env) (x : EventData) (t : Term) → NoAggregate t → ConfinedOperand start x t
NoAggregate-ConfinedOperand start x (agg e) h = absurd h
NoAggregate-ConfinedOperand start x (arithmetic op l r) h =
    (NoAggregate-ConfinedOperand start x l h.0, NoAggregate-ConfinedOperand start x r h.1)
NoAggregate-ConfinedOperand start x _ h = tt

inject-implies_mine :
    (schema : List DerivedEvent) (c : Condition)
    → implies_mine (inject_pins schema c) ≡ implies_mine c
unfolding implies_mine inject_pins
inject-implies_mine schema (and l r) =
    rw (inject-implies_mine schema l, inject-implies_mine schema r) refl
inject-implies_mine schema (or l r) =
    rw (inject-implies_mine schema l, inject-implies_mine schema r) refl
inject-implies_mine schema (exists x c) = inject-implies_mine schema c
inject-implies_mine schema _ = refl

pub inject-is_confined_negation :
    (schema : List DerivedEvent) (c : Condition)
    → is_confined_negation (inject_pins schema c) ≡ is_confined_negation c
unfolding inject_pins
inject-is_confined_negation schema (Condition.not c) = inject-implies_mine schema c
inject-is_confined_negation schema _ = refl

module _ (pins : List UniversalPin) (schema : List DerivedEvent) where
  mutual
    unfolding rewrite

    pub rewrite_term-plain :
        (t : Term) (n : ℕ) → IsPlain t → rewrite_term pins schema t n ≡ value (t, n)
    rewrite_term-plain (agg e) n h = absurd h
    rewrite_term-plain (Term.array ts) n h = rw (rewrite_terms-plain ts n h) refl
    rewrite_term-plain _ n h = refl

    rewrite_terms-plain :
        (ts : Terms) (n : ℕ) → ArePlain ts → rewrite_terms pins schema ts n ≡ value (ts, n)
    rewrite_terms-plain no_terms n h = refl
    rewrite_terms-plain (item t ts) n h =
        rw (rewrite_term-plain t n h.0, rewrite_terms-plain ts n h.1) refl
