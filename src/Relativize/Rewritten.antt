-- ===== src/Relativize/Rewritten.antt =====
-- The rewritten condition is confined: `rewrite` and `guard_mine` of
-- dogwood-language/src/event_schema/relativize.rs, on injected conditions without encodings.
use dogwood.Prelude.{
  ℕ, ◌≡◌, ◌∙◌, refl, true, false, ||_right, List, [], ◌∷◌, any, Bool-cases, inl, inr,
}
use dogwood.Prelude.Panics.{Exec, value}
use dogwood.Event.{EventData}
use dogwood.Ast.{
  Condition, and, or, formerly, previous, since, predicate, comparison, exists, tp, call, sigil_ref,
  refine, Predicate, pred, Term, agg, arithmetic, AggExpr, sum, count, agg_call,
}
use dogwood.Rows.{Env}
use dogwood.Eval.Expanded.{IsExpanded, IsOperand, IsAggregate}
use dogwood.Eval.Names.{HasIdentifiers, OperandIdentifiers, AggIdentifiers}
use dogwood.Pins.{
  DerivedEvent, inject_pins, inject_into_operand, inject_into_agg, inject_into_predicate,
}
use dogwood.Pins.Expanded.{condition-IsExpanded}
use dogwood.Relativize.{
  UniversalPin, mu, mu_from, mu_branch, implies_mine, guard_mine, is_confined_negation, rewrite,
  rewrite_term, rewrite_agg,
}
use dogwood.Relativize.Foreign.{Confined, ConfinedOperand, ConfinedAgg}
use dogwood.Eval.{as_predicate}
use dogwood.Relativize.Same.{
  Same, SameTerm, Same-trans, Same-refl, SameTerm-refl, Same-and, Same-or, Same-not, Same-exists,
  Same-formerly, Same-since, Same-comparison, Same-sum, Same-count,
}
use dogwood.Relativize.Guard.{mu_from-Same}
use dogwood.Relativize.Mine.{is_mine, has_identity, ArePinsOf, inject-Misses, mu_args-Misses}
use dogwood.Relativize.Guarded.{
  pin_args-ArgIdentifiers, append_args-ArgIdentifiers, mu_args_plain, NoAggregate-ConfinedOperand,
  inject-is_confined_negation, rewrite_term-plain, IsGuarded, IsDeclared, GuardedOperand,
  GuardedAgg,
}

module _ (start : Env) (schema : List DerivedEvent) (pins : List UniversalPin) where
  -- Confined for every foreign event, and fit for evaluation.
  abbrev pub Good : Condition → Type 0
  Good c =
      ((x : EventData) → is_mine start schema pins x ≡ false → Confined start x c)
      × HasIdentifiers c
      × IsExpanded c

  abbrev pub GoodTerm : Term → Type 0
  GoodTerm t =
      ((x : EventData) → is_mine start schema pins x ≡ false → ConfinedOperand start x t)
      × OperandIdentifiers t
      × IsOperand t

  abbrev pub GoodAgg : AggExpr → Type 0
  GoodAgg e =
      ((x : EventData) → is_mine start schema pins x ≡ false → ConfinedAgg start x e)
      × AggIdentifiers e
      × IsAggregate e

  -- What the rewritten condition has in common with the condition that was injected.
  abbrev Agree : Condition → Condition → Condition → Type 0
  Agree c' d c =
      (implies_mine c' ≡ implies_mine c)
      × (is_confined_negation c' ≡ is_confined_negation c)
      × Same start schema pins c' d
      × (as_predicate c' ≡ as_predicate d)
      × HasIdentifiers d

  abbrev Yields : Exec (Condition × ℕ) → Condition → Condition → Type 0
  Yields m d c = (c' : Condition) × (k : ℕ) × (m ≡ value (c', k)) × Good c' × Agree c' d c

  abbrev YieldsTerm : Exec (Term × ℕ) → Term → Type 0
  YieldsTerm m d =
      (t : Term) × (k : ℕ) × (m ≡ value (t, k))
      × GoodTerm t
      × SameTerm start schema pins t d
      × OperandIdentifiers d

  abbrev YieldsAgg : Exec (AggExpr × ℕ) → AggExpr → Type 0
  YieldsAgg m d =
      (e : AggExpr) × (k : ℕ) × (m ≡ value (e, k))
      × GoodAgg e
      × SameTerm start schema pins (agg e) (agg d)
      × AggIdentifiers d

  module _ (declared : ArePinsOf schema pins) where
    mu_branch-Good :
        (e : DerivedEvent)
        → ((x : EventData) → has_identity x e ≡ true → any (has_identity x) schema ≡ true)
        → Good (mu_branch pins e)
    unfolding mu_branch
    mu_branch-Good e member = (
      λ x foreign. mu_args-Misses start schema pins declared x foreign e (member x),
      (mu_args_plain pins).1,
      (mu_args_plain pins).0,
    )

    mu_from-Good :
        (acc : Condition) (events : List DerivedEvent)
        → Good acc
        → implies_mine acc ≡ true
        → ((x : EventData)
            → any (has_identity x) events ≡ true
            → any (has_identity x) schema ≡ true)
        → Good (mu_from pins acc events) × (implies_mine (mu_from pins acc events) ≡ true)
    unfolding mu_from implies_mine mu_branch
    mu_from-Good acc [] g m member = (g, m)
    mu_from-Good acc (e ∷ events) g m member =
        let b = mu_branch-Good e (λ x h. member x (rw h refl)) in
        mu_from-Good (or acc (mu_branch pins e)) events
          (λ x f. (g.0 x f, b.0 x f), (g.1, b.1), (g.2, b.2)) (rw m refl)
          (λ x h. member x (||_right _ _ h))

    -- The predicate of own events, which the guard adds.
    abbrev pub GoodMine : Type 0
    GoodMine =
        (m : Condition) × (mu pins schema ≡ value m)
        × Good m
        × (implies_mine m ≡ true)
        × ((c : Condition) → HasIdentifiers c → Same start schema pins (and m c) c)

    module _ (mine : GoodMine) where
      guard_mine-Good :
          (c : Condition)
          → Good c
          → (c' : Condition) × (guard_mine pins schema c ≡ value c')
            × Good c'
            × (implies_mine c' ≡ true)
            × Same start schema pins c' c
      unfolding guard_mine
      guard_mine-Good c g = elim (Bool-cases (implies_mine c)) [
        | inl already ↦ (c, rw already refl, g, already, Same-refl start schema pins c)
        | inr not_yet ↦
            let (m, e, gm, im, same) = mine in
            (
              and m c,
              rw (not_yet, e) refl,
              (λ x f. (gm.0 x f, g.0 x f), (gm.1, g.1), (gm.2, g.2)),
              unfold implies_mine in rw im refl,
              same c g.1,
            )
      ]

      predicate-Good :
          (p : Predicate)
          → IsDeclared schema p
          → HasIdentifiers (predicate p)
          → IsExpanded (predicate p)
          → Good (predicate (inject_into_predicate schema p))
      predicate-Good (pred namespace action kind args) d n e = (
        λ x foreign.
            inject-Misses start schema pins declared x foreign namespace action kind args d.0 d.1 e,
        unfold inject_into_predicate in
            append_args-ArgIdentifiers args _ n (pin_args-ArgIdentifiers _),
        unfold inject_pins in
            condition-IsExpanded schema (predicate (pred namespace action kind args)) e,
      )

      mutual
        unfolding rewrite inject_pins implies_mine

        condition-Yields :
            (c : Condition) (n : ℕ)
            → IsGuarded schema c
            → HasIdentifiers c
            → IsExpanded c
            → Yields (rewrite pins schema (inject_pins schema c) n) (inject_pins schema c) c
        condition-Yields (and l r) n k i e =
            let (l', a, p, g, (m, z, s, o, d)) = condition-Yields l n k.0 i.0 e.0 in
            let (r', b, q, h, (m', z', s', o', d')) = condition-Yields r a k.1 i.1 e.1 in
            (
              and l' r',
              b,
              rw (p, q) refl,
              (λ x f. (g.0 x f, h.0 x f), (g.1, h.1), (g.2, h.2)),
              (rw (m, m') refl, refl, Same-and start schema pins l' _ r' _ s s' d o, refl, (d, d')),
            )
        condition-Yields (or l r) n k i e =
            let (l', a, p, g, (m, z, s, o, d)) = condition-Yields l n k.0 i.0 e.0 in
            let (r', b, q, h, (m', z', s', o', d')) = condition-Yields r a k.1 i.1 e.1 in
            (
              or l' r',
              b,
              rw (p, q) refl,
              (λ x f. (g.0 x f, h.0 x f), (g.1, h.1), (g.2, h.2)),
              (rw (m, m') refl, refl, Same-or start schema pins l' _ r' _ s s', refl, (d, d')),
            )
        condition-Yields (Condition.not c) n k i e =
            let (c', a, p, g, (m, z, s, o, d)) = condition-Yields c n k i e in
            (
              Condition.not c',
              a,
              rw p refl,
              (g.0, g.1, g.2),
              (refl, m, Same-not start schema pins c' _ s, refl, d),
            )
        condition-Yields (exists x c) n k i e =
            let (c', a, p, g, (m, z, s, o, d)) = condition-Yields c n k i.1 e.1 in
            (
              exists x c',
              a,
              rw p refl,
              (g.0, (i.0, g.1), (e.0, g.2)),
              (m, refl, Same-exists start schema pins x c' _ i.0 s, refl, (i.0, d)),
            )
        condition-Yields (formerly w c) n k i e =
            let (c', a, p, g, (m, z, s, o, d)) = condition-Yields c n k i e.1 in
            let (c'', q, g', m', s') = guard_mine-Good c' g in
            (
              formerly w c'',
              a,
              rw (p, q) refl,
              (λ x f. (g'.0 x f, m'), g'.1, (e.0, g'.2)),
              (
                refl,
                refl,
                Same-formerly start schema pins w c'' _
                    (Same-trans start schema pins c'' c' _ s' s),
                refl,
                d,
              ),
            )
        condition-Yields (previous w c) n k i e = absurd k
        condition-Yields (since l w r) n k i e =
            let (r', a, p, g, (m, z, s, o, d)) = condition-Yields r n k.1 i.1 e.2 in
            let (r'', q, g', m', s') = guard_mine-Good r' g in
            let (l', b, p', h, (ml, zl, sl, ol, dl)) = condition-Yields l a k.0 i.0 e.1 in
            (
              since l' w r'',
              b,
              rw (p, q, p', inject-is_confined_negation schema l ∙ k.2) refl,
              (λ x f. (h.0 x f, g'.0 x f, zl ∙ k.2, m'), (h.1, g'.1), (e.0, h.2, g'.2)),
              (
                refl,
                refl,
                Same-since start schema pins l' _ r'' _ w sl
                    (Same-trans start schema pins r'' r' _ s' s) d,
                refl,
                (dl, d),
              ),
            )
        condition-Yields (predicate p) n k i e =
            let good = predicate-Good p k i e in
            (
              predicate (inject_into_predicate schema p),
              n,
              refl,
              good,
              (refl, refl, Same-refl start schema pins _, refl, good.1),
            )
        condition-Yields (comparison op l r) n k i e =
            let (l', a, p, g, s, d) = operand-Yields l n k.0 i.0 e.0 in
            let (r', b, q, h, s', d') = operand-Yields r a k.1 i.1 e.1 in
            (
              comparison op l' r',
              b,
              rw (p, q) refl,
              (λ x f. (g.0 x f, h.0 x f), (g.1, h.1), (g.2, h.2)),
              (refl, refl, Same-comparison start schema pins op l' _ r' _ s s', refl, (d, d')),
            )
        condition-Yields (tp x) n k i e = absurd k
        condition-Yields (call c) n k i e = absurd k
        condition-Yields (sigil_ref s x) n k i e = absurd k
        condition-Yields (refine c fs) n k i e = absurd k

        operand-Yields :
            (t : Term) (n : ℕ)
            → GuardedOperand schema t
            → OperandIdentifiers t
            → IsOperand t
            → YieldsTerm
                (rewrite_term pins schema (inject_into_operand schema t) n)
                (inject_into_operand schema t)
        operand-Yields (agg x) n k i e =
            let (x', a, p, g, s, d) = agg-Yields x n k i e in (agg x', a, rw p refl, g, s, d)
        operand-Yields (arithmetic op l r) n k i e = (
          arithmetic op l r,
          n,
          refl,
          (λ x f. NoAggregate-ConfinedOperand start x (arithmetic op l r) k, i, e),
          SameTerm-refl start schema pins _,
          i,
        )
        operand-Yields (Term.array ts) n k i e = (
          Term.array ts,
          n,
          rewrite_term-plain pins schema (Term.array ts) n e,
          (λ x f. tt, i, e),
          SameTerm-refl start schema pins _,
          i,
        )
        operand-Yields t n k i e =
            (t, n, refl, (λ x f. tt, i, e), SameTerm-refl start schema pins _, i)

        agg-Yields :
            (x : AggExpr) (n : ℕ)
            → GuardedAgg schema x
            → AggIdentifiers x
            → IsAggregate x
            → YieldsAgg
                (rewrite_agg pins schema (inject_into_agg schema x) n)
                (inject_into_agg schema x)
        agg-Yields (sum v vs c) n k i e =
            let (c', a, p, g, (m, z, s, o, d)) = condition-Yields c n k i.1 e.2 in
            (
              sum v vs c',
              a,
              rw p refl,
              (g.0, (i.0, g.1), (e.0, e.1, g.2)),
              Same-sum start schema pins v vs c' _ i.0 s,
              (i.0, d),
            )
        agg-Yields (count vs c) n k i e =
            let (c', a, p, g, (m, z, s, o, d)) = condition-Yields c n k i.1 e.1 in
            (
              count vs c',
              a,
              rw p refl,
              (g.0, (i.0, g.1), (e.0, g.2)),
              Same-count start schema pins vs c' _ i.0 s,
              (i.0, d),
            )
        agg-Yields (agg_call c) n k i e = absurd k

-- Over a schema with a kind, the rewrite returns a confined condition that agrees with the given one on
-- traces of own events.
pub rewrite-Good :
    (start : Env) (first : DerivedEvent) (others : List DerivedEvent) (pins : List UniversalPin)
    (c : Condition) (n : ℕ)
    → ArePinsOf (first ∷ others) pins
    → IsGuarded (first ∷ others) c
    → HasIdentifiers c
    → IsExpanded c
    → (c' : Condition) × (k : ℕ) × (rewrite pins (first ∷ others) (inject_pins (first ∷ others) c) n
        ≡ value (c', k))
      × Good start (first ∷ others) pins c'
      × Same start (first ∷ others) pins c' (inject_pins (first ∷ others) c)
unfolding mu
rewrite-Good start first others pins c n declared k i e =
    let branch = mu_branch-Good start (first ∷ others) pins declared first (λ x h. rw h refl) in
    let (good, mine) =
      mu_from-Good start (first ∷ others) pins declared (mu_branch pins first) others branch
        (unfold mu_branch implies_mine in refl) (λ x h. ||_right (has_identity x first) _ h) in
    let (c', a, p, g, (m, z, s, o, d)) =
      condition-Yields start (first ∷ others) pins declared
        (
          mu_from pins (mu_branch pins first) others,
          refl,
          good,
          mine,
          mu_from-Same start first others pins,
        )
        c n k i e in
    (c', a, p, g, s)
