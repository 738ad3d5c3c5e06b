-- ===== src/Relativize/Local.antt =====
-- A relativized condition on the whole trace, and the condition as written on the trace of own events:
-- `relativize_condition` of dogwood-language/src/event_schema/relativize.rs.
use dogwood.Prelude.{
  ℕ, zero, suc, ◌≡◌, ◌∙◌, refl, sym, ap, ap₂, Bool, true, false, List, [], ◌∷◌, ◌++◌, arith, length,
  length-append, filter_by, Bool-cases, ◌⊎◌, inl, inr, get_elem?, All, All-append,
}
use mathlib.Core.List.{append_assoc}
use dogwood.Prelude.Panics.{Exec, value, map_exec, of_option}
use dogwood.Event.{Event, EventData, Trace, trace_event, trace_len, point}
use dogwood.Ast.{Condition}
use dogwood.Rows.{Env}
use dogwood.Loop.Skip.{skip_above}
use dogwood.Eval.{eval_condition}
use dogwood.Eval.Expanded.{IsExpanded}
use dogwood.Eval.Names.{HasIdentifiers}
use dogwood.Pins.{DerivedEvent, inject_pins}
use dogwood.Relativize.{UniversalPin, universal_pins, rewrite, relativize_condition}
use dogwood.Relativize.Confinement.{condition-place}
use dogwood.Relativize.Guarded.{IsGuarded}
use dogwood.Relativize.Mine.{is_mine}
use dogwood.Relativize.Rewritten.{Good, rewrite-Good}
use dogwood.Relativize.Same.{IsOwn}
use dogwood.Relativize.Shared.{universal_pins-ArePinsOf}

-- A trace that ends with the decision.
abbrev pub history : List Event → Event → Trace
history past event = record { points = past ++ event ∷ [] }

module _ (start : Env) (schema : List DerivedEvent) (pins : List UniversalPin) where
  -- The own events of the request.
  unfoldable pub own_events : List Event → List Event
  own_events = filter_by (λ (e : Event). is_mine start schema pins e.event)

  -- The truth value at the end of the trace.
  abbrev at_last : Condition → List Event → Event → Exec Bool
  at_last c past event = eval_condition (history past event) (length past) start c

  remove_one :
      (c : Condition) (event x : Event) (kept rest : List Event)
      → Good start schema pins c
      → is_mine start schema pins x.event ≡ false
      → at_last c (kept ++ x ∷ rest) event ≡ at_last c (kept ++ rest) event
  unfolding trace_len
  remove_one c event x kept rest g foreign =
      ap₂ (λ points i. eval_condition (record { points = points }) i start c)
        (append_assoc kept (x ∷ rest) (event ∷ []))
        (omega (
          arith,
          length-append kept (x ∷ rest),
          length-append kept rest,
          skip_above (length kept) (length (kept ++ rest)) (omega (arith, length-append kept rest)),
        ))
      ∙ condition-place kept (rest ++ event ∷ []) x start c (length (kept ++ rest)) start
          (omega (
            arith,
            length-append kept rest,
            length-append kept (rest ++ event ∷ []),
            length-append rest (event ∷ []),
          ))
          (λ k key. refl) (g.0 x.event foreign) g.1 g.2
      ∙ ap (λ points. eval_condition (record { points = points }) (length (kept ++ rest)) start c)
          (sym (append_assoc kept rest (event ∷ [])))

  without_foreign :
      (c : Condition) (event : Event) (rest kept : List Event)
      → Good start schema pins c
      → at_last c (kept ++ rest) event ≡ at_last c (kept ++ own_events rest) event
  unfolding own_events
  without_foreign c event [] kept g = refl
  without_foreign c event (x ∷ rest) kept g =
      elim (Bool-cases (is_mine start schema pins x.event)) [
        | inl mine ↦ rw mine (
            ap (λ events. at_last c events event) (sym (append_assoc kept (x ∷ []) rest))
            ∙ without_foreign c event rest (kept ++ x ∷ []) g
            ∙ ap (λ events. at_last c events event) (append_assoc kept (x ∷ []) (own_events rest)))
        | inr foreign ↦
            rw foreign
              (remove_one c event x kept rest g foreign ∙ without_foreign c event rest kept g)
      ]

  abbrev AllMine : List Event → Type 0
  AllMine events = All (λ (e : Event). is_mine start schema pins e.event ≡ true) events

  own_events-AllMine : (past : List Event) → AllMine (own_events past)
  unfolding own_events
  own_events-AllMine [] = tt
  own_events-AllMine (e ∷ past) =
      kept (Bool-cases (is_mine start schema pins e.event)) (own_events-AllMine past)
    where
      kept :
          (is_mine start schema pins e.event ≡ true) ⊎ (is_mine start schema pins e.event ≡ false)
          → AllMine (own_events past)
          → AllMine (own_events (e ∷ past))
      kept (inl mine) h = rw mine (mine, h)
      kept (inr other) h = rw other h

  read_mine :
      (events : List Event) (j : ℕ) (x : EventData)
      → AllMine events
      → map_exec (λ (e : Event). e.event) (of_option (get_elem? events j)) ≡ value x
      → is_mine start schema pins x ≡ true
  read_mine [] j x h at = cc
  read_mine (e ∷ events) zero x h at = let q : e.event ≡ x = cc at in rw (← q) (h.0)
  read_mine (e ∷ events) (suc j) x h at = read_mine events j x h.1 at

  own_events-IsOwn :
      (past : List Event) (event : Event)
      → is_mine start schema pins event.event ≡ true
      → IsOwn start schema pins (history (own_events past) event)
  unfolding trace_event point
  own_events-IsOwn past event mine j x at =
      read_mine (own_events past ++ event ∷ []) j x
        (All-append _ (own_events past) (event ∷ []) (own_events-AllMine past) (mine, tt)) at

rewritten :
    (c : Condition) (schema : List DerivedEvent) (pins : List UniversalPin) (p : UniversalPin)
    (ps : List UniversalPin)
    → pins ≡ p ∷ ps
    → relativize_condition c schema pins ≡ map_exec (λ r. r.0) (rewrite pins schema c 0)
unfolding relativize_condition
rewritten c schema [] p ps h = absurd (cc h)
rewritten c schema (q ∷ qs) p ps h = refl

pub relativize_condition-own_events :
    (start : Env) (schema : List DerivedEvent) (p : UniversalPin) (ps : List UniversalPin)
    (c : Condition) (past : List Event) (event : Event)
    → universal_pins schema ≡ p ∷ ps
    → IsGuarded schema c
    → HasIdentifiers c
    → IsExpanded c
    → is_mine start schema (universal_pins schema) event.event ≡ true
    → (c' : Condition) × (relativize_condition (inject_pins schema c) schema (universal_pins schema)
        ≡ value c')
      × (eval_condition (history past event) (length past) start c'
          ≡ eval_condition
              (history (own_events start schema (universal_pins schema) past) event)
              (length (own_events start schema (universal_pins schema) past))
              start
              (inject_pins schema c))
relativize_condition-own_events start [] p ps c past event u k n e mine =
    unfold universal_pins in cc
relativize_condition-own_events start (first ∷ others) p ps c past event u k n e mine =
    let schema : List DerivedEvent = first ∷ others in
    let pins = universal_pins schema in
    let (c', a, q, g, same) =
      rewrite-Good start first others pins c 0 (universal_pins-ArePinsOf schema) k n e in
    let own = own_events start schema pins past in
    (
      c',
      rewritten (inject_pins schema c) schema pins p ps u ∙ ap (map_exec (λ r. r.0)) q,
      without_foreign start schema pins c' event past [] g
          ∙ (same (history own event) (length own) start
              (own_events-IsOwn start schema pins past event mine)
              (unfold trace_len in omega (arith, length-append own (event ∷ [])))
              (λ key h. refl)).0,
    )
