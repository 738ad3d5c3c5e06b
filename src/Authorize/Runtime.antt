-- ===== src/Authorize/Runtime.antt =====
-- The runtime over the in-memory engine: `Authorizer::is_authorized` with its built-in temporal engine.
use dogwood.Prelude.{
  ℕ, suc, ◌≡◌, ◌↔◌, refl, ap, Bool, true, false, Option, none, some, List, [], ◌∷◌, ◌++◌, Str,
  str_eq, any, length, length-append, zero, get_elem?, arith, if◌then◌else◌, All,
}
use dogwood.Prelude.Panics.{Exec, value, panic, map_exec, of_option, >>=-eq-value}
use dogwood.Prelude.Results.{Result, ok}
use dogwood.Map
use dogwood.Unicode.{Unicode}
use dogwood.Event.{Event, Trace, trace_len, point}
use dogwood.Rows.{Env}
use dogwood.RequestEnv.{request_env}
use dogwood.Eval.Semantics.{Holds}
use dogwood.LeafMap.{TemporalField}
use dogwood.Provider.{Scripts, Resolver}
use dogwood.Cedar.{Cedar, allow}
use dogwood.Engine.{
  Engine, global, Bindings, observe, observe_mode, evaluate, evaluate_trace, evaluate_last,
  evaluate_at, bind_leaves, current_trace, push, includes, plan_of, needed_by,
}
use dogwood.Engine.History.{AreDistinct}
use dogwood.Engine.Answers.{AreExpanded, evaluate-Holds}
use dogwood.Authorize.{
  Response, AuthorizationDecision, TemporalEngine, Lowered, decide_at, decide_from, ingest,
  some_response,
}
use dogwood.Authorize.FailClosed.{Allowed, decide_from-allow}

abbrev pub in_memory : (Str → Option Str) → Unicode → TemporalEngine Engine
in_memory parse_uid u = record { observe = observe; evaluate = evaluate parse_uid u }

module _ (c : Cedar) (s : Scripts) (u : Unicode) (parse_uid : Str → Option Str) where
  module _ (policy : c.Request → c.Entities → AuthorizationDecision) (lowered : Lowered c s u) where
    -- The event is of a decision kind.
    abbrev pub decides : Event → Bool
    decides event = any (λ k. str_eq k event.event.kind) lowered.decision_kinds

    ingest_branch :
        (b : Bool) (m : Exec (Response × Engine)) (o : Engine) {r : Response} {e' : Engine}
        → (if b
            then map_exec (some_response c s u policy lowered (in_memory parse_uid u)) m
            else value (none, o))
          ≡ value (some r, e')
        → (b ≡ true) × (m ≡ value (r, e'))
    ingest_branch true (value (r, e)) o h = (refl, cc)
    ingest_branch true panic o h = cc
    ingest_branch false m o h = cc

    decided :
        (resolver : Option Resolver) (event : Event) (m : Exec (Result Bindings × Engine))
        (bs : Bindings) (e1 : Engine) {r : Response} {e' : Engine}
        → m ≡ value (ok bs, e1)
        → map_exec {B = Response × Engine}
            (λ (x : Result Bindings × Engine).
              (decide_from c s u policy lowered resolver event x.0, x.1))
            m
          ≡ value (r, e')
        → r ≡ decide_from c s u policy lowered resolver event (ok bs)
    decided resolver event m bs e1 p h = cc

    last_point : (t : Trace) (event : Event) → point (push t event) (trace_len t) ≡ value event
    unfolding point trace_len
    last_point t event = ap of_option (last_elem t.points)
      where
        last_elem : (es : List Event) → get_elem? (es ++ event ∷ []) (length es) ≡ some event
        last_elem [] = refl
        last_elem (x ∷ es) = last_elem es

    same_event : {a b : Event} {m : Exec Event} → m ≡ value a → m ≡ value b → b ≡ a
    same_event p q = cc

    bindings_same : (a b : Bindings) → ok a ≡ ok b → a ≡ b
    bindings_same a b h = cc

    -- Where the leaves are expanded and have distinct ids, and the runtime allows an event after the
    -- history of a global engine, the event is of a decision kind; every leaf was bound, to true
    -- exactly if the plan includes it and its condition holds at the timepoint of the event; and the
    -- policy engine allowed the request that was built from those bindings.
    pub ingest-allow :
        (e : Engine) (t : Trace) (resolver : Option Resolver) (event : Event) (r : Response)
        (e' : Engine)
        → e.mode ≡ global t
        → AreExpanded e.leaves
        → AreDistinct e.leaves
        → ingest c s u policy lowered (in_memory parse_uid u) e resolver event ≡ value (some r, e')
        → r.decision ≡ allow
        → (decides event ≡ true)
          × ((env : Env) × (bs : Bindings) × (request_env u (push t event) (trace_len t)
                ≡ value env)
              × All
                  (λ (f : TemporalField).
                    (b : Bool) × (Map.get bs f.id ≡ some b)
                    × ((b ≡ true) ↔ (
                        (includes (plan_of (needed_by parse_uid u e.leaf_map event)) f.id ≡ true)
                        × Holds (push t event) (trace_len t) env f.condition)))
                  e.leaves
              × Allowed c s u policy lowered resolver event bs)
    unfolding ingest decide_at observe observe_mode current_trace trace_len
    ingest-allow e t resolver event r e' m x d h a =
        let cur : current_trace (observe e event).mode ≡ some (push t event) = rw m refl in
        let len : trace_len (push t event) ≡ suc (trace_len t) =
          omega (arith, length-append t.points (event ∷ [])) in
        let (k, p) = ingest_branch (decides event) _ (observe e event) h in
        let (last, env, bs, computed, p1, p2, p3, p4) =
          evaluate-Holds parse_uid u (observe e event) (push t event) (trace_len t) cur len x d in
        let same = decided resolver event _ bs _ p3 p in
        let (bs', q, al) =
          (decide_from-allow c s u policy lowered resolver event (ok bs)).0 (rw same at a) in
        (
          k,
          (
            env,
            bs,
            p2,
            rw (same_event (last_point t event) p1) at p4,
            rw (← bindings_same bs bs' q) at al,
          ),
        )

    evaluate-mode :
        (e : Engine) (o : Option Trace) {x : Result Bindings} {e' : Engine}
        → evaluate_trace parse_uid u e o ≡ value (x, e')
        → (e'.mode ≡ e.mode) × (e'.leaves ≡ e.leaves)
    unfolding evaluate_at
    evaluate-mode e none h = (cc, cc)
    evaluate-mode e (some t) h = at_last (trace_len t) h
      where
        at_last :
            (k : ℕ) {x : Result Bindings} {e' : Engine}
            → evaluate_last parse_uid u e t k ≡ value (x, e')
            → (e'.mode ≡ e.mode) × (e'.leaves ≡ e.leaves)
        at_last zero h = (cc, cc)
        at_last (suc i) h =
            let (event, p, h) = >>=-eq-value (point t i) _ h in
            let (env, q, h) = >>=-eq-value (request_env u t i) _ h in
            let (r, o, h) = >>=-eq-value (bind_leaves t i env _ e.leaves [] []) _ h in (cc, cc)

    map_value :
        {A B : Type 0} (f : A → B) (m : Exec A) {b : B}
        → map_exec f m ≡ value b
        → (a : A) × (m ≡ value a) × (f a ≡ b)
    map_value f (value a) h = (a, refl, cc)
    map_value f panic h = cc

    -- Whenever the runtime over the in-memory engine returns, it has observed the event and kept the
    -- leaves, and it answers exactly the events of a decision kind.
    pub ingest-observes :
        (e : Engine) (resolver : Option Resolver) (event : Event) (r : Option Response)
        (e' : Engine)
        → ingest c s u policy lowered (in_memory parse_uid u) e resolver event ≡ value (r, e')
        → (e'.mode ≡ observe_mode e.mode event)
          × (e'.leaves ≡ e.leaves)
          × ((r ≡ none) ↔ (decides event ≡ false))
    unfolding ingest decide_at observe evaluate
    ingest-observes e resolver event r e' h = branch (decides event) h
      where
        branch :
            (b : Bool)
            → (if b
                then map_exec (some_response c s u policy lowered (in_memory parse_uid u)) (
                    decide_at c s u policy lowered
                      (in_memory parse_uid u)
                      (observe e event)
                      resolver
                      event)
                else value (none, observe e event))
              ≡ value (r, e')
            → (e'.mode ≡ observe_mode e.mode event)
              × (e'.leaves ≡ e.leaves)
              × ((r ≡ none) ↔ (b ≡ false))
        branch false h = (cc, cc, (λ q. refl, λ q. cc))
        branch true h =
            let (d, p, q) = map_value _ _ h in
            let (x, p', q') = map_value _ _ p in
            let (m, l) = evaluate-mode (observe e event) _ p' in
            (cc (m, q, q'), cc (l, q, q'), (λ n. cc (n, q), λ n. cc))
