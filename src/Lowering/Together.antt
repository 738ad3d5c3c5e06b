-- ===== src/Lowering/Together.antt =====
-- The two ways to run pinned leaves: relativized on one history, and as written on the history of a
-- partition. dogwood-language/src/engine.rs, dogwood-language/src/api.rs and
-- dogwood-language/src/event_schema/relativize.rs together.
use dogwood.Prelude.{
  suc, ◌≡◌, ◌∙◌, refl, sym, ap, fun_ext, true, false, Option, some, List, [], ◌∷◌, ◌++◌, Str, arith,
  length, length-append, get_elem?, All, if◌then◌else◌,
}
use dogwood.Prelude.Panics.{Exec, value, panic, ◌>>=◌, >>=-eq-value}
use dogwood.Prelude.Results.{ok}
use dogwood.Unicode.{Unicode}
use dogwood.Event.{Event, point, trace_len, trace_event, trace_scope}
use dogwood.Ast.{Condition}
use dogwood.Rows.{Env}
use dogwood.RequestEnv.{request_env}
use dogwood.Eval.{eval_condition}
use dogwood.Eval.Expanded.{IsExpanded}
use dogwood.Eval.Names.{HasIdentifiers}
use dogwood.LeafMap.{TemporalField, StrSet}
use dogwood.Pins.{DerivedEvent, inject_pins}
use dogwood.Engine.{
  Engine, global, observe_all, set_partition_keys, evaluate, evaluate_at, evaluate_last, plan_of,
  Plan, includes, needed_by, leaf_value, bind_leaves, Bindings, empty_trace, current_trace,
}
use dogwood.Engine.Partition.{answer, evaluate-partition, own_partition}
use dogwood.Engine.History.{observe_all-global}
use dogwood.Relativize.{UniversalPin, universal_pins, relativize_condition}
use dogwood.Relativize.Guarded.{IsGuarded}
use dogwood.Relativize.Local.{own_events, history, relativize_condition-own_events}
use dogwood.Relativize.Mine.{is_mine}
use dogwood.Lowering.{keys_of_pins, inject_leaves, relativize_leaves}
use dogwood.Lowering.Own.{PathsKept, IsRoutable, same_partition-own_events}

-- The leaf needs no more than guards, and is expanded.
abbrev pub IsFit : List DerivedEvent → TemporalField → Type 0
IsFit schema f = IsGuarded schema f.condition × HasIdentifiers f.condition × IsExpanded f.condition

last_elem :
    (past : List Event) (event : Event) → get_elem? (past ++ event ∷ []) (length past) ≡ some event
last_elem [] event = refl
last_elem (x ∷ past) event = last_elem past event

last_point :
    (past : List Event) (event : Event) → point (history past event) (length past) ≡ value event
unfolding point
last_point past event = rw (last_elem past event) refl

request_env-last :
    (u : Unicode) (past own : List Event) (event : Event)
    → request_env u (history past event) (length past)
      ≡ request_env u (history own event) (length own)
unfolding request_env trace_event trace_scope
request_env-last u past own event = rw (last_point past event, last_point own event) refl

len_history :
    (past : List Event) (event : Event) → trace_len (history past event) ≡ suc (length past)
unfolding trace_len
len_history past event = omega (arith, length-append past (event ∷ []))

module _ (schema : List DerivedEvent) (p : UniversalPin) (ps : List UniversalPin) (start : Env)
    (past : List Event) (event : Event) (universal : universal_pins schema ≡ p ∷ ps)
    (mine : is_mine start schema (universal_pins schema) event.event ≡ true) where
  abbrev own : List Event
  own = own_events start schema (universal_pins schema) past

  leaf_value-same :
      (plan : Plan) (f : TemporalField) (c : Condition)
      → IsFit schema f
      → relativize_condition (inject_pins schema f.condition) schema (universal_pins schema)
        ≡ value c
      → leaf_value (history past event) (length past) start plan (record f { condition = c })
        ≡ leaf_value
            (history own event)
            (length own)
            start
            plan
            (record f { condition = inject_pins schema f.condition })
  unfolding leaf_value
  leaf_value-same plan f c fit h =
      let (c', q, e) =
        relativize_condition-own_events start schema p ps f.condition past event universal fit.0
          fit.1 fit.2 mine in
      let same : c' ≡ c = cc in
      ap (λ m. if includes plan f.id then m else value false)
        (ap (eval_condition (history past event) (length past) start) (sym same) ∙ e)

  bind_leaves-same :
      (plan : Plan) (leaves rewritten : List TemporalField) (bs : Bindings) (computed : StrSet)
      → All (IsFit schema) leaves
      → relativize_leaves schema (universal_pins schema) (inject_leaves schema leaves)
        ≡ value rewritten
      → bind_leaves (history past event) (length past) start plan rewritten bs computed
        ≡ bind_leaves
            (history own event)
            (length own)
            start
            plan
            (inject_leaves schema leaves)
            bs
            computed
  unfolding relativize_leaves inject_leaves bind_leaves
  bind_leaves-same plan [] rewritten bs computed fit h =
      let none_left : [] ≡ rewritten = cc in rw (← none_left) refl
  bind_leaves-same plan (f ∷ leaves) rewritten bs computed fit h =
      let (c, q, r) =
        >>=-eq-value
          (relativize_condition (inject_pins schema f.condition) schema (universal_pins schema)) _
          h in
      let (later, s, t) =
        >>=-eq-value
          (relativize_leaves schema (universal_pins schema) (inject_leaves schema leaves)) _ r in
      let all_of : record f { condition = c } ∷ later ≡ rewritten = cc in
      rw (← all_of, leaf_value-same plan f c fit.0 q)
        (ap
          (λ k.
            leaf_value (history own event) (length own) start plan
              (record f { condition = inject_pins schema f.condition })
            >>= k)
          (fun_ext (λ b. bind_leaves-same plan leaves later _ _ fit.1 s)))

  relativize_leaves-Returns :
      (leaves : List TemporalField)
      → All (IsFit schema) leaves
      → (rewritten : List TemporalField) × (relativize_leaves schema
            (universal_pins schema)
            (inject_leaves schema leaves)
          ≡ value rewritten)
  unfolding relativize_leaves inject_leaves
  relativize_leaves-Returns [] fit = ([], refl)
  relativize_leaves-Returns (f ∷ leaves) fit =
      let (c, q, e) =
        relativize_condition-own_events start schema p ps f.condition past event universal fit.0.0
          fit.0.1 fit.0.2 mine in
      let (later, r) = relativize_leaves-Returns leaves fit.1 in
      (record f { condition = c } ∷ later, rw (q, r) refl)

module _ (parse_uid : Str → Option Str) (u : Unicode) where
  -- Only the bindings are answered.
  answer_bindings :
      (m : Exec (Bindings × StrSet)) (e e' : Engine)
      → answer (m >>= λ r. value (ok r.0, record e { computed = r.1 }))
        ≡ answer (m >>= λ r. value (ok r.0, record e' { computed = r.1 }))
  answer_bindings (value r) e e' = refl
  answer_bindings panic e e' = refl

  run_global :
      (e : Engine) (past : List Event) (event : Event)
      → answer (
          evaluate parse_uid u
            (observe_all (record e { mode = global empty_trace }) (past ++ event ∷ [])))
        ≡ answer (
            evaluate_at parse_uid u
              (record e { mode = global (history past event) })
              (history past event)
              (length past))
  unfolding evaluate current_trace
  run_global e past event =
      ap (λ x. answer (evaluate parse_uid u x))
        (observe_all-global (past ++ event ∷ []) (record e { mode = global empty_trace })
          empty_trace refl)
      ∙ ap
          (λ n. answer (
            evaluate_last parse_uid u (record e { mode = global (history past event) })
              (history past event) n))
          (len_history past event)

  decided_at :
      (e : Engine) (past : List Event) (event : Event) (start : Env)
      → request_env u (history past event) (length past) ≡ value start
      → answer (evaluate_at parse_uid u e (history past event) (length past))
        ≡ answer (
            bind_leaves
              (history past event)
              (length past)
              start
              (plan_of (needed_by parse_uid u e.leaf_map event))
              e.leaves
              []
              []
            >>= λ r. value (ok r.0, record e { computed = r.1 }))
  unfolding evaluate_at
  decided_at e past event start env = rw (last_point past event, env) refl

  same_answer :
      (schema : List DerivedEvent) (p : UniversalPin) (ps : List UniversalPin)
      (leaves rewritten : List TemporalField) (e : Engine) (past : List Event) (event : Event)
      (start : Env)
      → universal_pins schema ≡ p ∷ ps
      → All (IsFit schema) leaves
      → relativize_leaves schema (universal_pins schema) (inject_leaves schema leaves)
        ≡ value rewritten
      → request_env u (history past event) (length past) ≡ value start
      → is_mine start schema (universal_pins schema) event.event ≡ true
      → PathsKept (universal_pins schema)
      → All (IsRoutable schema (universal_pins schema) event) past
      → answer (
          evaluate parse_uid u (
            observe_all
              (record e { leaves = rewritten; mode = global empty_trace })
              (past ++ event ∷ [])))
        ≡ answer (
            evaluate parse_uid u (
              observe_all
                (set_partition_keys
                  (record e { leaves = inject_leaves schema leaves })
                  (keys_of_pins (universal_pins schema)))
                (past ++ event ∷ [])))
  same_answer schema p ps leaves rewritten e past event start universal fit h env mine kept
        routable =
      let pins = universal_pins schema in
      let keys = keys_of_pins pins in
      let own = own_events start schema pins past in
      let one : Engine = record e { leaves = rewritten } in
      let many : Engine = record e { leaves = inject_leaves schema leaves } in
      let plan = plan_of (needed_by parse_uid u e.leaf_map event) in
      run_global one past event
      ∙ decided_at (record one { mode = global (history past event) }) past event start env
      ∙ ap
          (λ m. answer (
            m >>= λ r.
            value (ok r.0, record one { mode = global (history past event); computed = r.1 })))
          (bind_leaves-same schema p ps start past event universal mine plan leaves rewritten [] []
            fit h)
      ∙ answer_bindings _ (record one { mode = global (history past event) })
          (record many { mode = global (history own event) })
      ∙ sym (
          decided_at (record many { mode = global (history own event) }) own event start
            (request_env-last u own past event ∙ env))
      ∙ sym (run_global many own event)
      ∙ ap
          (λ events.
            answer (
              evaluate parse_uid u
                (observe_all (record many { mode = global empty_trace }) events)))
          (ap (λ l. l ++ event ∷ [])
              (sym (same_partition-own_events start schema event pins past kept mine routable))
            ∙ sym (own_partition keys event past))
      ∙ sym (evaluate-partition parse_uid u past event many keys)

  -- Where the schema has universal pins, relativization gives leaves with which an engine with one history
  -- answers as an engine with the partition keys of the pins and the leaves as injected does, if: every leaf
  -- is expanded, has identifiers for variables and is relativized by guards alone (predicates of declared
  -- kinds, no `previous`, no `tp`, a `since` only with a negation of own events on its left, aggregates only
  -- at the head of an operand); the decision agrees with its own request on the pins; the events before it
  -- are of declared kinds; no segment of a pinned path holds a dot; and no entity type in a pinned field
  -- holds a quote.
  pub evaluate-relativized :
      (schema : List DerivedEvent) (p : UniversalPin) (ps : List UniversalPin)
      (leaves : List TemporalField) (e : Engine) (past : List Event) (event : Event) (start : Env)
      → universal_pins schema ≡ p ∷ ps
      → All (IsFit schema) leaves
      → request_env u (history past event) (length past) ≡ value start
      → is_mine start schema (universal_pins schema) event.event ≡ true
      → PathsKept (universal_pins schema)
      → All (IsRoutable schema (universal_pins schema) event) past
      → (rewritten : List TemporalField) × (relativize_leaves schema
            (universal_pins schema)
            (inject_leaves schema leaves)
          ≡ value rewritten)
        × (answer (
              evaluate parse_uid u (
                observe_all
                  (record e { leaves = rewritten; mode = global empty_trace })
                  (past ++ event ∷ [])))
            ≡ answer (
                evaluate parse_uid u (
                  observe_all
                    (set_partition_keys
                      (record e { leaves = inject_leaves schema leaves })
                      (keys_of_pins (universal_pins schema)))
                    (past ++ event ∷ []))))
  evaluate-relativized schema p ps leaves e past event start universal fit env mine kept routable =
      let (rewritten, h) =
        relativize_leaves-Returns schema p ps start past event universal mine leaves fit in
      (
        rewritten,
        h,
        same_answer schema p ps leaves rewritten e past event start universal fit h env mine kept
            routable,
      )
