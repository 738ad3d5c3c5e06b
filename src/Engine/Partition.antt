-- ===== src/Engine/Partition.antt =====
-- The two modes of the engine, dogwood-language/src/engine.rs.
use dogwood.Prelude.{
  ℕ, zero, suc, ◌≡◌, ◌∙◌, refl, sym, ap, true, false, Option, none, some, List, [], ◌∷◌, ◌++◌, Str,
  str_eq, str_eq_iff, str_eq_refl, arith, if◌then◌else◌, Bool-cases, ◌⊎◌, inl, inr,
}
use mathlib.Core.List.{append_assoc, append-nil}
use dogwood.Prelude.Panics.{Exec, value, panic, ◌>>=◌, map_exec}
use dogwood.Map
use dogwood.Map.{Map}
use dogwood.Map.Laws.{get-insert, get-insert_self}
use dogwood.Unicode.{Unicode}
use dogwood.Event.{Event, Trace, point, trace_len}
use dogwood.RequestEnv.{request_env}
use dogwood.Engine.History.{observe_all-global}
use dogwood.Prelude.Results.{Result}
use dogwood.Engine.{
  Engine, PartitionKey, Mode, global, partitioned, trace_or_empty, push, partition_value_of,
  observe_mode, observe, observe_all, set_partition_keys, current_trace, Bindings, evaluate,
  evaluate_at, evaluate_last, evaluate_trace, bind_leaves, plan_of, needed_by, empty_trace,
}

-- The events of one partition, in order.
unfoldable pub same_partition : List PartitionKey → Str → List Event → List Event
same_partition keys key [] = []
same_partition keys key (e ∷ events) =
    let rest = same_partition keys key events in
    if str_eq (partition_value_of e keys) key then e ∷ rest else rest

same_partition-snoc :
    (keys : List PartitionKey) (key : Str) (past : List Event) (e : Event)
    → same_partition keys key (past ++ e ∷ [])
      ≡ same_partition keys key past
        ++ (if str_eq (partition_value_of e keys) key then e ∷ [] else [])
unfolding same_partition
same_partition-snoc keys key [] e = ground arith
same_partition-snoc keys key (x ∷ past) e = ground (arith, same_partition-snoc keys key past e)

-- Each trace holds the events of its key.
abbrev pub IsRouted : List PartitionKey → List Event → Map Trace → Type 0
IsRouted keys past traces =
    (key : Str) → (trace_or_empty (Map.get traces key)).points ≡ same_partition keys key past

abbrev pub routed : List PartitionKey → Map Trace → Event → Map Trace
routed keys traces e =
    Map.insert traces (partition_value_of e keys)
      (push (trace_or_empty (Map.get traces (partition_value_of e keys))) e)

routed-IsRouted :
    (keys : List PartitionKey) (past : List Event) (traces : Map Trace) (e : Event)
    → IsRouted keys past traces
    → IsRouted keys (past ++ e ∷ []) (routed keys traces e)
routed-IsRouted keys past traces e h key =
    rw
      (
        get-insert traces (partition_value_of e keys)
            (push (trace_or_empty (Map.get traces (partition_value_of e keys))) e) key,
        same_partition-snoc keys key past e,
      )
      (same (Bool-cases (str_eq (partition_value_of e keys) key)))
  where
    same :
        (str_eq (partition_value_of e keys) key ≡ true)
          ⊎ (str_eq (partition_value_of e keys) key ≡ false)
        → (trace_or_empty (
            if str_eq (partition_value_of e keys) key
            then some (push (trace_or_empty (Map.get traces (partition_value_of e keys))) e)
            else Map.get traces key)).points
          ≡ same_partition keys key past
            ++ (if str_eq (partition_value_of e keys) key then e ∷ [] else [])
    same (inl q) =
        let k : partition_value_of e keys ≡ key = (str_eq_iff _ _).0 q in
        rw q (rw k (ap (λ (l : List Event). l ++ e ∷ []) (h key)))
    same (inr q) = rw q (h key ∙ sym (append-nil (same_partition keys key past)))

-- The traces after a run of events.
unfoldable route_all : List PartitionKey → Map Trace → List Event → Map Trace
route_all keys traces [] = traces
route_all keys traces (e ∷ events) = route_all keys (routed keys traces e) events

route_all-IsRouted :
    (keys : List PartitionKey) (events past : List Event) (traces : Map Trace)
    → IsRouted keys past traces
    → IsRouted keys (past ++ events) (route_all keys traces events)
unfolding route_all
route_all-IsRouted keys [] past traces h = rw (append-nil past) h
route_all-IsRouted keys (e ∷ events) past traces h = rw (← append_assoc past (e ∷ []) events) (
    route_all-IsRouted keys events (past ++ e ∷ []) (routed keys traces e)
      (routed-IsRouted keys past traces e h))

observe_all-mode :
    (keys : List PartitionKey) (events : List Event) (e : Engine) (traces : Map Trace)
    (last : Option Str)
    → e.mode ≡ partitioned keys traces last
    → (l : Option Str) × ((observe_all e events).mode
        ≡ partitioned keys (route_all keys traces events) l)
unfolding observe_all observe observe_mode route_all
observe_all-mode keys [] e traces last h = (last, h)
observe_all-mode keys (event ∷ events) e traces last h =
    observe_all-mode keys events (observe e event) (routed keys traces event)
      (some (partition_value_of event keys)) (ap (λ m. observe_mode m event) h)

pub own_partition :
    (keys : List PartitionKey) (event : Event) (past : List Event)
    → same_partition keys (partition_value_of event keys) (past ++ event ∷ [])
      ≡ same_partition keys (partition_value_of event keys) past ++ event ∷ []
own_partition keys event past =
    same_partition-snoc keys (partition_value_of event keys) past event
    ∙ rw (str_eq_refl (partition_value_of event keys))

-- After the partition keys are set and a run of events that ends with `event` is observed, the
-- current trace holds exactly the events of the partition of that event, in the order of their
-- arrival.
pub observe_all-partition :
    (events : List Event) (event : Event) (e : Engine) (keys : List PartitionKey)
    → current_trace (observe (observe_all (set_partition_keys e keys) events) event).mode
      ≡ some (record {
        points = same_partition keys (partition_value_of event keys) (events ++ event ∷ []);
      })
unfolding observe observe_mode current_trace set_partition_keys same_partition Map.get
observe_all-partition events event e keys =
    let start = set_partition_keys e keys in
    let (last, p) = observe_all-mode keys events start [] none refl in
    let traces = route_all keys [] events in
    let key = partition_value_of event keys in
    let h = route_all-IsRouted keys events [] [] (λ k. refl) in
    rw p (
      get-insert_self traces key (push (trace_or_empty (Map.get traces key)) event)
      ∙ ap (λ (l : List Event). some (record { points = l }))
          (ap (λ (l : List Event). l ++ event ∷ []) (h key)
            ∙ sym (own_partition keys event events)))

-- Only the mode of an engine changes when it observes.
observe_all-record :
    (events : List Event) (e : Engine)
    → observe_all e events ≡ record e { mode = (observe_all e events).mode }
unfolding observe_all observe
observe_all-record [] e = refl
observe_all-record (event ∷ events) e = observe_all-record events (observe e event)

run_record :
    (e : Engine) (keys : List PartitionKey) (events : List Event)
    → observe_all (set_partition_keys e keys) events
      ≡ record e { mode = (observe_all (set_partition_keys e keys) events).mode }
unfolding set_partition_keys
run_record e keys events = observe_all-record events (set_partition_keys e keys)

observe_all-snoc :
    (events : List Event) (event : Event) (e : Engine)
    → observe_all e (events ++ event ∷ []) ≡ observe (observe_all e events) event
unfolding observe_all
observe_all-snoc [] event e = refl
observe_all-snoc (x ∷ events) event e = observe_all-snoc events event (observe e x)

abbrev pub answer : Exec (Result Bindings × Engine) → Exec (Result Bindings)
answer m = map_exec (λ r. r.0) m

answer_bind :
    {A : Type 0} (m : Exec A) (f g : A → Exec (Result Bindings × Engine))
    → ((a : A) → answer (f a) ≡ answer (g a))
    → answer (m >>= f) ≡ answer (m >>= g)
answer_bind (value a) f g h = h a
answer_bind panic f g h = refl

module _ (parse_uid : Str → Option Str) (u : Unicode) where
  -- The answer does not depend on how the history is kept.
  answer_last :
      (e : Engine) (m n : Mode) (t : Trace) (k : ℕ)
      → answer (evaluate_last parse_uid u (record e { mode = m }) t k)
        ≡ answer (evaluate_last parse_uid u (record e { mode = n }) t k)
  unfolding evaluate_at
  answer_last e m n t zero = refl
  answer_last e m n t (suc i) = answer_bind (point t i) _ _ (λ event.
      answer_bind (request_env u t i) _ _ (λ env.
        answer_bind
          (bind_leaves t i env (plan_of (needed_by parse_uid u e.leaf_map event)) e.leaves [] []) _
          _ (λ r. refl)))

  answer_given :
      (e e' : Engine) (m : Mode) (t : Trace)
      → e' ≡ record e { mode = m }
      → current_trace m ≡ some t
      → answer (evaluate parse_uid u e')
        ≡ answer (evaluate_last parse_uid u (record e { mode = m }) t (trace_len t))
  unfolding evaluate
  answer_given e e' m t p q =
      rw p (ap (λ o. answer (evaluate_trace parse_uid u (record e { mode = m }) o)) q)

  -- After the partition keys are set and a run of events is observed, the engine answers as a global
  -- engine with an empty history that observed only the events in the partition of the last one.
  pub evaluate-partition :
      (events : List Event) (event : Event) (e : Engine) (keys : List PartitionKey)
      → answer
          (evaluate parse_uid u (observe_all (set_partition_keys e keys) (events ++ event ∷ [])))
        ≡ answer (
            evaluate parse_uid u (
              observe_all
                (record e { mode = global empty_trace })
                (same_partition keys (partition_value_of event keys) (events ++ event ∷ []))))
  evaluate-partition events event e keys =
      let run = observe_all (set_partition_keys e keys) (events ++ event ∷ []) in
      let t : Trace = record {
        points = same_partition keys (partition_value_of event keys) (events ++ event ∷ []);
      } in
      answer_given e run run.mode t (run_record e keys (events ++ event ∷ [])) (
        ap (λ (x : Engine). current_trace x.mode)
          (observe_all-snoc events event (set_partition_keys e keys))
        ∙ observe_all-partition events event e keys)
      ∙ answer_last e run.mode (global t) t (trace_len t)
      ∙ sym (
          answer_given e _ (global t) t
            (observe_all-global t.points (record e { mode = global empty_trace }) empty_trace refl)
            (unfold current_trace in refl))
