-- ===== src/Engine.antt =====
-- The in-memory temporal engine, dogwood-language/src/engine.rs.
pub mod Answers
pub mod History
pub mod Partition
pub mod Slicing
pub mod Routing
use dogwood.Prelude.{
  ℕ, zero, suc, Bool, true, false, Option, none, some, List, [], ◌∷◌, ◌++◌, map, Str, str, join,
  if◌then◌else◌,
}
use dogwood.Prelude.Results.{Result, ok, err}
use dogwood.Prelude.Panics.{Exec, value, panic, ◌>>=◌}
use dogwood.Map
use dogwood.Map.{Map}
use dogwood.Unicode.{Unicode}
use dogwood.Value.{Value}
use dogwood.Event.{Event, Trace, trace_len, point, field_path}
use dogwood.Rows.{Env}
use dogwood.Pins.{PinRoot}
use dogwood.Eval.{eval_condition}
use dogwood.RequestEnv.{request_env}
use dogwood.PartitionKey.{partition_value_key}
use dogwood.LeafMap.{
  TemporalField, StrSet, set_insert, set_contains, CedarActions, LeafMap, build, needed_for,
}

pub record PartitionKey : Type 0 where
  pub field_path : List Str
  pub root : PinRoot
  pub context_path : List Str

pub data Mode : Type 0 where
  global : Trace → Mode
  partitioned : List PartitionKey → Map Trace → Option Str → Mode

pub record Engine : Type 0 where
  pub leaves : List TemporalField
  pub mode : Mode
  pub slicing : Bool
  pub leaf_map : Option LeafMap
  pub computed : StrSet

abbrev pub empty_trace : Trace
empty_trace = record { points = [] }

-- `InMemoryTemporalEngine::default`
abbrev pub new_engine : Engine
new_engine = record {
  leaves = [];
  mode = global empty_trace;
  slicing = false;
  leaf_map = none;
  computed = [];
}

unfoldable pub slice_leaves : Engine → Engine
slice_leaves e = record e { slicing = true }

unfoldable pub set_partition_keys : Engine → List PartitionKey → Engine
set_partition_keys e keys = record e { mode = partitioned keys [] none }

abbrev pub key_part : Option Value → Str
key_part (some v) = partition_value_key v
key_part none = str "<none>"

-- The parts are joined by the unit separator.
unfoldable pub partition_value_of : Event → List PartitionKey → Str
partition_value_of event keys =
    join (0x1f ∷ []) (map (λ k. key_part (field_path event.event k.field_path)) keys)

abbrev pub trace_or_empty : Option Trace → Trace
trace_or_empty none = empty_trace
trace_or_empty (some t) = t

abbrev pub push : Trace → Event → Trace
push t event = record { points = t.points ++ event ∷ [] }

unfoldable pub observe_mode : Mode → Event → Mode
observe_mode (global t) event = global (push t event)
observe_mode (partitioned keys traces last) event =
    let key = partition_value_of event keys in
    partitioned keys (Map.insert traces key (push (trace_or_empty (Map.get traces key)) event))
      (some key)

unfoldable pub observe : Engine → Event → Engine
observe e event = record e { mode = observe_mode e.mode event }

unfoldable pub observe_all : Engine → List Event → Engine
observe_all e [] = e
observe_all e (event ∷ events) = observe_all (observe e event) events

abbrev pub no_event : Str
no_event = str "no event observed"

abbrev pub trace_of_key : Map Trace → Option Str → Option Trace
trace_of_key traces none = none
trace_of_key traces (some key) = Map.get traces key

-- The trace that the last event was routed to.
unfoldable pub current_trace : Mode → Option Trace
current_trace (global t) = some t
current_trace (partitioned keys traces last) = trace_of_key traces last

pub data Plan : Type 0 where
  all_leaves : Plan
  only : StrSet → Plan

unfoldable pub includes : Plan → Str → Bool
includes all_leaves id = true
includes (only needed) id = set_contains needed id

abbrev pub plan_of : Option StrSet → Plan
plan_of none = all_leaves
plan_of (some ids) = only ids

abbrev pub Bindings : Type 0
Bindings = Map Bool

-- The value of one leaf: a leaf that is not needed is bound to false without being evaluated.
unfoldable pub leaf_value : Trace → ℕ → Env → Plan → TemporalField → Exec Bool
leaf_value t i env plan f =
    let holds = eval_condition t i env f.condition in
    if includes plan f.id then holds else value false

-- The loop over the leaves, with the bindings and the set of computed leaves so far.
unfoldable pub bind_leaves :
    Trace → ℕ → Env → Plan → List TemporalField → Bindings → StrSet → Exec (Bindings × StrSet)
bind_leaves t i env plan [] bindings computed = value (bindings, computed)
bind_leaves t i env plan (f ∷ leaves) bindings computed = do
  holds ← leaf_value t i env plan f
  bind_leaves t i env plan leaves (Map.insert bindings f.id holds)
      (if includes plan f.id then set_insert computed f.id else computed)

module _ (parse_uid : Str → Option Str) (u : Unicode) where
  -- `prepare`, over the actions of the schema.
  unfoldable pub prepare : Engine → List TemporalField → CedarActions → Engine
  prepare e leaves schema = record e {
    leaves = leaves;
    leaf_map = if e.slicing then some (build parse_uid u leaves schema) else none;
    computed = [];
  }

  abbrev pub needed_by : Option LeafMap → Event → Option StrSet
  needed_by none event = none
  needed_by (some m) event = needed_for parse_uid u m event

  -- The decision at the last timepoint of the trace.
  unfoldable pub evaluate_at : Engine → Trace → ℕ → Exec (Result Bindings × Engine)
  evaluate_at e t i = do
    event ← point t i
    env ← request_env u t i
    (bindings, computed) ← bind_leaves t i env (plan_of (needed_by e.leaf_map event)) e.leaves [] []
    value (ok bindings, record e { computed = computed })

  abbrev pub evaluate_last : Engine → Trace → ℕ → Exec (Result Bindings × Engine)
  evaluate_last e t zero = value (err no_event, e)
  evaluate_last e t (suc i) = evaluate_at e t i

  abbrev pub evaluate_trace : Engine → Option Trace → Exec (Result Bindings × Engine)
  evaluate_trace e none = value (err no_event, e)
  evaluate_trace e (some t) = evaluate_last e t (trace_len t)

  unfoldable pub evaluate : Engine → Exec (Result Bindings × Engine)
  evaluate e = evaluate_trace e (current_trace e.mode)
