-- ===== src/Examples/Engines.antt =====
-- The theorems on the engine and its leaf map at the example trace.
use dogwood.Prelude.{
  str_lt, split, join, ap, ◌≡◌, ◌≢◌, ◌↔◌, ◌∷◌, refl, Bool, true, false, none, some, [], ◌++◌, Str,
  str, str_eq, All, any,
}
use dogwood.Prelude.Panics.{value}
use dogwood.Map
use dogwood.Int
use dogwood.Ast
use dogwood.Loop
use dogwood.Resolve
use dogwood.Rows
use dogwood.Value
use dogwood.Unicode
use dogwood.Event
use dogwood.Event.{Event, Trace, trace_len, point}
use dogwood.Rows.{Env}
use dogwood.Eval.Semantics.{Holds}
use dogwood.Eval
use dogwood.RequestEnv.{request_env}
use dogwood.Pins.{context}
use dogwood.LeafMap.{
  TemporalField, StrSet, CedarActions, build, needed_for, event_action_uid, set_contains,
}
use dogwood.LeafMap
use dogwood.LeafMap.Needed.{lists, needed_for-build}
use dogwood.Engine
use dogwood.Prelude.Results.{ok}
use dogwood.Engine.{
  Engine, PartitionKey, Mode, global, Bindings, new_engine, observe, observe_all,
  set_partition_keys, current_trace, partition_value_of, evaluate, includes, plan_of, needed_by,
  all_leaves, only, leaf_value, bind_leaves, empty_trace,
}
use dogwood.Engine.History.{observe_all-global}
use dogwood.Engine.Partition.{same_partition, observe_all-partition, answer, evaluate-partition}
use dogwood.Engine.Routing.{AgreeOn, partition_value_of_iff}
use dogwood.Engine.Slicing.{IsSliced, bind_leaves-only}
use dogwood.Engine.Answers.{evaluate-Holds}
use dogwood.Examples.{ascii, parse_any, history, login, reading, two_leaves}

abbrev user_key : PartitionKey
user_key = record { field_path = str "user" ∷ []; root = context; context_path = str "user" ∷ [] }

abbrev loaded : Engine
loaded = record new_engine { leaves = two_leaves; mode = global history }

observe_all-global_example :
    observe_all loaded (login ∷ reading ∷ [])
    ≡ record loaded { mode = global (record { points = history.points ++ login ∷ reading ∷ [] }) }
observe_all-global_example = observe_all-global (login ∷ reading ∷ []) loaded history refl

observe_all-partition_example :
    current_trace
      (observe (observe_all (set_partition_keys loaded (user_key ∷ [])) (login ∷ [])) reading).mode
    ≡ some (record {
      points =
          same_partition
            (user_key ∷ [])
            (partition_value_of reading (user_key ∷ []))
            ((login ∷ []) ++ reading ∷ []);
    })
observe_all-partition_example = observe_all-partition (login ∷ []) reading loaded (user_key ∷ [])

evaluate-partition_example :
    answer (
      evaluate parse_any ascii
        (observe_all (set_partition_keys loaded (user_key ∷ [])) ((login ∷ []) ++ reading ∷ [])))
    ≡ answer (
        evaluate parse_any ascii (
          observe_all
            (record loaded { mode = global empty_trace })
            (same_partition
              (user_key ∷ [])
              (partition_value_of reading (user_key ∷ []))
              ((login ∷ []) ++ reading ∷ []))))
evaluate-partition_example =
    evaluate-partition parse_any ascii (login ∷ []) reading loaded (user_key ∷ [])

ids_differ : str "t1" ≢ str "t0"
unfolding str_eq
ids_differ e = let q : true ≡ false = ap (str_eq (str "t1")) e in cc q

evaluate-Holds_example :
    (event : Event) × (env : Env) × (bs : Bindings) × (computed : StrSet) × (point history 1
      ≡ value event)
    × (request_env ascii history 1 ≡ value env)
    × (evaluate parse_any ascii loaded ≡ value (ok bs, record loaded { computed = computed }))
    × All
        (λ (f : TemporalField).
          (b : Bool) × (Map.get bs f.id ≡ some b)
          × ((b ≡ true) ↔ (
              (includes (plan_of (needed_by parse_any ascii none event)) f.id ≡ true)
              × Holds history 1 env f.condition)))
        two_leaves
unfolding current_trace trace_len
evaluate-Holds_example =
    evaluate-Holds parse_any ascii loaded history 1 refl refl
      ((tt, (tt, tt)), ((((tt, tt), (tt, (tt, tt))), tt), tt)) ((ids_differ, tt), (tt, tt))

full_run :
    bind_leaves history 1 [] all_leaves two_leaves [] []
    ≡ value ((str "t0", true) ∷ (str "t1", true) ∷ [], (str "t0", tt) ∷ (str "t1", tt) ∷ [])
unfolding bind_leaves Engine.leaf_value Engine.includes Eval.eval_condition Eval.eval_comparison
    Eval.shed_for_binders Ast.binder_name Ast.slot_name Ast.within_interval Eval.formerly_rows
    Eval.scan_formerly Eval.in_window_and Loop.any_down Loop.collect_up Eval.rows_in_window
    Resolve.in_window Event.trace_ts Event.point Int.saturating_sub Int.clamp_i64 Int.◌-ℤ◌
    Ast.interval_seconds Int.saturating_mul Int.◌*ℤ◌ Ast.unit_seconds Resolve.match_predicate
    Event.trace_event Resolve.path_eq str_eq Resolve.match_args Resolve.match_args_from
    Resolve.match_arg Event.field_path Event.path_descend Event.descend Ast.arg_path split Map.get
    Map.insert Map.remove Rows.project_dedup Rows.project_all Rows.project Rows.push_all_new
    Rows.push_new Rows.find_column Rows.rows_eq Eval.compare_values Resolve.resolve_term
    Value.dom_eq Value.value_eq str_lt
full_run = refl

bind_leaves-only_example :
    (sliced : Bindings) × (d : StrSet) × (bind_leaves history 1 [] (only []) two_leaves [] []
      ≡ value (sliced, d))
    × IsSliced [] ((str "t0", true) ∷ (str "t1", true) ∷ []) sliced
unfolding Map.get
bind_leaves-only_example =
    bind_leaves-only history 1 [] [] two_leaves [] [] [] [] (λ id. refl) full_run

abbrev schema : CedarActions
schema = record {
  actions = str "Action::\"Read\"" ∷ str "Action::\"Login\"" ∷ [];
  action_groups = [];
}

needed_for-build_example :
    (uid : Str) × (event_action_uid parse_any ascii reading ≡ some uid)
    × (set_contains ((str "t0", tt) ∷ []) (str "t0")
        ≡ any (lists parse_any ascii uid (str "t0")) two_leaves)
unfolding needed_for event_action_uid Map.get build LeafMap.fold_always LeafMap.add_leaves
    LeafMap.add_leaf LeafMap.expansion LeafMap.target_uids LeafMap.target_action_uid LeafMap.seeded
    LeafMap.insert_targets LeafMap.insert_target Map.insert LeafMap.seed_actions str_eq str_lt
    LeafMap.action_ref_uid LeafMap.extend_all LeafMap.qualified_action_uid Map.extend join
    Unicode.escape_char Unicode.escape_debug Unicode.escape_rest
needed_for-build_example =
    needed_for-build parse_any ascii two_leaves schema reading ((str "t0", tt) ∷ []) (str "t0") refl

partition_value_of_iff_example :
    (partition_value_of login (user_key ∷ []) ≡ partition_value_of reading (user_key ∷ []))
    ↔ AgreeOn login reading (user_key ∷ [])
unfolding Event.field_path Event.path_descend Event.descend Map.get str_eq
partition_value_of_iff_example =
    partition_value_of_iff login reading (user_key ∷ []) ((refl, refl), tt)
