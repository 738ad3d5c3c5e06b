-- ===== src/Examples/Decisions.antt =====
-- The theorems on the decision runtime, over a small instance of the parameters: expressions and contexts
-- that hold nothing, uids that are their texts, and a policy engine that allows.
use dogwood.Prelude.{
  ◌≡◌, ◌≢◌, ◌↔◌, ◌∷◌, refl, ap, Bool, true, false, Option, none, some, List, [], ◌++◌, Str, str,
  str_eq, str_lt, split, join, All,
}
use dogwood.Prelude.Panics.{Exec, value}
use dogwood.Prelude.Results.{ok, err}
use dogwood.Map
use dogwood.Int
use dogwood.Ast
use dogwood.Loop
use dogwood.Resolve
use dogwood.Rows
use dogwood.Rows.{Env}
use dogwood.Value
use dogwood.Value.{Value}
use dogwood.Event
use dogwood.Event.{Event, Trace, trace_len}
use dogwood.Eval
use dogwood.Eval.Semantics.{Holds}
use dogwood.RequestEnv
use dogwood.RequestEnv.{request_env}
use dogwood.LeafMap.{TemporalField}
use dogwood.Provider
use dogwood.Provider.{Scripts, Resolver}
use dogwood.Cedar.{Cedar, allow}
use dogwood.CedarRequest
use dogwood.Engine
use dogwood.Engine.{
  partitioned, Engine, Bindings, new_engine, global, push, includes, plan_of, needed_by,
  observe_mode,
}
use dogwood.Authorize
use dogwood.Authorize.{
  AuthorizationDecision, Lowered, Response, decide_from, ingest, TemporalEngine,
}
use dogwood.Pins.{context}
use dogwood.Builder.{Backend, Program, partitioning_unsupported, has_keys, build_authorizer}
use dogwood.Builder.Choice.{build_authorizer-unsupported}
use dogwood.Authorize.FailClosed.{Allowed, decide_from-allow}
use dogwood.Authorize.Runtime.{in_memory, decides, ingest-allow, ingest-observes}
use dogwood.Examples.{ascii, parse_any, login, reading, two_leaves}

abbrev small_cedar : Cedar
small_cedar = record {
  Expr = Unit {0};
  Context = Unit {0};
  Uid = Str;
  Request = Str × Str × Str;
  Entity = Str;
  Entities = List Str;
  new_bool = λ b. tt;
  new_long = λ n. tt;
  new_string = λ t. tt;
  new_decimal = λ t. tt;
  new_entity_uid = λ uid. tt;
  new_set = λ es. tt;
  new_record = λ ps. some tt;
  context_from_pairs = λ ps. ok tt;
  uid_from_str = λ t. ok t;
  unknown_uid = str "unknown";
  uid_to_string = λ uid. uid;
  new_request = λ p a r x. ok (p, a, r);
  principal = λ q. some q.0;
  resource = λ q. some q.2;
  new_entity = λ uid attrs parents. ok uid;
  with_uid = λ uid. uid;
  from_entities = λ es. ok es;
  add_entities = λ es more. ok (es ++ more);
  action_entities = ok [];
}

abbrev no_scripts : Scripts
no_scripts = record {
  Decl = Unit {0};
  Ty = Unit {0};
  output_type = λ d. tt;
  method_type = λ d m. none;
  evaluate = λ k d args. err k;
  run_methods = λ k d v ms. err k;
  coerce_to_declared = λ k v ty. ok v;
}

abbrev allow_all : Str × Str × Str → List Str → AuthorizationDecision
allow_all q es = record {
  decision = allow;
  determining_policy_ids = str "policy0" ∷ [];
  errors = [];
}

abbrev lowered : Lowered small_cedar no_scripts ascii
lowered = record {
  decision_kinds = str "Request" ∷ [];
  providers = [];
  rule_ids = str "policy0" ∷ [];
}

abbrev loaded : Engine
loaded = record new_engine { leaves = two_leaves; mode = global (record { points = login ∷ [] }) }

abbrev runtime : Engine → Option Resolver → Event → Exec (Option Response × Engine)
runtime = ingest small_cedar no_scripts ascii allow_all lowered (in_memory parse_any ascii)

abbrev allowed : Response
allowed = record {
  decision = allow;
  reason = record { rule_index = 0; cedar_policy_id = str "policy0" } ∷ [];
  errors = [];
}

abbrev decided : Engine
decided = record loaded {
  mode = global (record { points = login ∷ reading ∷ [] });
  computed = (str "t0", tt) ∷ (str "t1", tt) ∷ [];
}

allowed_run : runtime loaded none reading ≡ value (some allowed, decided)
unfolding ingest Authorize.decide_at Authorize.decide_from Authorize.decide Authorize.push_errors
    Authorize.rule_refs Engine.observe observe_mode Engine.evaluate Engine.evaluate_at
    Engine.current_trace trace_len request_env Event.trace_scope RequestEnv.seed_scope_env
    RequestEnv.project_names Event.resolve_entity_attr Event.project_uid Map.or_insert
    RequestEnv.seed_context RequestEnv.seed_env Resolve.scope_env_key CedarRequest.build_context
    CedarRequest.build_request CedarRequest.build_entities CedarRequest.value_uid_string
    CedarRequest.parse_uid_checked Engine.bind_leaves Engine.leaf_value Engine.includes
    Eval.eval_condition Eval.eval_comparison Eval.shed_for_binders Ast.binder_name Ast.slot_name
    Ast.within_interval Eval.formerly_rows Eval.scan_formerly Eval.in_window_and Loop.any_down
    Loop.collect_up Eval.rows_in_window Resolve.in_window Event.trace_ts Event.point
    Int.saturating_sub Int.clamp_i64 Int.◌-ℤ◌ Ast.interval_seconds Int.saturating_mul Int.◌*ℤ◌
    Ast.unit_seconds Resolve.match_predicate Event.trace_event Resolve.path_eq str_eq
    Resolve.match_args Resolve.match_args_from Resolve.match_arg Event.field_path Event.path_descend
    Event.descend Ast.arg_path split Map.get Map.insert Map.remove Rows.project_dedup
    Rows.project_all Rows.project Rows.push_all_new Rows.push_new Rows.find_column Rows.rows_eq
    Eval.compare_values Resolve.resolve_term Value.dom_eq Value.value_eq str_lt join
allowed_run = refl

decide_from-allow_example :
    ((decide_from small_cedar no_scripts ascii allow_all lowered none reading (ok [])).decision
      ≡ allow)
    ↔ ((bindings : Bindings) × (ok [] ≡ ok bindings)
        × Allowed small_cedar no_scripts ascii allow_all lowered none reading bindings)
decide_from-allow_example =
    decide_from-allow small_cedar no_scripts ascii allow_all lowered none reading (ok [])

ids_differ : str "t1" ≢ str "t0"
unfolding str_eq
ids_differ e = let q : true ≡ false = ap (str_eq (str "t1")) e in cc q

ingest-allow_example :
    (decides small_cedar no_scripts ascii parse_any allow_all lowered reading ≡ true)
    × ((env : Env) × (bs : Bindings) × (request_env ascii
            (record { points = login ∷ reading ∷ [] })
            1
          ≡ value env)
        × All
            (λ (f : TemporalField).
              (b : Bool) × (Map.get bs f.id ≡ some b)
              × ((b ≡ true) ↔ (
                  (includes (plan_of (needed_by parse_any ascii none reading)) f.id ≡ true)
                  × Holds (record { points = login ∷ reading ∷ [] }) 1 env f.condition)))
            two_leaves
        × Allowed small_cedar no_scripts ascii allow_all lowered none reading bs)
unfolding trace_len
ingest-allow_example =
    ingest-allow small_cedar no_scripts ascii parse_any allow_all lowered loaded
      (record { points = login ∷ [] }) none reading allowed decided refl
      ((tt, (tt, tt)), ((((tt, tt), (tt, (tt, tt))), tt), tt)) ((ids_differ, tt), (tt, tt))
      allowed_run refl

ingest-observes_example :
    (decided.mode ≡ observe_mode loaded.mode reading)
    × (decided.leaves ≡ loaded.leaves)
    × ((some allowed ≡ none)
        ↔ (decides small_cedar no_scripts ascii parse_any allow_all lowered reading ≡ false))
ingest-observes_example =
    ingest-observes small_cedar no_scripts ascii parse_any allow_all lowered loaded none reading
      (some allowed) decided allowed_run

-- A path that the nested context lacks is read by its last segment at the top.
provider_path_falls_back :
    Provider.resolve_field_path ascii (str "context" ∷ str "input" ∷ str "user" ∷ []) reading.event
    ≡ Value.entity (str "User") (str "ann")
unfolding Provider.resolve_field_path Provider.read_context Provider.skip_context
    Event.request_context_path Event.path_descend Event.descend Map.get str_eq
provider_path_falls_back = refl

abbrev pinned_program : Program
pinned_program = record {
  temporal_leaves = [];
  temporal_leaves_nonrelativized = two_leaves;
  partition_keys =
      record { field_path = str "user" ∷ []; root = context; context_path = str "user" ∷ [] } ∷ [];
}

-- An engine that does not partition.
abbrev plain_backend : Backend Engine
plain_backend = record {
  prepare = λ e leaves. ok (record e { leaves = leaves });
  supports_partitioning = λ e. false;
  set_partition_keys = λ e keys. e;
}

build_authorizer-unsupported_example :
    (build_authorizer plain_backend true pinned_program (ok allowed) new_engine
      ≡ partitioning_unsupported)
    ↔ ((p : Response) × (ok allowed ≡ ok p)
        × (true ≡ true)
        × (has_keys pinned_program ≡ true)
        × (plain_backend.supports_partitioning new_engine ≡ false))
build_authorizer-unsupported_example =
    build_authorizer-unsupported plain_backend true pinned_program (ok allowed) new_engine
