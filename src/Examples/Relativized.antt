-- ===== src/Examples/Relativized.antt =====
-- The theorems on pins over a whole condition, at a trace that holds an event of another user.
use dogwood.Prelude.{
  str_lt, ◌≡◌, ◌↔◌, ◌&&◌, refl, true, some, List, [], ◌∷◌, str, str_eq, all, map, split, join,
}
use dogwood.Prelude.Panics.{value}
use dogwood.Map
use dogwood.Value
use dogwood.Event.{Event}
use dogwood.Ast
use dogwood.Ast.{Condition, formerly, concrete, predicate}
use dogwood.Rows.{Env}
use dogwood.Event
use dogwood.Resolve
use dogwood.Pins
use dogwood.Pins.{Pin, DerivedEvent, inject_pins}
use dogwood.Pins.Coverage.{AllPinned, UnreachedPinned, inject_pins-AllPinned}
use dogwood.Relativize
use dogwood.Relativize.{universal_pin, universal_pins, contains_pin, is_symmetric}
use dogwood.Relativize.Mine
use dogwood.Relativize.Mine.{pin_of}
use dogwood.Relativize.Shared.{universal_pins_lem}
use dogwood.Relativize.Local.{own_events, history}
use dogwood.LeafMap.{TemporalField}
use dogwood.RequestEnv
use dogwood.Engine.{new_engine, global, empty_trace, observe_all, set_partition_keys, evaluate}
use dogwood.Engine.Partition.{answer}
use dogwood.Lowering
use dogwood.Lowering.{keys_of_pins, inject_leaves, relativize_leaves}
use dogwood.Lowering.Own.{PathsKept, IsRoutable}
use dogwood.Lowering.Together.{evaluate-relativized}
use dogwood.Examples.Domain.{example_env}
use dogwood.Examples.{
  ascii, parse_any, first_leaf, ann, login, reading, login_data, login_of_user, minute, one_login,
}
use dogwood.Examples.Temporal.{user_pin}

abbrev bob_login : Event
bob_login = record login {
  event = record login_data {
    request_context = (str "user", Value.entity (str "User") (str "bob")) ∷ [];
    logged = (str "user", Value.entity (str "User") (str "bob")) ∷ [];
  };
}

abbrev login_kind : DerivedEvent
login_kind = record {
  namespace = [];
  action = str "Login";
  kind = str "Request";
  decision = true;
  pins = user_pin ∷ [];
}

abbrev read_kind : DerivedEvent
read_kind = record login_kind { action = str "Read" }

abbrev kinds : List DerivedEvent
kinds = login_kind ∷ read_kind ∷ []

abbrev start_env : Env
start_env = (str "context.user", ann) ∷ []

-- formerly within 1 minute, not Login::Request(user: u)
abbrev another_event : Condition
another_event = formerly (concrete minute) (Condition.not (predicate login_of_user))

user_pin-universal : universal_pins kinds ≡ universal_pin user_pin ∷ []
unfolding universal_pins is_symmetric Relativize.pin_eq Resolve.path_eq str_eq
user_pin-universal = refl

-- The trace of own events leaves out the login of the other user.
own_events_run :
    own_events start_env kinds (universal_pins kinds) (bob_login ∷ login ∷ []) ≡ login ∷ []
unfolding universal_pins is_symmetric Relativize.pin_eq Resolve.path_eq str_eq own_events
    Mine.is_mine Event.field_path Event.path_descend Ast.arg_path split join Map.get Event.descend
    Resolve.context_key Value.dom_eq Value.value_eq
own_events_run = refl

login_declared : Pins.get_event kinds [] (str "Login") (str "Request") ≡ some login_kind
unfolding Pins.get_event str_eq Resolve.path_eq
login_declared = refl

universal_pins_lem_example :
    contains_pin (map pin_of (universal_pins kinds)) user_pin
    ≡ (is_symmetric user_pin && all (λ (e : DerivedEvent). contains_pin e.pins user_pin) kinds)
universal_pins_lem_example = universal_pins_lem login_kind (read_kind ∷ []) user_pin

inject_pins-AllPinned_example :
    AllPinned kinds (inject_pins kinds one_login) ↔ UnreachedPinned kinds one_login
inject_pins-AllPinned_example = inject_pins-AllPinned kinds one_login

abbrev another_leaf : TemporalField
another_leaf = record first_leaf { condition = another_event }

request_env_run :
    RequestEnv.request_env ascii (history (bob_login ∷ login ∷ []) reading) 2 ≡ value example_env
unfolding RequestEnv.request_env Event.trace_event Event.point Event.trace_scope
    RequestEnv.seed_scope_env RequestEnv.project_names Event.resolve_entity_attr Map.get
    Event.project_uid str_eq Map.or_insert Map.insert RequestEnv.seed_context RequestEnv.seed_env
    Resolve.scope_env_key str_lt join
request_env_run = refl

decision_mine : Mine.is_mine example_env kinds (universal_pins kinds) reading.event ≡ true
unfolding universal_pins Mine.is_mine str_eq Resolve.path_eq is_symmetric Relativize.pin_eq
    Event.field_path Event.path_descend Ast.arg_path split join Map.get Event.descend
    Resolve.context_key Value.dom_eq Value.value_eq
decision_mine = refl

paths_kept : PathsKept (universal_pins kinds)
unfolding universal_pins Ast.arg_path is_symmetric Resolve.path_eq str_eq Relativize.pin_eq split
    join
paths_kept = (refl, tt)

bob-IsRoutable : IsRoutable kinds (universal_pins kinds) reading bob_login
unfolding universal_pins Lowering.keys_of_pins str_eq Resolve.path_eq is_symmetric Relativize.pin_eq
    Event.field_path Event.path_descend Map.get Event.descend
bob-IsRoutable = (refl, ((refl, refl), tt))

ann-IsRoutable : IsRoutable kinds (universal_pins kinds) reading login
unfolding universal_pins Lowering.keys_of_pins str_eq Resolve.path_eq is_symmetric Relativize.pin_eq
    Event.field_path Event.path_descend Map.get Event.descend
ann-IsRoutable = (refl, ((refl, refl), tt))

evaluate-relativized_example :
    (rewritten : List TemporalField) × (relativize_leaves kinds
        (universal_pins kinds)
        (inject_leaves kinds (another_leaf ∷ []))
      ≡ value rewritten)
    × (answer (
          evaluate parse_any ascii (
            observe_all
              (record new_engine { leaves = rewritten; mode = global empty_trace })
              (bob_login ∷ login ∷ reading ∷ [])))
        ≡ answer (
            evaluate parse_any ascii (
              observe_all
                (set_partition_keys
                  (record new_engine { leaves = inject_leaves kinds (another_leaf ∷ []) })
                  (keys_of_pins (universal_pins kinds)))
                (bob_login ∷ login ∷ reading ∷ []))))
evaluate-relativized_example =
    evaluate-relativized parse_any ascii kinds (universal_pin user_pin) [] (another_leaf ∷ [])
      new_engine (bob_login ∷ login ∷ []) reading example_env user_pin-universal
      (
        (
          (login_kind, login_declared),
          (record { no_dot = refl; no_at = refl }, tt),
          (tt, (tt, tt)),
        ),
        tt,
      )
      request_env_run decision_mine paths_kept (bob-IsRoutable, (ann-IsRoutable, tt))
