-- ===== src/Examples/Temporal.antt =====
-- The theorems on temporal conditions at the example trace, and runs of the evaluator.
use dogwood.Prelude.{◌≡◌, ◌↔◌, ◌<◌, ◌&&◌, refl, true, List, [], ◌∷◌, str, str_eq, split, arith, all}
use dogwood.Prelude.Panics.{value, map_exec}
use dogwood.Int
use dogwood.Int.{pos, leb_ℤ, ◌-ℤ◌}
use dogwood.Map
use dogwood.Ast
use dogwood.Ast.{pred, no_args, arg, var, append_args}
use dogwood.Event
use dogwood.Rows
use dogwood.Value
use dogwood.Loop
use dogwood.Resolve
use dogwood.Resolve.{in_window, match_predicate}
use dogwood.Resolve.Window.{in_window-exact}
use dogwood.Eval
use dogwood.Eval.{eval_condition, match_occurrences}
use dogwood.Eval.Semantics.{Holds}
use dogwood.Eval.Holds.{eval_condition-Holds}
use dogwood.Eval.Total.{eval_condition-Returns}
use dogwood.Eval.Past.{append_events, eval_condition-append_events}
use dogwood.Loop.Laws.{Returns}
use dogwood.Pins.{Pin, context, DerivedEvent, inject_into_predicate, pins_of, get_event}
use dogwood.Pins.Unforgeable.{keep_if, pin_holds, inject-match_predicate}
use dogwood.Examples.{history, logged_in, one_login, login, login_data, minute}

-- The aggregate over the last minute counts one login.
one_login_run : eval_condition history 1 [] one_login ≡ value true
unfolding eval_condition Eval.eval_comparison Eval.shed_for_binders Ast.binder_name Ast.slot_name
    Ast.within_interval Eval.formerly_rows Loop.collect_up Eval.rows_in_window in_window
    Event.trace_ts Event.point Int.saturating_sub Int.clamp_i64 Int.◌-ℤ◌ Ast.interval_seconds
    Int.saturating_mul Int.◌*ℤ◌ Ast.unit_seconds match_predicate Event.trace_event Resolve.path_eq
    str_eq Resolve.match_args Resolve.match_args_from Resolve.match_arg Event.field_path
    Event.path_descend Event.descend Ast.arg_path split Map.get Map.insert Map.remove
    Rows.project_dedup Rows.project_all Rows.project Rows.push_all_new Rows.push_new
    Rows.find_column Rows.rows_eq Eval.compare_values Resolve.resolve_term Value.dom_eq
    Value.value_eq
one_login_run = refl

in_range : 1 < Event.trace_len history
unfolding Event.trace_len
in_range = omega arith

eval_condition-Holds_example :
    (eval_condition history 1 [] logged_in ≡ value true) ↔ Holds history 1 [] logged_in
eval_condition-Holds_example = eval_condition-Holds history logged_in 1 [] in_range (tt, (tt, tt))

eval_condition-Returns_example : Returns (eval_condition history 1 [] one_login)
eval_condition-Returns_example =
    eval_condition-Returns history one_login 1 [] in_range (((tt, tt), (tt, (tt, tt))), tt)

eval_condition-append_events_example :
    (eval_condition (append_events history (login ∷ [])) 1 [] one_login
      ≡ eval_condition history 1 [] one_login)
    × (match_occurrences (append_events history (login ∷ [])) 1 [] one_login
        ≡ match_occurrences history 1 [] one_login)
eval_condition-append_events_example =
    eval_condition-append_events history (login ∷ []) one_login 1 [] in_range

in_window-exact_example :
    in_window history 1 0 minute
    ≡ value
        (leb_ℤ (pos 0) (pos 70 -ℤ pos 10) && leb_ℤ (pos 70 -ℤ pos 10) (Ast.interval_seconds minute))
unfolding Event.trace_ts Event.point Ast.interval_seconds Int.saturating_mul Int.◌*ℤ◌
    Ast.unit_seconds Int.clamp_i64
in_window-exact_example =
    in_window-exact history 1 0 minute (pos 70) (pos 10) refl refl (omega arith)

abbrev pub user_pin : Pin
user_pin = record { field_path = str "user" ∷ []; context_path = str "user" ∷ []; root = context }

abbrev pinned : List DerivedEvent
pinned =
    record {
      namespace = [];
      action = str "Login";
      kind = str "Request";
      decision = true;
      pins = user_pin ∷ [];
    }
    ∷ []

inject-match_predicate_example :
    match_predicate history 0 [] (
      inject_into_predicate pinned
        (pred [] (str "Login") (str "Request") (arg (str "user") (var (str "u")) no_args)))
    ≡ map_exec
        (keep_if (
          all
            (pin_holds [] login_data)
            (pins_of (get_event pinned [] (str "Login") (str "Request")))))
        (match_predicate history 0 []
          (pred [] (str "Login") (str "Request") (arg (str "user") (var (str "u")) no_args)))
unfolding Event.trace_event Event.point
inject-match_predicate_example =
    inject-match_predicate pinned history 0 [] login_data [] (str "Login") (str "Request")
      (arg (str "user") (var (str "u")) no_args) refl
