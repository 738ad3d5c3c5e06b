-- ===== src/Examples/Checked.antt =====
-- The static rules on conditions, run and applied.
use dogwood.Prelude.{◌≡◌, refl, true, false, [], str, str_eq}
use dogwood.Prelude.Results.{ok, err}
use dogwood.Map
use dogwood.Ast.{Condition, and, exists, predicate}
use dogwood.LeafMap.{set_contains}
use dogwood.Check
use dogwood.Check.{check_condition, collect_range_restricted}
use dogwood.Check.Restricted.{Restricts, collect_range_restricted-Binds}
use dogwood.Check.Demands
use dogwood.Check.Ordered.{Consumes}
use dogwood.Check.Places.{Ordered}
use dogwood.Check.Safe.{BindersBound, check_condition-BindersBound}
use dogwood.Examples.{login_of_user, logged_in, one_login, user_var}

-- exists (u: User). formerly within 1 minute, Login::Request(user: u)
abbrev someone_logged_in : Condition
someone_logged_in = exists user_var logged_in

-- exists (u: User). !Login::Request(user: u)
abbrev unsafe_negation : Condition
unsafe_negation = exists user_var (Condition.not (predicate login_of_user))

restricted_run : set_contains (collect_range_restricted logged_in []) (str "u") ≡ true
unfolding collect_range_restricted Check.collect_arg_names Map.get Map.insert str_eq
restricted_run = refl

checked_run : check_condition someone_logged_in [] ≡ ok tt
unfolding check_condition Check.reject_reserved_binder str_eq Check.check_exists_safe
    Check.body_has_sigil Map.get collect_range_restricted Check.collect_arg_names Map.insert
    Check.reject_nested_in_args Check.reject_nested_agg
checked_run = refl

counted_run : check_condition one_login [] ≡ ok tt
unfolding check_condition Check.check_aggregation Check.reject_reserved_binders
    Check.reject_reserved_binder str_eq Check.find_missing Check.collect_free Map.insert Map.get
    Check.insert_slots Check.find_unmet collect_range_restricted Check.collect_arg_names
    Check.reject_nested_in_args Check.reject_nested_agg
counted_run = refl

unsafe_run : check_condition unsafe_negation [] ≡ Check.restricted_or false (str "u")
unfolding check_condition Check.reject_reserved_binder str_eq Check.check_exists_safe
    Check.body_has_sigil Map.get collect_range_restricted
unsafe_run = refl

collect_range_restricted-Binds_example : Restricts (str "u") logged_in
collect_range_restricted-Binds_example =
    collect_range_restricted-Binds (str "u") logged_in restricted_run

check_condition-BindersBound_example : BindersBound one_login
check_condition-BindersBound_example =
    check_condition-BindersBound one_login [] (((tt, tt), (tt, (tt, tt))), tt) counted_run

-- formerly within 1 minute, Login::Request(user: u) && !Login::Request(user: u), and the other way round.
abbrev bound_then_filtered : Condition
bound_then_filtered = and logged_in (Condition.not (predicate login_of_user))

abbrev filtered_then_bound : Condition
filtered_then_bound = and (Condition.not (predicate login_of_user)) logged_in

ordered_run : Demands.check_demands bound_then_filtered ≡ ok tt
unfolding Demands.check_demands Demands.check_chain Demands.flatten_and Check.body_has_sigil
    Demands.visit Demands.check_conjunct_demands Demands.reject_unmet_filter_var Check.find_missing
    Check.collect_free Map.insert Map.get collect_range_restricted Check.collect_arg_names str_eq
ordered_run = refl

unordered_run : Demands.check_demands filtered_then_bound ≡ err (Demands.filter_text (str "u"))
unfolding Demands.check_demands Demands.check_chain Demands.flatten_and Check.body_has_sigil
    Demands.visit Demands.check_conjunct_demands Demands.reject_unmet_filter_var Check.find_missing
    Check.collect_free Map.insert Map.get
unordered_run = refl

filter_reads : Consumes (Condition.not (predicate login_of_user)) (str "u")
unfolding Check.collect_free Map.get Map.insert str_eq
filter_reads = refl

-- exists (u: User). formerly within 1 minute, Login::Request(user: u) && !Login::Request(user: u)
abbrev closed_filter : Condition
closed_filter = exists user_var bound_then_filtered

closed_run : Check.check_leaf_closed closed_filter ≡ ok tt
unfolding Check.check_leaf_closed Check.find_missing Check.collect_free Map.extend Map.remove
    Map.insert str_eq
closed_run = refl
