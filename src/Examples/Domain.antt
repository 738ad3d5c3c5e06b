-- ===== src/Examples/Domain.antt =====
-- The theorems on values, rows, maps and keys at small inputs.
use dogwood.RequestEnv
use dogwood.Resolve
use dogwood.Prelude.{
  str_lt, join, ◌≡◌, ◌↔◌, ◌||◌, ◌∷◌, refl, true, none, some, List, [], Str, str, All, str_eq,
}
use mathlib.Core.List.{Permᴰ}
use dogwood.Int.{pos}
use dogwood.Map
use dogwood.Value
use dogwood.Value.{Value, dom_eq}
use dogwood.Value.Denote.{meaning, dom_eq-meaning}
use dogwood.PartitionKey.{partition_value_key}
use dogwood.PartitionKey.Injective.{partition_value_key_iff}
use dogwood.Event
use dogwood.Event.{logged_leaves, field_path}
use dogwood.Event.Paths.{logged_leaves-field_path}
use dogwood.Rows
use dogwood.Rows.{Row, push_all_new, join_rows, sum_column, exact_sum}
use dogwood.Rows.Distinct.{has_row, has_row-push_all_new, AreDistinct, push_all_new-AreDistinct}
use dogwood.Rows.Join.{Extends, Agrees, join_rows_sound}
use dogwood.Rows.Sum.{sum_column-Perm}
use dogwood.RequestEnv.{request_env}
use dogwood.RequestEnv.Keys.{request_env-identifier}
use dogwood.Examples.{ascii, history, login_data}

dom_eq-meaning_example :
    (dom_eq (Value.decimal (str "1.50")) (Value.decimal (str "1.5")) ≡ true)
    ↔ (meaning (Value.decimal (str "1.50")) ≡ meaning (Value.decimal (str "1.5")))
dom_eq-meaning_example = dom_eq-meaning (Value.decimal (str "1.50")) (Value.decimal (str "1.5"))

abbrev row_a : Row
row_a = (str "n", Value.int (pos 3)) ∷ []

abbrev row_b : Row
row_b = (str "n", Value.int (pos 4)) ∷ (str "u", Value.string (str "ann")) ∷ []

sum_column-Perm_example :
    sum_column (row_a ∷ row_b ∷ []) (str "n") ≡ sum_column (row_b ∷ row_a ∷ []) (str "n")
sum_column-Perm_example =
    sum_column-Perm (row_a ∷ row_b ∷ []) (row_b ∷ row_a ∷ []) (str "n") ∣ Permᴰ.swap refl refl ∣₁

has_row-push_all_new_example :
    has_row (push_all_new (row_a ∷ []) (row_b ∷ row_a ∷ [])) row_a
    ≡ (has_row (row_a ∷ []) row_a || has_row (row_b ∷ row_a ∷ []) row_a)
has_row-push_all_new_example = has_row-push_all_new (row_b ∷ row_a ∷ []) (row_a ∷ []) row_a

push_all_new-AreDistinct_example : AreDistinct (push_all_new (row_a ∷ []) (row_b ∷ row_a ∷ []))
push_all_new-AreDistinct_example =
    push_all_new-AreDistinct (row_b ∷ row_a ∷ []) (row_a ∷ []) (refl, tt)

join_rows_sound_example : Extends row_a row_a × Agrees row_a row_a
unfolding join_rows Rows.join_into Rows.find_column dom_eq Value.value_eq str_eq
join_rows_sound_example = join_rows_sound row_a row_a row_a refl

logged_leaves-field_path_example :
    All
      (λ (leaf : List Str × Value). field_path login_data leaf.0 ≡ some leaf.1)
      (logged_leaves login_data)
unfolding Map.get Value.members str_eq
logged_leaves-field_path_example =
    logged_leaves-field_path login_data ((tt, refl, tt), refl, (tt, refl, tt))

abbrev pub example_env : Rows.Env
example_env =
    (str "@principal", Value.entity (str "User") (str "ann"))
    ∷ (str "@principal.id", Value.string (str "ann"))
    ∷ (str "@principal.type", Value.string (str "User"))
    ∷ (str "@resource", Value.entity (str "File") (str "f1"))
    ∷ (str "@resource.id", Value.string (str "f1"))
    ∷ (str "@resource.type", Value.string (str "File"))
    ∷ (str "context.user", Value.entity (str "User") (str "ann"))
    ∷ []

request_env-identifier_example : Map.get example_env (str "u") ≡ none
unfolding request_env Event.trace_event Event.point Event.trace_scope RequestEnv.seed_scope_env
    RequestEnv.project_names Event.resolve_entity_attr Map.get str_eq Event.project_uid
    Map.or_insert Map.insert RequestEnv.seed_context RequestEnv.seed_env Resolve.scope_env_key
    str_lt join
request_env-identifier_example =
    request_env-identifier (str "u") (record { no_dot = refl; no_at = refl }) ascii history 1 refl

partition_value_key_iff_example :
    (partition_value_key (Value.entity (str "User") (str "ann"))
      ≡ partition_value_key (Value.decimal (str "1.5")))
    ↔ (dom_eq (Value.entity (str "User") (str "ann")) (Value.decimal (str "1.5")) ≡ true)
partition_value_key_iff_example =
    partition_value_key_iff (Value.entity (str "User") (str "ann")) (Value.decimal (str "1.5")) refl
      tt
