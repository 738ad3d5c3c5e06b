-- ===== src/Check.antt =====
-- The static rules on a temporal condition, dogwood-language/src/extension/temporal/check.rs:
-- `check_condition`, `check_aggregation`, `check_leaf_closed`, `reject_arithmetic_unless_enabled`.
mod Restrict
mod Sigils
mod Free
mod Arithmetic
pub mod Names
pub mod Columns
pub mod Matches
pub mod Equalities
pub mod Restricted
pub mod Safe
pub mod Demands
pub mod Ordered
pub mod Places
pub mod Chains
use dogwood.Prelude.{
  Bool, true, false, not, ◌&&◌, ◌||◌, Option, none, some, List, [], ◌∷◌, ◌++◌, Str, str, str_eq,
  join, any, map, if◌then◌else◌,
}
use dogwood.Prelude.Results.{Result, ok, err, ◌>>=◌, ◌>>◌}
use dogwood.LeafMap.{StrSet, set_insert, set_contains}
use dogwood.Ast
use dogwood.Ast.{
  BinderSlot, name, slot_param, slot_binder, TypedBinder, Condition, and, or, formerly, previous,
  since, predicate, comparison, exists, tp, call, sigil_ref, refine, Predicate, pred, NamedArgs,
  no_args, arg, Term, agg, arithmetic, Terms, no_terms, item, AggExpr, sum, count, agg_call,
}
unfoldable pub use Restrict.*
unfoldable pub use Sigils.*
unfoldable pub use Free.*
unfoldable pub use Arithmetic.*

abbrev pub nested_agg_text : Str
nested_agg_text =
    str
      "an aggregate (`sum`/`count`) may appear only as the immediate operand of a comparison, not as a predicate-argument value or nested in another term"

abbrev pub nested_arithmetic_text : Str
nested_arithmetic_text =
    str
      "arithmetic (`+`/`-`/`*`) may appear only as the immediate operand of a comparison, not as a predicate-argument value or nested in another term"

unfoldable mutual
  pub reject_nested_agg : Term → Result (Unit {0})
  reject_nested_agg (agg e) = err nested_agg_text
  reject_nested_agg (arithmetic op l r) = err nested_arithmetic_text
  reject_nested_agg (Term.array ts) = reject_nested_aggs ts
  reject_nested_agg _ = ok tt

  pub reject_nested_aggs : Terms → Result (Unit {0})
  reject_nested_aggs no_terms = ok tt
  reject_nested_aggs (item t ts) = reject_nested_agg t >> reject_nested_aggs ts

unfoldable pub reject_nested_in_args : NamedArgs → Result (Unit {0})
reject_nested_in_args no_args = ok tt
reject_nested_in_args (arg n t rest) = reject_nested_agg t >> reject_nested_in_args rest

-- Cedar's request variables.
abbrev pub reserved_binder_names : List Str
reserved_binder_names = str "principal" ∷ str "action" ∷ str "resource" ∷ str "context" ∷ []

abbrev pub quoted : Str → Str
quoted n = str "`" ++ (n ++ str "`")

unfoldable pub reject_reserved_binder : BinderSlot → Result (Unit {0})
reject_reserved_binder (name n) =
    if any (λ r. str_eq r n) reserved_binder_names
    then err (
        quoted n
        ++ str
            " is a reserved word and cannot be used as a binder name; `principal`, `action`, `resource`, and `context` are the Cedar request variables — rename the `exists` / `for` / `tp` variable")
    else ok tt
reject_reserved_binder _ = ok tt

-- How to bind a variable, in the words of both messages.
abbrev binding_hint : Str → Str
binding_hint n =
    str "bind it with a predicate field (`P{ f: "
    ++ (n
        ++ (str " }`), a `tp("
            ++ (n ++ (str ")`, or an equality (`(count …) == " ++ (n ++ str "`)")))))

abbrev pub unrestricted_text : Str → Str
unrestricted_text n =
    str "existential variable "
    ++ (quoted n
        ++ (str " is not range-restricted by any positive atom in the `exists` body; "
            ++ binding_hint n))

abbrev pub restricted_or : Bool → Str → Result (Unit {0})
restricted_or true n = ok tt
restricted_or false n = err (unrestricted_text n)

unfoldable pub check_exists_safe : BinderSlot → Condition → Result (Unit {0})
check_exists_safe (name n) body =
    if body_has_sigil body
    then ok tt
    else restricted_or (set_contains (collect_range_restricted body []) n) n
check_exists_safe _ body = ok tt

abbrev pub insert_slot : BinderSlot → StrSet → StrSet
insert_slot (name n) bound = set_insert bound n
insert_slot _ bound = bound

abbrev pub is_sigil_slot : BinderSlot → Bool
is_sigil_slot (name n) = false
is_sigil_slot _ = true

abbrev pub slot_text : BinderSlot → Str
slot_text (name n) = n
slot_text (slot_param p) = str "?" ++ p
slot_text (slot_binder b) = str "$" ++ b

unfoldable pub fmt_for_vars : List TypedBinder → Str
fmt_for_vars vars = join (str ", ") (map (λ (v : TypedBinder). slot_text v.slot) vars)

unfoldable pub reject_reserved_binders : List TypedBinder → Result (Unit {0})
reject_reserved_binders [] = ok tt
reject_reserved_binders (v ∷ vars) = reject_reserved_binder v.slot >> reject_reserved_binders vars

unfoldable pub insert_slots : List TypedBinder → StrSet → StrSet
insert_slots [] bound = bound
insert_slots (v ∷ vars) bound = insert_slots vars (insert_slot v.slot bound)

-- The first name of the set that fails the test, in the order of the set.
unfoldable pub find_missing : (Str → Bool) → StrSet → Option Str
find_missing has [] = none
find_missing has ((n, u) ∷ names) = if has n then find_missing has names else some n

-- The first `for` variable that fails the test.
unfoldable pub find_unmet : (Str → Bool) → List TypedBinder → Option Str
find_unmet has [] = none
find_unmet has (v ∷ vars) =
    if has (slot_text v.slot) then find_unmet has vars else some (slot_text v.slot)

abbrev pub none_or : Option Str → (Str → Str) → Result (Unit {0})
none_or none text = ok tt
none_or (some n) text = err (text n)

abbrev pub summand_text : List TypedBinder → Str → Str
summand_text vars n =
    str "aggregation sums "
    ++ (quoted n
        ++ (str ", which is not one of its `for` binders ("
            ++ (fmt_for_vars vars
                ++ str
                    "); the summed variable must appear in the `for` list (the sum is computed over the `for` columns)")))

abbrev pub check_summand : Option BinderSlot → List TypedBinder → Result (Unit {0})
check_summand none vars = ok tt
check_summand (some x) vars =
    if any (λ (v : TypedBinder). str_eq (slot_text v.slot) (slot_text x)) vars
    then ok tt
    else err (summand_text vars (slot_text x))

abbrev pub unbound_text : List TypedBinder → Str → Str
unbound_text vars n =
    str "variable "
    ++ (quoted n
        ++ (str " is used in the aggregation body but is bound by neither the `for` list ("
            ++ (fmt_for_vars vars ++ str ") nor an enclosing binder; add it to the `for` list")))

abbrev pub unused_text : List TypedBinder → Str → Str
unused_text vars n =
    str "`for`-variable "
    ++ (quoted n
        ++ (str " does not occur in the aggregation body ("
            ++ (fmt_for_vars vars
                ++ str
                    "); a group-by variable must be used in the `where` body, otherwise the grouping ranges over an unbounded domain")))

abbrev pub unrestricted_for_text : Str → Str
unrestricted_for_text n =
    str "aggregation `for`-variable "
    ++ (quoted n
        ++ (str " is not range-restricted by any positive atom in the `where` body; "
            ++ (binding_hint n
                ++ str
                    " — an occurrence under a negation or in the left operand of a `since` does not restrict")))

abbrev pub is_sigil_option : Option BinderSlot → Bool
is_sigil_option none = false
is_sigil_option (some x) = is_sigil_slot x

abbrev pub has_sigil_slots : Option BinderSlot → List TypedBinder → Bool
has_sigil_slots x vars = is_sigil_option x || any (λ (v : TypedBinder). is_sigil_slot v.slot) vars

-- `check_aggregation`, before the recursion into its body.
unfoldable pub check_aggregation :
    Option BinderSlot → List TypedBinder → Condition → StrSet → Result (Unit {0})
check_aggregation bound_var vars body inner =
    reject_reserved_binders vars
    >> check_summand bound_var vars
    >> none_or (find_missing (set_contains inner) (collect_free body [])) (unbound_text vars)
    >> none_or (find_unmet (set_contains (collect_free body [])) vars) (unused_text vars)
    >> none_or (find_unmet (set_contains (collect_range_restricted body [])) vars)
        unrestricted_for_text

unfoldable mutual
  pub check_condition : Condition → StrSet → Result (Unit {0})
  check_condition (and l r) bound = check_condition l bound >> check_condition r bound
  check_condition (or l r) bound = check_condition l bound >> check_condition r bound
  check_condition (Condition.not c) bound = check_condition c bound
  check_condition (formerly w c) bound = check_condition c bound
  check_condition (previous w c) bound = check_condition c bound
  check_condition (since l w r) bound = check_condition l bound >> check_condition r bound
  check_condition (refine base fields) bound = check_condition base bound
  check_condition (exists x c) bound =
      reject_reserved_binder x.slot
      >> check_exists_safe x.slot c
      >> check_condition c (insert_slot x.slot bound)
  check_condition (comparison op l r) bound = check_operand l bound >> check_operand r bound
  check_condition (predicate (pred ns a k args)) bound = reject_nested_in_args args
  check_condition (tp x) bound = reject_reserved_binder x
  check_condition (call c) bound = ok tt
  check_condition (sigil_ref s n) bound = ok tt

  pub check_operand : Term → StrSet → Result (Unit {0})
  check_operand (agg e) bound = check_agg_expr e bound
  check_operand (arithmetic op l r) bound = check_operand l bound >> check_operand r bound
  check_operand other bound = reject_nested_agg other

  pub check_agg_expr : AggExpr → StrSet → Result (Unit {0})
  check_agg_expr (sum x vars body) bound =
      let rest = check_condition body (insert_slots vars bound) in
      if has_sigil_slots (some x) vars
      then ok tt
      else check_aggregation (some x) vars body (insert_slots vars bound) >> rest
  check_agg_expr (count vars body) bound =
      let rest = check_condition body (insert_slots vars bound) in
      if has_sigil_slots none vars
      then ok tt
      else check_aggregation none vars body (insert_slots vars bound) >> rest
  check_agg_expr (agg_call c) bound = ok tt

abbrev pub free_text : Str → Str
free_text n =
    str "variable "
    ++ (quoted n
        ++ (str
              " is free in this temporal condition (bound by no `exists` binder or aggregation `for` list); a temporal condition must be closed — wrap it as `exists ("
            ++ (n ++ str ": <type>). (…)`, or use `*` to match any value")))

unfoldable pub check_leaf_closed : Condition → Result (Unit {0})
check_leaf_closed c = none_or (find_missing (λ n. false) (collect_free c [])) free_text

-- The gate of the feature `experimental-arithmetic`, off by default.
unfoldable pub reject_arithmetic_unless_enabled : Bool → Condition → Result (Unit {0})
reject_arithmetic_unless_enabled enabled c =
    if enabled
    then ok tt
    else (if condition_has_arith c
        then err (str "arithmetic in comparison operands is not yet supported")
        else ok tt)
