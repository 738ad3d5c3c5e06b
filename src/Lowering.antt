-- ===== src/Lowering.antt =====
-- The lowering of temporal leaves, dogwood-language/src/api.rs: the partition keys of `Base::derive`, the
-- injection of `lower_entry`, the relativized leaves of `merge`, and `reject_temporal_arrays`.
pub mod Own
pub mod Together
use dogwood.Prelude.{Bool, true, false, ◌||◌, List, [], ◌∷◌, Str, str, any, map, if◌then◌else◌}
use dogwood.Prelude.Panics.{Exec, value, ◌>>=◌}
use dogwood.Prelude.Results.{Result, ok, err}
use dogwood.Ast
use dogwood.Ast.{
  Condition, and, or, formerly, previous, since, predicate, comparison, exists, tp, call, sigil_ref,
  refine, Predicate, pred, NamedArgs, no_args, arg, Term, agg, AggExpr, sum, count, agg_call,
}
use dogwood.LeafMap.{TemporalField}
use dogwood.Engine.{PartitionKey}
use dogwood.Pins.{DerivedEvent, inject_pins}
use dogwood.Relativize.{UniversalPin, universal_pins, relativize_condition}

-- The key of a pin: events are routed on the pinned field.
abbrev pub key_of_pin : UniversalPin → PartitionKey
key_of_pin p = record { field_path = p.field_path; root = p.root; context_path = p.context_path }

unfoldable pub keys_of_pins : List UniversalPin → List PartitionKey
keys_of_pins pins = map key_of_pin pins

-- `for leaf in context_fields.iter_mut() { inject_pins(…) }`
unfoldable pub inject_leaves : List DerivedEvent → List TemporalField → List TemporalField
inject_leaves schema [] = []
inject_leaves schema (f ∷ leaves) =
    record f { condition = inject_pins schema f.condition } ∷ inject_leaves schema leaves

-- The leaves that are run on a single history.
unfoldable pub relativize_leaves :
    List DerivedEvent → List UniversalPin → List TemporalField → Exec (List TemporalField)
relativize_leaves schema pins [] = value []
relativize_leaves schema pins (f ∷ leaves) =
    let rest = relativize_leaves schema pins leaves in
    do
      c ← relativize_condition f.condition schema pins
      later ← rest
      value (record f { condition = c } ∷ later)

unfoldable mutual
  pub condition_has_array : Condition → Bool
  condition_has_array (and l r) = condition_has_array l || condition_has_array r
  condition_has_array (or l r) = condition_has_array l || condition_has_array r
  condition_has_array (since l w r) = condition_has_array l || condition_has_array r
  condition_has_array (Condition.not c) = condition_has_array c
  condition_has_array (formerly w c) = condition_has_array c
  condition_has_array (previous w c) = condition_has_array c
  condition_has_array (exists x c) = condition_has_array c
  condition_has_array (predicate (pred ns a k args)) = args_have_array args
  condition_has_array (comparison op l r) = term_has_array l || term_has_array r
  condition_has_array (refine base fields) = condition_has_array base || args_have_array fields
  condition_has_array _ = false

  pub args_have_array : NamedArgs → Bool
  args_have_array no_args = false
  args_have_array (arg n t rest) = term_has_array t || args_have_array rest

  -- Arithmetic is not entered.
  pub term_has_array : Term → Bool
  term_has_array (Term.array ts) = true
  term_has_array (agg e) = agg_has_array e
  term_has_array _ = false

  pub agg_has_array : AggExpr → Bool
  agg_has_array (sum x vars c) = condition_has_array c
  agg_has_array (count vars c) = condition_has_array c
  agg_has_array (agg_call c) = false

abbrev pub array_text : Str
array_text =
    str
      "temporal predicate arguments cannot contain array constants (e.g. `field: [\"a\", \"b\"]`); use scalar values or `context` field references instead"

-- Over the temporal blocks of all policies, in order, without the position of the block at fault.
unfoldable pub reject_temporal_arrays : List Condition → Result (Unit {0})
reject_temporal_arrays [] = ok tt
reject_temporal_arrays (c ∷ blocks) =
    let rest = reject_temporal_arrays blocks in
    if condition_has_array c then err array_text else rest
