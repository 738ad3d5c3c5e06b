-- ===== src/Pins.antt =====
-- Pin injection, dogwood-language/src/event_schema/pin.rs, over the parts of a derived event schema that
-- it reads (dogwood-language/src/event_schema/derive.rs: `Pin`, `DerivedEvent`, `get`).
pub mod Unforgeable
pub mod Expanded
pub mod Coverage
use dogwood.Prelude.{
  Bool, true, false, ◌&&◌, Option, none, some, List, [], ◌∷◌, Str, str, str_eq, join, if◌then◌else◌,
}
use dogwood.Ast
use dogwood.Ast.{
  Condition, and, or, formerly, previous, since, predicate, comparison, exists, tp, call, sigil_ref,
  refine, Predicate, pred, NamedArgs, no_args, arg, Term, context_field, scope_field, agg, AggExpr,
  sum, count, agg_call, append_args,
}
use dogwood.Resolve.{path_eq}

pub data PinRoot : Type 0 where
  context scope : PinRoot

pub record Pin : Type 0 where
  pub field_path : List Str
  pub context_path : List Str
  pub root : PinRoot

pub record DerivedEvent : Type 0 where
  pub namespace : List Str
  pub action : Str
  pub kind : Str
  pub decision : Bool
  pub pins : List Pin

abbrev pub is_event : List Str → Str → Str → DerivedEvent → Bool
is_event namespace action kind e =
    (str_eq e.action action && str_eq e.kind kind) && path_eq e.namespace namespace

-- The first derived event of that identity.
unfoldable pub get_event : List DerivedEvent → List Str → Str → Str → Option DerivedEvent
get_event [] namespace action kind = none
get_event (e ∷ events) namespace action kind =
    if is_event namespace action kind e then some e else get_event events namespace action kind

unfoldable pub pin_term : PinRoot → List Str → Term
pin_term scope path = scope_field path
pin_term context path = context_field path

-- The arguments that the loop over the pins pushes.
unfoldable pub pin_args : List Pin → NamedArgs
pin_args [] = no_args
pin_args (p ∷ ps) = arg (join (str ".") p.field_path) (pin_term p.root p.context_path) (pin_args ps)

abbrev pub pins_of : Option DerivedEvent → List Pin
pins_of none = []
pins_of (some e) = e.pins

unfoldable pub inject_into_predicate : List DerivedEvent → Predicate → Predicate
inject_into_predicate schema (pred namespace action kind args) =
    pred namespace action kind
      (append_args args (pin_args (pins_of (get_event schema namespace action kind))))

unfoldable mutual
  pub inject_pins : List DerivedEvent → Condition → Condition
  inject_pins schema (and l r) = and (inject_pins schema l) (inject_pins schema r)
  inject_pins schema (or l r) = or (inject_pins schema l) (inject_pins schema r)
  inject_pins schema (since l w r) = since (inject_pins schema l) w (inject_pins schema r)
  inject_pins schema (Condition.not c) = Condition.not (inject_pins schema c)
  inject_pins schema (formerly w c) = formerly w (inject_pins schema c)
  inject_pins schema (previous w c) = previous w (inject_pins schema c)
  inject_pins schema (exists x c) = exists x (inject_pins schema c)
  inject_pins schema (predicate p) = predicate (inject_into_predicate schema p)
  inject_pins schema (refine c fs) = refine (inject_pins schema c) fs
  inject_pins schema (comparison op l r) =
      comparison op (inject_into_operand schema l) (inject_into_operand schema r)
  inject_pins schema (tp x) = tp x
  inject_pins schema (call c) = call c
  inject_pins schema (sigil_ref s n) = sigil_ref s n

  -- Only an aggregate at the head of an operand is entered.
  pub inject_into_operand : List DerivedEvent → Term → Term
  inject_into_operand schema (agg e) = agg (inject_into_agg schema e)
  inject_into_operand schema t = t

  pub inject_into_agg : List DerivedEvent → AggExpr → AggExpr
  inject_into_agg schema (sum x vs c) = sum x vs (inject_pins schema c)
  inject_into_agg schema (count vs c) = count vs (inject_pins schema c)
  inject_into_agg schema (agg_call c) = agg_call c
