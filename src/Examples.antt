-- ===== src/Examples.antt =====
-- A trace of two events and two leaves, on which the theorems are applied and the definitions are run.
pub mod Temporal
pub mod Domain
pub mod Engines
pub mod Decisions
pub mod Relativized
pub mod Checked
pub mod Logged
pub mod Lines
use dogwood.Prelude.{ℕ, Bool, Option, true, false, none, some, List, [], ◌∷◌, Str, str}
use dogwood.Int.{ℤ, pos}
use dogwood.Unicode.{Unicode}
use dogwood.Value
use dogwood.Value.{Value}
use dogwood.Event.{Event, EventData, EntityRecord, Trace}
use dogwood.Ast
use dogwood.Ast.{
  Interval, concrete, Condition, and, formerly, predicate, comparison, Predicate, pred, no_args,
  arg, var, context_field, agg, count, binder_name, TypedBinder,
}
use dogwood.LeafMap.{TemporalField, ActionRef, concrete_action, unconstrained}

-- No character is a grapheme extender, and all are printable: enough for ASCII.
abbrev pub ascii : Unicode
ascii = record { grapheme_extended = λ c. false; printable = λ c. true }

abbrev pub parse_any : Str → Option Str
parse_any s = some s

abbrev pub ann : Value
ann = Value.entity (str "User") (str "ann")

abbrev pub file : Value
file = Value.entity (str "File") (str "f1")

abbrev pub login_data : EventData
login_data = record {
  namespace = [];
  action = str "Login";
  kind = str "Request";
  logged =
      (str "input", Value.object (Value.field (str "ip") (Value.string (str "10.0.0.1")) Value.end))
      ∷ (str "user", ann)
      ∷ [];
  request_context = (str "user", ann) ∷ [];
  entities = [];
}

abbrev pub read_data : EventData
read_data = record login_data { action = str "Read" }

abbrev pub login : Event
login = record {
  ts = pos 10;
  scope = record { principal = some ann; resource = some file };
  event = login_data;
}

abbrev pub reading : Event
reading = record {
  ts = pos 70;
  scope = record { principal = some ann; resource = some file };
  event = read_data;
}

abbrev pub history : Trace
history = record { points = login ∷ reading ∷ [] }

abbrev pub minute : Interval
minute = record { amount = pos 1; unit = Ast.minutes }

abbrev pub login_of_user : Predicate
login_of_user = pred [] (str "Login") (str "Request") (arg (str "user") (var (str "u")) no_args)

-- formerly within 1 minute, Login::Request(user: u)
abbrev pub logged_in : Condition
logged_in = formerly (concrete minute) (predicate login_of_user)

abbrev pub user_var : TypedBinder
user_var = record { slot = Ast.name (str "u"); ty = Ast.named (str "User" ∷ []) }

-- The number of users that logged in within a minute is one.
abbrev pub one_login : Condition
one_login = comparison Ast.eq (agg (count (user_var ∷ []) logged_in)) (Ast.integer (pos 1))

abbrev pub first_leaf : TemporalField
first_leaf = record {
  id = str "t0";
  action = concrete_action (record { namespace = none; id = str "Read" });
  target_actions = record { namespace = none; id = str "Read" } ∷ [];
  condition = logged_in;
}

abbrev pub second_leaf : TemporalField
second_leaf = record {
  id = str "t1";
  action = concrete_action (record { namespace = none; id = str "Login" });
  target_actions = record { namespace = none; id = str "Login" } ∷ [];
  condition = one_login;
}

abbrev pub two_leaves : List TemporalField
two_leaves = first_leaf ∷ second_leaf ∷ []
