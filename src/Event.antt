-- ===== src/Event.antt =====
-- Events and traces, dogwood-language/src/interpreter/value.rs: `EventData`, `Event`, `Trace` and the
-- readers of their fields.
pub mod Paths
use dogwood.Prelude.{
  ℕ, Bool, true, false, Option, none, some, List, [], ◌∷◌, ◌++◌, map, Str, str, str_eq, get_elem?,
  length, if◌then◌else◌,
}
use dogwood.Prelude.Options
use dogwood.Prelude.Options.{◌>>=◌}
use dogwood.Prelude.Panics.{Exec, of_option, map_exec}
use dogwood.Int.{ℤ}
use dogwood.Map
use dogwood.Map.{Map}
use dogwood.Unicode.{Unicode, entity_uid_string}
use dogwood.Value.{Value, string, entity, object, Fields, end, field, members}

pub record EntityRecord : Type 0 where
  pub attrs : Map Value
  pub parents : List Value

pub record EventData : Type 0 where
  pub namespace : List Str
  pub action : Str
  pub kind : Str
  pub logged : Map Value
  pub request_context : Map Value
  pub entities : Map EntityRecord

pub record Scope : Type 0 where
  pub principal : Option Value
  pub resource : Option Value

pub record Event : Type 0 where
  pub ts : ℤ
  pub scope : Scope
  pub event : EventData

pub record Trace : Type 0 where
  pub points : List Event

-- The loop over the segments below the first: each must be a member of a record.
unfoldable pub descend : List Str → Value → Option Value
descend [] cur = some cur
descend (seg ∷ rest) (object fs) = Map.get (members fs) seg >>= descend rest
descend (seg ∷ rest) _ = none

unfoldable pub path_descend : Map Value → List Str → Option Value
path_descend top [] = none
path_descend top (head ∷ rest) = Map.get top head >>= descend rest

unfoldable pub field_path : EventData → List Str → Option Value
field_path d path = path_descend d.logged path

unfoldable pub request_context_path : EventData → List Str → Option Value
request_context_path d path = path_descend d.request_context path

-- `.id` and `.type` read the uid itself.
unfoldable pub project_uid : Str → Str → Str → Option Value
project_uid ty id attr =
    if str_eq attr (str "id")
    then some (string id)
    else (if str_eq attr (str "type") then some (string ty) else none)

abbrev pub supplied_attr : Map EntityRecord → Str → Str → Option Value
supplied_attr entities uid attr = do rec ← Map.get entities uid; Map.get rec.attrs attr

-- The attribute start, if it was supplied, and the fallback of a single segment.
abbrev pub resolve_from : Option Value → Str → Str → Str → List Str → Option Value
resolve_from (some start) ty id attr deeper = descend deeper start
resolve_from none ty id attr [] = project_uid ty id attr
resolve_from none ty id attr (_ ∷ _) = none

unfoldable pub resolve_entity_attr : Unicode → EventData → Str → Str → List Str → Option Value
resolve_entity_attr u d ty id [] = none
resolve_entity_attr u d ty id (attr ∷ deeper) =
    resolve_from (supplied_attr d.entities (entity_uid_string u ty id) attr) ty id attr deeper

-- Every field with its path: a record is given whole, and then its members.
unfoldable mutual
  pub collect_value : List Str → Value → List (List Str × Value)
  collect_value path (object fs) = (path, object fs) ∷ collect_fields path fs
  collect_value path v = (path, v) ∷ []

  pub collect_fields : List Str → Fields → List (List Str × Value)
  collect_fields path end = []
  collect_fields path (field k v fs) = collect_value (path ++ k ∷ []) v ++ collect_fields path fs

unfoldable pub collect_logged_leaves : Map Value → List (List Str × Value)
collect_logged_leaves [] = []
collect_logged_leaves ((k, v) ∷ m) = collect_value (k ∷ []) v ++ collect_logged_leaves m

unfoldable pub logged_leaves : EventData → List (List Str × Value)
logged_leaves d = collect_logged_leaves d.logged

-- A trace is indexed by timepoint; an index out of range panics.
unfoldable pub trace_len : Trace → ℕ
trace_len trace = length trace.points

unfoldable pub point : Trace → ℕ → Exec Event
point trace i = of_option (get_elem? trace.points i)

unfoldable pub trace_ts : Trace → ℕ → Exec ℤ
trace_ts trace i = map_exec (λ (e : Event). e.ts) (point trace i)

unfoldable pub trace_event : Trace → ℕ → Exec EventData
trace_event trace i = map_exec (λ (e : Event). e.event) (point trace i)

unfoldable pub trace_scope : Trace → ℕ → Exec Scope
trace_scope trace i = map_exec (λ (e : Event). e.scope) (point trace i)
