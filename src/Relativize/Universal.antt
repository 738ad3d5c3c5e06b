-- ===== src/Relativize/Universal.antt =====
-- Universal symmetric pins, dogwood-language/src/event_schema/relativize.rs.
use dogwood.Prelude.{
  Bool, true, false, ◌&&◌, ◌||◌, List, [], ◌∷◌, Str, str, str_eq, join, any, all, filter_by, map,
}
use dogwood.Resolve.{path_eq}
use dogwood.Pins.{PinRoot, context, scope, Pin, DerivedEvent}

pub record UniversalPin : Type 0 where
  pub field_path : List Str
  pub context_path : List Str
  pub root : PinRoot

abbrev pub root_eq : PinRoot → PinRoot → Bool
root_eq context context = true
root_eq scope scope = true
root_eq _ _ = false

-- The derived equality of `Pin`.
unfoldable pub pin_eq : Pin → Pin → Bool
pin_eq p q =
    (path_eq p.field_path q.field_path && path_eq p.context_path q.context_path)
    && root_eq p.root q.root

-- The reserved names of the principal and the resource.
abbrev pub is_scope_alias : Str → Str → Bool
is_scope_alias field scope_path =
    (str_eq field (str "callerPrincipal") && str_eq scope_path (str "principal"))
    || (str_eq field (str "callerResource") && str_eq scope_path (str "resource"))

abbrev pub symmetric_path : PinRoot → List Str → List Str → Bool
symmetric_path context context_path field_path = path_eq context_path field_path
symmetric_path scope context_path field_path =
    is_scope_alias (join (str ".") field_path) (join (str ".") context_path)

unfoldable pub is_symmetric : Pin → Bool
is_symmetric p = symmetric_path p.root p.context_path p.field_path

abbrev pub contains_pin : List Pin → Pin → Bool
contains_pin pins p = any (λ q. pin_eq q p) pins

abbrev pub universal_pin : Pin → UniversalPin
universal_pin p = record { field_path = p.field_path; context_path = p.context_path; root = p.root }

-- The symmetric pins of the first event that every other event has too.
unfoldable pub universal_pins : List DerivedEvent → List UniversalPin
universal_pins [] = []
universal_pins (first ∷ others) = map universal_pin (
    filter_by (λ p. all (λ (e : DerivedEvent). contains_pin e.pins p) others)
      (filter_by is_symmetric first.pins))
