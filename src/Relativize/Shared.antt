-- ===== src/Relativize/Shared.antt =====
-- Which pins are universal: `universal_pins` of dogwood-language/src/event_schema/relativize.rs.
use dogwood.Prelude.{
  ◌≡◌, ◌∙◌, refl, sym, ap, Bool, true, ◌&&◌, List, [], ◌∷◌, Str, str_eq_refl, all, All, map,
  filter_by, arith, Bool-cases, inl, inr, &&_split,
}
use dogwood.Resolve.{path_eq}
use dogwood.Pins.{PinRoot, context, scope, Pin, DerivedEvent}
use dogwood.Relativize.{
  UniversalPin, universal_pin, universal_pins, root_eq, pin_eq, contains_pin, is_symmetric,
}
use dogwood.Relativize.Mine.{pin_of, pin_eq_sound, ArePinsOf}

path_eq_refl : (a : List Str) → path_eq a a ≡ true
unfolding path_eq
path_eq_refl [] = refl
path_eq_refl (x ∷ a) = rw (str_eq_refl x, path_eq_refl a) refl

root_eq_refl : (r : PinRoot) → root_eq r r ≡ true
root_eq_refl context = refl
root_eq_refl scope = refl

pin_eq_refl : (p : Pin) → pin_eq p p ≡ true
unfolding pin_eq
pin_eq_refl p =
    rw (path_eq_refl p.field_path, path_eq_refl p.context_path, root_eq_refl p.root) refl

any-filter :
    (h : Pin → Bool) (pins : List Pin) (p : Pin)
    → contains_pin (filter_by h pins) p ≡ (h p && contains_pin pins p)
any-filter h [] p = ground arith
any-filter h (q ∷ pins) p = elim (Bool-cases (pin_eq q p)) [
  | inl same ↦ ground (arith, ap h (pin_eq_sound q p same), any-filter h pins p)
  | inr other ↦ ground (arith, any-filter h pins p)
]

any-map :
    (pins : List Pin) (p : Pin)
    → contains_pin (map pin_of (map universal_pin pins)) p ≡ contains_pin pins p
any-map [] p = refl
any-map (q ∷ pins) p = rw (any-map pins p) refl

-- A pin is universal exactly if it is symmetric and a pin of every kind of the schema.
pub universal_pins_lem :
    (first : DerivedEvent) (others : List DerivedEvent) (p : Pin)
    → contains_pin (map pin_of (universal_pins (first ∷ others))) p
      ≡ (is_symmetric p && all (λ (e : DerivedEvent). contains_pin e.pins p) (first ∷ others))
unfolding universal_pins
universal_pins_lem first others p =
    any-map _ p
    ∙ any-filter _ (filter_by is_symmetric first.pins) p
    ∙ ground (arith, any-filter is_symmetric first.pins p)

contains_cons :
    (q : UniversalPin) (us vs : List UniversalPin)
    → All (λ (u : UniversalPin). contains_pin (map pin_of us) (pin_of u) ≡ true) vs
    → All (λ (u : UniversalPin). contains_pin (map pin_of (q ∷ us)) (pin_of u) ≡ true) vs
contains_cons q us [] h = tt
contains_cons q us (v ∷ vs) h = (ground arith, contains_cons q us vs h.1)

contains_self :
    (us : List UniversalPin)
    → All (λ (u : UniversalPin). contains_pin (map pin_of us) (pin_of u) ≡ true) us
contains_self [] = tt
contains_self (u ∷ us) =
    (rw (pin_eq_refl (pin_of u)) refl, contains_cons u us us (contains_self us))

all-All :
    (p : Pin) (schema : List DerivedEvent)
    → all (λ (e : DerivedEvent). contains_pin e.pins p) schema ≡ true
    → All (λ (e : DerivedEvent). contains_pin e.pins p ≡ true) schema
all-All p [] h = tt
all-All p (e ∷ schema) h =
    let (a, b) = &&_split (contains_pin e.pins p) _ h in (a, all-All p schema b)

pub universal_pins-ArePinsOf :
    (schema : List DerivedEvent) → ArePinsOf schema (universal_pins schema)
universal_pins-ArePinsOf [] = unfold universal_pins in tt
universal_pins-ArePinsOf (first ∷ others) =
    each (universal_pins (first ∷ others)) (contains_self (universal_pins (first ∷ others)))
  where
    each :
        (us : List UniversalPin)
        → All
            (λ (u : UniversalPin).
              contains_pin (map pin_of (universal_pins (first ∷ others))) (pin_of u) ≡ true)
            us
        → ArePinsOf (first ∷ others) us
    each [] h = tt
    each (u ∷ us) h = (
      all-All (pin_of u) (first ∷ others)
          (&&_split (is_symmetric (pin_of u)) _
            (sym (universal_pins_lem first others (pin_of u)) ∙ h.0)).1,
      each us h.1,
    )
