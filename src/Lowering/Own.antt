-- ===== src/Lowering/Own.antt =====
-- The partition of a request holds the events that its universal pins call its own:
-- `partition_value_of` of dogwood-language/src/engine.rs against `mu` of
-- dogwood-language/src/event_schema/relativize.rs.
use dogwood.Prelude.{
  ◌≡◌, ◌↔◌, ◌∙◌, refl, sym, Bool, true, false, Option, none, some, List, [], ◌∷◌, str, str_eq,
  str_eq_iff, join, any, all, All, &&_split,
}
use dogwood.Value.{Value}
use dogwood.Value.Denote.{dom_eq-meaning}
use dogwood.Event.{Event, field_path}
use dogwood.Ast.{arg_path}
use dogwood.Rows.{Env}
use dogwood.Pins.{DerivedEvent}
use dogwood.Pins.Unforgeable.{both_agree, pin_holds, pin_value}
use dogwood.Engine.{partition_value_of}
use dogwood.Engine.Partition.{same_partition}
use dogwood.Engine.Routing.{Agree, KeysUnquoted, AgreeOn, partition_value_of_iff}
use dogwood.Relativize.{UniversalPin}
use dogwood.Relativize.Mine.{pin_of, is_mine, has_identity}
use dogwood.Relativize.Local.{own_events}
use dogwood.Lowering.{keys_of_pins}

-- No segment of the pinned path holds a dot, so the argument that a pin becomes reads the same path.
abbrev pub PathsKept : List UniversalPin → Type 0
PathsKept pins =
    All (λ (u : UniversalPin). arg_path (join (str ".") u.field_path) ≡ u.field_path) pins

-- The event is of a declared kind, and no entity type in a key field of it or of the decision has a quote.
abbrev pub IsRoutable : List DerivedEvent → List UniversalPin → Event → Event → Type 0
IsRoutable schema pins decision x =
    (any (has_identity x.event) schema ≡ true) × KeysUnquoted x decision (keys_of_pins pins)

bool_ext : (a b : Bool) → (a ≡ true) ↔ (b ≡ true) → a ≡ b
bool_ext true b h = sym (h.0 refl)
bool_ext false true h = h.1 refl
bool_ext false false h = refl

both_agree-Agree :
    (o d r : Option Value) → both_agree d r ≡ true → (both_agree o r ≡ true) ↔ Agree o d
both_agree-Agree o none r h = cc
both_agree-Agree o (some d) none h = cc
both_agree-Agree none (some d) (some w) h = (λ k. cc, λ k. absurd k)
both_agree-Agree (some v) (some d) (some w) h =
    let same = (dom_eq-meaning w d).0 h in
    (
      λ k. (dom_eq-meaning v d).1 (sym ((dom_eq-meaning w v).0 k) ∙ same),
      λ k. (dom_eq-meaning w v).1 (same ∙ sym ((dom_eq-meaning v d).0 k)),
    )

module _ (start : Env) (schema : List DerivedEvent) (decision : Event) where
  abbrev agrees : Event → UniversalPin → Bool
  agrees x u = pin_holds start x.event (pin_of u)

  all_pins :
      (pins : List UniversalPin) (x : Event)
      → PathsKept pins
      → all (agrees decision) pins ≡ true
      → (all (agrees x) pins ≡ true) ↔ AgreeOn x decision (keys_of_pins pins)
  unfolding keys_of_pins
  all_pins [] x k h = (λ a. tt, λ a. refl)
  all_pins (u ∷ pins) x k h =
      let (here, later) = &&_split (agrees decision u) _ h in
      let ih = all_pins pins x k.1 later in
      let one =
        both_agree-Agree (field_path x.event u.field_path) (field_path decision.event u.field_path)
          (pin_value start u.root u.context_path) (rw k.0 at here) in
      (
        λ a. let (p, q) = &&_split (agrees x u) _ a in (one.0 (rw k.0 at p), ih.0 q),
        λ a. rw (k.0, one.1 a.0, ih.1 a.1) refl,
      )

  own_key :
      (pins : List UniversalPin) (x : Event)
      → PathsKept pins
      → is_mine start schema pins decision.event ≡ true
      → IsRoutable schema pins decision x
      → str_eq
          (partition_value_of x (keys_of_pins pins))
          (partition_value_of decision (keys_of_pins pins))
        ≡ is_mine start schema pins x.event
  unfolding is_mine
  own_key pins x k mine r =
      let routed = partition_value_of_iff x decision (keys_of_pins pins) r.1 in
      let agree = all_pins pins x k (&&_split _ _ mine).1 in
      bool_ext _ _ (
        λ e. rw (r.0, agree.1 (routed.0 ((str_eq_iff _ _).0 e))) refl,
        λ m. (str_eq_iff _ _).1 (routed.1 (agree.0 (&&_split _ _ m).1)),
      )

  -- The past events of the decision's partition are its own events.
  pub same_partition-own_events :
      (pins : List UniversalPin) (past : List Event)
      → PathsKept pins
      → is_mine start schema pins decision.event ≡ true
      → All (IsRoutable schema pins decision) past
      → same_partition (keys_of_pins pins) (partition_value_of decision (keys_of_pins pins)) past
        ≡ own_events start schema pins past
  unfolding same_partition own_events
  same_partition-own_events pins [] k mine r = refl
  same_partition-own_events pins (x ∷ past) k mine r =
      rw (own_key pins x k mine r.0, same_partition-own_events pins past k mine r.1) refl
