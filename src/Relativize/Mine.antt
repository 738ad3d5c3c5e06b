-- ===== src/Relativize/Mine.antt =====
-- The own events of a request, and what an injected predicate and the predicate of an own event match:
-- `mu_branch` of dogwood-language/src/event_schema/relativize.rs.
use dogwood.Prelude.{
  ◌≡◌, ◌∙◌, refl, sym, ap, ap₂, subst, fun_ext, Bool, true, false, ◌&&◌, ||_right, Option, none,
  some, List, [], ◌∷◌, Str, str, str_eq, str_eq_iff, join, any, all, All, Bool-cases, &&_split, ◌⊎◌,
  inl, inr, map, if◌then◌else◌,
}
use dogwood.Prelude.Panics.{Exec, value, panic, map_exec}
use dogwood.Event.{EventData, field_path}
use dogwood.Ast.{pred, NamedArgs, arg_path}
use dogwood.Rows.{Env}
use dogwood.Loop.Laws.{Returns}
use dogwood.Resolve.{
  path_eq, same_identity, match_predicate, match_args, match_args_from, context_key,
}
use dogwood.Eval.Expanded.{ArgsPlain}
use dogwood.Eval.Returning.{match_args-Returns}
use dogwood.Eval.SameKeys.{SameKeys}
use dogwood.RequestEnv.Keys.{IsKey-append, scope_env_key-IsKey}
use dogwood.Pins.{
  PinRoot, context, scope, Pin, DerivedEvent, pin_args, get_event, inject_into_predicate, is_event,
}
use dogwood.Pins.Unforgeable.{
  pin_holds, pin_value, both_agree, keep_if, keep_none, match_pin_args, inject-match_predicate,
}
use dogwood.Relativize.{UniversalPin, root_eq, pin_eq, contains_pin, mu_args}
use dogwood.Relativize.Foreign.{Misses}

abbrev pub pin_of : UniversalPin → Pin
pin_of u = record { field_path = u.field_path; context_path = u.context_path; root = u.root }

abbrev pub has_identity : EventData → DerivedEvent → Bool
has_identity x e = same_identity x e.namespace e.action e.kind

-- The event is of a declared kind and agrees with the request on every universal pin.
unfoldable pub is_mine : Env → List DerivedEvent → List UniversalPin → EventData → Bool
is_mine start schema pins x =
    any (has_identity x) schema && all (λ (u : UniversalPin). pin_holds start x (pin_of u)) pins

path_eq_sound : (a b : List Str) → path_eq a b ≡ true → a ≡ b
unfolding path_eq
path_eq_sound [] [] h = refl
path_eq_sound (x ∷ a) (y ∷ b) h =
    let (p, q) = &&_split (str_eq x y) (path_eq a b) h in
    ap₂ ◌∷◌ ((str_eq_iff x y).0 p) (path_eq_sound a b q)
path_eq_sound [] (y ∷ b) h = cc
path_eq_sound (x ∷ a) [] h = cc

root_eq_sound : (a b : PinRoot) → root_eq a b ≡ true → a ≡ b
root_eq_sound context context h = refl
root_eq_sound scope scope h = refl
root_eq_sound context scope h = cc
root_eq_sound scope context h = cc

pub pin_eq_sound : (p q : Pin) → pin_eq p q ≡ true → p ≡ q
unfolding pin_eq
pin_eq_sound p q h =
    let (h', r) = &&_split _ _ h in
    let (f, c) = &&_split (path_eq p.field_path q.field_path) _ h' in
    let ef = path_eq_sound p.field_path q.field_path f in
    let ec = path_eq_sound p.context_path q.context_path c in
    let er = root_eq_sound p.root q.root r in
    λ i. record { field_path = ef i; context_path = ec i; root = er i }

all_contains :
    (f : Pin → Bool) (pins : List Pin) (p : Pin)
    → all f pins ≡ true
    → contains_pin pins p ≡ true
    → f p ≡ true
all_contains f [] p a h = cc
all_contains f (q ∷ pins) p a h = elim (Bool-cases (pin_eq q p)) [
  | inl same ↦ ap f (sym (pin_eq_sound q p same)) ∙ (&&_split (f q) _ a).0
  | inr other ↦ all_contains f pins p (&&_split (f q) _ a).1 (rw other at h)
]

-- Every pin is a pin of every kind of the schema.
abbrev pub ArePinsOf : List DerivedEvent → List UniversalPin → Type 0
ArePinsOf schema pins =
    All
      (λ (u : UniversalPin).
        All (λ (e : DerivedEvent). contains_pin e.pins (pin_of u) ≡ true) schema)
      pins

universal_contains :
    (pins : List UniversalPin) (schema : List DerivedEvent) (e : DerivedEvent) (f : Pin → Bool)
    → All (λ (u : UniversalPin). contains_pin e.pins (pin_of u) ≡ true) pins
    → all f e.pins ≡ true
    → all (λ (u : UniversalPin). f (pin_of u)) pins ≡ true
universal_contains [] schema e f h a = refl
universal_contains (u ∷ pins) schema e f h a =
    rw (all_contains f e.pins (pin_of u) a h.0, universal_contains pins schema e f h.1 a) refl

pin_value_same :
    (start env : Env) (root : PinRoot) (path : List Str)
    → SameKeys start env
    → pin_value env root path ≡ pin_value start root path
unfolding context_key
pin_value_same start env scope path s = s _ (scope_env_key-IsKey path)
pin_value_same start env context path s =
    s _ (IsKey-append (str "context.") (join (str ".") path) refl)

pub pin_holds_same :
    (start env : Env) (x : EventData) (p : Pin)
    → SameKeys start env
    → pin_holds env x p ≡ pin_holds start x p
pin_holds_same start env x p s =
    ap (both_agree (field_path x (arg_path (join (str ".") p.field_path))))
      (pin_value_same start env p.root p.context_path s)

pins_of_kind :
    (e : DerivedEvent) (schema : List DerivedEvent) (pins : List UniversalPin)
    → ArePinsOf (e ∷ schema) pins
    → All (λ (u : UniversalPin). contains_pin e.pins (pin_of u) ≡ true) pins
pins_of_kind e schema [] h = tt
pins_of_kind e schema (u ∷ pins) h = (h.0.0, pins_of_kind e schema pins h.1)

fewer_kinds :
    (e : DerivedEvent) (schema : List DerivedEvent) (pins : List UniversalPin)
    → ArePinsOf (e ∷ schema) pins
    → ArePinsOf schema pins
fewer_kinds e schema [] h = tt
fewer_kinds e schema (u ∷ pins) h = (h.0.1, fewer_kinds e schema pins h.1)

is_event_identity :
    (x : EventData) (e : DerivedEvent) (namespace : List Str) (action kind : Str)
    → is_event namespace action kind e ≡ true
    → same_identity x namespace action kind ≡ true
    → has_identity x e ≡ true
is_event_identity x e namespace action kind h k =
    let (h', ns) = &&_split _ (path_eq e.namespace namespace) h in
    let (a, d) = &&_split (str_eq e.action action) _ h' in
    let ea = (str_eq_iff e.action action).0 a in
    let ed = (str_eq_iff e.kind kind).0 d in
    let en = path_eq_sound e.namespace namespace ns in rw (ea, ed, en) k

-- The kind that the lookup finds has every universal pin, and the identity of the lookup.
found_kind :
    (schema : List DerivedEvent) (pins : List UniversalPin) (x : EventData) (namespace : List Str)
    (action kind : Str) (e : DerivedEvent)
    → ArePinsOf schema pins
    → get_event schema namespace action kind ≡ some e
    → same_identity x namespace action kind ≡ true
    → All (λ (u : UniversalPin). contains_pin e.pins (pin_of u) ≡ true) pins
      × (any (has_identity x) schema ≡ true)
unfolding get_event
found_kind [] pins x namespace action kind e h g s = cc
found_kind (d ∷ schema) pins x namespace action kind e h g s =
    elim (Bool-cases (is_event namespace action kind d)) [
      | inl this ↦
          let same : d ≡ e = cc (rw this at g) in
          (
            subst
                (λ (k : DerivedEvent).
                  All (λ (u : UniversalPin). contains_pin k.pins (pin_of u) ≡ true) pins)
                same (pins_of_kind d schema pins h),
            rw (is_event_identity x d namespace action kind this s) refl,
          )
      | inr other ↦
          let (p, q) =
            found_kind schema pins x namespace action kind e (fewer_kinds d schema pins h)
              (rw other at g) s in
          (p, ||_right (has_identity x d) _ q)
    ]

no_match : (m : Exec (Option Env)) → Returns m → map_exec (keep_if false) m ≡ value none
no_match (value o) p = refl
no_match panic p = cc p.1

pub mu_args-pin_args : (us : List UniversalPin) → mu_args us ≡ pin_args (map pin_of us)
unfolding mu_args pin_args
mu_args-pin_args [] = refl
mu_args-pin_args (u ∷ us) = rw (mu_args-pin_args us) refl

pub all-map :
    (f : Pin → Bool) (us : List UniversalPin)
    → all f (map pin_of us) ≡ all (λ (u : UniversalPin). f (pin_of u)) us
all-map f [] = refl
all-map f (u ∷ us) = rw (all-map f us) refl

absurd_true : {b : Bool} → false ≡ true → b ≡ false
absurd_true h = cc

module _ (start : Env) (schema : List DerivedEvent) (pins : List UniversalPin)
    (declared : ArePinsOf schema pins) (x : EventData)
    (foreign : is_mine start schema pins x ≡ false) where
  own :
      (env : Env)
      → SameKeys start env
      → all (λ (u : UniversalPin). pin_holds env x (pin_of u)) pins ≡ true
      → any (has_identity x) schema ≡ true
      → false ≡ true
  unfolding is_mine
  own env s h k =
      sym foreign
      ∙ rw
          (
            k,
            ap (λ (f : UniversalPin → Bool). all f pins)
                (fun_ext (λ (u : UniversalPin). sym (pin_holds_same start env x (pin_of u) s))),
          )
          h

  -- A declared predicate, once it is injected, misses a foreign event.
  pub inject-Misses :
      (namespace : List Str) (action kind : Str) (args : NamedArgs) (e : DerivedEvent)
      → get_event schema namespace action kind ≡ some e
      → ArgsPlain args
      → Misses start x (inject_into_predicate schema (pred namespace action kind args))
  unfolding is_mine match_predicate match_args
  inject-Misses namespace action kind args e g plain t i env at s =
      inject-match_predicate schema t i env x namespace action kind args at
      ∙ rw (g, at) (by_identity (Bool-cases (same_identity x namespace action kind)))
    where
      kept : Bool
      kept = all (pin_holds env x) e.pins

      fails : same_identity x namespace action kind ≡ true → kept ≡ false
      fails same = elim (Bool-cases kept) [
        | inl holds ↦
            let (has, identity) =
              found_kind schema pins x namespace action kind e declared g same in
            absurd_true
              (own env s (universal_contains pins schema e (pin_holds env x) has holds) identity)
        | inr f ↦ f
      ]

      by_identity :
          (same_identity x namespace action kind ≡ true)
            ⊎ (same_identity x namespace action kind ≡ false)
          → map_exec (keep_if kept) (
              if same_identity x namespace action kind
              then match_args_from env x args []
              else value none)
            ≡ value none
      by_identity (inl same) =
          rw (same, fails same) (no_match _ (match_args-Returns env x args [] plain))
      by_identity (inr other) = rw (other, keep_none kept) refl

  -- So does the predicate of an own event.
  pub mu_args-Misses :
      (e : DerivedEvent)
      → (has_identity x e ≡ true → any (has_identity x) schema ≡ true)
      → Misses start x (pred e.namespace e.action e.kind (mu_args pins))
  unfolding is_mine match_predicate match_args
  mu_args-Misses e member t i env at s = rw at (by_identity (Bool-cases (has_identity x e)))
    where
      args_miss : has_identity x e ≡ true → match_args_from env x (mu_args pins) [] ≡ value none
      args_miss same =
          ap (λ a. match_args_from env x a []) (mu_args-pin_args pins)
          ∙ match_pin_args env x (map pin_of pins) []
          ∙ ap (λ b. value (keep_if b (some [])))
              (elim (Bool-cases (all (pin_holds env x) (map pin_of pins))) [
                | inl holds ↦
                    absurd_true
                      (own env s (sym (all-map (pin_holds env x) pins) ∙ holds) (member same))
                | inr f ↦ f
              ])

      by_identity :
          (has_identity x e ≡ true) ⊎ (has_identity x e ≡ false)
          → (if has_identity x e then match_args_from env x (mu_args pins) [] else value none)
            ≡ value none
      by_identity (inl same) = rw same (args_miss same)
      by_identity (inr other) = rw other refl
