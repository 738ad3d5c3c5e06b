-- ===== src/Engine/Routing.antt =====
-- Which events share a partition: `partition_value_of` of dogwood-language/src/engine.rs.
use dogwood.Prelude.{
  ℕ, ◌≡◌, ◌≢◌, ◌↔◌, ◌∙◌, refl, sym, ap, true, Option, none, some, List, [], ◌∷◌, ◌++◌, Str, str,
  join, arith, All,
}
use dogwood.Value.{Value, dom_eq}
use dogwood.Value.Denote.{dom_eq-meaning}
use dogwood.Event.{Event, field_path}
use dogwood.PartitionKey.{partition_value_key}
use dogwood.PartitionKey.Agree.{partition_value_key-dom_eq}
use dogwood.PartitionKey.Injective.{
  IsUnquoted, key_split, tag_of, body_of, sized, framed-sized, key-framed, body_inj,
}
use dogwood.Engine.{PartitionKey, key_part, partition_value_of}

-- Both fields are missing, or both are there with equal values.
abbrev pub Agree : Option Value → Option Value → Type 0
Agree none none = Unit
Agree (some v) (some w) = dom_eq v w ≡ true
Agree _ _ = ⊥

abbrev pub FieldUnquoted : Option Value → Type 0
FieldUnquoted none = Unit
FieldUnquoted (some v) = IsUnquoted v

abbrev less_than : ℕ
less_than = b'<'

tag_ne : (v : Value) → tag_of v ≢ less_than
tag_ne Value.null e = absurd (omega (arith, e))
tag_ne _ e = absurd (omega (arith, e))

key_ne_missing : (v : Value) (x y : Str) → partition_value_key v ++ x ≢ str "<none>" ++ y
key_ne_missing v x y e =
    let q : tag_of v ∷ sized (body_of v) x ≡ less_than ∷ (str "none>" ++ y) =
      sym (framed-sized (tag_of v) (body_of v) x) ∙ ap (λ t. t ++ x) (sym (key-framed v)) ∙ e in
    let h : tag_of v ≡ less_than = cc q in absurd (tag_ne v h)

key_part_split :
    (o p : Option Value) (x y : Str)
    → FieldUnquoted o
    → FieldUnquoted p
    → key_part o ++ x ≡ key_part p ++ y
    → Agree o p × (x ≡ y)
key_part_split none none x y h k e = (tt, cc e)
key_part_split (some v) (some w) x y h k e =
    let (t, b, q) = key_split v w x y e in ((dom_eq-meaning v w).1 (body_inj v w h k t b), q)
key_part_split (some v) none x y h k e = absurd (key_ne_missing v x y e)
key_part_split none (some w) x y h k e = absurd (key_ne_missing w y x (sym e))

key_part-Agree : (o p : Option Value) → Agree o p → key_part o ≡ key_part p
key_part-Agree none none a = refl
key_part-Agree (some v) (some w) a = partition_value_key-dom_eq v w a
key_part-Agree (some v) none a = absurd a
key_part-Agree none (some w) a = absurd a

module _ (e e' : Event) where
  abbrev read : Event → PartitionKey → Option Value
  read event k = field_path event.event k.field_path

  -- Every key reads fields that agree.
  abbrev pub AgreeOn : List PartitionKey → Type 0
  AgreeOn keys = All (λ (k : PartitionKey). Agree (read e k) (read e' k)) keys

  -- No entity type in a key field of either event holds a quote.
  abbrev pub KeysUnquoted : List PartitionKey → Type 0
  KeysUnquoted keys =
      All (λ (k : PartitionKey). FieldUnquoted (read e k) × FieldUnquoted (read e' k)) keys

  value_of_sound :
      (keys : List PartitionKey)
      → KeysUnquoted keys
      → partition_value_of e keys ≡ partition_value_of e' keys
      → AgreeOn keys
  unfolding partition_value_of join
  value_of_sound [] u h = tt
  value_of_sound (k ∷ []) u h =
      ((key_part_split (read e k) (read e' k) [] [] u.0.0 u.0.1 (ap (λ t. t ++ []) h)).0, tt)
  value_of_sound (k ∷ l ∷ keys) u h =
      let (a, r) = key_part_split (read e k) (read e' k) _ _ u.0.0 u.0.1 h in
      (a, value_of_sound (l ∷ keys) u.1 (cc r))

  value_of_complete :
      (keys : List PartitionKey)
      → AgreeOn keys
      → partition_value_of e keys ≡ partition_value_of e' keys
  unfolding partition_value_of join
  value_of_complete [] a = refl
  value_of_complete (k ∷ []) a = key_part-Agree (read e k) (read e' k) a.0
  value_of_complete (k ∷ l ∷ keys) a =
      let p = key_part-Agree (read e k) (read e' k) a.0 in
      let q = value_of_complete (l ∷ keys) a.1 in rw (p, q) refl

  -- Where no entity type in a key field holds a quote, two events are routed to one partition exactly if
  -- for every key both lack its field or both have it with values equal in the domain.
  pub partition_value_of_iff :
      (keys : List PartitionKey)
      → KeysUnquoted keys
      → (partition_value_of e keys ≡ partition_value_of e' keys) ↔ AgreeOn keys
  partition_value_of_iff keys u = (value_of_sound keys u, value_of_complete keys)
