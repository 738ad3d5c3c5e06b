-- ===== src/Engine/Slicing.antt =====
-- Leaf slicing: the plan of `evaluate` in dogwood-language/src/engine.rs.
use dogwood.Prelude.{
  ℕ, ◌≡◌, ◌∙◌, refl, ap, Bool, true, false, Option, none, some, List, [], ◌∷◌, Str, str_eq,
  str_eq_iff, if◌then◌else◌, Bool-cases, ◌⊎◌, inl, inr,
}
use dogwood.Prelude.Panics.{value, >>=-eq-value}
use dogwood.Map
use dogwood.Map.Laws.{get-insert}
use dogwood.Event.{Trace}
use dogwood.Rows.{Env}
use dogwood.Eval.{eval_condition}
use dogwood.LeafMap.{TemporalField, StrSet, set_contains}
use dogwood.Engine.{all_leaves, only, includes, Bindings, leaf_value, bind_leaves}

abbrev pub to_false : Option Bool → Option Bool
to_false none = none
to_false (some b) = some false

abbrev pub slice_to : Bool → Option Bool → Option Bool
slice_to true o = o
slice_to false o = to_false o

-- What the sliced engine binds, from what the full engine binds: an id that is not needed reads false.
abbrev pub IsSliced : StrSet → Bindings → Bindings → Type 0
IsSliced needed full sliced =
    (id : Str) → Map.get sliced id ≡ slice_to (set_contains needed id) (Map.get full id)

slice_some : (c b : Bool) → some (if c then b else false) ≡ slice_to c (some b)
slice_some true b = refl
slice_some false b = refl

IsSliced-insert :
    (needed : StrSet) (full sliced : Bindings) (id : Str) (b : Bool)
    → IsSliced needed full sliced
    → IsSliced needed
        (Map.insert full id b)
        (Map.insert sliced id (if set_contains needed id then b else false))
IsSliced-insert needed full sliced id b h j =
    rw
      (get-insert full id b j, get-insert sliced id (if set_contains needed id then b else false) j)
      (same (Bool-cases (str_eq id j)))
  where
    same :
        (str_eq id j ≡ true) ⊎ (str_eq id j ≡ false)
        → (if str_eq id j
            then some (if set_contains needed id then b else false)
            else Map.get sliced j)
          ≡ slice_to (set_contains needed j) (if str_eq id j then some b else Map.get full j)
    same (inl e) =
        let k : id ≡ j = (str_eq_iff id j).0 e in rw e (rw k (slice_some (set_contains needed j) b))
    same (inr e) = rw e (h j)

leaf_value-only :
    (t : Trace) (i : ℕ) (env : Env) (needed : StrSet) (f : TemporalField) {b : Bool}
    → leaf_value t i env all_leaves f ≡ value b
    → leaf_value t i env (only needed) f ≡ value (if set_contains needed f.id then b else false)
unfolding leaf_value includes
leaf_value-only t i env needed f {b} h = branch (set_contains needed f.id)
  where
    branch :
        (c : Bool)
        → (if c then eval_condition t i env f.condition else value false)
          ≡ value (if c then b else false)
    branch true = h
    branch false = refl

-- Let a full loop start from some bindings, and a loop over the needed leaves alone start from those
-- bindings with the ids that are not needed set to false. If the full loop returns, so does the
-- other, and it binds every needed id as the full loop does and every other bound id to false.
pub bind_leaves-only :
    (t : Trace) (i : ℕ) (env : Env) (needed : StrSet) (leaves : List TemporalField)
    (full sliced : Bindings) (c d : StrSet) {full' : Bindings} {c' : StrSet}
    → IsSliced needed full sliced
    → bind_leaves t i env all_leaves leaves full c ≡ value (full', c')
    → (sliced' : Bindings) × (d' : StrSet) × (bind_leaves t i env (only needed) leaves sliced d
        ≡ value (sliced', d'))
      × IsSliced needed full' sliced'
unfolding bind_leaves
bind_leaves-only t i env needed [] full sliced c d h e =
    (sliced, d, refl, λ id. h id ∙ ap (λ m. slice_to (set_contains needed id) (Map.get m id)) (cc))
bind_leaves-only t i env needed (f ∷ leaves) full sliced c d h e =
    let (b, p, q) = >>=-eq-value (leaf_value t i env all_leaves f) _ e in
    rw (leaf_value-only t i env needed f p) (
      bind_leaves-only t i env needed leaves _ _ _ _ (IsSliced-insert needed full sliced f.id b h)
        q)
