-- ===== src/Engine/History.antt =====
-- The engine's history, and what it answers for each leaf.
use dogwood.Prelude.{ℕ, ◌≡◌, ◌≢◌, ◌∙◌, sym, ap, Bool, some, List, [], ◌∷◌, ◌++◌, Str, All}
use mathlib.Core.List.{append_assoc, append-nil}
use dogwood.Prelude.Panics.{value, >>=-eq-value}
use dogwood.Map
use dogwood.Map.Laws.{get-insert_self, get-insert_ne}
use dogwood.Event.{Event, Trace}
use dogwood.Rows.{Env}
use dogwood.LeafMap.{TemporalField, StrSet}
use dogwood.Engine.{
  Engine, global, observe, observe_all, observe_mode, Plan, Bindings, leaf_value, bind_leaves,
}

-- A global engine keeps every event it observes, in order, and nothing else of it changes.
pub observe_all-global :
    (events : List Event) (e : Engine) (t : Trace)
    → e.mode ≡ global t
    → observe_all e events ≡ record e { mode = global (record { points = t.points ++ events }) }
unfolding observe_all observe observe_mode
observe_all-global [] e t h = λ i. record {
  leaves = e.leaves;
  mode =
      (h ∙ ap (λ (l : List Event). global (record { points = l })) (sym (append-nil t.points))) i;
  slicing = e.slicing;
  leaf_map = e.leaf_map;
  computed = e.computed;
}
observe_all-global (event ∷ events) e t h =
    observe_all-global events (observe e event) (record { points = t.points ++ event ∷ [] })
      (ap (λ m. observe_mode m event) h)
    ∙ ap (λ (l : List Event). record e { mode = global (record { points = l }) })
        (append_assoc t.points (event ∷ []) events)

-- The ids of the leaves differ from `id`.
abbrev pub IsFresh : Str → List TemporalField → Type 0
IsFresh id leaves = All (λ (f : TemporalField). f.id ≢ id) leaves

-- The leaves have distinct ids.
abbrev pub AreDistinct : List TemporalField → Type 0
AreDistinct [] = Unit
AreDistinct (f ∷ leaves) = IsFresh f.id leaves × AreDistinct leaves

module _ (t : Trace) (i : ℕ) (env : Env) (plan : Plan) where
  bind_leaves-fresh :
      (leaves : List TemporalField) (id : Str) (bs : Bindings) (c : StrSet) {bs' : Bindings}
      {c' : StrSet}
      → IsFresh id leaves
      → bind_leaves t i env plan leaves bs c ≡ value (bs', c')
      → Map.get bs' id ≡ Map.get bs id
  unfolding bind_leaves
  bind_leaves-fresh [] id bs c h e = ap (λ m. Map.get m id) (cc)
  bind_leaves-fresh (f ∷ leaves) id bs c h e =
      let (b, p, q) = >>=-eq-value (leaf_value t i env plan f) _ e in
      bind_leaves-fresh leaves id _ _ h.1 q ∙ get-insert_ne bs f.id b id h.0

  -- Where the leaves have distinct ids and the loop over them returns, every leaf is bound to its
  -- value.
  pub bind_leaves-All :
      (leaves : List TemporalField) (bs : Bindings) (c : StrSet) {bs' : Bindings} {c' : StrSet}
      → AreDistinct leaves
      → bind_leaves t i env plan leaves bs c ≡ value (bs', c')
      → All
          (λ (f : TemporalField).
            (b : Bool) × (leaf_value t i env plan f ≡ value b) × (Map.get bs' f.id ≡ some b))
          leaves
  unfolding bind_leaves
  bind_leaves-All [] bs c d e = tt
  bind_leaves-All (f ∷ leaves) bs c d e =
      let (b, p, q) = >>=-eq-value (leaf_value t i env plan f) _ e in
      (
        (b, p, bind_leaves-fresh leaves f.id _ _ d.0 q ∙ get-insert_self bs f.id b),
        bind_leaves-All leaves _ _ d.1 q,
      )
