-- ===== src/Engine/Answers.antt =====
-- What the engine answers at a decision: `evaluate` of dogwood-language/src/engine.rs.
use dogwood.Prelude.{
  ℕ, suc, ◌<◌, ◌≡◌, ◌↔◌, ◌∙◌, refl, ap, Bool, true, false, Option, some, List, [], ◌∷◌, Str, arith,
  if◌then◌else◌, All,
}
use dogwood.Prelude.Panics.{value}
use dogwood.Map
use dogwood.Unicode.{Unicode}
use dogwood.Event.{Event, Trace, trace_len, point, trace_event, trace_scope}
use dogwood.Rows.{Env}
use dogwood.Loop.Laws.{Returns}
use dogwood.RequestEnv.{request_env}
use dogwood.Eval.{eval_condition}
use dogwood.Eval.Expanded.{IsExpanded}
use dogwood.Eval.Semantics.{Holds}
use dogwood.Eval.Holds.{eval_condition-Holds}
use dogwood.Eval.Total.{eval_condition-Returns}
use dogwood.Eval.Returning.{bind-Returns, map_exec-Returns, value-Returns}
use dogwood.Eval.Operators.{point-Returns}
use dogwood.LeafMap.{TemporalField, StrSet}
use dogwood.Prelude.Results.{ok}
use dogwood.Engine.{
  Engine, Plan, includes, plan_of, needed_by, Bindings, leaf_value, bind_leaves, current_trace,
  evaluate, evaluate_at,
}
use dogwood.Engine.History.{AreDistinct, bind_leaves-All}

-- The conditions of the leaves are expanded.
abbrev pub AreExpanded : List TemporalField → Type 0
AreExpanded leaves = All (λ (f : TemporalField). IsExpanded f.condition) leaves

module _ (t : Trace) (i : ℕ) (env : Env) (plan : Plan) (h : i < trace_len t) where
  leaf_value-Returns :
      (f : TemporalField) → IsExpanded f.condition → Returns (leaf_value t i env plan f)
  unfolding leaf_value
  leaf_value-Returns f x = branch (includes plan f.id)
    where
      branch : (c : Bool) → Returns (if c then eval_condition t i env f.condition else value false)
      branch true = eval_condition-Returns t f.condition i env h x
      branch false = value-Returns false

  bind_leaves-Returns :
      (leaves : List TemporalField) (bs : Bindings) (c : StrSet)
      → AreExpanded leaves
      → Returns (bind_leaves t i env plan leaves bs c)
  unfolding bind_leaves
  bind_leaves-Returns [] bs c x = value-Returns _
  bind_leaves-Returns (f ∷ leaves) bs c x =
      bind-Returns _ _ (leaf_value-Returns f x.0) (λ b. bind_leaves-Returns leaves _ _ x.1)

  -- The leaf is bound to true exactly if the plan includes it and its condition holds.
  abbrev pub IsAnswered : Bindings → TemporalField → Type 0
  IsAnswered bs f =
      (b : Bool) × (Map.get bs f.id ≡ some b)
      × ((b ≡ true) ↔ ((includes plan f.id ≡ true) × Holds t i env f.condition))

  leaf_value-Holds :
      (f : TemporalField) (b : Bool)
      → IsExpanded f.condition
      → leaf_value t i env plan f ≡ value b
      → (b ≡ true) ↔ ((includes plan f.id ≡ true) × Holds t i env f.condition)
  unfolding leaf_value
  leaf_value-Holds f b x = branch (includes plan f.id)
    where
      branch :
          (c : Bool)
          → (if c then eval_condition t i env f.condition else value false) ≡ value b
          → (b ≡ true) ↔ ((c ≡ true) × Holds t i env f.condition)
      branch true e =
          let d = eval_condition-Holds t f.condition i env h x in
          (λ q. (refl, d.0 (e ∙ ap value q)), λ q. let r = d.1 q.1 in cc (e, r))
      branch false e = (λ q. cc, λ q. cc q.0)

  All-IsAnswered :
      (leaves : List TemporalField) (bs : Bindings)
      → AreExpanded leaves
      → All
          (λ (f : TemporalField).
            (b : Bool) × (leaf_value t i env plan f ≡ value b) × (Map.get bs f.id ≡ some b))
          leaves
      → All (IsAnswered bs) leaves
  All-IsAnswered [] bs x a = tt
  All-IsAnswered (f ∷ leaves) bs x ((b, p, q), a) =
      ((b, q, leaf_value-Holds f b x.0 p), All-IsAnswered leaves bs x.1 a)

module _ (parse_uid : Str → Option Str) (u : Unicode) where
  request_env-Returns : (t : Trace) (i : ℕ) → i < trace_len t → Returns (request_env u t i)
  unfolding request_env trace_event trace_scope
  request_env-Returns t i h =
      bind-Returns _ _ (map_exec-Returns _ _ (point-Returns t i h))
        (λ e. bind-Returns _ _ (map_exec-Returns _ _ (point-Returns t i h)) (λ s. value-Returns _))

  -- At the last timepoint of the engine's current trace, with expanded leaves of distinct ids,
  -- `evaluate` answers, and it binds every leaf: to true exactly if the plan includes the leaf and its
  -- condition holds there in the environment of the request, to false otherwise.
  pub evaluate-Holds :
      (e : Engine) (t : Trace) (i : ℕ)
      → current_trace e.mode ≡ some t
      → trace_len t ≡ suc i
      → AreExpanded e.leaves
      → AreDistinct e.leaves
      → (event : Event) × (env : Env) × (bs : Bindings) × (computed : StrSet) × (point t i
          ≡ value event)
        × (request_env u t i ≡ value env)
        × (evaluate parse_uid u e ≡ value (ok bs, record e { computed = computed }))
        × All
            (λ (f : TemporalField).
              (b : Bool) × (Map.get bs f.id ≡ some b)
              × ((b ≡ true) ↔ (
                  (includes (plan_of (needed_by parse_uid u e.leaf_map event)) f.id ≡ true)
                  × Holds t i env f.condition)))
            e.leaves
  unfolding evaluate evaluate_at
  evaluate-Holds e t i cur len x d =
      let h : i < trace_len t = omega arith in
      let (event, p) = point-Returns t i h in
      let (env, q) = request_env-Returns t i h in
      let plan = plan_of (needed_by parse_uid u e.leaf_map event) in
      let ((bs, computed), r) = bind_leaves-Returns t i env plan h e.leaves [] [] x in
      (
        event,
        env,
        bs,
        computed,
        p,
        q,
        rw (cur, len, p, q, r) refl,
        All-IsAnswered t i env plan h e.leaves bs x
            (bind_leaves-All t i env plan e.leaves [] [] d r),
      )
