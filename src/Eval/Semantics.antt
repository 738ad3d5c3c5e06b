-- ===== src/Eval/Semantics.antt =====
-- The formal semantics of temporal conditions.
use dogwood.Prelude.{ℕ, suc, ◌≤◌, ◌<◌, ◌≡◌, ◌⊎◌, true, Option, none, some, List, ◌∷◌}
use dogwood.Prelude.Panics.{value}
use dogwood.Int.{pos}
use dogwood.Map
use dogwood.Event.{Trace}
use dogwood.Value.{Value, dom_eq}
use dogwood.Ast.{
  Interval, WithinSpec, concrete, within_param, BinderSlot, name, Condition, and, or, formerly,
  previous, since, predicate, comparison, exists, tp, call, sigil_ref, refine, Predicate,
}
use dogwood.Rows.{Env, Row}
use dogwood.Resolve.{match_predicate, in_window}
use dogwood.Eval.{as_predicate, match_occurrences, resolve_term_at, compare_values}

abbrev pub InWindow : Trace → ℕ → ℕ → Interval → Type 0
InWindow t i j w = in_window t i j w ≡ value true

-- A conjunction whose left side is a predicate is read with the bindings of its match.
abbrev pub HoldsBoth : Trace → ℕ → Env → Option Predicate → Type 0 → (Env → Type 0) → Type 0
HoldsBoth t i env none L R = L × R env
HoldsBoth t i env (some p) L R =
    (b : Env) × (match_predicate t i env p ≡ value (some b)) × R (Map.extend env b)

abbrev pub HoldsTp : ℕ → Env → BinderSlot → Type 0
HoldsTp i env (name n) =
    (Map.get env n ≡ none)
    ⊎ ((v : Value) × (Map.get env n ≡ some v) × (dom_eq v (Value.int (pos i)) ≡ true))
HoldsTp i env _ = ⊥

-- Some row of bindings satisfies the body, which does not see an outer variable of that name.
abbrev pub HoldsExists : Trace → ℕ → Env → BinderSlot → Condition → Type 0
HoldsExists t i env (name n) c =
    (row : Row) × (rows : List Row) × (match_occurrences t i (Map.remove env n) c
      ≡ value (row ∷ rows))
HoldsExists t i env _ c = ⊥

abbrev pub HoldsFormerly : Trace → ℕ → WithinSpec → (ℕ → Type 0) → Type 0
HoldsFormerly t i (concrete w) C = (j : ℕ) × (j ≤ i) × InWindow t i j w × C j
HoldsFormerly t i (within_param p) C = ⊥

abbrev pub HoldsPrevious : Trace → ℕ → WithinSpec → (ℕ → Type 0) → Type 0
HoldsPrevious t i (concrete w) C = (j : ℕ) × (suc j ≡ i) × InWindow t i j w × C j
HoldsPrevious t i (within_param p) C = ⊥

abbrev pub HoldsSince : Trace → ℕ → WithinSpec → (ℕ → Type 0) → (ℕ → Type 0) → Type 0
HoldsSince t i (concrete w) L R =
    (j : ℕ) × (j ≤ i) × InWindow t i j w × R j × ((k : ℕ) → j < k → k ≤ i → L k)
HoldsSince t i (within_param p) L R = ⊥

abbrev pub Holds : Trace → ℕ → Env → Condition → Type 0
Holds t i env (and l r) =
    HoldsBoth t i env (as_predicate l) (Holds t i env l) (λ env'. Holds t i env' r)
Holds t i env (or l r) = Holds t i env l ⊎ Holds t i env r
Holds t i env (Condition.not c) = ¬ Holds t i env c
Holds t i env (formerly w c) = HoldsFormerly t i w (λ j. Holds t j env c)
Holds t i env (previous w c) = HoldsPrevious t i w (λ j. Holds t j env c)
Holds t i env (since l w r) = HoldsSince t i w (λ k. Holds t k env l) (λ j. Holds t j env r)
Holds t i env (predicate p) = (b : Env) × (match_predicate t i env p ≡ value (some b))
Holds t i env (comparison op l r) =
    (a : Value) × (b : Value) × (resolve_term_at t i env l ≡ value (some a))
    × (resolve_term_at t i env r ≡ value (some b))
    × (compare_values op a b ≡ true)
Holds t i env (exists x c) = HoldsExists t i env x.slot c
Holds t i env (tp x) = HoldsTp i env x
Holds t i env (call c) = ⊥
Holds t i env (sigil_ref s n) = ⊥
Holds t i env (refine c fs) = ⊥
