-- ===== src/Relativize/Foreign.antt =====
-- An event that no predicate of a condition matches cannot satisfy it: `implies_mine` of
-- dogwood-language/src/event_schema/relativize.rs.
use dogwood.Prelude.{
  ℕ, ◌<◌, ◌≡◌, refl, Bool, true, false, Option, none, some, List, [], ◌∷◌, Str, Bool-cases,
  &&_split, inl, inr, if◌then◌else◌,
}
use dogwood.Prelude.Panics.{Exec, value, panic, ◌>>=◌, map_exec, Ensures}
use dogwood.Map
use dogwood.Event.{EventData, Trace, trace_event, trace_len}
use dogwood.Ast.{
  binder_name, Condition, and, or, formerly, previous, since, predicate, comparison, exists, tp,
  call, sigil_ref, refine, Predicate, Term, agg, arithmetic, AggExpr, sum, count, agg_call,
}
use dogwood.Rows.{Env, Row, join_all, push_all_new}
use dogwood.Loop.{collect_rows}
use dogwood.Loop.Laws.{Returns}
use dogwood.Resolve.{match_predicate}
use dogwood.Eval.{
  as_predicate, is_some, is_nonempty, eval_and, and_rows, drop_all, extend_env, eval_condition,
  match_occurrences, with_bindings,
}
use dogwood.Eval.Expanded.{IsExpanded}
use dogwood.Eval.Returning.{binder-Returns}
use dogwood.Eval.Total.{eval_condition-Returns, match_occurrences-Returns}
use dogwood.Eval.Names.{HasIdentifiers, Named, AllNamed}
use dogwood.Eval.RowNames.{match_occurrences-AllNamed}
use dogwood.Eval.SameKeys.{SameKeys, extend-SameKeys, remove-SameKeys, binder-Ensures}
use dogwood.RequestEnv.Keys.{IsIdentifier}
use dogwood.Relativize.{implies_mine, is_confined_negation}

-- Wherever the event stands in a trace, the predicate does not match it for the request.
abbrev pub Misses : Env → EventData → Predicate → Type 0
Misses start x p =
    (t : Trace) (i : ℕ) (env : Env)
    → trace_event t i ≡ value x
    → SameKeys start env
    → match_predicate t i env p ≡ value none

-- No predicate of the condition matches the event, each body of `formerly` and each anchor of `since`
-- implies a match, `since` negates such a condition on its left, and nothing else tells positions apart.
abbrev mutual
  pub Confined : Env → EventData → Condition → Type 0
  Confined start x (and l r) = Confined start x l × Confined start x r
  Confined start x (or l r) = Confined start x l × Confined start x r
  Confined start x (Condition.not c) = Confined start x c
  Confined start x (formerly w c) = Confined start x c × (implies_mine c ≡ true)
  Confined start x (previous w c) = ⊥
  Confined start x (since l w r) =
      Confined start x l
      × Confined start x r
      × (is_confined_negation l ≡ true)
      × (implies_mine r ≡ true)
  Confined start x (predicate p) = Misses start x p
  Confined start x (comparison op l r) = ConfinedOperand start x l × ConfinedOperand start x r
  Confined start x (exists v c) = Confined start x c
  Confined start x (tp v) = ⊥
  Confined start x (call c) = ⊥
  Confined start x (sigil_ref s n) = ⊥
  Confined start x (refine c fs) = ⊥

  pub ConfinedOperand : Env → EventData → Term → Type 0
  ConfinedOperand start x (agg e) = ConfinedAgg start x e
  ConfinedOperand start x (arithmetic op l r) =
      ConfinedOperand start x l × ConfinedOperand start x r
  ConfinedOperand start x _ = Unit

  pub ConfinedAgg : Env → EventData → AggExpr → Type 0
  ConfinedAgg start x (sum v vs c) = Confined start x c
  ConfinedAgg start x (count vs c) = Confined start x c
  ConfinedAgg start x (agg_call c) = ⊥

no_bindings :
    (m : Exec (Option Env)) (env : Env) (r : Env → Exec Bool)
    → map_exec is_some m ≡ value false
    → (m >>= with_bindings env r) ≡ value false
no_bindings (value none) env r h = refl
no_bindings (value (some b)) env r h = cc
no_bindings panic env r h = cc

then_false :
    (m : Exec Bool) (r : Exec Bool)
    → Returns m
    → r ≡ value false
    → (m >>= λ l. if l then r else value false) ≡ value false
then_false (value true) r p h = h
then_false (value false) r p h = refl
then_false panic r p h = cc p.1

collect_nothing :
    (f : Row → Exec (List Row)) (rows : List Row)
    → AllNamed rows
    → ((row : Row) → Named row → f row ≡ value [])
    → collect_rows f rows ≡ value []
unfolding collect_rows
collect_nothing f [] n h = refl
collect_nothing f (row ∷ rows) n h = rw (h row n.0, collect_nothing f rows n.1 h) refl

bind_nothing :
    (m : Exec (List Row)) (f : List Row → Exec (List Row))
    → Returns m
    → Ensures AllNamed m
    → ((rows : List Row) → AllNamed rows → f rows ≡ value [])
    → (m >>= f) ≡ value []
bind_nothing (value rows) f p n h = h rows n
bind_nothing panic f p n h = cc p.1

module _ (start : Env) (x : EventData) (t : Trace) (i : ℕ) (at : trace_event t i ≡ value x)
    (bound : i < trace_len t) where
  and_left :
      (l : Condition) (env : Env) (r : Env → Exec Bool)
      → eval_condition t i env l ≡ value false
      → eval_and t i env (as_predicate l) (eval_condition t i env l) r ≡ value false
  unfolding eval_condition eval_and
  and_left (predicate p) env r h = no_bindings (match_predicate t i env p) env r h
  and_left _ env r h = rw h refl

  and_right :
      (l : Condition) (env : Env) (r : Env → Exec Bool)
      → implies_mine l ≡ false
      → Returns (eval_condition t i env l)
      → r env ≡ value false
      → eval_and t i env (as_predicate l) (eval_condition t i env l) r ≡ value false
  unfolding eval_and implies_mine
  and_right (predicate p) env r m p' h = cc
  and_right _ env r m p' h = then_false _ (r env) p' h

  -- What a condition that implies a match gives at the event.
  abbrev Fails : Condition → Env → Type 0
  Fails c env = (eval_condition t i env c ≡ value false) × (match_occurrences t i env c ≡ value [])

  exists-Fails :
      (m : Exec Str) (c : Condition) (env : Env)
      → Returns m
      → Ensures IsIdentifier m
      → ((n : Str) → IsIdentifier n → Fails c (Map.remove env n))
      → ((m >>= λ n. map_exec is_nonempty (match_occurrences t i (Map.remove env n) c))
          ≡ value false)
        × ((m >>= λ n. match_occurrences t i (Map.remove env n) c >>= λ rows.
              value (push_all_new [] (drop_all n rows)))
            ≡ value [])
  unfolding push_all_new drop_all
  exists-Fails (value n) c env p e h = let (a, b) = h n e in (rw b refl, rw b refl)
  exists-Fails panic c env p e h = cc p.1

  right_rows :
      (l r : Condition) (env : Env)
      → SameKeys start env
      → HasIdentifiers l
      → IsExpanded l
      → ((row : Row) → Named row → match_occurrences t i (extend_env env row) r ≡ value [])
      → and_rows env (match_occurrences t i env l) (λ env'. match_occurrences t i env' r) ≡ value []
  unfolding and_rows join_all
  right_rows l r env s n e h =
      bind_nothing (match_occurrences t i env l) _ (match_occurrences-Returns t l i env bound e)
        (match_occurrences-AllNamed l t i env n)
        (λ rows named. collect_nothing _ rows named (λ row k. rw (h row k) refl))

  pub implies_mine-Fails :
      (c : Condition) (env : Env)
      → SameKeys start env
      → Confined start x c
      → HasIdentifiers c
      → IsExpanded c
      → implies_mine c ≡ true
      → Fails c env
  unfolding implies_mine eval_condition and_rows collect_rows push_all_new
  implies_mine-Fails (predicate p) env s k n e m =
      let miss = k t i env at s in (rw miss refl, rw miss refl)
  implies_mine-Fails (and l r) env s k n e m = elim (Bool-cases (implies_mine l)) [
    | inl yes_l ↦
        let (a, b) = implies_mine-Fails l env s k.0 n.0 e.0 yes_l in
        (and_left l env _ a, rw (b, and_rows, collect_rows) refl)
    | inr no_l ↦
        let yes_r : implies_mine r ≡ true = rw no_l at m in
        (
          and_right l env _ no_l (eval_condition-Returns t l i env bound e.0)
              (implies_mine-Fails r env s k.1 n.1 e.1 yes_r).0,
          right_rows l r env s n.0 e.0 (λ row named.
              (implies_mine-Fails r (extend_env env row) (extend-SameKeys start row env named s) k.1
                n.1 e.1 yes_r).1),
        )
  ]
  implies_mine-Fails (or l r) env s k n e m =
      let (ml, mr) = &&_split (implies_mine l) (implies_mine r) m in
      let (a, b) = implies_mine-Fails l env s k.0 n.0 e.0 ml in
      let (a', b') = implies_mine-Fails r env s k.1 n.1 e.1 mr in
      (rw (a, a') refl, rw (b, b', push_all_new) refl)
  implies_mine-Fails (exists v c) env s k n e m =
      exists-Fails (binder_name v) c env (binder-Returns v e.0) (binder-Ensures start v n.0)
        (λ x' ident. implies_mine-Fails c _ (remove-SameKeys start env x' ident s) k n.1 e.1 m)
  implies_mine-Fails _ env s k n e m = cc
