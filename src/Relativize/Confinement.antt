-- ===== src/Relativize/Confinement.antt =====
-- A condition that is confined gives on a trace what it gives on the trace without a foreign event.
use dogwood.Prelude.{ℕ, ◌<◌, ◌≡◌, refl, ap, fun_ext, true, false, List, [], ◌∷◌, arith, length}
use dogwood.Prelude.Panics.{Exec, value, ◌>>=◌, map_exec, bind_congr}
use dogwood.Event.{Event, trace_len}
use dogwood.Ast.{
  within_interval, Condition, and, or, formerly, previous, since, predicate, comparison, exists, tp,
  call, sigil_ref, refine, Term, agg, arithmetic, AggExpr, sum, count, agg_call, binder_name,
}
use dogwood.Rows.{Env, Row, push_all_new, join_all}
use dogwood.Loop.{collect_rows}
use dogwood.Eval.{
  and_rows, extend_env, eval_condition, match_occurrences, eval_agg_expr, resolve_term_at,
  is_nonempty, drop_all, shed_for_binders,
}
use dogwood.Eval.Expanded.{IsExpanded, IsOperand, IsAggregate}
use dogwood.Eval.Names.{HasIdentifiers, OperandIdentifiers, AggIdentifiers, Named, AllNamed}
use dogwood.Eval.RowNames.{match_occurrences-AllNamed}
use dogwood.Eval.SameKeys.{
  SameKeys, extend-SameKeys, remove-SameKeys, binder-Ensures, shed-SameKeys,
}
use dogwood.RequestEnv.Keys.{IsIdentifier}
use dogwood.Relativize.{is_confined_negation, implies_mine}
use dogwood.Relativize.Foreign.{Confined, ConfinedOperand, ConfinedAgg, implies_mine-Fails}
use dogwood.Relativize.Removal.{
  whole, without, place, inserted_bound, inserted_event, match_predicate-place, eval_and-place,
  scan_formerly-place, formerly_rows-place, eval_since-place, since_rows-place,
}

pub collect_rows_congr :
    (f g : Row → Exec (List Row)) (rows : List Row)
    → AllNamed rows
    → ((row : Row) → Named row → f row ≡ g row)
    → collect_rows f rows ≡ collect_rows g rows
unfolding collect_rows
collect_rows_congr f g [] n h = refl
collect_rows_congr f g (row ∷ rows) n h = rw (h row n.0, collect_rows_congr f g rows n.1 h) refl

module _ (pre post : List Event) (x : Event) (start : Env) where
  abbrev Fit : Condition → Type 0
  Fit c = Confined start x.event c × HasIdentifiers c × IsExpanded c

  foreign_false :
      (c : Condition) (env : Env)
      → SameKeys start env
      → Confined start x.event c
      → HasIdentifiers c
      → IsExpanded c
      → implies_mine c ≡ true
      → (eval_condition (whole pre post x) (length pre) env c ≡ value false)
        × (match_occurrences (whole pre post x) (length pre) env c ≡ value [])
  foreign_false c env s k n e m =
      implies_mine-Fails start x.event (whole pre post x) (length pre) (inserted_event pre post x)
        (inserted_bound pre post x) c env s k n e m

  negation_true :
      (c : Condition) (env : Env)
      → SameKeys start env
      → Confined start x.event c
      → HasIdentifiers c
      → IsExpanded c
      → is_confined_negation c ≡ true
      → eval_condition (whole pre post x) (length pre) env c ≡ value true
  unfolding eval_condition
  negation_true (Condition.not c) env s k n e m = rw ((foreign_false c env s k n e m).0) refl
  negation_true _ env s k n e m = cc

  mutual
    unfolding eval_condition and_rows

    pub condition-place :
        (c : Condition) (i : ℕ) (env : Env)
        → i < trace_len (without pre post x)
        → SameKeys start env
        → Confined start x.event c
        → HasIdentifiers c
        → IsExpanded c
        → eval_condition (whole pre post x) (place pre post x i) env c
          ≡ eval_condition (without pre post x) i env c
    condition-place (and l r) i env h s k n e =
        eval_and-place pre post x start i env l _ _ s n.0 (condition-place l i env h s k.0 n.0 e.0)
          (λ env' s'. condition-place r i env' h s' k.1 n.1 e.1)
    condition-place (or l r) i env h s k n e =
        rw (condition-place l i env h s k.0 n.0 e.0, condition-place r i env h s k.1 n.1 e.1) refl
    condition-place (Condition.not c) i env h s k n e = rw (condition-place c i env h s k n e) refl
    condition-place (formerly within c) i env h s k n e =
        ap (λ f. within_interval within >>= f)
          (fun_ext (λ w.
            scan_formerly-place pre post x i w _ _ h (foreign_false c env s k.0 n e.1 k.1).0
              (λ j p. condition-place c j env (omega arith) s k.0 n e.1)))
    condition-place (previous within c) i env h s k n e = absurd k
    condition-place (since l within r) i env h s k n e =
        ap (λ f. within_interval within >>= f)
          (fun_ext (λ w.
            eval_since-place pre post x i w _ _ _ _ h (negation_true l env s k.0 n.0 e.1 k.2)
              (foreign_false r env s k.1 n.1 e.2 k.3).0
              (λ j p. condition-place l j env (omega arith) s k.0 n.0 e.1)
              (λ j p. condition-place r j env (omega arith) s k.1 n.1 e.2)))
    condition-place (predicate p) i env h s k n e =
        rw (match_predicate-place pre post x i env p) refl
    condition-place (comparison op l r) i env h s k n e =
        rw (term-place l i env h s k.0 n.0 e.0, term-place r i env h s k.1 n.1 e.1) refl
    condition-place (exists v c) i env h s k n e =
        bind_congr IsIdentifier (binder_name v) _ _ (binder-Ensures start v n.0) (λ y ident.
          ap (map_exec is_nonempty)
            (rows-place c i _ h (remove-SameKeys start env y ident s) k n.1 e.1))
    condition-place (tp v) i env h s k n e = absurd k
    condition-place (call c) i env h s k n e = refl
    condition-place (sigil_ref y z) i env h s k n e = refl
    condition-place (refine c fs) i env h s k n e = refl

    rows-place :
        (c : Condition) (i : ℕ) (env : Env)
        → i < trace_len (without pre post x)
        → SameKeys start env
        → Confined start x.event c
        → HasIdentifiers c
        → IsExpanded c
        → match_occurrences (whole pre post x) (place pre post x i) env c
          ≡ match_occurrences (without pre post x) i env c
    rows-place (and l r) i env h s k n e = rw (rows-place l i env h s k.0 n.0 e.0) (
        bind_congr AllNamed (match_occurrences (without pre post x) i env l) _ _
          (match_occurrences-AllNamed l (without pre post x) i env n.0)
          (λ rows named. collect_rows_congr _ _ rows named (λ row m. ap (map_exec (join_all row)) (
            rows-place r i (extend_env env row) h (extend-SameKeys start row env m s) k.1 n.1
              e.1))))
    rows-place (or l r) i env h s k n e =
        rw (rows-place l i env h s k.0 n.0 e.0, rows-place r i env h s k.1 n.1 e.1) refl
    rows-place (Condition.not c) i env h s k n e = rw (condition-place c i env h s k n e) refl
    rows-place (formerly within c) i env h s k n e =
        ap (λ f. within_interval within >>= f)
          (fun_ext (λ w.
            formerly_rows-place pre post x i w _ _ h (foreign_false c env s k.0 n e.1 k.1).1
              (λ j p. rows-place c j env (omega arith) s k.0 n e.1)))
    rows-place (previous within c) i env h s k n e = absurd k
    rows-place (since l within r) i env h s k n e =
        ap (λ f. within_interval within >>= f)
          (fun_ext (λ w.
            since_rows-place pre post x start i w env _ _ _ _ h s
              (λ env' s'. negation_true l env' s' k.0 n.0 e.1 k.2)
              (foreign_false r env s k.1 n.1 e.2 k.3).1
              (λ j p env' s'. condition-place l j env' (omega arith) s' k.0 n.0 e.1)
              (λ j p. rows-place r j env (omega arith) s k.1 n.1 e.2)
              (λ j. match_occurrences-AllNamed r (without pre post x) j env n.1)))
    rows-place (predicate p) i env h s k n e = rw (match_predicate-place pre post x i env p) refl
    rows-place (comparison op l r) i env h s k n e =
        rw (term-place l i env h s k.0 n.0 e.0, term-place r i env h s k.1 n.1 e.1) refl
    rows-place (exists v c) i env h s k n e =
        bind_congr IsIdentifier (binder_name v) _ _ (binder-Ensures start v n.0) (λ y ident.
          ap (λ m. m >>= λ rows. value (push_all_new [] (drop_all y rows)))
            (rows-place c i _ h (remove-SameKeys start env y ident s) k n.1 e.1))
    rows-place (tp v) i env h s k n e = absurd k
    rows-place (call c) i env h s k n e = refl
    rows-place (sigil_ref y z) i env h s k n e = refl
    rows-place (refine c fs) i env h s k n e = refl

    agg-place :
        (a : AggExpr) (i : ℕ) (env : Env)
        → i < trace_len (without pre post x)
        → SameKeys start env
        → ConfinedAgg start x.event a
        → AggIdentifiers a
        → IsAggregate a
        → eval_agg_expr (whole pre post x) (place pre post x i) env a
          ≡ eval_agg_expr (without pre post x) i env a
    agg-place (sum v vs c) i env h s k n e =
        bind_congr (SameKeys start) (shed_for_binders env vs) _ _ (shed-SameKeys start vs env n.0 s)
          (λ inner s'. rw (rows-place c i inner h s' k n.1 e.2) refl)
    agg-place (count vs c) i env h s k n e =
        bind_congr (SameKeys start) (shed_for_binders env vs) _ _ (shed-SameKeys start vs env n.0 s)
          (λ inner s'. rw (rows-place c i inner h s' k n.1 e.1) refl)
    agg-place (agg_call c) i env h s k n e = refl

    term-place :
        (t : Term) (i : ℕ) (env : Env)
        → i < trace_len (without pre post x)
        → SameKeys start env
        → ConfinedOperand start x.event t
        → OperandIdentifiers t
        → IsOperand t
        → resolve_term_at (whole pre post x) (place pre post x i) env t
          ≡ resolve_term_at (without pre post x) i env t
    term-place (agg a) i env h s k n e = rw (agg-place a i env h s k n e) refl
    term-place (arithmetic op l r) i env h s k n e =
        rw (term-place l i env h s k.0 n.0 e.0, term-place r i env h s k.1 n.1 e.1) refl
    term-place _ i env h s k n e = refl
