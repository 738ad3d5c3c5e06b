-- ===== src/Eval/Past.antt =====
-- The evaluator on a trace and on its extension, dogwood-language/src/interpreter/eval.rs.
use dogwood.Prelude.{
  ℕ, zero, suc, ◌-◌, ◌≤◌, ◌<◌, ◌≡◌, refl, ap, fun_ext, Bool, Option, none, some, List, [], ◌++◌,
  arith, get_elem?-append_left,
}
use dogwood.Prelude.Panics.{Exec, value, ◌>>=◌, of_option}
use dogwood.Event.{Event, Trace, trace_len, point, trace_ts, trace_event}
use dogwood.Ast.{
  Interval, within_interval, Condition, and, or, formerly, previous, since, predicate, comparison,
  exists, tp, call, sigil_ref, refine, Predicate, pred, Term, agg, arithmetic, AggExpr, sum, count,
  agg_call,
}
use dogwood.Rows.{Env, Row, push_all_new}
use dogwood.Loop.Laws.{any_down_congr, all_up_congr, collect_up_congr}
use dogwood.Resolve.{match_predicate, in_window}
use dogwood.Eval.{
  as_predicate, scan_formerly, anchor_holds, eval_since, eval_previous, eval_and, formerly_rows,
  previous_rows, anchor_rows, since_rows, extend_env, eval_condition, match_occurrences,
  eval_agg_expr, resolve_term_at,
}

-- The trace with later events.
abbrev pub append_events : Trace → List Event → Trace
append_events t later = record { points = t.points ++ later }

module _ (t : Trace) (later : List Event) where
  point-append : (i : ℕ) → i < trace_len t → point (append_events t later) i ≡ point t i
  unfolding point trace_len
  point-append i h = ap of_option (get_elem?-append_left t.points later i h)

  in_window-append :
      (i j : ℕ) (w : Interval)
      → i < trace_len t
      → j < trace_len t
      → in_window (append_events t later) i j w ≡ in_window t i j w
  unfolding in_window trace_ts
  in_window-append i j w h k = rw (point-append i h, point-append j k)

  match_predicate-append :
      (i : ℕ) (env : Env) (p : Predicate)
      → i < trace_len t
      → match_predicate (append_events t later) i env p ≡ match_predicate t i env p
  unfolding match_predicate trace_event
  match_predicate-append i env (pred n a k args) h = rw (point-append i h)

  eval_and-append :
      (i : ℕ) (env : Env) (o : Option Predicate) {l l' : Exec Bool} {r r' : Env → Exec Bool}
      → i < trace_len t
      → l ≡ l'
      → r ≡ r'
      → eval_and (append_events t later) i env o l r ≡ eval_and t i env o l' r'
  unfolding eval_and
  eval_and-append i env none h p q = rw (p, q)
  eval_and-append i env (some pr) h p q = rw (match_predicate-append i env pr h, q)

  scan_formerly-append :
      (i : ℕ) (w : Interval) (f g : ℕ → Exec Bool)
      → i < trace_len t
      → ((j : ℕ) → j ≤ i → f j ≡ g j)
      → scan_formerly (append_events t later) i w f ≡ scan_formerly t i w g
  unfolding scan_formerly
  scan_formerly-append i w f g h e =
      any_down_congr _ _ i (λ j p. rw (in_window-append i j w h (omega arith), e j p))

  eval_since-append :
      (i : ℕ) (w : Interval) (l l' r r' : ℕ → Exec Bool)
      → i < trace_len t
      → ((j : ℕ) → j ≤ i → l j ≡ l' j)
      → ((j : ℕ) → j ≤ i → r j ≡ r' j)
      → eval_since (append_events t later) i w l r ≡ eval_since t i w l' r'
  unfolding eval_since anchor_holds
  eval_since-append i w l l' r r' h el er = any_down_congr _ _ i (λ j p. rw (
    in_window-append i j w h (omega arith),
    er j p,
    all_up_congr l l' (suc j) (i - j) (λ k q s. el k (omega arith)),
  ))

  eval_previous-append :
      (i : ℕ) (w : Exec Interval) (f g : ℕ → Exec Bool)
      → i < trace_len t
      → ((j : ℕ) → j ≤ i → f j ≡ g j)
      → eval_previous (append_events t later) i w f ≡ eval_previous t i w g
  unfolding eval_previous
  eval_previous-append zero w f g h e = refl
  eval_previous-append (suc j) w f g h e =
      ap (λ k. w >>= k)
        (fun_ext (λ v. rw (in_window-append (suc j) j v h (omega arith), e j (omega arith)) refl))

  formerly_rows-append :
      (i : ℕ) (w : Interval) (f g : ℕ → Exec (List Row))
      → i < trace_len t
      → ((j : ℕ) → j ≤ i → f j ≡ g j)
      → formerly_rows (append_events t later) i w f ≡ formerly_rows t i w g
  unfolding formerly_rows
  formerly_rows-append i w f g h e =
      collect_up_congr _ _ 0 (suc i)
        (λ j p q. rw (in_window-append i j w h (omega arith), e j (omega arith)))

  previous_rows-append :
      (i : ℕ) (w : Exec Interval) (f g : ℕ → Exec (List Row))
      → i < trace_len t
      → ((j : ℕ) → j ≤ i → f j ≡ g j)
      → previous_rows (append_events t later) i w f ≡ previous_rows t i w g
  unfolding previous_rows
  previous_rows-append zero w f g h e = refl
  previous_rows-append (suc j) w f g h e =
      ap (λ k. w >>= k)
        (fun_ext (λ v. rw (in_window-append (suc j) j v h (omega arith), e j (omega arith)) refl))

  since_rows-append :
      (i : ℕ) (w : Interval) (env : Env) (l l' : ℕ → Env → Exec Bool) (r r' : ℕ → Exec (List Row))
      → i < trace_len t
      → ((j : ℕ) → j ≤ i → (env' : Env) → l j env' ≡ l' j env')
      → ((j : ℕ) → j ≤ i → r j ≡ r' j)
      → since_rows (append_events t later) i w env l r ≡ since_rows t i w env l' r'
  unfolding since_rows anchor_rows
  since_rows-append i w env l l' r r' h el er =
      ap (λ m. m >>= λ rows. value (push_all_new [] rows))
        (collect_up_congr _ _ 0 (suc i) (λ j p q. rw (
          in_window-append i j w h (omega arith),
          er j (omega arith),
          fun_ext (λ (row : Row).
              all_up_congr (λ k. l k (extend_env env row)) (λ k. l' k (extend_env env row)) (suc j)
                (i - j) (λ k a b. el k (omega arith) (extend_env env row))),
        )))

  mutual
    unfolding eval_condition

    condition-append :
        (c : Condition) (i : ℕ) (env : Env)
        → i < trace_len t
        → eval_condition (append_events t later) i env c ≡ eval_condition t i env c
    condition-append (and l r) i env h =
        eval_and-append i env (as_predicate l) h (condition-append l i env h)
          (fun_ext (λ env'. condition-append r i env' h))
    condition-append (or l r) i env h = rw (condition-append l i env h, condition-append r i env h)
    condition-append (Condition.not c) i env h = rw (condition-append c i env h)
    condition-append (formerly within c) i env h =
        ap (λ k. within_interval within >>= k)
          (fun_ext
            (λ w. scan_formerly-append i w _ _ h (λ j p. condition-append c j env (omega arith))))
    condition-append (previous within c) i env h =
        eval_previous-append i (within_interval within) _ _ h
          (λ j p. condition-append c j env (omega arith))
    condition-append (since l within r) i env h =
        ap (λ k. within_interval within >>= k)
          (fun_ext (λ w.
            eval_since-append i w _ _ _ _ h (λ j p. condition-append l j env (omega arith))
              (λ j p. condition-append r j env (omega arith))))
    condition-append (predicate p) i env h = rw (match_predicate-append i env p h)
    condition-append (comparison op l r) i env h = rw (term-append l i env h, term-append r i env h)
    condition-append (exists x c) i env h = rw (fun_ext (λ (env' : Env). rows-append c i env' h))
    condition-append (tp x) i env h = refl
    condition-append (call c) i env h = refl
    condition-append (sigil_ref s n) i env h = refl
    condition-append (refine c fs) i env h = refl

    rows-append :
        (c : Condition) (i : ℕ) (env : Env)
        → i < trace_len t
        → match_occurrences (append_events t later) i env c ≡ match_occurrences t i env c
    rows-append (predicate p) i env h = rw (match_predicate-append i env p h)
    rows-append (and l r) i env h =
        rw (rows-append l i env h, fun_ext (λ (env' : Env). rows-append r i env' h))
    rows-append (or l r) i env h = rw (rows-append l i env h, rows-append r i env h)
    rows-append (Condition.not c) i env h = rw (condition-append c i env h)
    rows-append (formerly within c) i env h =
        ap (λ k. within_interval within >>= k)
          (fun_ext (λ w. formerly_rows-append i w _ _ h (λ j p. rows-append c j env (omega arith))))
    rows-append (previous within c) i env h =
        previous_rows-append i (within_interval within) _ _ h
          (λ j p. rows-append c j env (omega arith))
    rows-append (since l within r) i env h =
        ap (λ k. within_interval within >>= k)
          (fun_ext (λ w.
            since_rows-append i w env _ _ _ _ h
              (λ j p env'. condition-append l j env' (omega arith))
              (λ j p. rows-append r j env (omega arith))))
    rows-append (comparison op l r) i env h = rw (term-append l i env h, term-append r i env h)
    rows-append (exists x c) i env h = rw (fun_ext (λ (env' : Env). rows-append c i env' h))
    rows-append (tp x) i env h = refl
    rows-append (call c) i env h = refl
    rows-append (sigil_ref s n) i env h = refl
    rows-append (refine c fs) i env h = refl

    agg-append :
        (e : AggExpr) (i : ℕ) (env : Env)
        → i < trace_len t
        → eval_agg_expr (append_events t later) i env e ≡ eval_agg_expr t i env e
    agg-append (sum x vs c) i env h = rw (fun_ext (λ (env' : Env). rows-append c i env' h))
    agg-append (count vs c) i env h = rw (fun_ext (λ (env' : Env). rows-append c i env' h))
    agg-append (agg_call c) i env h = refl

    term-append :
        (e : Term) (i : ℕ) (env : Env)
        → i < trace_len t
        → resolve_term_at (append_events t later) i env e ≡ resolve_term_at t i env e
    term-append (agg e) i env h = rw (agg-append e i env h)
    term-append (arithmetic op l r) i env h = rw (term-append l i env h, term-append r i env h)
    term-append _ i env h = refl

-- What `eval_condition` and `match_occurrences` give at a timepoint of a trace is what they give
-- there when later events are appended.
pub eval_condition-append_events :
    (t : Trace) (later : List Event) (c : Condition) (i : ℕ) (env : Env)
    → i < trace_len t
    → (eval_condition (append_events t later) i env c ≡ eval_condition t i env c)
      × (match_occurrences (append_events t later) i env c ≡ match_occurrences t i env c)
eval_condition-append_events t later c i env h =
    (condition-append t later c i env h, rows-append t later c i env h)
