-- ===== src/Relativize/Removal.antt =====
-- The loops of the evaluator on a trace and on the trace without one event, which the bodies of the loops
-- do not see: dogwood-language/src/interpreter/eval.rs.
use dogwood.Prelude.{
  ℕ, zero, suc, ◌≤◌, ◌<◌, ◌≡◌, ◌∙◌, refl, ap, Bool, true, false, Option, none, some, List, [], ◌∷◌,
  ◌++◌, arith, length, length-append, get_elem?,
}
use dogwood.Prelude.Panics.{Exec, value, panic, ◌>>=◌, of_option, Ensures, bind_congr}
use dogwood.Event.{Event, Trace, trace_len, point, trace_ts, trace_event}
use dogwood.Ast.{Interval, Condition, predicate, Predicate, pred}
use dogwood.Rows.{Env, Row, push_all_new}
use dogwood.Loop.{keep_rows}
use dogwood.Loop.Laws.{Returns}
use dogwood.Loop.Skip.{skip, skip_above, any_down-skip, all_up-skip, collect_up-skip}
use dogwood.Resolve.{match_predicate, in_window}
use dogwood.Eval.{
  as_predicate, scan_formerly, anchor_holds, eval_since, eval_and, formerly_rows, in_window_and,
  rows_in_window, anchor_rows, since_rows, extend_env, eval_condition, with_bindings,
}
use dogwood.Eval.Operators.{in_window-Returns}
use dogwood.Eval.Names.{HasIdentifiers, Named, AllNamed, OptionNamed, match_predicate-Named}
use dogwood.Eval.SameKeys.{SameKeys, extend-SameKeys}

skip-suc : (n j : ℕ) → skip (suc n) (suc j) ≡ suc (skip n j)
unfolding skip
skip-suc n j = ground arith

get_elem?-skip :
    (pre post : List Event) (x : Event) (j : ℕ)
    → get_elem? (pre ++ x ∷ post) (skip (length pre) j) ≡ get_elem? (pre ++ post) j
unfolding skip
get_elem?-skip [] post x zero = refl
get_elem?-skip [] post x (suc j) = ap (get_elem? (x ∷ post)) (skip_above 0 (suc j) (omega arith))
get_elem?-skip (e ∷ pre) post x zero = ground arith
get_elem?-skip (e ∷ pre) post x (suc j) =
    ap (get_elem? (e ∷ (pre ++ x ∷ post))) (skip-suc (length pre) j) ∙ get_elem?-skip pre post x j

get_elem?-inserted :
    (pre post : List Event) (x : Event) → get_elem? (pre ++ x ∷ post) (length pre) ≡ some x
get_elem?-inserted [] post x = refl
get_elem?-inserted (e ∷ pre) post x = get_elem?-inserted pre post x

pub keep_rows_congr :
    (f g : Row → Exec Bool) (rows : List Row)
    → AllNamed rows
    → ((row : Row) → Named row → f row ≡ g row)
    → keep_rows f rows ≡ keep_rows g rows
unfolding keep_rows
keep_rows_congr f g [] n h = refl
keep_rows_congr f g (row ∷ rows) n h = rw (h row n.0, keep_rows_congr f g rows n.1 h) refl

window_false : (w : Exec Bool) → Returns w → in_window_and w (value false) ≡ value false
unfolding in_window_and
window_false (value true) p = refl
window_false (value false) p = refl
window_false panic p = cc p.1

window_nothing : (w : Exec Bool) → Returns w → rows_in_window w (value []) ≡ value []
unfolding rows_in_window
window_nothing (value true) p = refl
window_nothing (value false) p = refl
window_nothing panic p = cc p.1

module _ (pre post : List Event) (x : Event) where
  abbrev pub whole : Trace
  whole = record { points = pre ++ x ∷ post }

  abbrev pub without : Trace
  without = record { points = pre ++ post }

  abbrev pub place : ℕ → ℕ
  place = skip (length pre)

  pub place_bound : (i : ℕ) → i < trace_len without → place i < trace_len whole
  unfolding trace_len skip
  place_bound i h = ground (arith, length-append pre (x ∷ post), length-append pre post)

  pub inserted_bound : length pre < trace_len whole
  unfolding trace_len
  inserted_bound = omega (arith, length-append pre (x ∷ post))

  pub inserted_event : trace_event whole (length pre) ≡ value x.event
  unfolding trace_event point
  inserted_event = rw (get_elem?-inserted pre post x) refl

  point-place : (i : ℕ) → point whole (place i) ≡ point without i
  unfolding point
  point-place i = ap of_option (get_elem?-skip pre post x i)

  in_window-place :
      (i j : ℕ) (w : Interval) → in_window whole (place i) (place j) w ≡ in_window without i j w
  unfolding in_window trace_ts
  in_window-place i j w = rw (point-place i, point-place j)

  pub match_predicate-place :
      (i : ℕ) (env : Env) (p : Predicate)
      → match_predicate whole (place i) env p ≡ match_predicate without i env p
  unfolding match_predicate trace_event
  match_predicate-place i env (pred n a k args) = rw (point-place i)

  pub eval_and-place :
      (start : Env) (i : ℕ) (env : Env) (l : Condition) (r r' : Env → Exec Bool)
      → SameKeys start env
      → HasIdentifiers l
      → eval_condition whole (place i) env l ≡ eval_condition without i env l
      → ((env' : Env) → SameKeys start env' → r env' ≡ r' env')
      → eval_and whole (place i) env (as_predicate l) (eval_condition whole (place i) env l) r
        ≡ eval_and without i env (as_predicate l) (eval_condition without i env l) r'
  unfolding eval_and
  eval_and-place start i env (predicate p) r r' s n h e =
      ap (λ m. m >>= with_bindings env r) (match_predicate-place i env p)
      ∙ bind_congr OptionNamed (match_predicate without i env p) (with_bindings env r)
          (with_bindings env r') (match_predicate-Named without i env p n) (λ o k. bound o k)
    where
      bound : (o : Option Env) → OptionNamed o → with_bindings env r o ≡ with_bindings env r' o
      bound none k = refl
      bound (some b) k = e _ (extend-SameKeys start b env k s)
  eval_and-place start i env _ r r' s n h e = rw (h, e env s) refl

  window-Returns :
      (i : ℕ) (w : Interval)
      → i < trace_len without
      → Returns (in_window whole (place i) (length pre) w)
  window-Returns i w h =
      in_window-Returns whole (place i) (length pre) w (place_bound i h) inserted_bound

  pub scan_formerly-place :
      (i : ℕ) (w : Interval) (f g : ℕ → Exec Bool)
      → i < trace_len without
      → f (length pre) ≡ value false
      → ((j : ℕ) → j ≤ i → f (place j) ≡ g j)
      → scan_formerly whole (place i) w f ≡ scan_formerly without i w g
  unfolding scan_formerly
  scan_formerly-place i w f g h miss e =
      any_down-skip _ _ (length pre) i (rw miss (window_false _ (window-Returns i w h)))
        (λ j p. rw (in_window-place i j w, e j p) refl)

  pub formerly_rows-place :
      (i : ℕ) (w : Interval) (f g : ℕ → Exec (List Row))
      → i < trace_len without
      → f (length pre) ≡ value []
      → ((j : ℕ) → j ≤ i → f (place j) ≡ g j)
      → formerly_rows whole (place i) w f ≡ formerly_rows without i w g
  unfolding formerly_rows
  formerly_rows-place i w f g h miss e =
      collect_up-skip _ _ (length pre) i (rw miss (window_nothing _ (window-Returns i w h)))
        (λ j p. rw (in_window-place i j w, e j p) refl)

  pub eval_since-place :
      (i : ℕ) (w : Interval) (l l' r r' : ℕ → Exec Bool)
      → i < trace_len without
      → l (length pre) ≡ value true
      → r (length pre) ≡ value false
      → ((j : ℕ) → j ≤ i → l (place j) ≡ l' j)
      → ((j : ℕ) → j ≤ i → r (place j) ≡ r' j)
      → eval_since whole (place i) w l r ≡ eval_since without i w l' r'
  unfolding eval_since anchor_holds
  eval_since-place i w l l' r r' h pass miss el er =
      any_down-skip _ _ (length pre) i (rw miss (window_false _ (window-Returns i w h))) (λ j p.
        rw (in_window-place i j w, er j p, all_up-skip l l' (length pre) i j p pass el) refl)

  pub since_rows-place :
      (start : Env) (i : ℕ) (w : Interval) (env : Env) (l l' : ℕ → Env → Exec Bool)
      (r r' : ℕ → Exec (List Row))
      → i < trace_len without
      → SameKeys start env
      → ((env' : Env) → SameKeys start env' → l (length pre) env' ≡ value true)
      → r (length pre) ≡ value []
      → ((j : ℕ) → j ≤ i → (env' : Env) → SameKeys start env' → l (place j) env' ≡ l' j env')
      → ((j : ℕ) → j ≤ i → r (place j) ≡ r' j)
      → ((j : ℕ) → Ensures AllNamed (r' j))
      → since_rows whole (place i) w env l r ≡ since_rows without i w env l' r'
  unfolding since_rows anchor_rows keep_rows
  since_rows-place start i w env l l' r r' h s pass miss el er named =
      ap (λ m. m >>= λ rows. value (push_all_new [] rows))
        (collect_up-skip _ _ (length pre) i (rw miss (window_nothing _ (window-Returns i w h)))
          (λ j p.
            rw (in_window-place i j w, er j p)
              (ap (rows_in_window (in_window without i j w)) (
                bind_congr AllNamed (r' j) _ _ (named j) (λ rows k.
                  keep_rows_congr _ _ rows k (λ row n.
                    all_up-skip (λ k'. l k' (extend_env env row)) (λ k'. l' k' (extend_env env row))
                      (length pre) i j p (pass _ (extend-SameKeys start row env n s))
                      (λ k' q. el k' q _ (extend-SameKeys start row env n s))))))))
