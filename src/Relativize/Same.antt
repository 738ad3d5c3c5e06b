-- ===== src/Relativize/Same.antt =====
-- Conditions that agree on every trace of own events, operator by operator.
use dogwood.Prelude.{
  ℕ, suc, ◌-◌, ◌<◌, ◌≡◌, ◌∙◌, refl, ap, fun_ext, Bool, true, Option, none, some, List, [], arith,
}
use dogwood.Prelude.Panics.{Exec, value, ◌>>=◌, map_exec, bind_congr}
use dogwood.Value.{int}
use dogwood.Event.{EventData, Trace, trace_event, trace_len}
use dogwood.Ast.{
  WithinSpec, within_interval, CmpOp, TypedBinder, binder_name, Condition, and, or, formerly, since,
  predicate, comparison, exists, Predicate, Term, agg, sum, count, BinderSlot,
}
use dogwood.Rows.{Env, push_all_new, join_all}
use dogwood.Loop.Laws.{any_down_congr, all_up_congr, collect_up_congr}
use dogwood.Resolve.{match_predicate}
use dogwood.Eval.{
  as_predicate, eval_and, and_rows, with_bindings, extend_env, scan_formerly, eval_since,
  anchor_holds, anchor_rows, formerly_rows, since_rows, rows_in_window, is_nonempty, drop_all,
  eval_condition, match_occurrences, resolve_term_at, shed_for_binders, unbound_var,
}
use dogwood.Eval.Names.{
  SlotIdentifier, SlotIdentifiers, HasIdentifiers, PredicateIdentifiers, AllNamed, OptionNamed,
  match_predicate-Named,
}
use dogwood.Eval.RowNames.{match_occurrences-AllNamed}
use dogwood.Eval.SameKeys.{
  SameKeys, extend-SameKeys, remove-SameKeys, binder-Ensures, shed-SameKeys,
}
use dogwood.RequestEnv.Keys.{IsIdentifier}
use dogwood.Pins.{DerivedEvent}
use dogwood.Relativize.{UniversalPin}
use dogwood.Relativize.Confinement.{collect_rows_congr}
use dogwood.Relativize.Removal.{keep_rows_congr}
use dogwood.Relativize.Mine.{is_mine}

abbrev OptionIdentifiers : Option Predicate → Type 0
OptionIdentifiers none = Unit
OptionIdentifiers (some p) = PredicateIdentifiers p

as_predicate-Identifiers : (c : Condition) → HasIdentifiers c → OptionIdentifiers (as_predicate c)
as_predicate-Identifiers (predicate p) h = h
as_predicate-Identifiers _ h = tt

module _ (start : Env) (schema : List DerivedEvent) (pins : List UniversalPin) where
  -- Every event of the trace is an own event of the request.
  abbrev pub IsOwn : Trace → Type 0
  IsOwn t = (j : ℕ) (x : EventData) → trace_event t j ≡ value x → is_mine start schema pins x ≡ true

  abbrev pub Same : Condition → Condition → Type 0
  Same c d =
      (t : Trace) (i : ℕ) (env : Env)
      → IsOwn t
      → i < trace_len t
      → SameKeys start env
      → (eval_condition t i env c ≡ eval_condition t i env d)
        × (match_occurrences t i env c ≡ match_occurrences t i env d)

  abbrev pub SameTerm : Term → Term → Type 0
  SameTerm a b =
      (t : Trace) (i : ℕ) (env : Env)
      → IsOwn t
      → i < trace_len t
      → SameKeys start env
      → (resolve_term_at t i env a ≡ resolve_term_at t i env b)
        × (unbound_var env a ≡ unbound_var env b)

  pub Same-trans : (b c d : Condition) → Same b c → Same c d → Same b d
  Same-trans b c d p q t i env o h s =
      let (x, y) = p t i env o h s in let (x', y') = q t i env o h s in (x ∙ x', y ∙ y')

  eval_and_same :
      (t : Trace) (i : ℕ) (env : Env) (o : Option Predicate) (l : Exec Bool)
      (r r' : Env → Exec Bool)
      → SameKeys start env
      → OptionIdentifiers o
      → ((env' : Env) → SameKeys start env' → r env' ≡ r' env')
      → eval_and t i env o l r ≡ eval_and t i env o l r'
  unfolding eval_and
  eval_and_same t i env none l r r' s n e = rw (e env s) refl
  eval_and_same t i env (some p) l r r' s n e =
      bind_congr OptionNamed (match_predicate t i env p) (with_bindings env r)
        (with_bindings env r') (match_predicate-Named t i env p n) bound
    where
      bound : (o : Option Env) → OptionNamed o → with_bindings env r o ≡ with_bindings env r' o
      bound none k = refl
      bound (some b) k = e _ (extend-SameKeys start b env k s)

  pub Same-and :
      (l' l r' r : Condition)
      → Same l' l
      → Same r' r
      → HasIdentifiers l
      → as_predicate l' ≡ as_predicate l
      → Same (and l' r') (and l r)
  unfolding eval_condition and_rows
  Same-and l' l r' r p q n a t i env o h s =
      let (x, y) = p t i env o h s in
      (
        rw (a, x)
            (eval_and_same t i env (as_predicate l) (eval_condition t i env l) _ _ s
              (as_predicate-Identifiers l n) (λ env' s'. (q t i env' o h s').0)),
        rw y (
            bind_congr AllNamed (match_occurrences t i env l) _ _
              (match_occurrences-AllNamed l t i env n)
              (λ rows named. collect_rows_congr _ _ rows named (λ row m.
                ap (map_exec (join_all row))
                  (q t i (extend_env env row) o h (extend-SameKeys start row env m s)).1))),
      )

  pub Same-or : (l' l r' r : Condition) → Same l' l → Same r' r → Same (or l' r') (or l r)
  unfolding eval_condition
  Same-or l' l r' r p q t i env o h s =
      let (x, y) = p t i env o h s in
      let (x', y') = q t i env o h s in (rw (x, x') refl, rw (y, y') refl)

  pub Same-not : (c' c : Condition) → Same c' c → Same (Condition.not c') (Condition.not c)
  unfolding eval_condition
  Same-not c' c p t i env o h s = let (x, y) = p t i env o h s in (rw x refl, rw x refl)

  pub Same-exists :
      (v : TypedBinder) (c' c : Condition)
      → SlotIdentifier v.slot
      → Same c' c
      → Same (exists v c') (exists v c)
  unfolding eval_condition
  Same-exists v c' c n p t i env o h s = (
    bind_congr IsIdentifier (binder_name v) _ _ (binder-Ensures start v n) (λ y ident.
        ap (map_exec is_nonempty) (p t i _ o h (remove-SameKeys start env y ident s)).1),
    bind_congr IsIdentifier (binder_name v) _ _ (binder-Ensures start v n) (λ y ident.
        ap (λ m. m >>= λ rows. value (push_all_new [] (drop_all y rows)))
          (p t i _ o h (remove-SameKeys start env y ident s)).1),
  )

  pub Same-formerly :
      (w : WithinSpec) (c' c : Condition) → Same c' c → Same (formerly w c') (formerly w c)
  unfolding eval_condition scan_formerly formerly_rows
  Same-formerly w c' c p t i env o h s = (
    ap (λ f. within_interval w >>= f)
        (fun_ext (λ v. any_down_congr _ _ i (λ j q. rw ((p t j env o (omega arith) s).0) refl))),
    ap (λ f. within_interval w >>= f)
        (fun_ext (λ v.
          collect_up_congr _ _ 0 (suc i) (λ j q k. rw ((p t j env o (omega arith) s).1) refl))),
  )

  pub Same-since :
      (l' l r' r : Condition) (w : WithinSpec)
      → Same l' l
      → Same r' r
      → HasIdentifiers r
      → Same (since l' w r') (since l w r)
  unfolding eval_condition eval_since anchor_holds since_rows anchor_rows
  Same-since l' l r' r w p q n t i env o h s = (
    ap (λ f. within_interval w >>= f)
        (fun_ext (λ v. any_down_congr _ _ i (λ j k.
          rw
            (
              (q t j env o (omega arith) s).0,
              all_up_congr (λ m. eval_condition t m env l') (λ m. eval_condition t m env l) (suc j)
                  (i - j) (λ m a b. (p t m env o (omega arith) s).0),
            )
            refl))),
    ap (λ f. within_interval w >>= f)
        (fun_ext (λ v.
          ap (λ m. m >>= λ rows. value (push_all_new [] rows))
            (collect_up_congr _ _ 0 (suc i) (λ j k k'. ap (rows_in_window _) (
              rw ((q t j env o (omega arith) s).1) (
                bind_congr AllNamed (match_occurrences t j env r) _ _
                  (match_occurrences-AllNamed r t j env n)
                  (λ rows named. keep_rows_congr _ _ rows named (λ row m.
                    all_up_congr (λ k''. eval_condition t k'' (extend_env env row) l')
                      (λ k''. eval_condition t k'' (extend_env env row) l) (suc j) (i - j)
                      (λ k'' a b.
                        (p t k'' _ o (omega arith) (extend-SameKeys start row env m s)).0))))))))),
  )

  pub Same-comparison :
      (op : CmpOp) (a' a b' b : Term)
      → SameTerm a' a
      → SameTerm b' b
      → Same (comparison op a' b') (comparison op a b)
  unfolding eval_condition
  Same-comparison op a' a b' b p q t i env o h s =
      let (x, u) = p t i env o h s in
      let (y, v) = q t i env o h s in (rw (x, y) refl, rw (x, y, u, v) refl)

  pub Same-sum :
      (v : BinderSlot) (vs : List TypedBinder) (c' c : Condition)
      → SlotIdentifiers vs
      → Same c' c
      → SameTerm (agg (sum v vs c')) (agg (sum v vs c))
  unfolding eval_condition unbound_var
  Same-sum v vs c' c n p t i env o h s = (
    ap (λ m. m >>= λ k. value (some (int k)))
        (bind_congr (SameKeys start) (shed_for_binders env vs) _ _ (shed-SameKeys start vs env n s)
          (λ inner s'. rw ((p t i inner o h s').1) refl)),
    refl,
  )

  pub Same-count :
      (vs : List TypedBinder) (c' c : Condition)
      → SlotIdentifiers vs
      → Same c' c
      → SameTerm (agg (count vs c')) (agg (count vs c))
  unfolding eval_condition unbound_var
  Same-count vs c' c n p t i env o h s = (
    ap (λ m. m >>= λ k. value (some (int k)))
        (bind_congr (SameKeys start) (shed_for_binders env vs) _ _ (shed-SameKeys start vs env n s)
          (λ inner s'. rw ((p t i inner o h s').1) refl)),
    refl,
  )

  pub SameTerm-refl : (a : Term) → SameTerm a a
  SameTerm-refl a t i env o h s = (refl, refl)

  pub Same-refl : (c : Condition) → Same c c
  Same-refl c t i env o h s = (refl, refl)
