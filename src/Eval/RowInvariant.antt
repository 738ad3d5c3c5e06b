-- ===== src/Eval/RowInvariant.antt =====
-- Properties of rows that the relational mode keeps, dogwood-language/src/interpreter/eval.rs.
use dogwood.Prelude.{
  ℕ, suc, Bool, true, false, Option, none, some, List, [], ◌∷◌, Str, All, if◌then◌else◌,
}
use dogwood.Prelude.Panics.{Exec, value, panic, ◌>>=◌, map_exec, Ensures, bind-Ensures}
use dogwood.Map
use dogwood.Value.{Value, int}
use dogwood.Int.{pos}
use dogwood.Event.{Trace}
use dogwood.Ast.{
  Predicate, CmpOp, BinderSlot, name, slot_param, slot_binder, slot_name, binder_name,
  within_interval, Condition, and, or, formerly, previous, since, predicate, comparison, exists, tp,
  call, sigil_ref, refine, Term, var,
}
use dogwood.Rows.{Env, Row, drop_column, join_rows, join_all}
use dogwood.Resolve.{match_predicate, in_window}
use dogwood.Eval.{
  match_occurrences, option_row, eq_binding, unbound_var, bind_row, row_or_filter, filter_witness,
  comparison_rows, and_rows, formerly_rows, anchor_rows, since_rows, drop_all, extend_env, tp_rows,
  tp_holds, eval_comparison,
}
use dogwood.RequestEnv.Keys.{IsIdentifier}
use dogwood.Eval.Names.{
  SlotIdentifier, HasIdentifiers, OperandIdentifiers, PredicateIdentifiers, OptionOf,
}
use dogwood.Eval.RowEach.{
  any_value, push_all_new-Each, collect_rows-Each, collect_up-Each, keep_rows-Each,
  rows_in_window-Each, map_exec-Each, previous_rows-Each,
}

-- What holds of the rows of single bindings and of matches, and passes on to joins and projections.
pub record IsKept (P : Row → Type 0) : Type 0 where
  pub empty : P []
  pub single : (n : Str) (v : Value) → IsIdentifier n → P ((n, v) ∷ [])
  pub dropped : (n : Str) (row : Row) → P row → P (drop_column n row)
  pub joined : (a b : Row) → P a → P b → OptionOf P (join_rows a b)
  pub matched :
      (t : Trace) (i : ℕ) (env : Env) (p : Predicate)
      → PredicateIdentifiers p
      → Ensures (OptionOf P) (match_predicate t i env p)

module _ (P : Row → Type 0) (rules : IsKept P) where
  abbrev Each : List Row → Type 0
  Each rows = All P rows

  abbrev OptionHas : Option Row → Type 0
  OptionHas o = OptionOf P o

  drop_all-Each : (n : Str) (rows : List Row) → Each rows → Each (drop_all n rows)
  unfolding drop_all
  drop_all-Each n [] h = tt
  drop_all-Each n (row ∷ rows) h = (rules.dropped n row h.0, drop_all-Each n rows h.1)

  join_all-Each : (row : Row) (rows : List Row) → P row → Each rows → Each (join_all row rows)
  unfolding join_all
  join_all-Each row [] h k = tt
  join_all-Each row (r ∷ rows) h k =
      kept (join_rows row r) (rules.joined row r h k.0) (join_all-Each row rows h k.1)
    where
      kept :
          (o : Option Row)
          → OptionHas o
          → Each (join_all row rows)
          → Each (elim o [ none ↦ join_all row rows | some joined ↦ joined ∷ join_all row rows ])
      kept none n ih = ih
      kept (some joined) n ih = (n, ih)

  filter_witness-Each : (m : Exec Bool) → Ensures Each (filter_witness m)
  unfolding filter_witness
  filter_witness-Each (value true) = (rules.empty, tt)
  filter_witness-Each (value false) = tt
  filter_witness-Each panic = tt

  option_row-Each :
      (m : Exec (Option Row)) → Ensures OptionHas m → Ensures Each (map_exec option_row m)
  option_row-Each (value none) h = tt
  option_row-Each (value (some row)) h = (h, tt)
  option_row-Each panic h = tt

  abbrev OptionIdentifier : Option Str → Type 0
  OptionIdentifier none = Unit
  OptionIdentifier (some n) = IsIdentifier n

  unbound_var-OptionIdentifier :
      (t : Term) (env : Env) → OperandIdentifiers t → OptionIdentifier (unbound_var env t)
  unfolding unbound_var
  unbound_var-OptionIdentifier (var n) env h = bound (Map.get env n)
    where
      bound : (o : Option Value) → OptionIdentifier (elim o [ none ↦ some n | some _ ↦ none ])
      bound none = h
      bound (some v) = tt
  unbound_var-OptionIdentifier _ env h = tt

  bind_row-Has :
      (n : Str) (m : Exec (Option Value)) → IsIdentifier n → Ensures OptionHas (bind_row n m)
  bind_row-Has n (value none) h = tt
  bind_row-Has n (value (some v)) h = rules.single n v h
  bind_row-Has n panic h = tt

  eq_binding-Has :
      (l r : Option Str) (ml mr : Exec (Option Value))
      → OptionIdentifier l
      → OptionIdentifier r
      → Ensures OptionHas (eq_binding l r ml mr)
  unfolding eq_binding
  eq_binding-Has (some n) none ml mr h k = bind_row-Has n mr h
  eq_binding-Has none (some n) ml mr h k = bind_row-Has n ml k
  eq_binding-Has (some n) (some m) ml mr h k = tt
  eq_binding-Has none none ml mr h k = tt

  row_or_filter-Each :
      (o : Option Row) (m : Exec Bool) → OptionHas o → Ensures Each (row_or_filter o m)
  row_or_filter-Each none m h = filter_witness-Each m
  row_or_filter-Each (some row) m h = (h, tt)

  comparison_rows-Each :
      (op : CmpOp) (l r : Option Str) (ml mr : Exec (Option Value))
      → OptionIdentifier l
      → OptionIdentifier r
      → Ensures Each (comparison_rows op l r ml mr)
  unfolding comparison_rows
  comparison_rows-Each CmpOp.eq l r ml mr h k =
      bind-Ensures OptionHas Each (eq_binding l r ml mr) _ (eq_binding-Has l r ml mr h k)
        (λ row n. row_or_filter-Each row _ n)
  comparison_rows-Each _ l r ml mr h k = filter_witness-Each (eval_comparison _ ml mr)

  tp_rows-Each :
      (i : ℕ) (x : BinderSlot) (env : Env)
      → SlotIdentifier x
      → Ensures Each (slot_name x >>= λ n. value (tp_rows i n (Map.get env n)))
  unfolding slot_name tp_rows
  tp_rows-Each i (name n) env h = row (tp_holds i (Map.get env n))
    where
      row : (b : Bool) → Each (if b then ((n, int (pos i)) ∷ []) ∷ [] else [])
      row true = (rules.single n _ h, tt)
      row false = tt
  tp_rows-Each i (slot_param p) env h = tt
  tp_rows-Each i (slot_binder p) env h = tt

  -- A property that is kept holds of every row.
  pub match_occurrences-Each :
      (c : Condition) (t : Trace) (i : ℕ) (env : Env)
      → HasIdentifiers c
      → Ensures Each (match_occurrences t i env c)
  unfolding match_occurrences and_rows formerly_rows since_rows anchor_rows
  match_occurrences-Each (predicate p) t i env h = option_row-Each _ (rules.matched t i env p h)
  match_occurrences-Each (and l r) t i env h =
      bind-Ensures Each Each (match_occurrences t i env l) _ (match_occurrences-Each l t i env h.0)
        (λ rows k.
          collect_rows-Each P P _ rows
            (λ row n.
              map_exec-Each P (join_all row) _
                (match_occurrences-Each r t i (extend_env env row) h.1)
                (λ rs p. join_all-Each row rs n p))
            k)
  match_occurrences-Each (or l r) t i env h =
      bind-Ensures Each Each (match_occurrences t i env l) _ (match_occurrences-Each l t i env h.0)
        (λ ls p.
          bind-Ensures Each Each (match_occurrences t i env r) _
            (match_occurrences-Each r t i env h.1) (λ rs q. push_all_new-Each P ls rs p q))
  match_occurrences-Each (Condition.not c) t i env h = filter_witness-Each _
  match_occurrences-Each (formerly within c) t i env h =
      bind-Ensures (λ w. Unit {0}) Each (within_interval within) _ (any_value _)
        (λ w u.
          collect_up-Each P _ 0 (suc i)
            (λ j. rows_in_window-Each P (in_window t i j w) _ (match_occurrences-Each c t j env h)))
  match_occurrences-Each (previous within c) t i env h =
      previous_rows-Each P t i _ _ (λ j. match_occurrences-Each c t j env h)
  match_occurrences-Each (since l within r) t i env h =
      bind-Ensures (λ w. Unit {0}) Each (within_interval within) _ (any_value _)
        (λ w u.
          bind-Ensures Each Each _ _
            (collect_up-Each P _ 0 (suc i) (λ j. rows_in_window-Each P (in_window t i j w) _ (
              bind-Ensures Each Each (match_occurrences t j env r) _
                (match_occurrences-Each r t j env h.1) (λ rows k. keep_rows-Each P _ rows k))))
            (λ rows k. push_all_new-Each P [] rows tt k))
  match_occurrences-Each (comparison op l r) t i env h =
      comparison_rows-Each op _ _ _ _ (unbound_var-OptionIdentifier l env h.0)
        (unbound_var-OptionIdentifier r env h.1)
  match_occurrences-Each (exists x c) t i env h =
      bind-Ensures (λ w. Unit {0}) Each (binder_name x) _ (any_value _)
        (λ n u.
          bind-Ensures Each Each (match_occurrences t i (Map.remove env n) c) _
            (match_occurrences-Each c t i _ h.1)
            (λ rows k. push_all_new-Each P [] _ tt (drop_all-Each n rows k)))
  match_occurrences-Each (tp x) t i env h = tp_rows-Each i x env h
  match_occurrences-Each (call c) t i env h = tt
  match_occurrences-Each (sigil_ref s n) t i env h = tt
  match_occurrences-Each (refine c fs) t i env h = tt
