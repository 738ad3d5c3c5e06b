-- ===== src/Check/Restricted.antt =====
-- Range restriction is sound: what `collect_range_restricted` of
-- dogwood-language/src/extension/temporal/check.rs lists, the relational mode binds in every row.
use dogwood.Prelude.{
  ℕ, suc, ◌≡◌, ◌≢◌, ◌∙◌, refl, ap, true, Option, none, some, List, [], ◌∷◌, Str, arith, ◌⊎◌, inl,
  inr, All,
}
use dogwood.Prelude.Panics.{Exec, value, panic, map_exec, Ensures, bind-Ensures}
use dogwood.Map
use dogwood.Map.Laws.{get-insert, get-remove_ne}
use dogwood.Value.{Value, int}
use dogwood.Int.{pos}
use dogwood.Event.{Trace}
use dogwood.Ast
use dogwood.Ast.{
  BinderSlot, name, slot_param, slot_binder, slot_name, TypedBinder, binder_name, within_interval,
  Condition, and, or, formerly, previous, since, predicate, comparison, exists, tp, call, sigil_ref,
  refine, Predicate, pred, NamedArgs, Term,
}
use dogwood.Rows.{Env, Row, find_column, join_rows, join_all, push_all_new}
use dogwood.Resolve.{in_window}
use dogwood.Eval.{
  match_occurrences, and_rows, formerly_rows, since_rows, anchor_rows, extend_env, drop_all,
  tp_rows, tp_holds,
}
use dogwood.Eval.Names.{OptionOf}
use dogwood.Eval.RowEach.{
  any_value, push_all_new-Each, collect_rows-Each, collect_up-Each, keep_rows-Each,
  rows_in_window-Each, map_exec-Each, previous_rows-Each,
}
use dogwood.LeafMap.{StrSet, set_contains}
use dogwood.Check.{collect_range_restricted, remove_slot}
use dogwood.Check.Names.{contains-set_insert, contains-remove, contains-extend}
use dogwood.Check.Columns.{Binds, single-Binds, drop-Binds, join-Binds}
use dogwood.Check.Matches.{
  contains-collect_arg_names, contains-insert_option, match_predicate-Binds,
}
use dogwood.Check.Equalities.{comparison-Binds}

module _ (x : Str) where
  abbrev AllBind : List Row → Type 0
  AllBind rows = All (Binds x) rows

  -- Where the variable is free, every row of the condition binds it.
  abbrev pub Restricts : Condition → Type 0
  Restricts c =
      (t : Trace) (i : ℕ) (env : Env)
      → Map.get env x ≡ none
      → Ensures (All (Binds x)) (match_occurrences t i env c)

  join_all-Binds :
      (row : Row) (rows : List Row) → Binds x row ⊎ AllBind rows → AllBind (join_all row rows)
  unfolding join_all
  join_all-Binds row [] h = tt
  join_all-Binds row (r ∷ rows) h =
      kept (join_rows row r) (join-Binds x row r (head h)) (join_all-Binds row rows (tail h))
    where
      head : Binds x row ⊎ AllBind (r ∷ rows) → Binds x row ⊎ Binds x r
      head (inl a) = inl a
      head (inr b) = inr b.0

      tail : Binds x row ⊎ AllBind (r ∷ rows) → Binds x row ⊎ AllBind rows
      tail (inl a) = inl a
      tail (inr b) = inr b.1

      kept :
          (o : Option Row)
          → OptionOf (Binds x) o
          → AllBind (join_all row rows)
          → AllBind (elim o [ none ↦ join_all row rows | some c ↦ c ∷ join_all row rows ])
      kept none n ih = ih
      kept (some c) n ih = (n, ih)

  map_any :
      (row : Row) (m : Exec (List Row)) → Binds x row → Ensures AllBind (map_exec (join_all row) m)
  map_any row (value rows) h = join_all-Binds row rows (inl h)
  map_any row panic h = tt

  any_row : (rows : List Row) → All (λ (r : Row). Unit {0}) rows
  any_row [] = tt
  any_row (r ∷ rows) = (tt, any_row rows)

  pub and_left : (l r : Condition) → Restricts l → Restricts (and l r)
  unfolding match_occurrences and_rows
  and_left l r h t i env free =
      bind-Ensures AllBind AllBind (match_occurrences t i env l) _ (h t i env free)
        (λ rows k. collect_rows-Each (Binds x) (Binds x) _ rows (λ row b. map_any row _ b) k)

  get_extended :
      (row : Row) (env : Env)
      → find_column row x ≡ none
      → Map.get env x ≡ none
      → Map.get (extend_env env row) x ≡ none
  unfolding find_column Map.extend
  get_extended [] env h free = free
  get_extended ((k, v) ∷ row) env h free =
      get_extended row (Map.insert env k v) (ground arith) (ground (arith, get-insert env k v x))

  pub and_right : (l r : Condition) → Restricts r → Restricts (and l r)
  unfolding match_occurrences and_rows
  and_right l r h t i env free =
      bind-Ensures (λ rows. Unit {0}) AllBind (match_occurrences t i env l) _ (any_value _)
        (λ rows u.
          collect_rows-Each (Binds x) (λ row. Unit {0}) _ rows
            (λ row w. joined row (find_column row x) refl) (any_row rows))
    where
      joined :
          (row : Row) (o : Option Value)
          → find_column row x ≡ o
          → Ensures AllBind (map_exec (join_all row) (match_occurrences t i (extend_env env row) r))
      joined row none e =
          map_exec-Each (Binds x) (join_all row) _
            (h t i (extend_env env row) (get_extended row env e free))
            (λ rows k. join_all-Binds row rows (inr k))
      joined row (some v) e = map_any row _ (v, e)

  formerly-Restricts : (w : Ast.WithinSpec) (c : Condition) → Restricts c → Restricts (formerly w c)
  unfolding match_occurrences formerly_rows
  formerly-Restricts within c h t i env free =
      bind-Ensures (λ w. Unit {0}) AllBind (within_interval within) _ (any_value _)
        (λ w u.
          collect_up-Each (Binds x) _ 0 (suc i)
            (λ j. rows_in_window-Each (Binds x) (in_window t i j w) _ (h t j env free)))

  previous-Restricts : (w : Ast.WithinSpec) (c : Condition) → Restricts c → Restricts (previous w c)
  unfolding match_occurrences
  previous-Restricts within c h t i env free =
      previous_rows-Each (Binds x) t i _ _ (λ j. h t j env free)

  since-Restricts :
      (l : Condition) (w : Ast.WithinSpec) (r : Condition) → Restricts r → Restricts (since l w r)
  unfolding match_occurrences since_rows anchor_rows
  since-Restricts l within r h t i env free =
      bind-Ensures (λ w. Unit {0}) AllBind (within_interval within) _ (any_value _)
        (λ w u.
          bind-Ensures AllBind AllBind _ _
            (collect_up-Each (Binds x) _ 0 (suc i) (λ j.
              rows_in_window-Each (Binds x) (in_window t i j w) _ (
                bind-Ensures AllBind AllBind (match_occurrences t j env r) _ (h t j env free)
                  (λ rows k. keep_rows-Each (Binds x) _ rows k))))
            (λ rows k. push_all_new-Each (Binds x) [] rows tt k))

  drop_all-Binds : (n : Str) (rows : List Row) → n ≢ x → AllBind rows → AllBind (drop_all n rows)
  unfolding drop_all
  drop_all-Binds n [] apart h = tt
  drop_all-Binds n (row ∷ rows) apart h =
      (drop-Binds x n row apart h.0, drop_all-Binds n rows apart h.1)

  exists-Restricts :
      (v : TypedBinder) (c : Condition)
      → Restricts c
      → Ensures (λ n. n ≢ x) (binder_name v)
      → Restricts (exists v c)
  unfolding match_occurrences push_all_new
  exists-Restricts v c h apart t i env free =
      bind-Ensures (λ n. n ≢ x) AllBind (binder_name v) _ apart
        (λ n other.
          bind-Ensures AllBind AllBind (match_occurrences t i (Map.remove env n) c) _
            (h t i (Map.remove env n) (get-remove_ne env n x other ∙ free))
            (λ rows k.
              push_all_new-Each (Binds x) [] (drop_all n rows) tt (drop_all-Binds n rows other k)))

  tp-Restricts : (v : BinderSlot) → v ≡ name x → Restricts (tp v)
  unfolding match_occurrences slot_name tp_rows tp_holds
  tp-Restricts (name n) same t i env free =
      let e : n ≡ x = cc in rw (e, free) (single-Binds x (int (pos i)), tt)
  tp-Restricts _ same t i env free = tt

  outside :
      (s : BinderSlot) (names : StrSet)
      → set_contains (remove_slot s names) x ≡ true
      → (set_contains names x ≡ true) × Ensures (λ n. n ≢ x) (slot_name s)
  unfolding slot_name
  outside (name n) names h = let (a, b) = contains-remove names n x h in (b, a)
  outside (slot_param p) names h = (h, tt)
  outside (slot_binder b) names h = (h, tt)

  nothing : set_contains [] x ≢ true
  unfolding Map.get
  nothing h = cc

  or_later : {A B C : Type 0} → A ⊎ B → (B → C) → A ⊎ C
  or_later (inl a) f = inl a
  or_later (inr b) f = inr (f b)

  -- Every name that the collection adds is bound.
  pub collected :
      (c : Condition) (out : StrSet)
      → set_contains (collect_range_restricted c out) x ≡ true
      → (set_contains out x ≡ true) ⊎ Restricts c
  unfolding collect_range_restricted
  collected (and l r) out h = elim (collected r (collect_range_restricted l out) h) [
    | inl before ↦ or_later (collected l out before) (and_left l r)
    | inr right ↦ inr (and_right l r right)
  ]
  collected (predicate (pred namespace action kind args)) out h =
      elim (contains-collect_arg_names x args out h) [
        | inl old ↦ inl old
        | inr has ↦ inr (λ t i env free.
            unfold match_occurrences in
            match_predicate-Binds x t i env namespace action kind args free has)
      ]
  collected (tp (name n)) out h = elim (contains-set_insert out n x h) [
    | inl same ↦ inr (tp-Restricts (name n) (ap name same))
    | inr old ↦ inl old
  ]
  collected (comparison op l r) out h = elim (contains-insert_option x _ out h) [
    | inl old ↦ inl old
    | inr bound ↦
        inr
          (λ t i env free. unfold match_occurrences in comparison-Binds x t i env op l r free bound)
  ]
  collected (formerly w c) out h = or_later (collected c out h) (formerly-Restricts w c)
  collected (previous w c) out h = or_later (collected c out h) (previous-Restricts w c)
  collected (since l w r) out h = or_later (collected r out h) (since-Restricts l w r)
  collected (exists v c) out h =
      elim (contains-extend out (remove_slot v.slot (collect_range_restricted c [])) x h) [
        | inl old ↦ inl old
        | inr new ↦
            let (a, apart) = outside v.slot (collect_range_restricted c []) new in
            elim (collected c [] a) [
              | inl never ↦ absurd (nothing never)
              | inr k ↦ inr (exists-Restricts v c k (unfold binder_name in apart))
            ]
      ]
  collected (refine base fields) out h = inr (λ t i env free. unfold match_occurrences in tt)
  collected _ out h = inl h

  -- A variable that a condition range-restricts is bound by every row that the condition gives in an
  -- environment without the variable, at any timepoint of any trace.
  pub collect_range_restricted-Binds :
      (c : Condition) → set_contains (collect_range_restricted c []) x ≡ true → Restricts c
  collect_range_restricted-Binds c h = elim (collected c [] h) [
    | inl never ↦ absurd (nothing never)
    | inr k ↦ k
  ]
