-- ===== src/Eval/RowDistinct.antt =====
-- No row of the relational mode has two columns of one name, so the join with the empty row changes nothing:
-- `join_rows` and `match_args` of dogwood-language/src/interpreter/eval.rs.
use dogwood.Prelude.{
  ℕ, ◌≡◌, ◌∙◌, refl, sym, ap, subst, Bool, true, false, Option, none, some, List, [], ◌∷◌, ◌++◌,
  Str, str_eq, str_eq_iff, str_lt, All, arith, Bool-cases, ◌⊎◌, inl, inr, if◌then◌else◌,
}
use mathlib.Core.List.{append_assoc, append-nil}
use dogwood.Prelude.Options
use dogwood.Prelude.Panics.{Exec, value, panic, ◌>>=◌, Ensures}
use dogwood.Map
use dogwood.Value.{Value, dom_eq}
use dogwood.Event.{EventData, Trace, trace_event, field_path}
use dogwood.Ast.{Condition, Predicate, pred, NamedArgs, no_args, arg, Term, var, wildcard, arg_path}
use dogwood.Rows.{Env, Row, drop_column, join_into, join_rows, join_all, join_column, find_column}
use dogwood.Resolve.{
  match_arg, match_field, match_args_from, match_args, match_predicate, match_var, match_resolved,
  or_get, then_match, same_identity, resolve_term,
}
use dogwood.Eval.{match_occurrences}
use dogwood.Eval.Names.{HasIdentifiers, PredicateIdentifiers, OptionOf}
use dogwood.Eval.RowInvariant.{IsKept, match_occurrences-Each}

abbrev pub HasDistinct : Row → Type 0
HasDistinct [] = Unit
HasDistinct ((k, v) ∷ row) = (find_column row k ≡ none) × HasDistinct row

abbrev OptionDistinct : Option Row → Type 0
OptionDistinct o = OptionOf HasDistinct o

find_column-get : (row : Row) (n : Str) → find_column row n ≡ Map.get row n
unfolding find_column Map.get
find_column-get [] n = refl
find_column-get ((k, v) ∷ row) n = rw (find_column-get row n) refl

find_column-insert :
    (row : Row) (n : Str) (v : Value) (k : Str)
    → find_column (Map.insert row n v) k ≡ (if str_eq n k then some v else find_column row k)
unfolding find_column Map.insert
find_column-insert [] n v k = refl
find_column-insert ((j, w) ∷ row) n v k =
    ground (arith, find_column-insert row n v k, str_eq_iff j n, str_eq_iff j k, str_eq_iff n k)

insert-HasDistinct :
    (row : Row) (n : Str) (v : Value)
    → find_column row n ≡ none
    → HasDistinct row
    → HasDistinct (Map.insert row n v)
unfolding Map.insert find_column
insert-HasDistinct [] n v f h = (refl, tt)
insert-HasDistinct ((j, w) ∷ row) n v f h =
    tests (Bool-cases (str_eq j n)) (str_lt n j) (λ f'. insert-HasDistinct row n v f' h.1)
  where
    tests :
        (str_eq j n ≡ true) ⊎ (str_eq j n ≡ false)
        → (less : Bool) → (find_column row n ≡ none → HasDistinct (Map.insert row n v))
        → HasDistinct (
            if str_eq j n
            then (n, v) ∷ row
            else (if less then (n, v) ∷ (j, w) ∷ row else (j, w) ∷ Map.insert row n v))
    tests (inl same) less ih = let q : some w ≡ none = rw same at f in absurd (cc q)
    tests (inr other) true ih = rw other (f, h)
    tests (inr other) false ih = rw other (
      ground (arith, find_column-insert row n v j, str_eq_iff n j, str_eq_iff j n),
      ih (rw other at f),
    )

if-Distinct :
    (b : Bool) (row : Row) → HasDistinct row → OptionDistinct (if b then some row else none)
if-Distinct true row h = h
if-Distinct false row h = tt

-- A variable is bound only where the row has no column of its name.
match_var-Distinct :
    (env : Env) (v : Value) (n : Str) (row : Row)
    → HasDistinct row
    → OptionDistinct (match_var (or_get (Map.get env n) (Map.get row n)) v n row)
match_var-Distinct env v n row h = bound (Map.get env n) (Map.get row n) (find_column-get row n)
  where
    bound :
        (o p : Option Value)
        → find_column row n ≡ p
        → OptionDistinct (match_var (or_get o p) v n row)
    bound (some w) p e = if-Distinct (dom_eq w v) row h
    bound none (some w) e = if-Distinct (dom_eq w v) row h
    bound none none e = insert-HasDistinct row n v e h

resolved-Distinct :
    (m : Exec (Option Value)) (v : Value) (row : Row)
    → HasDistinct row
    → Ensures OptionDistinct (m >>= λ w. value (match_resolved w v row))
resolved-Distinct (value none) v row k = tt
resolved-Distinct (value (some w)) v row k = if-Distinct (dom_eq w v) row k
resolved-Distinct panic v row k = tt

match_arg-Distinct :
    (t : Term) (env : Env) (v : Value) (row : Row)
    → HasDistinct row
    → Ensures OptionDistinct (match_arg env v t row)
unfolding match_arg
match_arg-Distinct wildcard env v row k = k
match_arg-Distinct (var n) env v row k = match_var-Distinct env v n row k
match_arg-Distinct t env v row k = resolved-Distinct (resolve_term env t) v row k

match_field-Distinct :
    (o : Option Value) (t : Term) (env : Env) (row : Row)
    → HasDistinct row
    → Ensures OptionDistinct (match_field env o t row)
match_field-Distinct none t env row k = tt
match_field-Distinct (some v) t env row k = match_arg-Distinct t env v row k

match_args-Distinct :
    (args : NamedArgs) (env : Env) (event : EventData) (row : Row)
    → HasDistinct row
    → Ensures OptionDistinct (match_args_from env event args row)
unfolding match_args_from
match_args-Distinct no_args env event row k = k
match_args-Distinct (arg n t rest) env event row k =
    next _ (match_field-Distinct (field_path event (arg_path n)) t env row k)
      (λ row' k'. match_args-Distinct rest env event row' k')
  where
    next :
        (m : Exec (Option Env))
        → Ensures OptionDistinct m
        → ((row' : Row)
            → HasDistinct row'
            → Ensures OptionDistinct (match_args_from env event rest row'))
        → Ensures OptionDistinct (then_match m (match_args_from env event rest))
    next (value none) h ih = tt
    next (value (some row')) h ih = ih row' h
    next panic h ih = tt

match_predicate-Distinct :
    (t : Trace) (i : ℕ) (env : Env) (p : Predicate)
    → PredicateIdentifiers p
    → Ensures OptionDistinct (match_predicate t i env p)
unfolding match_predicate match_args
match_predicate-Distinct t i env (pred ns a k args) h = event (trace_event t i)
  where
    same :
        (b : Bool) (x : EventData)
        → Ensures OptionDistinct (if b then match_args_from env x args [] else value none)
    same true x = match_args-Distinct args env x [] tt
    same false x = tt

    event :
        (m : Exec EventData)
        → Ensures OptionDistinct (
            m >>= λ x. if same_identity x ns a k then match_args_from env x args [] else value none)
    event (value x) = same (same_identity x ns a k) x
    event panic = tt

find_column-drop :
    (n : Str) (row : Row) (k : Str)
    → find_column row k ≡ none
    → find_column (drop_column n row) k ≡ none
unfolding find_column drop_column
find_column-drop n [] k h = refl
find_column-drop n ((j, v) ∷ row) k h = ground (arith, find_column-drop n row k)

drop_column-HasDistinct : (n : Str) (row : Row) → HasDistinct row → HasDistinct (drop_column n row)
unfolding drop_column
drop_column-HasDistinct n [] h = tt
drop_column-HasDistinct n ((j, v) ∷ row) h =
    drop (str_eq j n) (find_column-drop n row j h.0) (drop_column-HasDistinct n row h.1)
  where
    drop :
        (b : Bool)
        → find_column (drop_column n row) j ≡ none
        → HasDistinct (drop_column n row)
        → HasDistinct (if b then drop_column n row else (j, v) ∷ drop_column n row)
    drop true f ih = ih
    drop false f ih = (f, ih)

find_column-append :
    (row : Row) (j : Str) (v : Value) (k : Str)
    → find_column row k ≡ none
    → str_eq j k ≡ false
    → find_column (row ++ (j, v) ∷ []) k ≡ none
unfolding find_column
find_column-append [] j v k h e = rw e refl
find_column-append ((i, w) ∷ row) j v k h e = ground (arith, find_column-append row j v k)

append-HasDistinct :
    (row : Row) (j : Str) (v : Value)
    → find_column row j ≡ none
    → HasDistinct row
    → HasDistinct (row ++ (j, v) ∷ [])
unfolding find_column
append-HasDistinct [] j v f h = (refl, tt)
append-HasDistinct ((k, w) ∷ row) j v f h = elim (Bool-cases (str_eq k j)) [
  | inl same ↦ let q : some w ≡ none = rw same at f in absurd (cc q)
  | inr other ↦ (
    find_column-append row j v k h.0 (ground (arith, str_eq_iff j k, str_eq_iff k j)),
    append-HasDistinct row j v (rw other at f) h.1,
  )
]

join_into-HasDistinct : (b out : Row) → HasDistinct out → OptionDistinct (join_into out b)
unfolding join_into
join_into-HasDistinct [] out h = h
join_into-HasDistinct ((j, v) ∷ b) out h =
    joined (find_column out j) refl (λ out' h'. join_into-HasDistinct b out' h')
  where
    kept :
        (c : Bool)
        → OptionDistinct (join_into out b)
        → OptionDistinct (Options.◌>>=◌ (if c then some out else none) (λ out'. join_into out' b))
    kept true ih = ih
    kept false ih = tt

    joined :
        (o : Option Value)
        → find_column out j ≡ o
        → ((out' : Row) → HasDistinct out' → OptionDistinct (join_into out' b))
        → OptionDistinct (Options.◌>>=◌ (join_column o out j v) (λ out'. join_into out' b))
    joined none e ih = ih _ (append-HasDistinct out j v e h)
    joined (some w) e ih = kept (dom_eq w v) (ih out h)

HasDistinct-IsKept : IsKept HasDistinct
unfolding join_rows find_column
HasDistinct-IsKept = record {
  empty = tt;
  single = λ n v h. (refl, tt);
  dropped = drop_column-HasDistinct;
  joined = λ a b h k. join_into-HasDistinct b a h;
  matched = match_predicate-Distinct;
}

-- Columns that the first row lacks are appended in order.
join_into-append :
    (b out : Row)
    → HasDistinct b
    → All (λ (c : Str × Value). find_column out c.0 ≡ none) b
    → join_into out b ≡ some (out ++ b)
unfolding join_into find_column
join_into-append [] out h f = ap some (sym (append-nil out))
join_into-append ((j, v) ∷ b) out h f = rw f.0 (
    join_into-append b (out ++ (j, v) ∷ []) h.1 (later b f.1 h.0)
    ∙ ap some (append_assoc out ((j, v) ∷ []) b))
  where
    later :
        (b' : Row)
        → All (λ (c : Str × Value). find_column out c.0 ≡ none) b'
        → find_column b' j ≡ none
        → All (λ (c : Str × Value). find_column (out ++ (j, v) ∷ []) c.0 ≡ none) b'
    later [] g e = tt
    later ((k, w) ∷ b') g e = (
      find_column-append out j v k g.0 (ground (arith, str_eq_iff j k, str_eq_iff k j)),
      later b' g.1 (ground arith),
    )

join_all-empty : (rows : List Row) → All HasDistinct rows → join_all [] rows ≡ rows
unfolding join_all join_rows
join_all-empty [] h = refl
join_all-empty (row ∷ rows) h =
    rw (join_into-append row [] h.0 (no_columns row), join_all, join_all-empty rows h.1) refl
  where
    no_columns : (r : Row) → All (λ (c : Str × Value). find_column [] c.0 ≡ none) r
    no_columns [] = tt
    no_columns (c ∷ r) = (unfold find_column in refl, no_columns r)

-- Joining the rows of a condition with the empty row changes nothing.
pub join_all-match_occurrences :
    (c : Condition) (t : Trace) (i : ℕ) (env : Env) (rows : List Row)
    → HasIdentifiers c
    → match_occurrences t i env c ≡ value rows
    → join_all [] rows ≡ rows
join_all-match_occurrences c t i env rows h e = join_all-empty rows (
    subst (Ensures (All HasDistinct)) e
      (match_occurrences-Each HasDistinct HasDistinct-IsKept c t i env h))
