-- ===== src/Eval/Steps.antt =====
-- The parts of the evaluator that one operator each needs, dogwood-language/src/interpreter/eval.rs:
-- `scan_formerly`, `eval_since`, `eval_and`, `eval_comparison`, `filter_witness`, `eq_binding`.
use dogwood.Prelude.{
  ℕ, zero, suc, ◌-◌, Bool, true, false, Option, none, some, List, [], ◌∷◌, Str, if◌then◌else◌,
}
use mathlib.Core.Bool
use dogwood.Prelude.Panics.{Exec, value, ◌>>=◌, map_exec}
use dogwood.Int.{ℤ, pos, leb_ℤ, ltb_ℤ, saturating_add, saturating_sub, saturating_mul}
use dogwood.Map
use dogwood.Value.{Value, dom_eq, as_int}
use dogwood.Event.{Trace}
use dogwood.Ast.{
  Interval, CmpOp, ArithOp, TypedBinder, binder_name, Condition, predicate, Predicate, Term, var,
}
use dogwood.Rows.{Env, Row, push_all_new, drop_column, join_all}
use dogwood.Loop.{any_down, all_up, collect_up, collect_rows, keep_rows}
use dogwood.Resolve.{match_predicate, in_window}

-- `for (k, v) in row { env.insert(k, v) }`
abbrev pub extend_env : Env → Row → Env
extend_env = Map.extend

-- The predicate that binds for the right side of a conjunction.
abbrev pub as_predicate : Condition → Option Predicate
as_predicate (predicate p) = some p
as_predicate _ = none

abbrev pub is_some {ℓ} : {A : Type ℓ} → Option A → Bool
is_some none = false
is_some (some _) = true

abbrev pub is_nonempty {ℓ} : {A : Type ℓ} → List A → Bool
is_nonempty [] = false
is_nonempty (_ ∷ _) = true

-- `let mut inner = env.clone(); for v in for_vars { inner.remove(v.name()) }`
unfoldable pub shed_for_binders : Env → List TypedBinder → Exec Env
shed_for_binders env [] = value env
shed_for_binders env (v ∷ vs) = do n ← binder_name v; shed_for_binders (Map.remove env n) vs

-- The body of `scan_formerly` at `j`: out of the window is no success, and the scan goes on.
unfoldable pub in_window_and : Exec Bool → Exec Bool → Exec Bool
in_window_and window body = do w ← window; if w then body else value false

unfoldable pub scan_formerly : Trace → ℕ → Interval → (ℕ → Exec Bool) → Exec Bool
scan_formerly trace i within body =
    any_down (λ j. in_window_and (in_window trace i j within) (body j)) i

-- An anchor at `j`: the right side holds there, and the left side at every later timepoint up to `i`.
unfoldable pub anchor_holds : ℕ → ℕ → Exec Bool → (ℕ → Exec Bool) → Exec Bool
anchor_holds i j right left = do r ← right; if r then all_up left (suc j) (i - j) else value false

unfoldable pub eval_since : Trace → ℕ → Interval → (ℕ → Exec Bool) → (ℕ → Exec Bool) → Exec Bool
eval_since trace i within left right =
    any_down (λ j. in_window_and (in_window trace i j within) (anchor_holds i j (right j) left)) i

-- At the first timepoint the window is not read.
unfoldable pub eval_previous : Trace → ℕ → Exec Interval → (ℕ → Exec Bool) → Exec Bool
eval_previous trace zero within body = value false
eval_previous trace (suc j) within body = do
  w ← within
  in_window_and (in_window trace (suc j) j w) (body j)

abbrev pub and_then_bool : Exec Bool → Exec Bool → Exec Bool
and_then_bool left right = do l ← left; if l then right else value false

abbrev pub or_else_bool : Exec Bool → Exec Bool → Exec Bool
or_else_bool left right = do l ← left; if l then value true else right

abbrev pub with_bindings : Env → (Env → Exec Bool) → Option Env → Exec Bool
with_bindings env right none = value false
with_bindings env right (some bindings) = right (Map.extend env bindings)

-- A predicate on the left binds for the right side; any other left side is a plain conjunct.
unfoldable pub eval_and :
    Trace → ℕ → Env → Option Predicate → Exec Bool → (Env → Exec Bool) → Exec Bool
eval_and trace i env (some p) left right = do
  m ← match_predicate trace i env p
  with_bindings env right m
eval_and trace i env none left right = and_then_bool left (right env)

abbrev pub compare_ints : CmpOp → ℤ → ℤ → Bool
compare_ints CmpOp.lt a b = ltb_ℤ a b
compare_ints CmpOp.le a b = leb_ℤ a b
compare_ints CmpOp.gt a b = ltb_ℤ b a
compare_ints CmpOp.ge a b = leb_ℤ b a
compare_ints CmpOp.eq a b = false
compare_ints CmpOp.not_eq a b = false

abbrev pub compare_ordered : CmpOp → Option ℤ → Option ℤ → Bool
compare_ordered op (some a) (some b) = compare_ints op a b
compare_ordered op _ _ = false

unfoldable pub compare_values : CmpOp → Value → Value → Bool
compare_values CmpOp.eq l r = dom_eq l r
compare_values CmpOp.not_eq l r = Bool.not (dom_eq l r)
compare_values op l r = compare_ordered op (as_int l) (as_int r)

abbrev pub compare_options : CmpOp → Option Value → Option Value → Bool
compare_options op (some l) (some r) = compare_values op l r
compare_options op _ _ = false

-- `eval_comparison` after both operands are resolved; an unresolved one makes it false.
unfoldable pub eval_comparison : CmpOp → Exec (Option Value) → Exec (Option Value) → Exec Bool
eval_comparison op left right = do l ← left; r ← right; value (compare_options op l r)

unfoldable pub apply_arith : ArithOp → ℤ → ℤ → ℤ
apply_arith ArithOp.add l r = saturating_add l r
apply_arith ArithOp.sub l r = saturating_sub l r
apply_arith ArithOp.mul l r = saturating_mul l r

abbrev pub int_of : Option Value → Option ℤ
int_of none = none
int_of (some v) = as_int v

abbrev pub arith_result : ArithOp → ℤ → Option ℤ → Option Value
arith_result op a none = none
arith_result op a (some b) = some (Value.int (apply_arith op a b))

abbrev pub after_left : ArithOp → Option ℤ → Exec (Option Value) → Exec (Option Value)
after_left op none right = value none
after_left op (some a) right = do r ← right; value (arith_result op a (int_of r))

-- `resolve(left)?.as_int()?`, and then the right side.
unfoldable pub resolve_arith :
    ArithOp → Exec (Option Value) → Exec (Option Value) → Exec (Option Value)
resolve_arith op left right = do l ← left; after_left op (int_of l) right

-- `tp(t)` as a test and as a relation.
unfoldable pub tp_holds : ℕ → Option Value → Bool
tp_holds i (some bound) = dom_eq bound (Value.int (pos i))
tp_holds i none = true

unfoldable pub tp_rows : ℕ → Str → Option Value → List Row
tp_rows i n bound = if tp_holds i bound then ((n, Value.int (pos i)) ∷ []) ∷ [] else []

-- A bare variable that the environment lacks.
unfoldable pub unbound_var : Env → Term → Option Str
unbound_var env (var n) = elim (Map.get env n) [ none ↦ some n | some _ ↦ none ]
unbound_var env _ = none

abbrev pub bind_row : Str → Exec (Option Value) → Exec (Option Row)
bind_row n side = do v ← side; value (elim v [ none ↦ none | some w ↦ some ((n, w) ∷ []) ])

-- The row of an equality that binds exactly one unbound variable.
unfoldable pub eq_binding :
    Option Str → Option Str → Exec (Option Value) → Exec (Option Value) → Exec (Option Row)
eq_binding (some n) none left right = bind_row n right
eq_binding none (some n) left right = bind_row n left
eq_binding _ _ left right = value none

-- A condition that holds contributes one empty row.
unfoldable pub filter_witness : Exec Bool → Exec (List Row)
filter_witness m = do b ← m; value (if b then [] ∷ [] else [])

abbrev pub row_or_filter : Option Row → Exec Bool → Exec (List Row)
row_or_filter (some row) m = value (row ∷ [])
row_or_filter none m = filter_witness m

abbrev pub option_row : Option Env → List Row
option_row none = []
option_row (some bindings) = bindings ∷ []

unfoldable pub comparison_rows :
    CmpOp → Option Str → Option Str → Exec (Option Value) → Exec (Option Value) → Exec (List Row)
comparison_rows CmpOp.eq lvar rvar left right = do
  row ← eq_binding lvar rvar left right
  row_or_filter row (eval_comparison CmpOp.eq left right)
comparison_rows op lvar rvar left right = filter_witness (eval_comparison op left right)

-- The rows of the right side under each row of the left, joined.
unfoldable pub and_rows : Env → Exec (List Row) → (Env → Exec (List Row)) → Exec (List Row)
and_rows env left right = do
  lrows ← left
  collect_rows (λ lrow. map_exec (join_all lrow) (right (extend_env env lrow))) lrows

unfoldable pub rows_in_window : Exec Bool → Exec (List Row) → Exec (List Row)
rows_in_window window body = do w ← window; if w then body else value []

unfoldable pub formerly_rows : Trace → ℕ → Interval → (ℕ → Exec (List Row)) → Exec (List Row)
formerly_rows trace i within body =
    collect_up (λ j. rows_in_window (in_window trace i j within) (body j)) 0 (suc i)

unfoldable pub previous_rows : Trace → ℕ → Exec Interval → (ℕ → Exec (List Row)) → Exec (List Row)
previous_rows trace zero within body = value []
previous_rows trace (suc j) within body = do
  w ← within
  rows_in_window (in_window trace (suc j) j w) (body j)

-- The anchor's rows at `j` under which the left side holds at every later timepoint up to `i`.
unfoldable pub anchor_rows : ℕ → ℕ → Env → Exec (List Row) → (ℕ → Env → Exec Bool) → Exec (List Row)
anchor_rows i j env right left = do
  rows ← right
  keep_rows (λ row. all_up (λ k. left k (extend_env env row)) (suc j) (i - j)) rows

unfoldable pub since_rows :
    Trace → ℕ → Interval → Env → (ℕ → Env → Exec Bool) → (ℕ → Exec (List Row)) → Exec (List Row)
since_rows trace i within env left right = do
  rows ←
      collect_up
        (λ j. rows_in_window (in_window trace i j within) (anchor_rows i j env (right j) left)) 0
        (suc i)
  value (push_all_new [] rows)

unfoldable pub drop_all : Str → List Row → List Row
drop_all n [] = []
drop_all n (row ∷ rows) = drop_column n row ∷ drop_all n rows
