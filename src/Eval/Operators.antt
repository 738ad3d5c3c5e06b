-- ===== src/Eval/Operators.antt =====
-- Panics in the operators of dogwood-language/src/interpreter/eval.rs.
use dogwood.Prelude.{
  ℕ, zero, suc, ◌-◌, ◌≤◌, ◌<◌, Bool, false, Option, none, some, List, [], ◌∷◌, Str, arith,
  get_elem?, length,
}
use dogwood.Prelude.Panics.{Exec, value, of_option}
use dogwood.Event.{Event, Trace, trace_len, point, trace_ts, trace_event}
use dogwood.Int.{ℤ}
use dogwood.Value.{Value}
use dogwood.Ast.{Interval, Condition, predicate, Predicate, pred, CmpOp, ArithOp}
use dogwood.Rows.{Env, Row}
use dogwood.Loop.Laws.{Returns, all_up-Returns, keep_rows-Returns}
use dogwood.Resolve.{match_args, match_predicate, in_window, same_identity}
use dogwood.Eval.{
  as_predicate, in_window_and, anchor_holds, eval_previous, eval_and, rows_in_window, previous_rows,
  anchor_rows, filter_witness, eval_comparison, resolve_arith, eq_binding, comparison_rows, int_of,
  after_left,
}
use dogwood.Eval.Expanded.{PredicatePlain, IsExpanded}
use dogwood.Eval.Returning.{
  bind-Returns, map_exec-Returns, value-Returns, if_exec-Returns, match_args-Returns,
}

module _ (t : Trace) where
  pub point-Returns : (i : ℕ) → i < trace_len t → Returns (point t i)
  unfolding point trace_len
  point-Returns i h = in_range t.points i h
    where
      in_range : (es : List Event) (i : ℕ) → i < length es → Returns (of_option (get_elem? es i))
      in_range [] i h = elim h [ ]
      in_range (e ∷ es) zero h = value-Returns e
      in_range (e ∷ es) (suc i) h = in_range es i (omega arith)

  pub in_window-Returns :
      (i j : ℕ) (w : Interval) → i < trace_len t → j < trace_len t → Returns (in_window t i j w)
  unfolding in_window trace_ts
  in_window-Returns i j w h k =
      bind-Returns _ _ (map_exec-Returns _ _ (point-Returns i h))
        (λ a. bind-Returns _ _ (map_exec-Returns _ _ (point-Returns j k)) (λ b. value-Returns _))

  pub match_predicate-Returns :
      (i : ℕ) (env : Env) (p : Predicate)
      → i < trace_len t
      → PredicatePlain p
      → Returns (match_predicate t i env p)
  unfolding match_predicate trace_event match_args
  match_predicate-Returns i env (pred ns a k args) h x =
      bind-Returns _ _ (map_exec-Returns _ _ (point-Returns i h)) (λ e.
        if_exec-Returns (same_identity e ns a k) _ _ (match_args-Returns env e args [] x)
          (value-Returns none))

  pub in_window_and-Returns :
      (m n : Exec Bool) → Returns m → Returns n → Returns (in_window_and m n)
  unfolding in_window_and
  in_window_and-Returns m n p q =
      bind-Returns m _ p (λ b. if_exec-Returns b n (value false) q (value-Returns false))

  pub rows_in_window-Returns :
      (m : Exec Bool) (n : Exec (List Row)) → Returns m → Returns n → Returns (rows_in_window m n)
  unfolding rows_in_window
  rows_in_window-Returns m n p q =
      bind-Returns m _ p (λ b. if_exec-Returns b n (value []) q (value-Returns []))

  pub eval_and-Returns :
      (i : ℕ) (env : Env) (c : Condition) (m : Exec Bool) (k : Env → Exec Bool)
      → i < trace_len t
      → IsExpanded c
      → Returns m
      → ((env' : Env) → Returns (k env'))
      → Returns (eval_and t i env (as_predicate c) m k)
  unfolding eval_and
  eval_and-Returns i env (predicate p) m k h x q r =
      bind-Returns _ _ (match_predicate-Returns i env p h x)
        (elim [ none ↦ value-Returns false | some b ↦ r _ ])
  eval_and-Returns i env _ m k h x q r =
      bind-Returns m _ q (λ b. if_exec-Returns b _ _ (r env) (value-Returns false))

  pub eval_previous-Returns :
      (i : ℕ) (w : Exec Interval) (f : ℕ → Exec Bool)
      → Returns w
      → i < trace_len t
      → ((j : ℕ) → j ≤ i → Returns (f j))
      → Returns (eval_previous t i w f)
  unfolding eval_previous
  eval_previous-Returns zero w f r h q = value-Returns false
  eval_previous-Returns (suc j) w f r h q = bind-Returns w _ r (λ v.
      in_window_and-Returns _ _ (in_window-Returns (suc j) j v h (omega arith)) (q j (omega arith)))

  pub previous_rows-Returns :
      (i : ℕ) (w : Exec Interval) (f : ℕ → Exec (List Row))
      → Returns w
      → i < trace_len t
      → ((j : ℕ) → j ≤ i → Returns (f j))
      → Returns (previous_rows t i w f)
  unfolding previous_rows
  previous_rows-Returns zero w f r h q = value-Returns []
  previous_rows-Returns (suc j) w f r h q = bind-Returns w _ r (λ v.
      rows_in_window-Returns _ _ (in_window-Returns (suc j) j v h (omega arith))
        (q j (omega arith)))

  pub anchor_holds-Returns :
      (i j : ℕ) (r : Exec Bool) (l : ℕ → Exec Bool)
      → j ≤ i
      → Returns r
      → ((k : ℕ) → k ≤ i → Returns (l k))
      → Returns (anchor_holds i j r l)
  unfolding anchor_holds
  anchor_holds-Returns i j r l p q s = bind-Returns r _ q (λ b.
      if_exec-Returns b _ _ (all_up-Returns l (suc j) (i - j) (λ k a b. s k (omega arith)))
        (value-Returns false))

  pub anchor_rows-Returns :
      (i j : ℕ) (env : Env) (r : Exec (List Row)) (l : ℕ → Env → Exec Bool)
      → j ≤ i
      → Returns r
      → ((k : ℕ) → k ≤ i → (env' : Env) → Returns (l k env'))
      → Returns (anchor_rows i j env r l)
  unfolding anchor_rows
  anchor_rows-Returns i j env r l p q s = bind-Returns r _ q (λ rows.
      keep_rows-Returns _ rows
        (λ row. all_up-Returns _ (suc j) (i - j) (λ k a b. s k (omega arith) _)))

pub comparison-Returns :
    (op : CmpOp) (m n : Exec (Option Value))
    → Returns m
    → Returns n
    → Returns (eval_comparison op m n)
unfolding eval_comparison
comparison-Returns op m n p q = bind-Returns m _ p (λ a. bind-Returns n _ q (λ b. value-Returns _))

pub filter_witness-Returns : (m : Exec Bool) → Returns m → Returns (filter_witness m)
unfolding filter_witness
filter_witness-Returns m p = bind-Returns m _ p (λ b. value-Returns _)

eq_binding-Returns :
    (a b : Option Str) (m n : Exec (Option Value))
    → Returns m
    → Returns n
    → Returns (eq_binding a b m n)
unfolding eq_binding
eq_binding-Returns (some x) none m n p q = bind-Returns n _ q (λ b. value-Returns _)
eq_binding-Returns none (some x) m n p q = bind-Returns m _ p (λ b. value-Returns _)
eq_binding-Returns none none m n p q = value-Returns none
eq_binding-Returns (some x) (some y) m n p q = value-Returns none

pub comparison_rows-Returns :
    (op : CmpOp) (a b : Option Str) (m n : Exec (Option Value))
    → Returns m
    → Returns n
    → Returns (comparison_rows op a b m n)
unfolding comparison_rows
comparison_rows-Returns CmpOp.eq a b m n p q =
    bind-Returns _ _ (eq_binding-Returns a b m n p q) (elim [
      | none ↦ filter_witness-Returns _ (comparison-Returns CmpOp.eq m n p q)
      | some row ↦ value-Returns _
    ])
comparison_rows-Returns op a b m n p q = filter_witness-Returns _ (comparison-Returns op m n p q)

after_left-Returns :
    (op : ArithOp) (a : Option ℤ) (n : Exec (Option Value))
    → Returns n
    → Returns (after_left op a n)
after_left-Returns op none n q = value-Returns none
after_left-Returns op (some a) n q = bind-Returns n _ q (λ r. value-Returns _)

pub resolve_arith-Returns :
    (op : ArithOp) (m n : Exec (Option Value))
    → Returns m
    → Returns n
    → Returns (resolve_arith op m n)
unfolding resolve_arith
resolve_arith-Returns op m n p q = bind-Returns m _ p (λ l. after_left-Returns op (int_of l) n q)
