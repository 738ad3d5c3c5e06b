-- ===== src/Eval/RowEach.antt =====
-- A property of every row, through the loops of the relational mode, dogwood-language/src/interpreter/eval.rs.
use dogwood.Prelude.{
  ℕ, zero, suc, Bool, true, false, List, [], ◌∷◌, ◌++◌, All, All-append, any, if◌then◌else◌,
}
use dogwood.Prelude.Panics.{Exec, value, panic, map_exec, Ensures, bind-Ensures}
use dogwood.Event.{Trace}
use dogwood.Ast.{Interval}
use dogwood.Rows.{Row, push_new, push_all_new, rows_eq}
use dogwood.Loop.{collect_up, collect_rows, keep_rows}
use dogwood.Resolve.{in_window}
use dogwood.Eval.{rows_in_window, previous_rows}

pub any_value {ℓ} : {A : Type ℓ} (m : Exec A) → Ensures (λ a. Unit {0}) m
any_value (value a) = tt
any_value panic = tt

module _ (P : Row → Type 0) where
  abbrev Each : List Row → Type 0
  Each rows = All P rows

  pub push_all_new-Each :
      (out rows : List Row) → Each out → Each rows → Each (push_all_new out rows)
  unfolding push_all_new push_new
  push_all_new-Each out [] h k = h
  push_all_new-Each out (row ∷ rows) h k =
      push_all_new-Each (push_new out row) rows (pushed (any (λ r. rows_eq r row) out)) k.1
    where
      pushed : (b : Bool) → Each (if b then out else out ++ row ∷ [])
      pushed true = h
      pushed false = All-append P out (row ∷ []) h (k.0, tt)

  pub collect_rows-Each :
      (Q : Row → Type 0) (f : Row → Exec (List Row)) (rows : List Row)
      → ((row : Row) → Q row → Ensures Each (f row))
      → All Q rows
      → Ensures Each (collect_rows f rows)
  unfolding collect_rows
  collect_rows-Each Q f [] h k = tt
  collect_rows-Each Q f (row ∷ rows) h k = bind-Ensures Each Each (f row) _ (h row k.0) (λ found p.
      bind-Ensures Each Each (collect_rows f rows) _ (collect_rows-Each Q f rows h k.1)
        (λ later q. All-append P found later p q))

  pub collect_up-Each :
      (f : ℕ → Exec (List Row)) (k n : ℕ)
      → ((j : ℕ) → Ensures Each (f j))
      → Ensures Each (collect_up f k n)
  unfolding collect_up
  collect_up-Each f k zero h = tt
  collect_up-Each f k (suc n) h = bind-Ensures Each Each (f k) _ (h k) (λ found p.
      bind-Ensures Each Each (collect_up f (suc k) n) _ (collect_up-Each f (suc k) n h)
        (λ later q. All-append P found later p q))

  pub keep_rows-Each :
      (f : Row → Exec Bool) (rows : List Row) → Each rows → Ensures Each (keep_rows f rows)
  unfolding keep_rows
  keep_rows-Each f [] h = tt
  keep_rows-Each f (row ∷ rows) h =
      bind-Ensures (λ b. Unit {0}) Each (f row) _ (any_value (f row))
        (λ b u.
          bind-Ensures Each Each (keep_rows f rows) _ (keep_rows-Each f rows h.1)
            (λ later q. kept b later q))
    where
      kept : (b : Bool) (later : List Row) → Each later → Each (if b then row ∷ later else later)
      kept true later q = (h.0, q)
      kept false later q = q

  pub rows_in_window-Each :
      (w : Exec Bool) (m : Exec (List Row)) → Ensures Each m → Ensures Each (rows_in_window w m)
  unfolding rows_in_window
  rows_in_window-Each (value true) m h = h
  rows_in_window-Each (value false) m h = tt
  rows_in_window-Each panic m h = tt

  pub map_exec-Each :
      (f : List Row → List Row) (m : Exec (List Row))
      → Ensures Each m
      → ((rows : List Row) → Each rows → Each (f rows))
      → Ensures Each (map_exec f m)
  map_exec-Each f (value rows) h k = k rows h
  map_exec-Each f panic h k = tt

  pub previous_rows-Each :
      (t : Trace) (i : ℕ) (w : Exec Interval) (f : ℕ → Exec (List Row))
      → ((j : ℕ) → Ensures Each (f j))
      → Ensures Each (previous_rows t i w f)
  unfolding previous_rows
  previous_rows-Each t zero w f h = tt
  previous_rows-Each t (suc j) w f h =
      bind-Ensures (λ v. Unit {0}) Each w _ (any_value _)
        (λ v u. rows_in_window-Each (in_window t (suc j) j v) (f j) (h j))
