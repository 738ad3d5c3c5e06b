-- ===== src/Rows.antt =====
-- Binding rows, dogwood-language/src/interpreter/eval.rs: `rows_eq`, `join_rows`, `project_dedup`,
-- `sum_column`.
pub mod Distinct
pub mod Sum
pub mod Join
use dogwood.Prelude.{
  ℕ, Bool, true, false, ◌&&◌, not, Option, none, some, List, [], ◌∷◌, ◌++◌, Str, str_eq, length,
  any, ◌==◌, if◌then◌else◌,
}
use dogwood.Prelude.Options
use dogwood.Prelude.Panics.{Exec, value, panic, ◌>>=◌}
use dogwood.Int.{ℤ, pos, ◌+ℤ◌, clamp_i64}
use dogwood.Map
use dogwood.Map.{Map}
use dogwood.Value.{Value, dom_eq, as_int}
use dogwood.Ast.{TypedBinder, binder_name}

-- The bindings in scope, and the columns of one row.
abbrev pub Env : Type 0
Env = Map Value

abbrev pub Row : Type 0
Row = List (Str × Value)

-- The test of `zip` and `all`, which stops at the shorter row.
unfoldable pub zip_columns_eq : Row → Row → Bool
zip_columns_eq ((k, v) ∷ a) ((j, w) ∷ b) = (str_eq k j && dom_eq v w) && zip_columns_eq a b
zip_columns_eq _ _ = true

unfoldable pub rows_eq : Row → Row → Bool
rows_eq a b = length a == length b && zip_columns_eq a b

-- `if !out.iter().any(|r| rows_eq(r, &row)) { out.push(row) }`
unfoldable pub push_new : List Row → Row → List Row
push_new out row = if any (λ r. rows_eq r row) out then out else out ++ row ∷ []

unfoldable pub push_all_new : List Row → List Row → List Row
push_all_new out [] = out
push_all_new out (row ∷ rows) = push_all_new (push_new out row) rows

-- `row.iter().find(|(k, _)| k == name)`
unfoldable pub find_column : Row → Str → Option Value
find_column [] col = none
find_column ((k, v) ∷ row) col = if str_eq k col then some v else find_column row col

unfoldable pub drop_column : Str → Row → Row
drop_column col [] = []
drop_column col ((k, v) ∷ row) =
    let rest = drop_column col row in if str_eq k col then rest else (k, v) ∷ rest

abbrev with_column : Str → Option Value → Row → Row
with_column n none row = row
with_column n (some v) row = (n, v) ∷ row

unfoldable pub project : List TypedBinder → Row → Exec Row
project [] row = value []
project (v ∷ vars) row =
    let rest = project vars row in
    do n ← binder_name v; r ← rest; value (with_column n (find_column row n) r)

unfoldable pub project_all : List TypedBinder → List Row → Exec (List Row)
project_all vars [] = value []
project_all vars (row ∷ rel) =
    let rest = project_all vars rel in do r ← project vars row; rs ← rest; value (r ∷ rs)

unfoldable pub project_dedup : List Row → List TypedBinder → Exec (List Row)
project_dedup rel vars = do rows ← project_all vars rel; value (push_all_new [] rows)

abbrev pub join_column : Option Value → Row → Str → Value → Option Row
join_column none out k v = some (out ++ (k, v) ∷ [])
join_column (some existing) out k v = if dom_eq existing v then some out else none

-- The loop over the columns of the second row, with the joined row so far.
unfoldable pub join_into : Row → Row → Option Row
join_into out [] = some out
join_into out ((k, v) ∷ b) =
    Options.◌>>=◌ (join_column (find_column out k) out k v) (λ joined. join_into joined b)

unfoldable pub join_rows : Row → Row → Option Row
join_rows a b = join_into a b

unfoldable pub join_all : Row → List Row → List Row
join_all lrow [] = []
join_all lrow (rrow ∷ rows) =
    let rest = join_all lrow rows in
    elim (join_rows lrow rrow) [ none ↦ rest | some joined ↦ joined ∷ rest ]

-- The integers of a column. A value that is no integer is skipped.
abbrev pub column_int : Str → Row → Option ℤ
column_int col row = elim (find_column row col) [ none ↦ none | some v ↦ as_int v ]

abbrev pub add_some : Option ℤ → ℤ → ℤ
add_some none total = total
add_some (some n) total = n +ℤ total

-- The total in 128 bits, which no relation that fits in memory leaves: here it is exact.
unfoldable pub exact_sum : List Row → Str → ℤ
exact_sum [] col = pos 0
exact_sum (row ∷ rel) col = add_some (column_int col row) (exact_sum rel col)

unfoldable pub sum_column : List Row → Str → ℤ
sum_column rel col = clamp_i64 (exact_sum rel col)
