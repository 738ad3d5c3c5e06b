-- ===== src/Rows/Sum.antt =====
-- `sum_column` of dogwood-language/src/interpreter/eval.rs.
use mathlib.Core.List.{Perm, Permᴰ}
use mathlib.Core.Logic.{∥∥₁_elim}
use native.Mathlib.Decide.{ℕ_discrete}
use mathlib.Core.HLevel.{hedberg}
use dogwood.Prelude.{◌≡◌, ◌∙◌, refl, ap, Option, none, some, List, Str}
use dogwood.Int.{ℤ, clamp_i64}
use dogwood.Int.Order.{+ℤ_left_comm}
use dogwood.Rows.{Row, add_some, column_int, exact_sum, sum_column}

ℤ-discrete : Discrete ℤ
ℤ-discrete = hlevel ℕ_discrete

add_some_comm : (a b : Option ℤ) (z : ℤ) → add_some a (add_some b z) ≡ add_some b (add_some a z)
add_some_comm none b z = refl
add_some_comm (some x) none z = refl
add_some_comm (some x) (some y) z = +ℤ_left_comm x y z

exact_sum-Permᴰ : (a b : List Row) (col : Str) → Permᴰ a b → exact_sum a col ≡ exact_sum b col
unfolding exact_sum
exact_sum-Permᴰ a b col Permᴰ.nil = refl
exact_sum-Permᴰ a b col (Permᴰ.cons {a = r} {b = s} {l₁ = l} {l₂ = m} e p) =
    rw (e, exact_sum-Permᴰ l m col p)
exact_sum-Permᴰ a b col (Permᴰ.swap {a = r} {b = s} {l = l} e f) =
    rw (← e, ← f) (add_some_comm (column_int col r) (column_int col s) (exact_sum l col))
exact_sum-Permᴰ a b col (Permᴰ.trans {l₂ = m} p q) =
    exact_sum-Permᴰ a m col p ∙ exact_sum-Permᴰ m b col q

-- However the rows are ordered, their sum is the same.
pub sum_column-Perm : (a b : List Row) (col : Str) → Perm a b → sum_column a col ≡ sum_column b col
unfolding sum_column
sum_column-Perm a b col p =
    ∥∥₁_elim p (hedberg ℤ-discrete _ _) (λ d. ap clamp_i64 (exact_sum-Permᴰ a b col d))
