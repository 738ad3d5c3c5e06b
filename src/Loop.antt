-- ===== src/Loop.antt =====
-- The loops of the evaluator over timepoints, dogwood-language/src/interpreter/eval.rs. Each takes its
-- body as a function of the timepoint.
pub mod Laws
pub mod Skip
use dogwood.Prelude.{ℕ, zero, suc, Bool, true, false, List, [], ◌∷◌, ◌++◌, if◌then◌else◌}
use dogwood.Prelude.Panics.{Exec, value, panic, ◌>>=◌}

-- `for j in (0..=i).rev()`, which returns at the first success.
unfoldable pub any_down : (ℕ → Exec Bool) → ℕ → Exec Bool
any_down f zero = f 0
any_down f (suc j) =
    let rest = any_down f j in do found ← f (suc j); if found then value true else rest

-- `n` rounds from `k` up, which stop at the first failure.
unfoldable pub all_up : (ℕ → Exec Bool) → ℕ → ℕ → Exec Bool
all_up f k zero = value true
all_up f k (suc n) = let rest = all_up f (suc k) n in do ok ← f k; if ok then rest else value false

-- `n` rounds from `k` up, which append what they find.
unfoldable pub collect_up {ℓ} : {A : Type ℓ} → (ℕ → Exec (List A)) → ℕ → ℕ → Exec (List A)
collect_up f k zero = value []
collect_up f k (suc n) =
    let rest = collect_up f (suc k) n in do found ← f k; later ← rest; value (found ++ later)

-- A loop over rows that appends what each gives.
unfoldable pub collect_rows {ℓ κ} :
    {A : Type ℓ} {B : Type κ} → (A → Exec (List B)) → List A → Exec (List B)
collect_rows f [] = value []
collect_rows f (row ∷ rows) =
    let rest = collect_rows f rows in do found ← f row; later ← rest; value (found ++ later)

-- A loop over rows that keeps those that pass.
unfoldable pub keep_rows {ℓ} : {A : Type ℓ} → (A → Exec Bool) → List A → Exec (List A)
keep_rows f [] = value []
keep_rows f (row ∷ rows) =
    let rest = keep_rows f rows in
    do ok ← f row; later ← rest; value (if ok then row ∷ later else later)
