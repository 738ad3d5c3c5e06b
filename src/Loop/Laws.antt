-- ===== src/Loop/Laws.antt =====
-- What the loops compute: congruence, totality, and the searches as statements about timepoints.
use dogwood.Prelude.{
  ℕ, zero, suc, ◌+◌, ◌≤◌, ◌<◌, ◌≡◌, refl, Bool, true, false, List, [], ◌∷◌, ◌++◌, arith,
  if◌then◌else◌, ◌⊎◌, inl, inr, ◌↔◌,
}
use native.Mathlib.Decide.{ℕ_discrete}
use dogwood.Prelude.Panics.{Exec, value, panic, ◌>>=◌}
use dogwood.Loop.{any_down, all_up, collect_up, collect_rows, keep_rows}

-- The code returns.
abbrev pub Returns {ℓ} : {A : Type ℓ} → Exec A → Type ℓ
Returns {A = A} m = (a : A) × (m ≡ value a)

pub any_down_congr :
    (f g : ℕ → Exec Bool) (i : ℕ) → ((j : ℕ) → j ≤ i → f j ≡ g j) → any_down f i ≡ any_down g i
unfolding any_down
any_down_congr f g zero h = h 0 (omega arith)
any_down_congr f g (suc i) h =
    rw (h (suc i) (omega arith), any_down_congr f g i (λ j p. h j (omega arith)))

pub all_up_congr :
    (f g : ℕ → Exec Bool) (k n : ℕ)
    → ((j : ℕ) → k ≤ j → j < k + n → f j ≡ g j)
    → all_up f k n ≡ all_up g k n
unfolding all_up
all_up_congr f g k zero h = refl
all_up_congr f g k (suc n) h = rw (
  h k (omega arith) (omega arith),
  all_up_congr f g (suc k) n (λ j p q. h j (omega arith) (omega arith)),
)

module _ {ℓ} {A : Type ℓ} where
  pub collect_up_congr :
      (f g : ℕ → Exec (List A)) (k n : ℕ)
      → ((j : ℕ) → k ≤ j → j < k + n → f j ≡ g j)
      → collect_up f k n ≡ collect_up g k n
  unfolding collect_up
  collect_up_congr f g k zero h = refl
  collect_up_congr f g k (suc n) h = rw (
    h k (omega arith) (omega arith),
    collect_up_congr f g (suc k) n (λ j p q. h j (omega arith) (omega arith)),
  )

  pub collect_up-Returns :
      (f : ℕ → Exec (List A)) (k n : ℕ)
      → ((j : ℕ) → k ≤ j → j < k + n → Returns (f j))
      → Returns (collect_up f k n)
  unfolding collect_up
  collect_up-Returns f k zero h = ([], refl)
  collect_up-Returns f k (suc n) h =
      let (a, p) = h k (omega arith) (omega arith) in
      let (b, q) = collect_up-Returns f (suc k) n (λ j p q. h j (omega arith) (omega arith)) in
      (a ++ b, rw (p, q))

  pub keep_rows-Returns :
      (f : A → Exec Bool) (rows : List A) → ((r : A) → Returns (f r)) → Returns (keep_rows f rows)
  unfolding keep_rows
  keep_rows-Returns f [] h = ([], refl)
  keep_rows-Returns f (r ∷ rows) h =
      let (a, p) = h r in
      let (b, q) = keep_rows-Returns f rows h in ((if a then r ∷ b else b), rw (p, q))

module _ {ℓ κ} {A : Type ℓ} {B : Type κ} where
  pub collect_rows-Returns :
      (f : A → Exec (List B)) (rows : List A)
      → ((r : A) → Returns (f r))
      → Returns (collect_rows f rows)
  unfolding collect_rows
  collect_rows-Returns f [] h = ([], refl)
  collect_rows-Returns f (r ∷ rows) h =
      let (a, p) = h r in let (b, q) = collect_rows-Returns f rows h in (a ++ b, rw (p, q))

if-Returns : (b : Bool) (m n : Exec Bool) → Returns m → Returns n → Returns (if b then m else n)
if-Returns true m n p q = p
if-Returns false m n p q = q

-- A search over timepoints returns if every test returns.
pub any_down-Returns :
    (f : ℕ → Exec Bool) (i : ℕ) → ((j : ℕ) → j ≤ i → Returns (f j)) → Returns (any_down f i)
unfolding any_down
any_down-Returns f zero h = h 0 (omega arith)
any_down-Returns f (suc i) h =
    let (a, p) = h (suc i) (omega arith) in
    let ih = any_down-Returns f i (λ j p. h j (omega arith)) in
    rw p (if-Returns a (value true) (any_down f i) (true, refl) ih)

pub all_up-Returns :
    (f : ℕ → Exec Bool) (k n : ℕ)
    → ((j : ℕ) → k ≤ j → j < k + n → Returns (f j))
    → Returns (all_up f k n)
unfolding all_up
all_up-Returns f k zero h = (true, refl)
all_up-Returns f k (suc n) h =
    let (a, p) = h k (omega arith) (omega arith) in
    let ih = all_up-Returns f (suc k) n (λ j p q. h j (omega arith) (omega arith)) in
    rw p (if-Returns a (all_up f (suc k) n) (value false) ih (false, refl))

-- The first test found something, or it did not and the rest did.
found_cases :
    (m rest : Exec Bool)
    → (m >>= λ found. if found then value true else rest) ≡ value true
    → (m ≡ value true) ⊎ ((m ≡ value false) × (rest ≡ value true))
found_cases (value true) rest h = inl refl
found_cases (value false) rest h = inr (refl, h)
found_cases panic rest h = cc

rest_found :
    (m rest : Exec Bool)
    → Returns m
    → rest ≡ value true
    → (m >>= λ found. if found then value true else rest) ≡ value true
rest_found (value true) rest p h = refl
rest_found (value false) rest p h = h
rest_found panic rest p h = cc p.1

-- A search that found something found a timepoint up to `i`.
pub any_down_sound :
    (f : ℕ → Exec Bool) (i : ℕ) → any_down f i ≡ value true → (j : ℕ) × (j ≤ i) × (f j ≡ value true)
unfolding any_down
any_down_sound f zero h = (0, omega arith, h)
any_down_sound f (suc i) h =
    let ih = any_down_sound f i in
    elim (found_cases (f (suc i)) (any_down f i) h) [
      | inl e ↦ (suc i, omega arith, e)
      | inr e ↦ let (j, p, q) = ih e.1 in (j, omega arith, q)
    ]

-- Nothing is missed, if every test returns.
pub any_down_complete :
    (f : ℕ → Exec Bool) (i j : ℕ)
    → ((k : ℕ) → k ≤ i → Returns (f k))
    → j ≤ i
    → f j ≡ value true
    → any_down f i ≡ value true
unfolding any_down
any_down_complete f zero zero h p e = e
any_down_complete f zero (suc j) h p e = absurd (omega arith)
any_down_complete f (suc i) j h p e =
    let ih = any_down_complete f i j (λ k q. h k (omega arith)) in
    elim (ℕ_discrete j (suc i)) [
      | yes q ↦ rw (← q, e)
      | no q ↦ rest_found (f (suc i)) (any_down f i) (h (suc i) (omega arith)) (ih (omega arith) e)
    ]

all_step :
    (m rest : Exec Bool)
    → (m >>= λ ok. if ok then rest else value false) ≡ value true
    → (m ≡ value true) × (rest ≡ value true)
all_step (value true) rest h = (refl, h)
all_step (value false) rest h = cc
all_step panic rest h = cc

-- A run of rounds passes exactly when every round passes.
pub all_up_iff :
    (f : ℕ → Exec Bool) (k n : ℕ)
    → (all_up f k n ≡ value true) ↔ ((j : ℕ) → k ≤ j → j < k + n → f j ≡ value true)
unfolding all_up
all_up_iff f k zero = (λ h j p q. absurd (omega arith), λ h. refl)
all_up_iff f k (suc n) =
    let ih = all_up_iff f (suc k) n in
    (
      λ h j p q.
          let (a, b) = all_step (f k) (all_up f (suc k) n) h in
          elim (ℕ_discrete j k) [ yes e ↦ rw e a | no e ↦ ih.0 b j (omega arith) (omega arith) ],
      λ h. rw (h k (omega arith) (omega arith)) (ih.1 (λ j p q. h j (omega arith) (omega arith))),
    )
