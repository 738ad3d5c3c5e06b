-- ===== src/Loop/Skip.antt =====
-- The loops over a trace and over the same trace with one more timepoint, at which the loop finds nothing.
use dogwood.Prelude.{
  ℕ, zero, suc, ◌+◌, ◌-◌, ◌≤◌, ◌<◌, ◌≡◌, ◌∙◌, refl, sym, ap, Bool, true, false, List, [], ◌++◌, ltb,
  arith, if◌then◌else◌,
}
use mathlib.Core.Logic.{◌⊎◌, inl, inr}
use dogwood.Prelude.Panics.{Exec, value, panic, ◌>>=◌}
use dogwood.Loop.{any_down, all_up, collect_up}
use dogwood.Loop.Laws.{any_down_congr, all_up_congr, collect_up_congr}

-- Where a timepoint stands after one is inserted at `n`.
unfoldable pub skip : ℕ → ℕ → ℕ
skip n j = if ltb j n then j else suc j

pub skip_below : (n j : ℕ) → j < n → skip n j ≡ j
unfolding skip
skip_below n j h = ground arith

pub skip_above : (n j : ℕ) → n ≤ j → skip n j ≡ suc j
unfolding skip
skip_above n j h = ground arith

pub below_or_above : (n j : ℕ) → (j < n) ⊎ (n ≤ j)
below_or_above n j = ground arith

found_eta : (m : Exec Bool) → (m >>= λ b. if b then value true else value false) ≡ m
found_eta (value true) = refl
found_eta (value false) = refl
found_eta panic = refl

module _ (f g : ℕ → Exec Bool) (n : ℕ) where
  any_below : (i : ℕ) → i < n → ((j : ℕ) → j ≤ i → f (skip n j) ≡ g j) → any_down f i ≡ any_down g i
  any_below i h e = any_down_congr f g i (λ j p. ap f (sym (skip_below n j (omega arith))) ∙ e j p)

  any_above :
      (i : ℕ)
      → f n ≡ value false
      → n ≤ i
      → ((j : ℕ) → j ≤ i → f (skip n j) ≡ g j)
      → any_down f (suc i) ≡ any_down g i
  unfolding any_down
  any_above zero miss h e =
      let z : f 0 ≡ value false = ap f (omega arith) ∙ miss in
      rw (ap f (sym (skip_above n 0 h)) ∙ e 0 (omega arith), z) (found_eta (g 0))
  any_above (suc i) miss h e = elim (below_or_above n i) [
    | inl lt ↦
        let z : f (suc i) ≡ value false = ap f (omega arith) ∙ miss in
        rw
          (
            ap f (sym (skip_above n (suc i) h)) ∙ e (suc i) (omega arith),
            z,
            any_below i lt (λ j p. e j (omega arith)),
          )
          refl
    | inr le ↦
        rw
          (
            ap f (sym (skip_above n (suc i) h)) ∙ e (suc i) (omega arith),
            any_above i miss le (λ j p. e j (omega arith)),
          )
          refl
  ]

  pub any_down-skip :
      (i : ℕ)
      → f n ≡ value false
      → ((j : ℕ) → j ≤ i → f (skip n j) ≡ g j)
      → any_down f (skip n i) ≡ any_down g i
  any_down-skip i miss e = elim (below_or_above n i) [
    | inl lt ↦ rw (skip_below n i lt) (any_below i lt e)
    | inr le ↦ rw (skip_above n i le) (any_above i miss le e)
  ]

  all_above :
      (a m : ℕ)
      → n ≤ a
      → ((j : ℕ) → a ≤ j → j < a + m → f (skip n j) ≡ g j)
      → all_up f (suc a) m ≡ all_up g a m
  unfolding all_up
  all_above a zero h e = refl
  all_above a (suc m) h e =
      rw
        (
          ap f (sym (skip_above n a h)) ∙ e a (omega arith) (omega arith),
          all_above (suc a) m (omega arith) (λ j p q. e j (omega arith) (omega arith)),
        )
        refl

  all_across :
      (a m : ℕ)
      → f n ≡ value true
      → a ≤ n
      → n ≤ a + m
      → ((j : ℕ) → a ≤ j → j < a + m → f (skip n j) ≡ g j)
      → all_up f a (suc m) ≡ all_up g a m
  unfolding all_up
  all_across a zero pass h k e = let z : f a ≡ value true = ap f (omega arith) ∙ pass in rw z refl
  all_across a (suc m) pass h k e = elim (below_or_above n a) [
    | inl lt ↦
        rw
          (
            ap f (sym (skip_below n a lt)) ∙ e a (omega arith) (omega arith),
            all_across (suc a) m pass lt (omega arith) (λ j p q. e j (omega arith) (omega arith)),
          )
          refl
    | inr le ↦
        let z : f a ≡ value true = ap f (omega arith) ∙ pass in rw z (all_above a (suc m) le e)
  ]

  -- Between two timepoints of the shorter trace, the first left out and the last one in.
  pub all_up-skip :
      (i j : ℕ)
      → j ≤ i
      → f n ≡ value true
      → ((k : ℕ) → k ≤ i → f (skip n k) ≡ g k)
      → all_up f (suc (skip n j)) (skip n i - skip n j) ≡ all_up g (suc j) (i - j)
  all_up-skip i j h pass e = elim (below_or_above n j) [
    | inl ltj ↦ elim (below_or_above n i) [
      | inl lti ↦
          rw (skip_below n j ltj, skip_below n i lti)
            (all_up_congr f g (suc j) (i - j)
              (λ k p q. ap f (sym (skip_below n k (omega arith))) ∙ e k (omega arith)))
      | inr lei ↦
          rw (skip_below n j ltj, skip_above n i lei)
            (ap (all_up f (suc j)) (omega arith)
              ∙ all_across (suc j) (i - j) pass ltj (omega arith) (λ k p q. e k (omega arith)))
    ]
    | inr lej ↦
        rw (skip_above n j lej, skip_above n i (omega arith))
          (ap (all_up f (suc (suc j))) (omega arith)
            ∙ all_above (suc j) (i - j) (omega arith) (λ k p q. e k (omega arith)))
  ]

found_nil {ℓ} : {A : Type ℓ} (m : Exec (List A)) → (m >>= λ later. value ([] ++ later)) ≡ m
found_nil (value rows) = refl
found_nil panic = refl

module _ {ℓ} {A : Type ℓ} (f g : ℕ → Exec (List A)) (n : ℕ) where
  collect_above :
      (a m : ℕ)
      → n ≤ a
      → ((j : ℕ) → a ≤ j → j < a + m → f (skip n j) ≡ g j)
      → collect_up f (suc a) m ≡ collect_up g a m
  unfolding collect_up
  collect_above a zero h e = refl
  collect_above a (suc m) h e =
      rw
        (
          ap f (sym (skip_above n a h)) ∙ e a (omega arith) (omega arith),
          collect_above (suc a) m (omega arith) (λ j p q. e j (omega arith) (omega arith)),
        )
        refl

  collect_across :
      (a m : ℕ)
      → f n ≡ value []
      → a ≤ n
      → n ≤ a + m
      → ((j : ℕ) → a ≤ j → j < a + m → f (skip n j) ≡ g j)
      → collect_up f a (suc m) ≡ collect_up g a m
  unfolding collect_up
  collect_across a zero miss h k e = let z : f a ≡ value [] = ap f (omega arith) ∙ miss in rw z refl
  collect_across a (suc m) miss h k e = elim (below_or_above n a) [
    | inl lt ↦
        rw
          (
            ap f (sym (skip_below n a lt)) ∙ e a (omega arith) (omega arith),
            collect_across (suc a) m miss lt (omega arith)
                (λ j p q. e j (omega arith) (omega arith)),
          )
          refl
    | inr le ↦
        let z : f a ≡ value [] = ap f (omega arith) ∙ miss in
        rw z (found_nil _ ∙ collect_above a (suc m) le e)
  ]

  pub collect_up-skip :
      (i : ℕ)
      → f n ≡ value []
      → ((j : ℕ) → j ≤ i → f (skip n j) ≡ g j)
      → collect_up f 0 (suc (skip n i)) ≡ collect_up g 0 (suc i)
  collect_up-skip i miss e = elim (below_or_above n i) [
    | inl lt ↦ rw (skip_below n i lt) (
        collect_up_congr f g 0 (suc i)
          (λ j p q. ap f (sym (skip_below n j (omega arith))) ∙ e j (omega arith)))
    | inr le ↦
        rw (skip_above n i le)
          (collect_across 0 (suc i) miss (omega arith) (omega arith) (λ j p q. e j (omega arith)))
  ]
