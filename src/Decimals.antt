-- ===== src/Decimals.antt =====
-- The decimal digits that `to_string` prints, and their reading back.
use dogwood.Prelude.{
  ℕ, zero, suc, ◌+◌, ◌-◌, ◌*◌, ◌/◌, ◌%◌, ◌<◌, ◌≡◌, ◌∙◌, refl, ap, true, false, [], ◌∷◌, Str, all,
  ltb, arith, if◌then◌else◌, Bool-cases, ◌⊎◌, inl, inr,
}
use dogwood.Decimal.{is_ascii_digit, digits_value}

-- The digits of `n` before `rest`; the fuel is above `n`.
unfoldable pub dec_digits : ℕ → ℕ → Str → Str
dec_digits zero n rest = rest
dec_digits (suc fuel) n rest =
    let further = dec_digits fuel (n / 10) ((n % 10 + b'0') ∷ rest) in
    if ltb n 10 then (n + b'0') ∷ rest else further

unfoldable pub to_string : ℕ → Str
to_string n = dec_digits (suc n) n []

digits_value-dec_digits :
    (fuel n : ℕ) (rest : Str)
    → n < fuel
    → digits_value 0 (dec_digits fuel n rest) ≡ digits_value n rest
unfolding dec_digits digits_value
digits_value-dec_digits zero n rest h = elim h [ ]
digits_value-dec_digits (suc fuel) n rest h =
    let ih = digits_value-dec_digits fuel (n / 10) ((n % 10 + b'0') ∷ rest) in
    step (Bool-cases (ltb n 10)) ih
  where
    step :
        (ltb n 10 ≡ true) ⊎ (ltb n 10 ≡ false)
        → (n / 10 < fuel
            → digits_value 0 (dec_digits fuel (n / 10) ((n % 10 + b'0') ∷ rest))
              ≡ digits_value (n / 10 * 10 + (n % 10 + b'0' - b'0')) rest)
        → digits_value 0 (
            if ltb n 10
            then (n + b'0') ∷ rest
            else dec_digits fuel (n / 10) ((n % 10 + b'0') ∷ rest))
          ≡ digits_value n rest
    step (inl e) ih = rw e (ap (λ k. digits_value k rest) (omega arith))
    step (inr e) ih = rw e (ih (ground arith) ∙ ap (λ k. digits_value k rest) (omega arith))

-- Reading a printed number gives it back.
pub digits_value-to_string : (n : ℕ) → digits_value 0 (to_string n) ≡ n
unfolding to_string digits_value
digits_value-to_string n = digits_value-dec_digits (suc n) n [] (omega arith)

dec_digits-digits :
    (fuel n : ℕ) (rest : Str)
    → all is_ascii_digit rest ≡ true
    → all is_ascii_digit (dec_digits fuel n rest) ≡ true
unfolding dec_digits
dec_digits-digits zero n rest h = h
dec_digits-digits (suc fuel) n rest h =
    let ih = dec_digits-digits fuel (n / 10) ((n % 10 + b'0') ∷ rest) in
    step (Bool-cases (ltb n 10)) ih
  where
    step :
        (ltb n 10 ≡ true) ⊎ (ltb n 10 ≡ false)
        → (all is_ascii_digit ((n % 10 + b'0') ∷ rest) ≡ true
            → all is_ascii_digit (dec_digits fuel (n / 10) ((n % 10 + b'0') ∷ rest)) ≡ true)
        → all is_ascii_digit (
            if ltb n 10
            then (n + b'0') ∷ rest
            else dec_digits fuel (n / 10) ((n % 10 + b'0') ∷ rest))
          ≡ true
    step (inl e) ih = rw e (ground arith)
    step (inr e) ih = rw e (ih (ground arith))

-- A printed number is digits alone.
pub to_string-digits : (n : ℕ) → all is_ascii_digit (to_string n) ≡ true
unfolding to_string
to_string-digits n = dec_digits-digits (suc n) n [] refl
