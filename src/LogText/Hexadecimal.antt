-- ===== src/LogText/Hexadecimal.antt =====
-- Hexadecimal digits, printed by `str::escape_debug` and read back by `unescape` of
-- dogwood-language/src/interpreter/log_parse.rs.
use dogwood.Prelude.{
  ℕ, zero, suc, ◌+◌, ◌*◌, ◌/◌, ◌%◌, ◌<◌, ◌≡◌, ◌∙◌, refl, ap, Bool, true, false, not, ◌&&◌, ◌||◌,
  none, some, [], ◌∷◌, ◌++◌, Str, str, ltb, ◌==◌, all, filter_by, arith, Bool-cases, inl, inr,
  &&_split, if◌then◌else◌,
}
use mathlib.Core.List.{append_assoc}
use dogwood.Unicode.{hex_digit, hex_digits}
use dogwood.LogText.{
  hex_digit_value, hex_value, then_digit, from_str_radix_16, is_scalar, before_char,
  decoded_unicode, unicode_escape,
}

abbrev sixteen_to : ℕ → ℕ
sixteen_to zero = 1
sixteen_to (suc f) = 16 * sixteen_to f

-- The digits that the printing uses.
abbrev pub is_printed : ℕ → Bool
is_printed c = (not (ltb c b'0') && ltb c 58) || (not (ltb c b'a') && ltb c 103)

hex_digit-printed : (d : ℕ) → d < 16 → is_printed (hex_digit d) ≡ true
hex_digit-printed d h = ground arith

hex_digit_value-hex_digit : (d : ℕ) → d < 16 → hex_digit_value (hex_digit d) ≡ some d
unfolding hex_digit_value
hex_digit_value-hex_digit d h = elim (Bool-cases (ltb d 10)) [
  | inl low ↦ rw low (ground arith)
  | inr high ↦ rw high (ground arith)
]

pub hex_digits-append : (f n : ℕ) (a b : Str) → hex_digits f n (a ++ b) ≡ hex_digits f n a ++ b
unfolding hex_digits
hex_digits-append zero n a b = refl
hex_digits-append (suc f) n a b = elim (Bool-cases (ltb n 16)) [
  | inl low ↦ rw low refl
  | inr high ↦ rw high (hex_digits-append f (n / 16) (hex_digit (n % 16) ∷ a) b)
]

hex_value-cons :
    (n d : ℕ) (s : Str) → d < 16 → hex_value n (hex_digit d ∷ s) ≡ hex_value (n * 16 + d) s
unfolding hex_value
hex_value-cons n d s h =
    ap (λ o. then_digit o (λ k. hex_value (n * 16 + k) s)) (hex_digit_value-hex_digit d h)

hex_value-hex_digits :
    (f n : ℕ) (rest : Str) → n < sixteen_to f → hex_value 0 (hex_digits f n rest) ≡ hex_value n rest
unfolding hex_digits
hex_value-hex_digits zero n rest h = ap (λ k. hex_value k rest) (omega arith)
hex_value-hex_digits (suc f) n rest h = elim (Bool-cases (ltb n 16)) [
  | inl low ↦
      rw low (hex_value-cons 0 n rest (ground arith) ∙ ap (λ k. hex_value k rest) (omega arith))
  | inr high ↦ rw high (
      hex_value-hex_digits f (n / 16) (hex_digit (n % 16) ∷ rest) (omega arith)
      ∙ hex_value-cons (n / 16) (n % 16) rest (omega arith)
      ∙ ap (λ k. hex_value k rest) (omega arith))
]

pub hex_digits-printed :
    (f n : ℕ) (rest : Str)
    → all is_printed rest ≡ true
    → all is_printed (hex_digits f n rest) ≡ true
unfolding hex_digits
hex_digits-printed zero n rest h = h
hex_digits-printed (suc f) n rest h = elim (Bool-cases (ltb n 16)) [
  | inl low ↦ rw (low, hex_digit-printed n (ground arith)) h
  | inr high ↦ rw high (
      hex_digits-printed f (n / 16) (hex_digit (n % 16) ∷ rest)
        (rw (hex_digit-printed (n % 16) (omega arith)) h))
]

-- The digits begin with a digit.
first_digit : (f n : ℕ) (rest : Str) → (c : ℕ) × (s : Str) × (hex_digits (suc f) n rest ≡ c ∷ s)
unfolding hex_digits
first_digit zero n rest = elim (Bool-cases (ltb n 16)) [
  | inl low ↦ (hex_digit n, rest, rw low refl)
  | inr high ↦ (hex_digit (n % 16), rest, rw high refl)
]
first_digit (suc f) n rest = elim (Bool-cases (ltb n 16)) [
  | inl low ↦ (hex_digit n, rest, rw low refl)
  | inr high ↦
      let (c, s, e) = first_digit f (n / 16) (hex_digit (n % 16) ∷ rest) in (c, s, rw high e)
]

before_char-printed :
    (s r : Str) → all is_printed s ≡ true → before_char b'}' (s ++ b'}' ∷ r) ≡ (s, b'}' ∷ r)
unfolding before_char
before_char-printed [] r h = refl
before_char-printed (c ∷ s) r h =
    let (p, q) = &&_split (is_printed c) (all is_printed s) h in
    let other : (c == b'}') ≡ false = ground arith in rw (other, before_char-printed s r q) refl

filter-printed : (s : Str) → all is_printed s ≡ true → filter_by (λ c. not (c == b'_')) s ≡ s
filter-printed [] h = refl
filter-printed (c ∷ s) h =
    let (p, q) = &&_split (is_printed c) (all is_printed s) h in
    let other : (c == b'_') ≡ false = ground arith in rw (other, filter-printed s q) refl

printed-number :
    (c : ℕ) (s : Str) (n : ℕ)
    → all is_printed (c ∷ s) ≡ true
    → hex_value 0 (c ∷ s) ≡ some n
    → is_scalar n ≡ true
    → decoded_unicode (c ∷ s) ≡ some n
unfolding from_str_radix_16 is_scalar
printed-number c s n h v sc =
    let (p, q) = &&_split (is_printed c) (all is_printed s) h in
    let unscored : (c == b'_') ≡ false = ground arith in
    let unsigned : (c == b'+') ≡ false = ground arith in
    let small : ltb n 4294967296 ≡ true = ground arith in
    rw (unscored, filter-printed s q, unsigned, v, small) (ap (λ b. if b then some n else none) sc)

-- The escape of a scalar value reads as the value.
pub unicode_escape-hex_digits :
    (c : ℕ) (r : Str)
    → is_scalar c ≡ true
    → unicode_escape (hex_digits 8 c (str "}") ++ r) ≡ (c ∷ [], r)
unfolding unicode_escape hex_value is_scalar
unicode_escape-hex_digits c r sc =
    let printed = hex_digits-printed 8 c [] refl in
    let bounded : c < sixteen_to 8 = ground arith in
    let read : hex_value 0 (hex_digits 8 c []) ≡ some c = hex_value-hex_digits 8 c [] bounded in
    let (d, s, e) = first_digit 7 c [] in
    ap unicode_escape (
      ap (λ t. t ++ r) (hex_digits-append 8 c [] (str "}"))
      ∙ append_assoc (hex_digits 8 c []) (str "}") r)
    ∙ rw (before_char-printed (hex_digits 8 c []) r printed)
        (rw e (rw (printed-number d s c (rw e at printed) (rw e at read) sc) refl))
