-- ===== src/PartitionKey/Digits.antt =====
-- Printed numbers and digits, as `partition_value_key` of dogwood-language/src/engine.rs writes them.
use dogwood.Prelude.{
  ℕ, zero, suc, ◌+◌, ◌/◌, ◌%◌, ◌≤◌, ◌<◌, ◌≡◌, ◌≢◌, ◌∙◌, refl, sym, ap, Bool, true, false, not, [],
  ◌∷◌, ◌++◌, Str, all, ◌==◌, length, arith, Bool-cases, ◌⊎◌, inl, inr, &&_split,
}
use mathlib.Core.List.{reverse, reverse-reverse, append-nil}
use dogwood.Int.{ℤ, pos, negsuc}
use dogwood.Decimal.{is_ascii_digit, digits_value}
use dogwood.Decimals.{dec_digits, to_string, digits_value-to_string, to_string-digits}
use dogwood.PartitionKey.{int_to_string, four_digits, drop_zeros, trim_zeros}

-- The text is empty or goes on with a character that is no digit.
abbrev pub stops : Str → Bool
stops [] = true
stops (c ∷ s) = not (is_ascii_digit c)

-- Where digits end, they end in one way.
pub digits_split :
    (d d' r r' : Str)
    → all is_ascii_digit d ≡ true
    → all is_ascii_digit d' ≡ true
    → stops r ≡ true
    → stops r' ≡ true
    → d ++ r ≡ d' ++ r'
    → (d ≡ d') × (r ≡ r')
digits_split [] [] r r' h h' s s' e = (refl, e)
digits_split [] (c ∷ d') [] r' h h' s s' e = cc
digits_split [] (c ∷ d') (x ∷ r) r' h h' s s' e =
    let q : x ≡ c = cc in let k : not (is_ascii_digit c) ≡ true = rw (← q) s in ground arith
digits_split (c ∷ d) [] r [] h h' s s' e = cc
digits_split (c ∷ d) [] r (x ∷ r') h h' s s' e =
    let q : c ≡ x = cc in let k : not (is_ascii_digit c) ≡ true = rw q s' in ground arith
digits_split (c ∷ d) (c' ∷ d') r r' h h' s s' e =
    let (a, b) = &&_split (is_ascii_digit c) (all is_ascii_digit d) h in
    let (a', b') = &&_split (is_ascii_digit c') (all is_ascii_digit d') h' in
    let (p, q) = digits_split d d' r r' b b' s s' (cc) in (cc, q)

pub to_string_inj : (m n : ℕ) → to_string m ≡ to_string n → m ≡ n
to_string_inj m n e =
    sym (digits_value-to_string m) ∙ ap (digits_value 0) e ∙ digits_value-to_string n

dec_digits-nonempty : (fuel n x : ℕ) (rest : Str) → dec_digits fuel n (x ∷ rest) ≢ []
unfolding dec_digits
dec_digits-nonempty zero n x rest e = cc
dec_digits-nonempty (suc fuel) n x rest e =
    let ih = dec_digits-nonempty fuel (n / 10) (n % 10 + b'0') (x ∷ rest) in ground (arith, ih)

pub to_string-nonempty : (n : ℕ) → to_string n ≢ []
unfolding to_string dec_digits
to_string-nonempty n e =
    let ih = dec_digits-nonempty n (n / 10) (n % 10 + b'0') [] in ground (arith, ih)

-- A printed number does not begin with a sign.
pub not_signed : (d r s : Str) → d ≢ [] → all is_ascii_digit d ≡ true → d ++ r ≢ b'-' ∷ s
not_signed [] r s n h e = n refl
not_signed (c ∷ d) r s n h e = let q : c ≡ b'-' = cc in ground (arith, q)

pub int_to_string_inj : (x y : ℤ) → int_to_string x ≡ int_to_string y → x ≡ y
unfolding int_to_string
int_to_string_inj (pos m) (pos n) e = ap pos (to_string_inj m n e)
int_to_string_inj (negsuc m) (negsuc n) e =
    let q = to_string_inj (suc m) (suc n) (cc) in ap negsuc (omega arith)
int_to_string_inj (pos m) (negsuc n) e = absurd (
    not_signed (to_string m) [] _ (to_string-nonempty m) (to_string-digits m)
      (append-nil (to_string m) ∙ e))
int_to_string_inj (negsuc m) (pos n) e = absurd (
    not_signed (to_string n) [] _ (to_string-nonempty n) (to_string-digits n)
      (append-nil (to_string n) ∙ sym e))

length-drop_zeros : (s : Str) → length (drop_zeros s) ≤ length s
length-drop_zeros [] = omega arith
length-drop_zeros (c ∷ s) = ground (arith, length-drop_zeros s)

drop_zeros_inj : (a b : Str) → length a ≡ length b → drop_zeros a ≡ drop_zeros b → a ≡ b
drop_zeros_inj [] [] l e = refl
drop_zeros_inj [] (y ∷ b) l e = absurd (omega arith)
drop_zeros_inj (x ∷ a) [] l e = absurd (omega arith)
drop_zeros_inj (x ∷ a) (y ∷ b) l e =
    let ih = drop_zeros_inj a b (omega arith) in
    same (Bool-cases (x == b'0')) (Bool-cases (y == b'0')) ih
  where
    same :
        ((x == b'0') ≡ true) ⊎ ((x == b'0') ≡ false)
        → ((y == b'0') ≡ true) ⊎ ((y == b'0') ≡ false)
        → (drop_zeros a ≡ drop_zeros b → a ≡ b)
        → x ∷ a ≡ y ∷ b
    same (inl p) (inl q) ih =
        let r : drop_zeros a ≡ drop_zeros b = ground (arith, e) in
        let k : x ≡ y = ground arith in cc (ih r, k)
    same (inl p) (inr q) ih =
        let r : drop_zeros a ≡ y ∷ b = ground (arith, e) in
        let k = ap length r in absurd (omega (arith, length-drop_zeros a))
    same (inr p) (inl q) ih =
        let r : x ∷ a ≡ drop_zeros b = ground (arith, e) in
        let k = ap length r in absurd (omega (arith, length-drop_zeros b))
    same (inr p) (inr q) ih = ground (arith, e)

reverse_inj : (a b : Str) → reverse a ≡ reverse b → a ≡ b
reverse_inj a b e = sym (reverse-reverse a) ∙ ap reverse e ∙ reverse-reverse b

four_digits_inj : (m n : ℕ) → m < 10000 → n < 10000 → four_digits m ≡ four_digits n → m ≡ n
unfolding four_digits
four_digits_inj m n h k e =
    let a : m / 1000 ≡ n / 1000 = ground arith in
    let b : m / 100 % 10 ≡ n / 100 % 10 = ground arith in
    let c : m / 10 % 10 ≡ n / 10 % 10 = ground arith in
    let d : m % 10 ≡ n % 10 = ground arith in omega arith

pub trim_zeros_inj :
    (m n : ℕ)
    → m < 10000
    → n < 10000
    → trim_zeros (four_digits m) ≡ trim_zeros (four_digits n)
    → m ≡ n
unfolding trim_zeros
trim_zeros_inj m n h k e = four_digits_inj m n h k (
    reverse_inj (four_digits m) (four_digits n)
      (drop_zeros_inj _ _ (same_length m n) (reverse_inj _ _ e)))
  where
    same_length : (m n : ℕ) → length (reverse (four_digits m)) ≡ length (reverse (four_digits n))
    same_length m n = unfold four_digits in refl
