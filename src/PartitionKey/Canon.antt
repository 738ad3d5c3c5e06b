-- ===== src/PartitionKey/Canon.antt =====
-- The canonical decimals of `canon_decimal_for_partition`, dogwood-language/src/engine.rs.
use dogwood.Prelude.{
  ℕ, suc, ◌+◌, ◌/◌, ◌%◌, ◌<◌, ◌≡◌, ◌≢◌, ◌∙◌, refl, sym, ap, Bool, true, false, [], ◌∷◌, ◌++◌, Str,
  str, ◌==◌, arith, if◌then◌else◌, Bool-cases, ◌⊎◌, inl, inr, Option, none, some, all,
}
use mathlib.Core.List.{append_assoc, append-nil}
use dogwood.Int.{ℤ, pos, negsuc}
use dogwood.Decimals.{to_string, to_string-digits}
use dogwood.Decimal.{is_ascii_digit}
use dogwood.Decimal.Laws.{of_value}
use dogwood.PartitionKey.{four_digits, trim_zeros, sign_of, magnitude, canon_accepted, canon_of}
use dogwood.PartitionKey.Digits.{
  stops, digits_split, to_string_inj, to_string-nonempty, not_signed, trim_zeros_inj,
}

abbrev fraction_text : ℕ → Str
fraction_text f = if f == 0 then [] else b'.' ∷ trim_zeros (four_digits f)

canon_parts :
    (z : ℤ)
    → canon_accepted z
      ≡ sign_of z ++ (to_string (magnitude z / 10000) ++ fraction_text (magnitude z % 10000))
unfolding canon_accepted
canon_parts z = branch (magnitude z % 10000 == 0)
  where
    branch :
        (b : Bool)
        → (if b
            then sign_of z ++ to_string (magnitude z / 10000)
            else (sign_of z ++ to_string (magnitude z / 10000))
              ++ (str "." ++ trim_zeros (four_digits (magnitude z % 10000))))
          ≡ sign_of z
            ++ (to_string (magnitude z / 10000)
                ++ (if b then [] else b'.' ∷ trim_zeros (four_digits (magnitude z % 10000))))
    branch true = ap (λ w. sign_of z ++ w) (sym (append-nil (to_string (magnitude z / 10000))))
    branch false =
        append_assoc (sign_of z) (to_string (magnitude z / 10000))
          (b'.' ∷ trim_zeros (four_digits (magnitude z % 10000)))

stops-fraction_text : (f : ℕ) → stops (fraction_text f) ≡ true
stops-fraction_text f = branch (f == 0)
  where
    branch : (b : Bool) → stops (if b then [] else b'.' ∷ trim_zeros (four_digits f)) ≡ true
    branch true = refl
    branch false = refl

fraction_text_inj : (f g : ℕ) → f < 10000 → g < 10000 → fraction_text f ≡ fraction_text g → f ≡ g
fraction_text_inj f g h k e = same (Bool-cases (f == 0)) (Bool-cases (g == 0))
  where
    same : ((f == 0) ≡ true) ⊎ ((f == 0) ≡ false) → ((g == 0) ≡ true) ⊎ ((g == 0) ≡ false) → f ≡ g
    same (inl p) (inl q) = ground arith
    same (inl p) (inr q) =
        let r : [] ≡ b'.' ∷ trim_zeros (four_digits g) = ground (arith, e) in cc r
    same (inr p) (inl q) =
        let r : b'.' ∷ trim_zeros (four_digits f) ≡ [] = ground (arith, e) in cc r
    same (inr p) (inr q) =
        let r : b'.' ∷ trim_zeros (four_digits f) ≡ b'.' ∷ trim_zeros (four_digits g) =
          ground (arith, e) in
        trim_zeros_inj f g h k (cc r)

magnitude_inj :
    (m n : ℕ)
    → to_string (m / 10000) ++ fraction_text (m % 10000)
      ≡ to_string (n / 10000) ++ fraction_text (n % 10000)
    → m ≡ n
magnitude_inj m n e =
    let (p, q) =
      digits_split (to_string (m / 10000)) (to_string (n / 10000)) _ _
        (to_string-digits (m / 10000)) (to_string-digits (n / 10000))
        (stops-fraction_text (m % 10000)) (stops-fraction_text (n % 10000)) e in
    let a : m / 10000 ≡ n / 10000 = to_string_inj (m / 10000) (n / 10000) p in
    let b : m % 10000 ≡ n % 10000 =
      fraction_text_inj (m % 10000) (n % 10000) (omega arith) (omega arith) q in
    omega (arith, a, b)

canon_accepted_inj : (y z : ℤ) → canon_accepted y ≡ canon_accepted z → y ≡ z
canon_accepted_inj y z e = parts y z (sym (canon_parts y) ∙ e ∙ canon_parts z)
  where
    parts :
        (y z : ℤ)
        → sign_of y ++ (to_string (magnitude y / 10000) ++ fraction_text (magnitude y % 10000))
          ≡ sign_of z ++ (to_string (magnitude z / 10000) ++ fraction_text (magnitude z % 10000))
        → y ≡ z
    parts (pos m) (pos n) e = let k = magnitude_inj (m + 0) (n + 0) e in ap pos (omega (arith, k))
    parts (negsuc m) (negsuc n) e =
        let k = magnitude_inj (0 + suc m) (0 + suc n) (cc e) in ap negsuc (omega (arith, k))
    parts (pos m) (negsuc n) e = absurd (
        not_signed _ _ _ (to_string-nonempty ((m + 0) / 10000)) (to_string-digits ((m + 0) / 10000))
          e)
    parts (negsuc m) (pos n) e = absurd (
        not_signed _ _ _ (to_string-nonempty ((n + 0) / 10000)) (to_string-digits ((n + 0) / 10000))
          (sym e))

head_eq : {x y : ℕ} {a b : Str} → x ∷ a ≡ y ∷ b → x ≡ y
head_eq e = cc

-- An accepted spelling does not begin with the tag of the rejected ones.
accepted_ne : (z : ℤ) (s : Str) → canon_accepted z ≢ b'x' ∷ s
accepted_ne z s e = starts z (sym (canon_parts z) ∙ e)
  where
    digit_first : (d r : Str) → d ≢ [] → all is_ascii_digit d ≡ true → d ++ r ≢ b'x' ∷ s
    digit_first [] r n h e = n refl
    digit_first (c ∷ d) r n h e = let q : c ≡ b'x' = cc in ground (arith, q)

    starts :
        (z : ℤ)
        → sign_of z ++ (to_string (magnitude z / 10000) ++ fraction_text (magnitude z % 10000))
          ≢ b'x' ∷ s
    starts (pos n) e =
        digit_first _ _ (to_string-nonempty ((n + 0) / 10000)) (to_string-digits ((n + 0) / 10000))
          e
    starts (negsuc n) e = absurd (omega (arith, head_eq e))

pub canon_of_inj :
    (p q : Option ℤ) (a b : Str) → canon_of p a ≡ canon_of q b → of_value p a ≡ of_value q b
canon_of_inj (some x) (some y) a b e = let k = canon_accepted_inj x y e in cc k
canon_of_inj none none a b e = cc
canon_of_inj (some x) none a b e = absurd (accepted_ne x b e)
canon_of_inj none (some y) a b e = absurd (accepted_ne y a (sym e))
