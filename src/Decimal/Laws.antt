-- ===== src/Decimal/Laws.antt =====
-- What decimal spellings denote, and `decimal_eq` of dogwood-language/src/interpreter/value.rs.
use dogwood.Prelude.{◌≡◌, ◌↔◌, ap, true, Option, none, some, Str, str_eq_iff}
use dogwood.Int.{ℤ}
use dogwood.Int.Order.{eqb_ℤ_iff}
use dogwood.Decimal.{cedar_decimal_value, decimal_eq, same_decimal}

-- An accepted spelling denotes its value, a rejected one only itself.
pub data Denotation : Type 0 where
  accepted : ℤ → Denotation
  rejected : Str → Denotation

abbrev pub of_value : Option ℤ → Str → Denotation
of_value (some z) s = accepted z
of_value none s = rejected s

unfoldable pub denote : Str → Denotation
denote s = of_value (cedar_decimal_value s) s

same_decimal_iff :
    (p q : Option ℤ) (a b : Str)
    → (a ≡ b → p ≡ q)
    → (same_decimal p q a b ≡ true) ↔ (of_value p a ≡ of_value q b)
same_decimal_iff (some x) (some y) a b h =
    (λ e. cc ((eqb_ℤ_iff x y).0 e), λ e. (eqb_ℤ_iff x y).1 (cc))
same_decimal_iff none none a b h = (λ e. cc ((str_eq_iff a b).0 e), λ e. (str_eq_iff a b).1 (cc))
same_decimal_iff (some x) none a b h = (λ e. cc (h ((str_eq_iff a b).0 e)), λ e. cc)
same_decimal_iff none (some y) a b h = (λ e. cc (h ((str_eq_iff a b).0 e)), λ e. cc)

pub decimal_eq_iff : (a b : Str) → (decimal_eq a b ≡ true) ↔ (denote a ≡ denote b)
unfolding decimal_eq denote
decimal_eq_iff a b = same_decimal_iff _ _ a b (λ e. ap cedar_decimal_value e)
