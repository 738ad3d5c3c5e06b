-- ===== src/Decimal.antt =====
-- Decimal literals, dogwood-language/src/interpreter/value.rs: `cedar_decimal_value`, `decimal_eq`.
pub mod Laws
use dogwood.Prelude.{
  ℕ, ◌+◌, ◌-◌, ◌*◌, ◌^◌, Bool, true, false, not, ◌&&◌, Option, none, some, List, [], ◌∷◌, Str,
  length, all, leb, ltb, ◌==◌, str_eq, if◌then◌else◌,
}
use dogwood.Prelude.Options.{◌>>=◌, ◌>>◌, guard}
use dogwood.Int.{ℤ, pos, negsuc, sub_ℕ, eqb_ℤ, ◌+ℤ◌, ◌-ℤ◌, ◌*ℤ◌, checked}

abbrev pub is_ascii_digit : ℕ → Bool
is_ascii_digit c = leb b'0' c && leb c b'9'

abbrev pub is_empty : Str → Bool
is_empty [] = true
is_empty (_ ∷ _) = false

-- `s.split_once(c)` at a one-byte separator.
unfoldable pub split_once : ℕ → Str → Option (Str × Str)
split_once c [] = none
split_once c (x ∷ xs) =
    let rest = split_once c xs in
    if x == c then some ([], xs) else (do (before, after) ← rest; some (x ∷ before, after))

unfoldable pub starts_with_minus : Str → Bool
starts_with_minus [] = false
starts_with_minus (x ∷ xs) = x == b'-'

unfoldable pub strip_minus : Str → Str
strip_minus [] = []
strip_minus (x ∷ xs) = if x == b'-' then xs else x ∷ xs

-- The number that a string of digits spells, after the digits read so far.
unfoldable pub digits_value : ℕ → Str → ℕ
digits_value acc [] = acc
digits_value acc (x ∷ xs) = digits_value (acc * 10 + (x - b'0')) xs

-- `s.parse::<i64>()` on an optional minus and digits: the exact value, if it is in range.
unfoldable pub parse_i64 : Str → Option ℤ
parse_i64 s =
    if starts_with_minus s
    then checked (sub_ℕ 0 (digits_value 0 (strip_minus s)))
    else checked (pos (digits_value 0 s))

abbrev pub num_digits : ℕ
num_digits = 4

-- The value times 10⁴, as Cedar holds it, or `none` for a spelling that Cedar rejects.
unfoldable pub cedar_decimal_value : Str → Option ℤ
cedar_decimal_value s = do
  (int_str, frac_str) ← split_once b'.' s
  guard (not (is_empty frac_str) && all is_ascii_digit frac_str)
  let digits = strip_minus int_str
  guard (not (is_empty digits) && all is_ascii_digit digits)
  guard (leb (length frac_str) num_digits)
  whole ← parse_i64 int_str
  scaled ← checked (whole *ℤ pos (10 ^ num_digits))
  frac_digits ← parse_i64 frac_str
  frac ← checked (frac_digits *ℤ pos (10 ^ (num_digits - length frac_str)))
  if starts_with_minus int_str then checked (scaled -ℤ frac) else checked (scaled +ℤ frac)

-- The two arms of the match on both values.
abbrev pub same_decimal : Option ℤ → Option ℤ → Str → Str → Bool
same_decimal (some x) (some y) a b = eqb_ℤ x y
same_decimal _ _ a b = str_eq a b

unfoldable pub decimal_eq : Str → Str → Bool
decimal_eq a b = same_decimal (cedar_decimal_value a) (cedar_decimal_value b) a b
