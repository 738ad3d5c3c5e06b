-- ===== src/PartitionKey.antt =====
-- The partition key of a value, dogwood-language/src/engine.rs: `partition_value_key`,
-- `canon_decimal_for_partition`.
pub mod Agree
pub mod Digits
pub mod Canon
pub mod Injective
use dogwood.Prelude.{
  ℕ, zero, suc, ◌+◌, ◌*◌, ◌/◌, ◌%◌, Bool, true, false, Option, none, some, List, [], ◌∷◌, ◌++◌, Str,
  str, utf8_len, length, ltb, ◌==◌, if◌then◌else◌,
}
use mathlib.Core.List.{reverse}
use dogwood.Int.{ℤ, pos, negsuc, pos_part, neg_part}
use dogwood.Decimal.{cedar_decimal_value}
use dogwood.Decimals.{to_string}
use dogwood.Value.{
  Value, null, bool, int, decimal, string, entity, array, object, Items, nil, cons, Fields, end,
  field,
}

unfoldable pub int_to_string : ℤ → Str
int_to_string (pos n) = to_string n
int_to_string (negsuc n) = b'-' ∷ to_string (suc n)

-- `{:04}` of a number below 10000.
unfoldable pub four_digits : ℕ → Str
four_digits n =
    (n / 1000 + b'0') ∷ (n / 100 % 10 + b'0') ∷ (n / 10 % 10 + b'0') ∷ (n % 10 + b'0') ∷ []

abbrev pub drop_zeros : Str → Str
drop_zeros [] = []
drop_zeros (c ∷ s) = let rest = drop_zeros s in if c == b'0' then rest else c ∷ s

-- `trim_end_matches('0')`
unfoldable pub trim_zeros : Str → Str
trim_zeros s = reverse (drop_zeros (reverse s))

abbrev pub sign_of : ℤ → Str
sign_of (pos n) = []
sign_of (negsuc n) = str "-"

-- The magnitude of a value and its two parts.
abbrev pub magnitude : ℤ → ℕ
magnitude z = pos_part z + neg_part z

unfoldable pub canon_accepted : ℤ → Str
canon_accepted z =
    let whole = sign_of z ++ to_string (magnitude z / 10000) in
    if magnitude z % 10000 == 0
    then whole
    else whole ++ (str "." ++ trim_zeros (four_digits (magnitude z % 10000)))

abbrev pub canon_of : Option ℤ → Str → Str
canon_of (some z) s = canon_accepted z
canon_of none s = b'x' ∷ s

unfoldable pub canon_decimal_for_partition : Str → Str
canon_decimal_for_partition s = canon_of (cedar_decimal_value s) s

-- A tag, the length of the body in bytes, and the body.
unfoldable pub framed : ℕ → Str → Str
framed tag body = tag ∷ to_string (utf8_len body) ++ (str ":" ++ body)

abbrev pub bool_text : Bool → Str
bool_text true = str "true"
bool_text false = str "false"

unfoldable mutual
  pub partition_value_key : Value → Str
  partition_value_key null = str "n0:"
  partition_value_key (bool b) = framed b'b' (bool_text b)
  partition_value_key (int i) = framed b'i' (int_to_string i)
  partition_value_key (decimal s) = framed b'd' (canon_decimal_for_partition s)
  partition_value_key (string s) = framed b's' s
  partition_value_key (entity ty id) = framed b'e' (ty ++ (str "::\"" ++ (id ++ str "\"")))
  partition_value_key (array items) = framed b'a' (items_key items)
  partition_value_key (object fs) = framed b'o' (members_key fs)

  pub items_key : Items → Str
  items_key nil = []
  items_key (cons v vs) = partition_value_key v ++ items_key vs

  pub members_key : Fields → Str
  members_key end = []
  members_key (field k v fs) =
      (to_string (utf8_len k) ++ (str ":" ++ (k ++ partition_value_key v))) ++ members_key fs
