-- ===== src/LogValue.antt =====
-- The values of an event log, dogwood-language/src/interpreter/log_parse.rs: `parse_value`, `unquote`,
-- `find_entity_quote_open`, `split_top_level_once`.
pub mod EntityLiteral
pub mod Ends
pub mod Nesting
use mathlib.Core.List.{reverse}
use dogwood.Prelude.{
  ℕ, zero, suc, ◌+◌, ◌-◌, ◌*◌, Bool, true, false, not, ◌&&◌, ◌||◌, Option, none, some, List, [],
  ◌∷◌, ◌++◌, Str, str, str_eq, ltb, ◌==◌, all, any, if◌then◌else◌,
}
use dogwood.Prelude.Results.{Result, ok, err, ◌>>=◌}
use dogwood.Int.{ℤ, pos, negsuc, ◌+ℤ◌, sub_ℕ, checked}
use dogwood.Map
use dogwood.Map.{Map}
use dogwood.Decimal.{is_ascii_digit, digits_value}
use dogwood.Value
use dogwood.Value.{Value, Items}
use dogwood.LogText.{
  unescape, find_unescaped_quote, put_before, split_top_level, opens, closes, is_top,
}

-- `char::is_whitespace`: the property White_Space of Unicode.
unfoldable pub is_whitespace : ℕ → Bool
is_whitespace c =
    ((not (ltb c 9) && ltb c 14) || c == 32)
    || ((c == 0x85 || c == 0xa0)
        || ((c == 0x1680 || (not (ltb c 0x2000) && ltb c 0x200b))
            || ((c == 0x2028 || c == 0x2029) || ((c == 0x202f || c == 0x205f) || c == 0x3000))))

unfoldable pub trim_start : Str → Str
trim_start [] = []
trim_start (c ∷ s) = let rest = trim_start s in if is_whitespace c then rest else c ∷ s

unfoldable pub trim_end : Str → Str
trim_end s = reverse (trim_start (reverse s))

unfoldable pub trim : Str → Str
trim s = trim_end (trim_start s)

abbrev pub strip_first : ℕ → Str → Option Str
strip_first c [] = none
strip_first c (x ∷ s) = if x == c then some s else none

abbrev pub reversed : Option Str → Option Str
reversed none = none
reversed (some s) = some (reverse s)

unfoldable pub strip_last : ℕ → Str → Option Str
strip_last c s = reversed (strip_first c (reverse s))

abbrev pub then_strip_last : ℕ → Option Str → Option Str
then_strip_last c none = none
then_strip_last c (some s) = strip_last c s

-- `strip_prefix(a).and_then(|x| x.strip_suffix(b))`
unfoldable pub enclosed : ℕ → ℕ → Str → Option Str
enclosed a b s = then_strip_last b (strip_first a s)

abbrev pub or_whole : Option Str → Str → Str
or_whole none s = s
or_whole (some inner) s = inner

unfoldable pub unquote : Str → Str
unquote s = unescape (or_whole (enclosed b'"' b'"' (trim s)) (trim s))

-- The loop of `split_top_level_once`, with the depth, whether a string is open, and whether a backslash before
-- takes the next character with it.
unfoldable pub split_once_from : ℕ → ℤ → Bool → Bool → Str → Option (Str × Str)
split_once_from delim depth in_str escaped [] = none
split_once_from delim depth in_str true (c ∷ s) =
    put_before c (split_once_from delim depth in_str false s)
split_once_from delim depth in_str false (c ∷ s) =
    let escaping = split_once_from delim depth in_str true s in
    let toggled = split_once_from delim depth (not in_str) false s in
    let deeper = split_once_from delim (depth +ℤ pos 1) in_str false s in
    let shallower = split_once_from delim (depth +ℤ negsuc 0) in_str false s in
    let same = split_once_from delim depth in_str false s in
    if c == b'\\' && in_str
    then put_before c escaping
    else (if c == b'"'
        then put_before c toggled
        else (if opens c && not in_str
            then put_before c deeper
            else (if closes c && not in_str
                then put_before c shallower
                else (if (c == delim && is_top depth) && not in_str
                    then some ([], s)
                    else put_before c same))))

unfoldable pub split_top_level_once : Str → ℕ → Option (Str × Str)
split_top_level_once s delim = split_once_from delim (pos 0) false false s

abbrev pub ends_text : Option (Str × Str) → Bool
ends_text none = false
ends_text (some (before, [])) = true
ends_text (some (before, c ∷ after)) = false

-- The text behind `::"`.
unfoldable pub after_open : Str → Option Str
after_open (a ∷ b ∷ c ∷ s) = if (a == b':' && b == b':') && c == b'"' then some s else none
after_open _ = none

-- `find_entity_quote_open`, as the text before `::` and the quoted text behind it. Two occurrences of `::"`
-- do not overlap, so that the search may go on at the next character.
unfoldable pub entity_parts : Str → Option (Str × Str)
entity_parts [] = none
entity_parts (c ∷ s) =
    let next = entity_parts s in
    elim (after_open (c ∷ s)) [
      | none ↦ put_before c next
      | some t ↦
          if ends_text (find_unescaped_quote t) then some ([], b'"' ∷ t) else put_before c next
    ]

abbrev pub is_blank : Str → Bool
is_blank [] = true
is_blank (c ∷ s) = false

abbrev pub digits_number : Str → Option ℕ
digits_number s = if not (is_blank s) && all is_ascii_digit s then some (digits_value 0 s) else none

abbrev pub signed : Bool → Option ℕ → Option ℤ
signed negative none = none
signed true (some n) = checked (sub_ℕ 0 n)
signed false (some n) = checked (pos n)

-- `s.parse::<i64>()`
unfoldable pub parse_signed_i64 : Str → Option ℤ
parse_signed_i64 [] = none
parse_signed_i64 (c ∷ s) =
    if c == b'-'
    then signed true (digits_number s)
    else signed false (digits_number (if c == b'+' then s else c ∷ s))

-- The longest run of digits, and the rest.
unfoldable pub digit_run : Str → Str × Str
digit_run [] = ([], [])
digit_run (c ∷ s) =
    let rest = digit_run s in if is_ascii_digit c then (c ∷ rest.0, rest.1) else ([], c ∷ s)

abbrev pub skip_sign : Str → Str
skip_sign [] = []
skip_sign (c ∷ s) = if c == b'+' || c == b'-' then s else c ∷ s

abbrev pub is_exponent : Str → Bool
is_exponent [] = true
is_exponent (c ∷ s) =
    (c == b'e' || c == b'E') && (not (is_blank (skip_sign s)) && all is_ascii_digit (skip_sign s))

abbrev pub is_fraction : Str → Str → Bool
is_fraction whole [] = false
is_fraction whole (c ∷ s) =
    (c == b'.' && not (is_blank whole && is_blank (digit_run s).0)) && is_exponent (digit_run s).1

-- `s.contains('.') && s.parse::<f64>().is_ok()`: a number with a dot, after an optional sign.
unfoldable pub is_dotted_float : Str → Bool
is_dotted_float s = is_fraction (digit_run (skip_sign s)).0 (digit_run (skip_sign s)).1

-- `s.contains("::")`
unfoldable pub contains_path : Str → Bool
contains_path [] = false
contains_path (a ∷ []) = false
contains_path (a ∷ b ∷ s) = (a == b':' && b == b':') || contains_path (b ∷ s)

abbrev pub number_or_text : Option ℤ → Str → Value
number_or_text (some n) s = Value.int n
number_or_text none s = if is_dotted_float s then Value.decimal s else Value.string s

abbrev pub is_quoted : Str → Bool
is_quoted s = elim (enclosed b'"' b'"' s) [ none ↦ false | some _ ↦ true ]

abbrev pub scalar_value : Str → Value
scalar_value s =
    if is_quoted s then Value.string (unquote s) else number_or_text (parse_signed_i64 s) s

abbrev pub entity_of : Option (Str × Str) → Str → Value
entity_of none s = scalar_value s
entity_of (some (ty, id)) s = Value.entity ty (unquote id)

abbrev pub ends_with_quote : Str → Bool
ends_with_quote s = elim (strip_last b'"' s) [ none ↦ false | some _ ↦ true ]

-- The arms behind the brackets.
unfoldable pub atom : Str → Value
atom s =
    if contains_path s && ends_with_quote s then entity_of (entity_parts s) s else scalar_value s

abbrev pub missing_colon : Str → Str
missing_colon part = str "object field `" ++ (part ++ str "` missing `:`")

abbrev pub duplicate_text : Str → Str
duplicate_text k = str "record has a duplicate field `" ++ (k ++ str "`")

-- Every part that is not blank, in order; the first error ends the loop.
unfoldable pub parse_items : (Str → Result Value) → List Str → Result Items
parse_items parse [] = ok Value.nil
parse_items parse (p ∷ parts) =
    let rest = parse_items parse parts in
    if is_blank (trim p)
    then rest
    else (parse (trim p) >>= λ v. rest >>= λ vs. ok (Value.cons v vs))

abbrev pub add_field :
    (Str → Result Value) → Map Value → Str → Option (Str × Str) → Result (Map Value)
add_field parse fields part none = err (missing_colon part)
add_field parse fields part (some (k, v)) = parse (trim v) >>= λ w.
    if Map.contains_key fields (unquote (trim k))
    then err (duplicate_text (unquote (trim k)))
    else ok (Map.insert fields (unquote (trim k)) w)

-- The loop over the fields of a record, with the fields so far.
unfoldable pub parse_fields : (Str → Result Value) → List Str → Map Value → Result (Map Value)
parse_fields parse [] fields = ok fields
parse_fields parse (p ∷ parts) fields =
    if is_blank (trim p)
    then parse_fields parse parts fields
    else (add_field parse fields (trim p) (split_top_level_once (trim p) b':')
        >>= parse_fields parse parts)

abbrev pub too_deep : Str
too_deep = str "logged value nested deeper than the limit of 128"

abbrev pub bracketed : (Str → Result Value) → Option Str → Option Str → Str → Result Value
bracketed parse (some inner) braces s =
    parse_items parse (split_top_level inner b',') >>= λ vs. ok (Value.array vs)
bracketed parse none (some inner) s =
    parse_fields parse (split_top_level inner b',') [] >>= λ fields.
    ok (Value.object (Value.of_members fields))
bracketed parse none none s = ok (atom s)

abbrev pub words : (Str → Result Value) → Str → Result Value
words parse s =
    if str_eq s (str "null")
    then ok Value.null
    else (if str_eq s (str "true")
        then ok (Value.bool true)
        else (if str_eq s (str "false")
            then ok (Value.bool false)
            else bracketed parse (enclosed b'[' b']' s) (enclosed b'{' b'}' s) s))

-- `parse_value_depth`, with the levels that are left below the limit of 128.
unfoldable pub parse_value_depth : ℕ → Str → Result Value
parse_value_depth zero s = err too_deep
parse_value_depth (suc levels) s = words (λ p. parse_value_depth levels p) (trim s)

unfoldable pub parse_value : Str → Result Value
parse_value s = parse_value_depth 129 s
