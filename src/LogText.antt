-- ===== src/LogText.antt =====
-- The text level of the event log, dogwood-language/src/interpreter/log_parse.rs: `unescape`,
-- `find_unescaped_quote`, `split_top_level`. Where the code gives an offset, the model gives the text before
-- it and the text after the character found.
pub mod Hexadecimal
pub mod RoundTrip
pub mod Quoted
pub mod Parts
use dogwood.Prelude.{
  ℕ, zero, suc, ◌+◌, ◌-◌, ◌*◌, Bool, true, false, not, ◌&&◌, ◌||◌, Option, none, some, List, [],
  ◌∷◌, ◌++◌, Str, str, ltb, ◌==◌, length, filter_by, if◌then◌else◌,
}
use dogwood.Prelude.Options
use dogwood.Int.{ℤ, pos, negsuc, ◌+ℤ◌}

-- `char::to_digit(16)`
unfoldable pub hex_digit_value : ℕ → Option ℕ
hex_digit_value c =
    if not (ltb c b'0') && ltb c 58
    then some (c - b'0')
    else (if not (ltb c b'a') && ltb c 103
        then some (c - 87)
        else (if not (ltb c b'A') && ltb c 71 then some (c - 55) else none))

abbrev pub then_digit : Option ℕ → (ℕ → Option ℕ) → Option ℕ
then_digit none k = none
then_digit (some d) k = k d

unfoldable pub hex_value : ℕ → Str → Option ℕ
hex_value n [] = some n
hex_value n (c ∷ s) = then_digit (hex_digit_value c) (λ d. hex_value (n * 16 + d) s)

abbrev pub below_2_32 : Option ℕ → Option ℕ
below_2_32 none = none
below_2_32 (some n) = if ltb n 4294967296 then some n else none

abbrev pub unsigned_hex : Str → Option ℕ
unsigned_hex [] = none
unsigned_hex (c ∷ s) = below_2_32 (hex_value 0 (c ∷ s))

-- `u32::from_str_radix(s, 16)`, which takes a sign `+`.
unfoldable pub from_str_radix_16 : Str → Option ℕ
from_str_radix_16 [] = none
from_str_radix_16 (c ∷ s) = if c == b'+' then unsigned_hex s else unsigned_hex (c ∷ s)

-- `char::from_u32`: scalar values leave out the surrogates.
unfoldable pub is_scalar : ℕ → Bool
is_scalar n = ltb n 0x110000 && not (not (ltb n 0xd800) && ltb n 0xe000)

abbrev pub as_char : Option ℕ → Option ℕ
as_char none = none
as_char (some n) = if is_scalar n then some n else none

-- The text before the first `c`, and the text from it on.
unfoldable pub before_char : ℕ → Str → Str × Str
before_char c [] = ([], [])
before_char c (x ∷ s) =
    let rest = before_char c s in if x == c then ([], x ∷ s) else (x ∷ rest.0, rest.1)

abbrev pub starts_with : ℕ → Str → Bool
starts_with c [] = false
starts_with c (x ∷ s) = x == c

abbrev pub skip_one : Str → Str
skip_one [] = []
skip_one (x ∷ s) = s

-- The digits of `\u{…}`, without their separators.
abbrev pub decoded_unicode : Str → Option ℕ
decoded_unicode hex =
    if starts_with b'_' hex
    then none
    else as_char (from_str_radix_16 (filter_by (λ c. not (c == b'_')) hex))

abbrev pub unicode_output : Bool → Option ℕ → Str → Str
unicode_output true (some c) hex = c ∷ []
unicode_output true none hex = str "\\u{" ++ (hex ++ str "}")
unicode_output false decoded hex = str "\\u{" ++ hex

-- What `\u{` gives, and the text after it; the argument starts behind the brace.
unfoldable pub unicode_escape : Str → Str × Str
unicode_escape s =
    let parts = before_char b'}' s in
    let closed = starts_with b'}' parts.1 in
    (unicode_output closed (decoded_unicode parts.0) parts.0, skip_one parts.1)

abbrev pub is_ascii_hexdigit : ℕ → Bool
is_ascii_hexdigit c = elim (hex_digit_value c) [ none ↦ false | some _ ↦ true ]

-- At most `n` hexadecimal digits, and the rest.
unfoldable pub hex_prefix : ℕ → Str → Str × Str
hex_prefix zero s = ([], s)
hex_prefix (suc n) [] = ([], [])
hex_prefix (suc n) (c ∷ s) =
    let rest = hex_prefix n s in if is_ascii_hexdigit c then (c ∷ rest.0, rest.1) else ([], c ∷ s)

abbrev pub byte_output : Option ℕ → Str → Str
byte_output (some c) hex = c ∷ []
byte_output none hex = str "\\x" ++ hex

unfoldable pub byte_escape : Str → Str × Str
byte_escape s =
    let parts = hex_prefix 2 s in
    (byte_output (as_char (from_str_radix_16 parts.0)) parts.0, parts.1)

-- What the text after a backslash gives, and what is left of it.
unfoldable pub escape_step : Str → Str × Str
escape_step [] = (b'\\' ∷ [], [])
escape_step (c ∷ s) =
    if (c == b'"' || c == b'\\') || c == b'\''
    then (c ∷ [], s)
    else (if c == b'n'
        then (10 ∷ [], s)
        else (if c == b't'
            then (9 ∷ [], s)
            else (if c == b'r'
                then (13 ∷ [], s)
                else (if c == b'0'
                    then (0 ∷ [], s)
                    else (if c == b'u' && starts_with b'{' s
                        then unicode_escape (skip_one s)
                        else (if c == b'x' then byte_escape s else (b'\\' ∷ c ∷ [], s)))))))

abbrev pub next_char : ℕ → Str → Str × Str
next_char c s = if c == b'\\' then escape_step s else (c ∷ [], s)

-- Each round takes one character at least, so that the length of the text is fuel enough.
unfoldable pub unescape_from : ℕ → Str → Str
unescape_from zero s = []
unescape_from (suc n) [] = []
unescape_from (suc n) (c ∷ s) = let step = next_char c s in step.0 ++ unescape_from n step.1

unfoldable pub unescape : Str → Str
unescape s = unescape_from (length s) s

abbrev pub put_before : ℕ → Option (Str × Str) → Option (Str × Str)
put_before c none = none
put_before c (some (before, after)) = some (c ∷ before, after)

-- The text before the first quote that no backslash escapes, and the text after it. The code skips one byte
-- after a backslash; no later byte of a character is a quote or a backslash.
unfoldable pub find_unescaped_quote : Str → Option (Str × Str)
find_unescaped_quote [] = none
find_unescaped_quote (c ∷ []) = if c == b'"' then some ([], []) else none
find_unescaped_quote (c ∷ d ∷ s) =
    let skipped = find_unescaped_quote s in
    let next = find_unescaped_quote (d ∷ s) in
    if c == b'\\'
    then put_before c (put_before d skipped)
    else (if c == b'"' then some ([], d ∷ s) else put_before c next)

abbrev pub is_top : ℤ → Bool
is_top (pos n) = n == 0
is_top (negsuc n) = false

abbrev pub opens : ℕ → Bool
opens c = (c == b'(' || c == b'[') || c == b'{'

abbrev pub closes : ℕ → Bool
closes c = (c == b')' || c == b']') || c == b'}'

-- The parts before the one that is being read are complete: a character goes to the front of the first.
abbrev pub push_front : Str → List Str → List Str
push_front s [] = s ∷ []
push_front s (p ∷ parts) = (s ++ p) ∷ parts

-- The loop of `split_top_level`, with the depth of brackets, whether a string is open, and whether a
-- backslash before takes the next character with it.
unfoldable pub split_from : ℕ → ℤ → Bool → Bool → Str → List Str
split_from delim depth in_str escaped [] = [] ∷ []
split_from delim depth in_str true (c ∷ s) =
    push_front (c ∷ []) (split_from delim depth in_str false s)
split_from delim depth in_str false (c ∷ s) =
    let escaping = split_from delim depth in_str true s in
    let toggled = split_from delim depth (not in_str) false s in
    let deeper = split_from delim (depth +ℤ pos 1) in_str false s in
    let shallower = split_from delim (depth +ℤ negsuc 0) in_str false s in
    let same = split_from delim depth in_str false s in
    if c == b'\\' && in_str
    then push_front (c ∷ []) escaping
    else (if c == b'"'
        then push_front (c ∷ []) toggled
        else (if opens c && not in_str
            then push_front (c ∷ []) deeper
            else (if closes c && not in_str
                then push_front (c ∷ []) shallower
                else (if (c == delim && is_top depth) && not in_str
                    then [] ∷ same
                    else push_front (c ∷ []) same))))

unfoldable pub split_top_level : Str → ℕ → List Str
split_top_level s delim = split_from delim (pos 0) false false s
