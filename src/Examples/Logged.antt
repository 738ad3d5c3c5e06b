-- ===== src/Examples/Logged.antt =====
-- The text level of the event log, run and applied.
use dogwood.Int
use dogwood.LogText
use dogwood.Prelude.{◌≡◌, refl, some, [], ◌∷◌, ◌++◌, Str, str, str_eq, str_lt, join, All}
use dogwood.Unicode.{escape_debug, entity_uid_string}
use dogwood.Int.{pos, negsuc}
use dogwood.Prelude.Results.{ok}
use dogwood.Map
use dogwood.Decimal
use dogwood.Value
use dogwood.Value.{Value}
use dogwood.LogText.{unescape, find_unescaped_quote, split_top_level}
use dogwood.LogText.RoundTrip.{unescape-escape_debug}
use dogwood.LogText.Quoted.{find_unescaped_quote-escape_debug}
use dogwood.LogText.Parts.{
  Text, done, plain, quoted, group, closing, character, escaped, split_top_level-join,
}
use dogwood.LogValue
use dogwood.LogValue.{parse_value}
use dogwood.LogValue.Nesting.{IsReadAt, parse_value_depth-items}
use dogwood.LogValue.EntityLiteral.{parse_value-entity_uid_string}
use dogwood.Examples.{ascii}

-- A quote, a backslash and a line feed.
abbrev marked : Str
marked = str "a\"b\\c\n"

-- An escape with a separator, and one that is malformed.
separated_run : unescape (str "\\u{6_1}") ≡ str "a"
unfolding unescape LogText.unescape_from LogText.escape_step LogText.unicode_escape
    LogText.before_char LogText.from_str_radix_16 LogText.hex_value LogText.hex_digit_value
    LogText.is_scalar
separated_run = refl

malformed_run : unescape (str "\\u{_61}\\q") ≡ str "\\u{_61}\\q"
unfolding unescape LogText.unescape_from LogText.escape_step LogText.unicode_escape
    LogText.before_char
malformed_run = refl

split_run : split_top_level (str "a(1,2),\"x,y\"") b',' ≡ str "a(1,2)" ∷ str "\"x,y\"" ∷ []
unfolding split_top_level LogText.split_from Int.◌+ℤ◌
split_run = refl

unescape-escape_debug_example : unescape (escape_debug ascii marked) ≡ marked
unfolding LogText.is_scalar
unescape-escape_debug_example = unescape-escape_debug ascii marked refl

find_unescaped_quote-escape_debug_example :
    find_unescaped_quote (escape_debug ascii marked ++ b'"' ∷ str ", x")
    ≡ some (escape_debug ascii marked, str ", x")
find_unescaped_quote-escape_debug_example =
    find_unescaped_quote-escape_debug ascii marked (str ", x")

record_run :
    parse_value (str "{id: User::\"a\", n: [-1, 2.50]}")
    ≡ ok (
        Value.object (
          Value.of_members (
            (str "id", Value.entity (str "User") (str "a"))
            ∷ (
              str "n",
              Value.array (
                  Value.cons
                    (Value.int (negsuc 0))
                    (Value.cons (Value.decimal (str "2.50")) Value.nil)),
            )
            ∷ [])))
unfolding parse_value LogValue.parse_value_depth LogValue.trim LogValue.trim_start LogValue.trim_end
    LogValue.is_whitespace LogValue.strip_last LogValue.enclosed LogValue.unquote
    LogValue.split_top_level_once LogValue.split_once_from LogValue.entity_parts LogValue.after_open
    LogValue.parse_signed_i64 LogValue.digit_run LogValue.is_dotted_float LogValue.contains_path
    LogValue.atom LogValue.parse_items LogValue.parse_fields split_top_level LogText.split_from
    unescape LogText.unescape_from find_unescaped_quote Int.◌+ℤ◌ Int.checked str_eq Map.get
    Map.insert str_lt Decimal.digits_value
record_run = refl

parse_value-entity_uid_string_example :
    parse_value (entity_uid_string ascii (str "App::User") marked)
    ≡ ok (Value.entity (str "App::User") marked)
unfolding LogText.is_scalar LogValue.is_whitespace
parse_value-entity_uid_string_example =
    parse_value-entity_uid_string ascii (str "App::User") marked refl refl refl

-- f(a,b) and "x,\""
abbrev applied : Text
applied = plain b'f' (group b'(' (plain b'a' (plain b',' (plain b'b' done))) b')' done)

abbrev quoted_comma : Text
quoted_comma = quoted (character b'x' (character b',' (escaped b'"' closing))) done

split_top_level-join_example :
    split_top_level (str "f(a,b),\"x,\\\"\"") b',' ≡ str "f(a,b)" ∷ str "\"x,\\\"\"" ∷ []
unfolding join
split_top_level-join_example = split_top_level-join b',' applied (quoted_comma ∷ []) refl refl

-- "x,\"" and 0, with a blank around it.
abbrev spaced_zero : Text
spaced_zero = plain 32 (plain b'0' done)

array_items :
    All
      (IsReadAt 128)
      ((quoted_comma, Value.string (str "x,\"")) ∷ (spaced_zero, Value.int (pos 0)) ∷ [])
unfolding LogValue.parse_value_depth LogValue.trim LogValue.trim_start LogValue.trim_end
    LogValue.is_whitespace LogValue.strip_last LogValue.enclosed LogValue.unquote
    LogValue.split_top_level_once LogValue.split_once_from LogValue.entity_parts LogValue.after_open
    LogValue.parse_signed_i64 LogValue.digit_run LogValue.is_dotted_float LogValue.contains_path
    LogValue.atom LogValue.parse_items LogValue.parse_fields split_top_level LogText.split_from
    unescape LogText.unescape_from find_unescaped_quote Int.◌+ℤ◌ Int.checked str_eq Map.get
    Map.insert str_lt Decimal.digits_value LogText.escape_step
array_items = ((refl, refl, refl), ((refl, refl, refl), tt))

parse_value_depth-items_example :
    LogValue.parse_value_depth 129 (str "[\"x,\\\"\", 0]")
    ≡ ok (Value.array (Value.of_list (Value.string (str "x,\"") ∷ Value.int (pos 0) ∷ [])))
unfolding join
parse_value_depth-items_example =
    parse_value_depth-items 128 quoted_comma (Value.string (str "x,\""))
      ((spaced_zero, Value.int (pos 0)) ∷ []) array_items
