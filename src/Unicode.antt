-- ===== src/Unicode.antt =====
-- Cedar's canonical entity literals, dogwood-language/src/interpreter/value.rs: `entity_uid_string`.
-- `str::escape_debug` asks two tables of the Unicode standard; they are parameters.
use dogwood.Prelude.{
  ℕ, zero, suc, ◌+◌, ◌/◌, ◌%◌, Bool, true, false, ◌&&◌, ◌||◌, [], ◌∷◌, ◌++◌, Str, str, ltb, ◌==◌,
  if◌then◌else◌,
}

-- The tables that the standard library looks a character up in. Printable ASCII needs no escape.
pub record Unicode : Type 0 where
  pub grapheme_extended : ℕ → Bool
  pub printable : ℕ → Bool

abbrev pub hex_digit : ℕ → ℕ
hex_digit d = if ltb d 10 then d + b'0' else d + 87

-- The lower-case hexadecimal digits of a number below 16 ^ fuel, before `rest`.
unfoldable pub hex_digits : ℕ → ℕ → Str → Str
hex_digits zero n rest = rest
hex_digits (suc fuel) n rest =
    let further = hex_digits fuel (n / 16) (hex_digit (n % 16) ∷ rest) in
    if ltb n 16 then hex_digit n ∷ rest else further

-- `\u{…}`; a scalar value has at most eight hexadecimal digits.
unfoldable pub escape_unicode : ℕ → Str
escape_unicode c = str "\\u{" ++ hex_digits 8 c (str "}")

module _ (u : Unicode) where
  -- `char::escape_debug_ext` with both quotes escaped.
  unfoldable pub escape_char : Bool → ℕ → Str
  escape_char first c =
      if c == 0
      then str "\\0"
      else (if c == 9
          then str "\\t"
          else (if c == 13
              then str "\\r"
              else (if c == 10
                  then str "\\n"
                  else (if (c == b'"' || c == b'\'') || c == b'\\'
                      then b'\\' ∷ c ∷ []
                      else (if first && u.grapheme_extended c
                          then escape_unicode c
                          else (if u.printable c then c ∷ [] else escape_unicode c))))))

  unfoldable pub escape_rest : Str → Str
  escape_rest [] = []
  escape_rest (c ∷ s) = escape_char false c ++ escape_rest s

  -- `str::escape_debug`: the first character escapes extended graphemes too.
  unfoldable pub escape_debug : Str → Str
  escape_debug [] = []
  escape_debug (c ∷ s) = escape_char true c ++ escape_rest s

  unfoldable pub entity_uid_string : Str → Str → Str
  entity_uid_string ty id = ty ++ (str "::\"" ++ (escape_debug id ++ str "\""))
