-- ===== src/Examples/Lines.antt =====
-- The lines of the event log, run.
use dogwood.Prelude.{◌≡◌, refl, true, none, some, [], ◌∷◌, str}
use dogwood.Prelude.Results.{ok, err}
use dogwood.Int.{pos}
use dogwood.Value
use dogwood.Value.{Value}
use dogwood.LogLine.{parse_line, parse_trace}
use dogwood.Examples.{ascii}

-- A line with every envelope.
line_run :
    parse_line ascii (
      str
        "@5 scope(principal: U::\"a\") entities(U::\"a\": {n: 1} in [G::\"g\"]) request_context(input: {x: true}) N::\"go\"::request(k: \"v)\")")
    ≡ ok (record {
      ts = pos 5;
      scope = record { principal = some (Value.entity (str "U") (str "a")); resource = none };
      event = record {
        namespace = str "N" ∷ [];
        action = str "go";
        kind = str "request";
        logged = (str "k", Value.string (str "v)")) ∷ [];
        request_context =
            (str "input", Value.object (Value.field (str "x") (Value.bool true) Value.end)) ∷ [];
        entities =
            (
              str "U::\"a\"",
              record {
                attrs = (str "n", Value.int (pos 1)) ∷ [];
                parents = Value.entity (str "G") (str "g") ∷ [];
              },
            )
            ∷ [];
      };
    })
unfolding dogwood.LogEntities.strip_prefix dogwood.LogValue.trim dogwood.LogValue.trim_end
    dogwood.LogValue.trim_start dogwood.LogValue.is_whitespace parse_line
    dogwood.LogLine.split_once_whitespace dogwood.LogValue.parse_signed_i64 dogwood.Int.checked
    dogwood.Decimal.digits_value dogwood.LogLine.parse_group dogwood.LogLine.find_char
    dogwood.LogLine.rfind_char dogwood.Int.◌+ℤ◌ dogwood.LogEntities.matching_brace
    dogwood.LogEntities.matching_brace_from dogwood.LogEntities.parse_entities
    dogwood.LogEntities.parse_entity_parents dogwood.LogEntities.parse_entries
    dogwood.LogEntities.parse_entry dogwood.LogEntities.parse_parents
    dogwood.LogEntities.top_level_char dogwood.LogEntities.top_level_char_from
    dogwood.LogLine.find_open dogwood.LogLine.matching_paren dogwood.LogLine.matching_paren_from
    dogwood.LogLine.parse_args dogwood.LogLine.parse_args_from dogwood.LogLine.parse_event_head
    dogwood.LogLine.split_path dogwood.LogText.find_unescaped_quote dogwood.LogText.split_from
    dogwood.LogText.split_top_level dogwood.LogText.unescape dogwood.LogText.unescape_from
    dogwood.LogValue.after_open dogwood.LogValue.atom dogwood.LogValue.contains_path
    dogwood.LogValue.digit_run dogwood.LogValue.enclosed dogwood.LogValue.entity_parts
    dogwood.LogValue.is_dotted_float dogwood.LogValue.parse_fields dogwood.LogValue.parse_items
    dogwood.LogValue.parse_value dogwood.LogValue.parse_value_depth dogwood.LogValue.split_once_from
    dogwood.LogValue.split_top_level_once dogwood.LogValue.strip_last dogwood.LogValue.unquote
    dogwood.Map.get dogwood.Map.insert dogwood.Prelude.str_eq dogwood.Prelude.str_lt
    dogwood.Unicode.entity_uid_string dogwood.Unicode.escape_char dogwood.Unicode.escape_debug
    dogwood.Unicode.escape_rest dogwood.Unicode.escape_unicode dogwood.Unicode.hex_digits
    dogwood.Value.members dogwood.Value.of_members
line_run = refl

-- A blank line is skipped and counted.
trace_error_run :
    parse_trace ascii (str "\n@0 )(\n")
    ≡ err (str "line 2: event group `(` and `)` are out of order")
unfolding parse_trace dogwood.LogLine.parse_lines dogwood.Prelude.split
    dogwood.LogEntities.strip_prefix dogwood.LogValue.trim dogwood.LogValue.trim_end
    dogwood.LogValue.trim_start dogwood.LogValue.is_whitespace parse_line
    dogwood.LogLine.split_once_whitespace dogwood.LogValue.parse_signed_i64 dogwood.Int.checked
    dogwood.Decimal.digits_value dogwood.LogLine.parse_group dogwood.LogLine.find_char
    dogwood.LogLine.rfind_char dogwood.Decimals.to_string dogwood.Decimals.dec_digits
trace_error_run = refl
