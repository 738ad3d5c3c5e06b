-- ===== src/LogLine.antt =====
-- The lines of an event log, dogwood-language/src/interpreter/log_parse.rs: `parse_args`, `matching_paren`,
-- `parse_event_head`, `parse_line`, `parse_trace`.
use mathlib.Core.List.{reverse}
use dogwood.Prelude.{
  ℕ, ◌+◌, String, split, Bool, true, false, not, ◌&&◌, Option, none, some, List, [], ◌∷◌, ◌++◌, Str,
  str, ◌==◌, if◌then◌else◌,
}
use dogwood.Prelude.Results.{Result, ok, err, ◌>>=◌, ok_or, map_err}
use dogwood.Int.{ℤ, pos, negsuc, ◌+ℤ◌}
use dogwood.Map
use dogwood.Map.{Map}
use dogwood.Unicode.{Unicode}
use dogwood.Value.{Value}
use dogwood.Event.{EntityRecord, Scope, Event, Trace}
use dogwood.Decimals.{to_string}
use dogwood.LogText.{
  unescape, find_unescaped_quote, put_before, push_front, split_top_level, opens, closes, is_top,
}
use dogwood.LogValue.{
  is_whitespace, trim, is_blank, after_open, parse_signed_i64, parse_value, split_top_level_once,
}
use dogwood.LogEntities.{strip_prefix, parse_entities}

abbrev pub missing_argument_colon : Str → Str
missing_argument_colon part = str "argument `" ++ (part ++ str "` missing `:`")

abbrev pub duplicate_field : Str → Str
duplicate_field key = str "duplicate field `" ++ (key ++ str "`")

abbrev pub add_argument : Map Value → Str → Option (Str × Str) → Result (Map Value)
add_argument fields part none = err (missing_argument_colon part)
add_argument fields part (some (key, val)) = parse_value (trim val) >>= λ v.
    if Map.contains_key fields (trim key)
    then err (duplicate_field (trim key))
    else ok (Map.insert fields (trim key) v)

-- The loop of `parse_args`, with the fields so far.
unfoldable pub parse_args_from : List Str → Map Value → Result (Map Value)
parse_args_from [] fields = ok fields
parse_args_from (part ∷ parts) fields =
    if is_blank (trim part)
    then parse_args_from parts fields
    else (add_argument fields (trim part) (split_top_level_once (trim part) b':')
        >>= parse_args_from parts)

unfoldable pub parse_args : Str → Result (Map Value)
parse_args src = parse_args_from (split_top_level src b',') []

-- The loop of `matching_paren`, with the depth, whether a string is open, and whether a backslash before takes
-- the next character with it. The result is the text before and after the parenthesis.
unfoldable pub matching_paren_from : ℤ → Bool → Bool → Str → Option (Str × Str)
matching_paren_from depth in_str escaped [] = none
matching_paren_from depth in_str true (c ∷ s) =
    put_before c (matching_paren_from depth in_str false s)
matching_paren_from depth in_str false (c ∷ s) =
    let escaping = matching_paren_from depth in_str true s in
    let toggled = matching_paren_from depth (not in_str) false s in
    let deeper = matching_paren_from (depth +ℤ pos 1) in_str false s in
    let shallower = matching_paren_from (depth +ℤ negsuc 0) in_str false s in
    let same = matching_paren_from depth in_str false s in
    if c == b'\\' && in_str
    then put_before c escaping
    else (if c == b'"'
        then put_before c toggled
        else (if opens c && not in_str
            then put_before c deeper
            else (if closes c && not in_str
                then (if is_top depth && c == b')' then some ([], s) else put_before c shallower)
                else put_before c same)))

unfoldable pub matching_paren : Str → Option (Str × Str)
matching_paren s = matching_paren_from (pos 0) false false s

-- `split_once(char::is_whitespace)`
unfoldable pub split_once_whitespace : Str → Option (Str × Str)
split_once_whitespace [] = none
split_once_whitespace (c ∷ s) =
    let rest = split_once_whitespace s in
    if is_whitespace c then some ([], s) else put_before c rest

-- The text before and after the first `c`.
unfoldable pub find_char : ℕ → Str → Option (Str × Str)
find_char c [] = none
find_char c (x ∷ s) = let rest = find_char c s in if x == c then some ([], s) else put_before x rest

abbrev pub turned : Option (Str × Str) → Option (Str × Str)
turned none = none
turned (some (before, after)) = some (reverse after, reverse before)

-- The text before and after the last `c`.
unfoldable pub rfind_char : ℕ → Str → Option (Str × Str)
rfind_char c s = turned (find_char c (reverse s))

-- `head.find("::\"")`
unfoldable pub find_open : Str → Option (Str × Str)
find_open [] = none
find_open (c ∷ s) =
    let next = find_open s in
    elim (after_open (c ∷ s)) [ none ↦ put_before c next | some t ↦ some ([], t) ]

-- `split("::")`
unfoldable pub split_path : Str → List Str
split_path [] = [] ∷ []
split_path (a ∷ []) = (a ∷ []) ∷ []
split_path (a ∷ b ∷ s) =
    let cut = split_path s in
    let same = split_path (b ∷ s) in
    if a == b':' && b == b':' then [] ∷ cut else push_front (a ∷ []) same

abbrev pub head_error : Str → String → Str
head_error head problem = str "event head `" ++ (head ++ str problem)

abbrev pub non_empty : Str → Option Str
non_empty [] = none
non_empty (c ∷ s) = some (c ∷ s)

-- `strip_prefix("::")`, trimmed, where something is left.
abbrev pub kind_of : Option Str → Option Str
kind_of none = none
kind_of (some k) = non_empty (trim k)

unfoldable pub parse_event_head : Str → Result (List Str × (Str × Str))
parse_event_head head =
    ok_or (find_open head) (head_error head "` is missing a quoted action id") >>= λ opened.
    ok_or (find_unescaped_quote opened.1) (head_error head "` has an unterminated action id")
    >>= λ closed.
        ok_or (kind_of (strip_prefix (str "::") (trim closed.1)))
          (head_error head "` is missing a `::kind` segment")
        >>= λ kind. ok (split_path opened.0, (unescape closed.0, kind))

-- The reading of one optional envelope: what is before the closing parenthesis, and the rest of the line.
abbrev pub cut : Option (Str × Str) → String → Result (Str × Str)
cut none problem = err (str problem)
cut (some (inside, after)) problem = ok (inside, trim after)

-- `scope(…)`, whose end is the first closing parenthesis.
abbrev pub scope_envelope : Option Str → Str → Result (Scope × Str)
scope_envelope none after = ok (record { principal = none; resource = none }, after)
scope_envelope (some rest) after = cut (find_char b')' rest) "scope missing `)`" >>= λ parts.
    parse_args parts.0 >>= λ fields. ok (
      record {
        principal = Map.get fields (str "principal");
        resource = Map.get fields (str "resource");
      },
      parts.1,
    )

abbrev pub entities_envelope : Unicode → Option Str → Str → Result (Map EntityRecord × Str)
entities_envelope u none after = ok ([], after)
entities_envelope u (some rest) after =
    cut (matching_paren rest) "entities missing `)`" >>= λ parts.
    parse_entities u parts.0 >>= λ entities. ok (entities, parts.1)

abbrev pub request_context_envelope : Option Str → Str → Result (Map Value × Str)
request_context_envelope none after = ok ([], after)
request_context_envelope (some rest) after =
    cut (matching_paren rest) "request_context missing `)`" >>= λ parts.
    parse_args parts.0 >>= λ fields. ok (fields, parts.1)

-- The arguments between the first opening and the last closing parenthesis; the last two arguments are the
-- text behind the first opening one and the whole text.
abbrev pub group_source : Option (Str × Str) → Option (Str × Str) → Result Str
group_source (some (args, _)) whole = ok args
group_source none (some _) = err (str "event group `(` and `)` are out of order")
group_source none none = err (str "event missing `)`")

abbrev pub timestamp : Str → Result ℤ
timestamp text = ok_or (parse_signed_i64 (trim text)) (str "bad timestamp `" ++ (text ++ str "`"))

unfoldable pub parse_group : ℤ → Scope → Map EntityRecord → Map Value → Str → Result Event
parse_group ts scope entities request_context after =
    ok_or (find_char b'(' after) (str "event missing `(`") >>= λ opened.
    group_source (rfind_char b')' opened.1) (rfind_char b')' after) >>= λ args.
    parse_event_head (trim opened.0) >>= λ head. parse_args args >>= λ logged. ok (record {
      ts = ts;
      scope = scope;
      event = record {
        namespace = head.0;
        action = head.1.0;
        kind = head.1.1;
        logged = logged;
        request_context = request_context;
        entities = entities;
      };
    })

unfoldable pub parse_line : Unicode → Str → Result Event
parse_line u line =
    ok_or (strip_prefix (str "@") line) (str "timepoint must start with `@`") >>= λ rest.
    ok_or (split_once_whitespace rest) (str "expected whitespace after timestamp") >>= λ parts.
    timestamp parts.0 >>= λ ts.
    scope_envelope (strip_prefix (str "scope(") (trim parts.1)) (trim parts.1) >>= λ scope.
    entities_envelope u (strip_prefix (str "entities(") scope.1) scope.1 >>= λ entities.
    request_context_envelope (strip_prefix (str "request_context(") entities.1) entities.1
    >>= λ context. parse_group ts scope.0 entities.0 context.0 context.1

-- The loop over the lines, with the number of the next one; the code's `lines` also takes the carriage return
-- of a line end off, which the trimming does here.
unfoldable pub parse_lines : Unicode → ℕ → List Str → Result (List Event)
parse_lines u lineno [] = ok []
parse_lines u lineno (raw ∷ lines) =
    let rest = parse_lines u (lineno + 1) lines in
    if is_blank (trim raw)
    then rest
    else (map_err (str "line " ++ (to_string lineno ++ str ": ")) (parse_line u (trim raw))
        >>= λ tp. rest >>= λ points. ok (tp ∷ points))

abbrev pub without_mark : Option Str → Str → Str
without_mark none log = log
without_mark (some rest) log = rest

-- The byte order mark is taken off.
unfoldable pub parse_trace : Unicode → Str → Result Trace
parse_trace u log =
    parse_lines u 1 (split 10 (without_mark (strip_prefix (0xfeff ∷ []) log) log)) >>= λ points.
    ok (record { points = points })
