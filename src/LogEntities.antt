-- ===== src/LogEntities.antt =====
-- The entities of an event log, dogwood-language/src/interpreter/log_parse.rs: `top_level_char`,
-- `matching_brace`, `parse_entities`, `parse_entity_parents`.
use dogwood.Prelude.{
  ℕ, Bool, true, false, not, ◌&&◌, Option, none, some, List, [], ◌∷◌, ◌++◌, String, Str, str, ◌==◌,
  if◌then◌else◌,
}
use dogwood.Prelude.Results.{Result, ok, err, ◌>>=◌, ok_or}
use dogwood.Int.{ℤ, pos, negsuc, ◌+ℤ◌}
use dogwood.Map
use dogwood.Map.{Map}
use dogwood.Unicode.{Unicode, entity_uid_string}
use dogwood.Value.{Value, members}
use dogwood.Event.{EntityRecord}
use dogwood.LogText.{put_before, split_top_level, opens, closes, is_top}
use dogwood.LogValue.{trim, trim_start, trim_end, strip_last, enclosed, is_blank, parse_value}

unfoldable pub strip_prefix : Str → Str → Option Str
strip_prefix [] s = some s
strip_prefix (p ∷ ps) [] = none
strip_prefix (p ∷ ps) (c ∷ s) = let rest = strip_prefix ps s in if c == p then rest else none

-- The loop of `top_level_char`; the text from the character on is given with the character.
unfoldable pub top_level_char_from : ℕ → ℤ → Bool → Bool → Str → Option (Str × Str)
top_level_char_from target depth in_str escaped [] = none
top_level_char_from target depth in_str true (c ∷ s) =
    put_before c (top_level_char_from target depth in_str false s)
top_level_char_from target depth in_str false (c ∷ s) =
    let escaping = top_level_char_from target depth in_str true s in
    let toggled = top_level_char_from target depth (not in_str) false s in
    let deeper = top_level_char_from target (depth +ℤ pos 1) in_str false s in
    let shallower = top_level_char_from target (depth +ℤ negsuc 0) in_str false s in
    let same = top_level_char_from target depth in_str false s in
    if c == b'\\' && in_str
    then put_before c escaping
    else (if c == b'"'
        then put_before c toggled
        else (if (c == target && is_top depth) && not in_str
            then some ([], c ∷ s)
            else (if opens c && not in_str
                then put_before c deeper
                else (if closes c && not in_str
                    then put_before c shallower
                    else put_before c same))))

unfoldable pub top_level_char : Str → ℕ → Option (Str × Str)
top_level_char s target = top_level_char_from target (pos 0) false false s

-- The loop of `matching_brace`; the result is the text before and after the brace.
unfoldable pub matching_brace_from : ℤ → Bool → Bool → Str → Option (Str × Str)
matching_brace_from depth in_str escaped [] = none
matching_brace_from depth in_str true (c ∷ s) =
    put_before c (matching_brace_from depth in_str false s)
matching_brace_from depth in_str false (c ∷ s) =
    let escaping = matching_brace_from depth in_str true s in
    let toggled = matching_brace_from depth (not in_str) false s in
    let deeper = matching_brace_from (depth +ℤ pos 1) in_str false s in
    let shallower = matching_brace_from (depth +ℤ negsuc 0) in_str false s in
    let same = matching_brace_from depth in_str false s in
    if c == b'\\' && in_str
    then put_before c escaping
    else (if c == b'"'
        then put_before c toggled
        else (if c == b'{' && not in_str
            then put_before c deeper
            else (if c == b'}' && not in_str
                then (if is_top (depth +ℤ negsuc 0) then some ([], s) else put_before c shallower)
                else put_before c same)))

unfoldable pub matching_brace : Str → Option (Str × Str)
matching_brace s = matching_brace_from (pos 0) false false s

abbrev pub entry_error : Str → String → Str
entry_error entry problem = str "entities entry `" ++ (entry ++ str problem)

abbrev pub parent_error : Str → Str → Str
parent_error uid item =
    entry_error uid "` parent `" ++ (item ++ str "` is not an entity ref `Ns::Type::\"id\"`")

abbrev pub as_parent : Str → Str → Value → Result Value
as_parent uid item (Value.entity ty id) = ok (Value.entity ty id)
as_parent uid item _ = err (parent_error uid item)

unfoldable pub parse_parents : Str → List Str → Result (List Value)
parse_parents uid [] = ok []
parse_parents uid (item ∷ items) =
    let rest = parse_parents uid items in
    if is_blank (trim item)
    then rest
    else (parse_value (trim item) >>= λ v.
        as_parent uid (trim item) v >>= λ p. rest >>= λ ps. ok (p ∷ ps))

abbrev pub started : Option Str → Option Str
started none = none
started (some s) = some (trim_start s)

unfoldable pub parse_entity_parents : Str → Str → Result (List Value)
parse_entity_parents [] uid = ok []
parse_entity_parents (c ∷ s) uid =
    ok_or (started (strip_prefix (str "in") (c ∷ s))) (
      entry_error uid "` has trailing text after its record; expected `in [ ... ]`, found `"
      ++ ((c ∷ s) ++ str "`"))
    >>= λ list.
        ok_or (enclosed b'[' b']' list) (
          entry_error uid "` parents must be a bracketed list `in [ ... ]`, found `"
          ++ (list ++ str "`"))
        >>= λ inner. parse_parents uid (split_top_level inner b',')

abbrev pub as_attrs : Str → Value → Result (Map Value)
as_attrs uid (Value.object fs) = ok (members fs)
as_attrs uid _ = err (entry_error uid "` value is not a `{ ... }` record")

abbrev pub trimmed : Option Str → Option Str
trimmed none = none
trimmed (some s) = some (trim s)

module _ (u : Unicode) where
  -- The key is the canonical literal of the entity.
  abbrev pub as_key : Str → Value → Result Str
  as_key uid (Value.entity ty id) = ok (entity_uid_string u ty id)
  as_key uid _ = err (entry_error uid "` key is not an entity ref `Ns::Type::\"id\"`")

  abbrev pub add_record : Map EntityRecord → Str → Str → EntityRecord → Result (Map EntityRecord)
  add_record out uid key entity_record =
      if Map.contains_key out key
      then err (str "entities envelope has a duplicate uid `" ++ (uid ++ str "`"))
      else ok (Map.insert out key entity_record)

  -- One round of the loop of `parse_entities`, for an entry that is not blank.
  unfoldable pub parse_entry : Str → Map EntityRecord → Result (Map EntityRecord)
  parse_entry entry out =
      ok_or (top_level_char entry b'{')
        (entry_error entry "` missing an attribute record `{ ... }`")
      >>= λ found.
          ok_or (trimmed (strip_last b':' (trim_end found.0)))
            (entry_error entry "` missing `:` before `{`")
          >>= λ uid.
              ok_or (matching_brace found.1) (entry_error entry "` has an unterminated `{ ... }`")
              >>= λ closed. parse_value (trim (closed.0 ++ b'}' ∷ [])) >>= as_attrs uid >>= λ attrs.
                  parse_entity_parents (trim closed.1) uid >>= λ parents.
                  parse_value uid >>= as_key uid >>= λ key.
                  add_record out uid key (record { attrs = attrs; parents = parents })

  unfoldable pub parse_entries : List Str → Map EntityRecord → Result (Map EntityRecord)
  parse_entries [] out = ok out
  parse_entries (entry ∷ entries) out =
      if is_blank (trim entry)
      then parse_entries entries out
      else (parse_entry (trim entry) out >>= parse_entries entries)

  unfoldable pub parse_entities : Str → Result (Map EntityRecord)
  parse_entities src = parse_entries (split_top_level src b',') []
