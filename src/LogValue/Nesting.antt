-- ===== src/LogValue/Nesting.antt =====
-- Arrays in the values of an event log, and how deep they may be: `parse_value` of
-- dogwood-language/src/interpreter/log_parse.rs.
use dogwood.Prelude.{
  ℕ, zero, suc, ◌≡◌, ◌∙◌, refl, ap, true, false, some, str_eq, List, [], ◌∷◌, ◌++◌, map, Str, str,
  all, All, join, ltb, if◌then◌else◌,
}
use dogwood.Prelude.Results.{Result, ok, err, ◌>>=◌}
use dogwood.Int.{pos}
use dogwood.Value
use dogwood.Value.{Value, Items}
use dogwood.LogText.{split_top_level}
use dogwood.LogText.Parts.{Text, done, plain, group, text_of, is_part, split_top_level-join}
use dogwood.LogValue.{
  is_whitespace, is_blank, trim, trim_start, enclosed, parse_items, words, too_deep,
  parse_value_depth,
}
use dogwood.LogValue.Ends.{strip_last-last, trim_end-last}

-- A text in square brackets.
abbrev bracketed_text : Str → Str
bracketed_text s = b'[' ∷ (s ++ (b']' ∷ []))

trim-bracketed_text : (s : Str) → trim (bracketed_text s) ≡ bracketed_text s
unfolding trim trim_start is_whitespace
trim-bracketed_text s = trim_end-last b']' (b'[' ∷ s) refl

enclosed-bracketed_text : (s : Str) → enclosed b'[' b']' (bracketed_text s) ≡ some s
unfolding enclosed
enclosed-bracketed_text s = strip_last-last b']' b']' s

words-bracketed_text :
    (parse : Str → Result Value) (s : Str)
    → words parse (bracketed_text s)
      ≡ (parse_items parse (split_top_level s b',') >>= λ vs. ok (Value.array vs))
unfolding str_eq
words-bracketed_text parse s = rw (enclosed-bracketed_text s) refl

-- A bracketed list of texts, each with its brackets and quotes closed and its commas inside of them, is the
-- array of what the texts are at the next level: blank ones are left out, and the first error is the result.
parse_value_depth-array :
    (levels : ℕ) (t : Text) (ts : List Text)
    → all (is_part b',' true) (t ∷ ts) ≡ true
    → parse_value_depth (suc levels) (b'[' ∷ (join (str ",") (map text_of (t ∷ ts)) ++ str "]")) ≡ (
        parse_items (parse_value_depth levels) (map text_of (t ∷ ts)) >>= λ vs. ok (Value.array vs))
unfolding parse_value_depth
parse_value_depth-array levels t ts h =
    ap (words (parse_value_depth levels))
      (trim-bracketed_text (join (str ",") (map text_of (t ∷ ts))))
    ∙ words-bracketed_text (parse_value_depth levels) (join (str ",") (map text_of (t ∷ ts)))
    ∙ ap (λ parts. parse_items (parse_value_depth levels) parts >>= λ vs. ok (Value.array vs))
        (split_top_level-join b',' t ts refl h)

-- An item of an array: a text, and what it is read as at the given level.
abbrev pub Item : Type 0
Item = Text × Value

abbrev pub item_texts : List Item → List Text
item_texts items = map (λ (e : Item). e.0) items

abbrev pub item_values : List Item → List Value
item_values items = map (λ (e : Item). e.1) items

-- The brackets and quotes of the text are closed, its commas are inside of them, it is not blank, and it is
-- read as the value.
abbrev pub IsReadAt : ℕ → Item → Type 0
IsReadAt levels (t, v) =
    (is_part b',' true t ≡ true)
    × (is_blank (trim (text_of t)) ≡ false)
    × (parse_value_depth levels (trim (text_of t)) ≡ ok v)

all_parts :
    (levels : ℕ) (items : List Item)
    → All (IsReadAt levels) items
    → all (is_part b',' true) (item_texts items) ≡ true
all_parts levels [] h = refl
all_parts levels ((t, v) ∷ items) h = rw (h.0.0, all_parts levels items h.1) refl

parse_items-read :
    (levels : ℕ) (items : List Item)
    → All (IsReadAt levels) items
    → parse_items (parse_value_depth levels) (map text_of (item_texts items))
      ≡ ok (Value.of_list (item_values items))
unfolding parse_items Value.of_list
parse_items-read levels [] h = refl
parse_items-read levels ((t, v) ∷ items) h =
    rw (h.0.1, h.0.2, parse_items-read levels items h.1) refl

-- Texts between square brackets, joined by commas, are read as the array of what each is read as one level
-- below, in order, where each text is not blank and has its brackets and quotes closed and its commas inside.
pub parse_value_depth-items :
    (levels : ℕ) (t : Text) (v : Value) (items : List Item)
    → All (IsReadAt levels) ((t, v) ∷ items)
    → parse_value_depth
        (suc levels)
        (b'[' ∷ (join (str ",") (map text_of (t ∷ item_texts items)) ++ str "]"))
      ≡ ok (Value.array (Value.of_list (v ∷ item_values items)))
parse_value_depth-items levels t v items h =
    parse_value_depth-array levels t (item_texts items) (all_parts levels ((t, v) ∷ items) h)
    ∙ ap (λ r. r >>= λ vs. ok (Value.array vs)) (parse_items-read levels ((t, v) ∷ items) h)

-- The text of a number in the given number of brackets, and its value.
abbrev pub nested : ℕ → Text
nested zero = plain b'0' done
nested (suc n) = group b'[' (nested n) b']' done

abbrev pub arrays : ℕ → Value
arrays zero = Value.int (pos 0)
arrays (suc n) = Value.array (Value.cons (arrays n) Value.nil)

-- A level is left, or the limit is met.
abbrev pub within_limit : ℕ → ℕ → Result Value
within_limit levels n = if ltb n levels then ok (arrays n) else err too_deep
