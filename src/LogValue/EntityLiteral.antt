-- ===== src/LogValue/EntityLiteral.antt =====
-- `parse_value` of dogwood-language/src/interpreter/log_parse.rs on the entity literals that
-- `entity_uid_string` of dogwood-language/src/interpreter/value.rs writes.
use dogwood.Prelude.{
  ℕ, suc, ◌≡◌, ◌∙◌, refl, sym, ap, Bool, true, false, not, ◌&&◌, ◌||◌, Option, none, some, [], ◌∷◌,
  ◌++◌, Str, str, str_eq, str_eq_iff, ◌==◌, all, arith, Bool-cases, &&_split, inl, inr,
  if◌then◌else◌,
}
use mathlib.Core.List.{append_assoc}
use dogwood.Prelude.Results.{Result, ok}
use dogwood.Value.{Value}
use dogwood.Unicode.{Unicode, escape_debug, entity_uid_string}
use dogwood.LogText.{unescape, find_unescaped_quote, put_before}
use dogwood.LogText.RoundTrip.{AreScalars, unescape-escape_debug}
use dogwood.LogText.Quoted.{find_unescaped_quote-escape_debug}
use dogwood.LogValue.Ends.{strip_last-last, trim_end-last}
use dogwood.LogValue.{
  is_whitespace, trim_start, trim_end, trim, strip_last, enclosed, or_whole, unquote, after_open,
  entity_parts, contains_path, ends_with_quote, atom, words, parse_value_depth, parse_value,
}

strip_last-quote :
    (d : ℕ) (s : Str) → strip_last d (s ++ str "\"") ≡ (if b'"' == d then some s else none)
strip_last-quote d s = strip_last-last d b'"' s

trim_end-quote : (s : Str) → trim_end (s ++ str "\"") ≡ s ++ str "\""
unfolding is_whitespace
trim_end-quote s = trim_end-last b'"' s refl

-- The text starts with no white space.
abbrev pub StartsPlain : Str → Type 0
StartsPlain [] = ⊥
StartsPlain (c ∷ s) = is_whitespace c ≡ false

trim-quote : (s : Str) → StartsPlain (s ++ str "\"") → trim (s ++ str "\"") ≡ s ++ str "\""
unfolding trim trim_start
trim-quote s h = ap trim_end (untrimmed (s ++ str "\"") h) ∙ trim_end-quote s
  where
    untrimmed : (t : Str) → StartsPlain t → trim_start t ≡ t
    untrimmed [] h = absurd h
    untrimmed (c ∷ t) h = rw h refl

-- A text closed by a quote is no text that ends otherwise.
str_eq-quote : (s w : Str) → strip_last b'"' w ≡ none → str_eq (s ++ str "\"") w ≡ false
str_eq-quote s w h = elim (Bool-cases (str_eq (s ++ str "\"") w)) [
  | inr e ↦ e
  | inl e ↦
      let same : s ++ str "\"" ≡ w = (str_eq_iff (s ++ str "\"") w).0 e in
      let clash : some s ≡ none = sym (strip_last-quote b'"' s) ∙ ap (strip_last b'"') same ∙ h in
      absurd (ground arith)
]

enclosed-quote : (a d : ℕ) (s : Str) → (b'"' == d) ≡ false → enclosed a d (s ++ str "\"") ≡ none
unfolding enclosed strip_last
enclosed-quote a d [] h = elim (Bool-cases (b'"' == a)) [ inl e ↦ rw e refl | inr e ↦ rw e refl ]
enclosed-quote a d (c ∷ s) h = elim (Bool-cases (c == a)) [
  | inl e ↦ rw e (strip_last-quote d s ∙ ap (λ b. if b then some s else none) h)
  | inr e ↦ rw e refl
]

contains_path-append : (ty r : Str) → contains_path (ty ++ b':' ∷ b':' ∷ r) ≡ true
unfolding contains_path
contains_path-append [] r = refl
contains_path-append (a ∷ []) r = ground arith
contains_path-append (a ∷ b ∷ ty) r = or_true _ _ (contains_path-append (b ∷ ty) r)
  where
    or_true : (x y : Bool) → y ≡ true → (x || y) ≡ true
    or_true true y h = refl
    or_true false y h = h

-- No quote in the text.
abbrev pub IsUnquoted : Str → Type 0
IsUnquoted s = all (λ c. not (c == b'"')) s ≡ true

no_third : (x y : Bool) (s : Str) → y ≡ false → (if x && y then some s else none) ≡ none
no_third true y s h = rw h refl
no_third false y s h = refl

-- No `::"` starts before the first one that has no quote in front of it.
after_open-append :
    (a : ℕ) (ty t : Str) → IsUnquoted (a ∷ ty) → after_open (a ∷ (ty ++ (str "::\"" ++ t))) ≡ none
unfolding after_open
after_open-append a [] t h = no_third (a == b':' && true) false _ refl
after_open-append a (b ∷ []) t h = no_third (a == b':' && b == b':') false _ refl
after_open-append a (b ∷ c ∷ ty) t h =
    no_third (a == b':' && b == b':') (c == b'"') (ty ++ (str "::\"" ++ t)) (ground arith)

skip :
    (a : ℕ) (s : Str)
    → after_open (a ∷ s) ≡ none
    → entity_parts (a ∷ s) ≡ put_before a (entity_parts s)
unfolding entity_parts
skip a s h = rw (entity_parts, h) refl

-- The type of a literal is the text before its `::"`.
entity_parts-append :
    (ty t s : Str)
    → IsUnquoted ty
    → find_unescaped_quote t ≡ some (s, [])
    → entity_parts (ty ++ (str "::\"" ++ t)) ≡ some (ty, b'"' ∷ t)
entity_parts-append [] t s h e = unfold entity_parts after_open in rw e refl
entity_parts-append (a ∷ ty) t s h e =
    skip a (ty ++ (str "::\"" ++ t)) (after_open-append a ty t h)
    ∙ ap (put_before a) (
        entity_parts-append ty t s (&&_split (not (a == b'"')) (all (λ c. not (c == b'"')) ty) h).1
          e)

-- A text in quotes without white space in front is the text inside, decoded.
unquote-quoted : (s : Str) → unquote (b'"' ∷ (s ++ str "\"")) ≡ unescape s
unfolding unquote enclosed is_whitespace
unquote-quoted s =
    ap (λ t. unescape (or_whole (enclosed b'"' b'"' t) t)) (trim-quote (b'"' ∷ s) refl)
    ∙ ap (λ o. unescape (or_whole o (b'"' ∷ (s ++ str "\"")))) (strip_last-quote b'"' s)

module _ (u : Unicode) where
  -- The literal of an entity, as the text before its last quote.
  abbrev opened : Str → Str → Str
  opened ty id = ty ++ (str "::\"" ++ escape_debug u id)

  entity_uid_string-opened : (ty id : Str) → entity_uid_string u ty id ≡ opened ty id ++ str "\""
  unfolding entity_uid_string
  entity_uid_string-opened ty id =
      sym (append_assoc ty (str "::\"" ++ escape_debug u id) (str "\""))

  atom-opened :
      (ty id : Str)
      → IsUnquoted ty
      → AreScalars id
      → atom (opened ty id ++ str "\"") ≡ Value.entity ty id
  unfolding atom
  atom-opened ty id h sc =
      let whole : Str = opened ty id ++ str "\"" in
      let regrouped : whole ≡ ty ++ (str "::\"" ++ (escape_debug u id ++ str "\"")) =
        append_assoc ty (str "::\"" ++ escape_debug u id) (str "\"") in
      let path : contains_path whole ≡ true =
        ap contains_path regrouped ∙ contains_path-append ty _ in
      let closed : ends_with_quote whole ≡ true =
        ap is_given (strip_last-quote b'"' (opened ty id)) in
      let parts : entity_parts whole ≡ some (ty, b'"' ∷ (escape_debug u id ++ str "\"")) =
        ap entity_parts regrouped
        ∙ entity_parts-append ty (escape_debug u id ++ str "\"") (escape_debug u id) h
            (find_unescaped_quote-escape_debug u id []) in
      rw (path, closed, parts)
        (ap (Value.entity ty) (unquote-quoted (escape_debug u id) ∙ unescape-escape_debug u id sc))
    where
      is_given : Option Str → Bool
      is_given o = elim o [ none ↦ false | some _ ↦ true ]

  words-quote :
      (parse : Str → Result Value) (s : Str)
      → words parse (s ++ str "\"") ≡ ok (atom (s ++ str "\""))
  words-quote parse s =
      rw
        (
          str_eq-quote s (str "null") (unfold strip_last in refl),
          str_eq-quote s (str "true") (unfold strip_last in refl),
          str_eq-quote s (str "false") (unfold strip_last in refl),
          enclosed-quote b'[' b']' s refl,
          enclosed-quote b'{' b'}' s refl,
        )
        refl

  parse_value_depth-quote :
      (levels : ℕ) (s : Str)
      → StartsPlain (s ++ str "\"")
      → parse_value_depth (suc levels) (s ++ str "\"") ≡ ok (atom (s ++ str "\""))
  unfolding parse_value_depth
  parse_value_depth-quote levels s h =
      ap (words (parse_value_depth levels)) (trim-quote s h)
      ∙ words-quote (parse_value_depth levels) s

  opened-StartsPlain : (ty id : Str) → StartsPlain ty → StartsPlain (opened ty id ++ str "\"")
  opened-StartsPlain [] id h = absurd h
  opened-StartsPlain (c ∷ ty) id h = h

  -- A logged value that is the literal of an entity is read as that entity, whatever the Unicode tables of
  -- the escaping say: for a type name that starts with no white space and has no quote in it, and an id of
  -- scalar values.
  pub parse_value-entity_uid_string :
      (ty id : Str)
      → StartsPlain ty
      → IsUnquoted ty
      → AreScalars id
      → parse_value (entity_uid_string u ty id) ≡ ok (Value.entity ty id)
  unfolding parse_value
  parse_value-entity_uid_string ty id p h sc =
      ap (parse_value_depth 129) (entity_uid_string-opened ty id)
      ∙ parse_value_depth-quote 128 (opened ty id) (opened-StartsPlain ty id p)
      ∙ ap ok (atom-opened ty id h sc)
