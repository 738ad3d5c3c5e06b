-- ===== src/LogText/Quoted.antt =====
-- Where a quoted text ends, and what a split keeps: `find_unescaped_quote`, `split_top_level` of
-- dogwood-language/src/interpreter/log_parse.rs.
use dogwood.Prelude.{
  ℕ, ◌≡◌, ◌∙◌, refl, sym, ap, subst, Bool, true, false, ◌&&◌, ◌||◌, Option, some, [], ◌∷◌, ◌++◌,
  Str, str, ◌==◌, all, arith, &&_split, if◌then◌else◌,
}
use mathlib.Core.List.{append_assoc, append-nil}
use dogwood.Unicode.{Unicode, hex_digits, escape_unicode, escape_char, escape_rest, escape_debug}
use dogwood.LogText.{find_unescaped_quote, put_before}
use dogwood.LogText.Hexadecimal.{is_printed, hex_digits-printed, hex_digits-append}

abbrev prepend : Str → Option (Str × Str) → Option (Str × Str)
prepend [] o = o
prepend (c ∷ s) o = put_before c (prepend s o)

prepend-append : (a b : Str) (o : Option (Str × Str)) → prepend (a ++ b) o ≡ prepend a (prepend b o)
prepend-append [] b o = refl
prepend-append (c ∷ a) b o = ap (put_before c) (prepend-append a b o)

prepend-some : (s b a : Str) → prepend s (some (b, a)) ≡ some (s ++ b, a)
prepend-some [] b a = refl
prepend-some (c ∷ s) b a = ap (put_before c) (prepend-some s b a)

-- The search goes over the text and no quote in it ends it.
abbrev Passes : Str → Type 0
Passes s = (t : Str) → find_unescaped_quote (s ++ t) ≡ prepend s (find_unescaped_quote t)

append-Passes : (a b : Str) → Passes a → Passes b → Passes (a ++ b)
append-Passes a b p q t =
    ap find_unescaped_quote (append_assoc a b t)
    ∙ p (b ++ t)
    ∙ ap (prepend a) (q t)
    ∙ sym (prepend-append a b (find_unescaped_quote t))

plain-Passes : (c : ℕ) → (c == b'\\') ≡ false → (c == b'"') ≡ false → Passes (c ∷ [])
unfolding find_unescaped_quote
plain-Passes c e f [] = rw f refl
plain-Passes c e f (d ∷ t) = rw (e, f) refl

escaped-Passes : (d : ℕ) → Passes (b'\\' ∷ d ∷ [])
unfolding find_unescaped_quote
escaped-Passes d t = refl

printed-Passes : (s : Str) → all is_printed s ≡ true → Passes s
printed-Passes [] h = λ t. refl
printed-Passes (c ∷ s) h =
    let (p, q) = &&_split (is_printed c) (all is_printed s) h in
    append-Passes (c ∷ []) s (plain-Passes c (ground arith) (ground arith)) (printed-Passes s q)

unicode-Passes : (c : ℕ) → Passes (escape_unicode c)
unfolding escape_unicode
unicode-Passes c =
    append-Passes (str "\\u") (b'{' ∷ hex_digits 8 c (str "}")) (escaped-Passes b'u') (
      append-Passes (str "{") (hex_digits 8 c (str "}")) (plain-Passes b'{' refl refl) (digits 8 c))
  where
    digits : (f n : ℕ) → Passes (hex_digits f n (str "}"))
    digits f n = subst Passes (sym (hex_digits-append f n [] (str "}"))) (
        append-Passes (hex_digits f n []) (str "}")
          (printed-Passes (hex_digits f n []) (hex_digits-printed f n [] refl))
          (plain-Passes b'}' refl refl))

module _ (u : Unicode) where
  finish :
      (g p : Bool) (c : ℕ)
      → (c == b'\\') ≡ false
      → (c == b'"') ≡ false
      → Passes (if g then escape_unicode c else (if p then c ∷ [] else escape_unicode c))
  finish true p c e f = unicode-Passes c
  finish false true c e f = plain-Passes c e f
  finish false false c e f = unicode-Passes c

  quotes :
      (b : Bool) (first : Bool) (c : ℕ)
      → ((c == b'"' || c == b'\'') || c == b'\\') ≡ b
      → Passes (
          if b
          then b'\\' ∷ c ∷ []
          else (if first && u.grapheme_extended c
              then escape_unicode c
              else (if u.printable c then c ∷ [] else escape_unicode c)))
  quotes true first c h = escaped-Passes c
  quotes false first c h =
      finish (first && u.grapheme_extended c) (u.printable c) c (ground arith) (ground arith)

  escape_char-Passes : (first : Bool) (c : ℕ) → Passes (escape_char u first c)
  unfolding escape_char
  escape_char-Passes first c = test (c == 0) _ _ (escaped-Passes b'0') (
      test (c == 9) _ _ (escaped-Passes b't') (
        test (c == 13) _ _ (escaped-Passes b'r')
          (test (c == 10) _ _ (escaped-Passes b'n') (quotes _ first c refl))))
    where
      test : (b : Bool) (s t : Str) → Passes s → Passes t → Passes (if b then s else t)
      test true s t p q = p
      test false s t p q = q

  escape_rest-Passes : (s : Str) → Passes (escape_rest u s)
  unfolding escape_rest
  escape_rest-Passes [] = λ t. refl
  escape_rest-Passes (c ∷ s) =
      append-Passes (escape_char u false c) (escape_rest u s) (escape_char-Passes false c)
        (escape_rest-Passes s)

  escape_debug-Passes : (s : Str) → Passes (escape_debug u s)
  unfolding escape_debug
  escape_debug-Passes [] = λ t. refl
  escape_debug-Passes (c ∷ s) =
      append-Passes (escape_char u true c) (escape_rest u s) (escape_char-Passes true c)
        (escape_rest-Passes s)

  closed : (r : Str) → find_unescaped_quote (b'"' ∷ r) ≡ some ([], r)
  unfolding find_unescaped_quote
  closed [] = refl
  closed (d ∷ r) = refl

  -- In a text that is escaped and then closed by a quote, the first unescaped quote is the closing one.
  pub find_unescaped_quote-escape_debug :
      (s r : Str) → find_unescaped_quote (escape_debug u s ++ b'"' ∷ r) ≡ some (escape_debug u s, r)
  find_unescaped_quote-escape_debug s r =
      escape_debug-Passes s (b'"' ∷ r)
      ∙ ap (prepend (escape_debug u s)) (closed r)
      ∙ prepend-some (escape_debug u s) [] r
      ∙ ap (λ b. some (b, r)) (append-nil (escape_debug u s))
