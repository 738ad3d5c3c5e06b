-- ===== src/LogText/RoundTrip.antt =====
-- `unescape` of dogwood-language/src/interpreter/log_parse.rs against the escaping of `entity_uid_string` of
-- dogwood-language/src/interpreter/value.rs.
use dogwood.Prelude.{
  ℕ, zero, suc, ◌≤◌, ◌≡◌, ◌∙◌, refl, sym, ap, subst, Bool, true, false, ◌&&◌, ◌||◌, [], ◌∷◌, ◌++◌,
  Str, ◌==◌, ==_iff, all, arith, length, length-append, Bool-cases, ◌⊎◌, inl, inr, &&_split,
  if◌then◌else◌,
}
use dogwood.Unicode.{Unicode, escape_unicode, escape_char, escape_rest, escape_debug}
use dogwood.LogText.{is_scalar, escape_step, unescape_from, unescape}
use dogwood.LogText.Hexadecimal.{unicode_escape-hex_digits}

-- The text is a sequence of scalar values.
abbrev pub AreScalars : Str → Type 0
AreScalars s = all is_scalar s ≡ true

module _ (u : Unicode) where
  -- One round takes the escape of a character off.
  abbrev TakesOff : ℕ → Str → Str → Type 0
  TakesOff c escaped r = (n : ℕ) → unescape_from (suc n) (escaped ++ r) ≡ c ∷ unescape_from n r

  unicode-TakesOff : (c : ℕ) (r : Str) → is_scalar c ≡ true → TakesOff c (escape_unicode c) r
  unfolding escape_unicode unescape_from escape_step
  unicode-TakesOff c r sc n = rw (unicode_escape-hex_digits c r sc) refl

  plain-TakesOff : (c : ℕ) (r : Str) → (c == b'\\') ≡ false → TakesOff c (c ∷ []) r
  unfolding unescape_from
  plain-TakesOff c r other n = rw other refl

  quoted-TakesOff :
      (c : ℕ) (r : Str)
      → ((c == b'"' || c == b'\'') || c == b'\\') ≡ true
      → TakesOff c (b'\\' ∷ c ∷ []) r
  unfolding unescape_from escape_step
  quoted-TakesOff c r e n =
      let same : ((c == b'"' || c == b'\\') || c == b'\'') ≡ true = ground arith in rw same refl

  finish :
      (g p : Bool) (c : ℕ) (r : Str)
      → is_scalar c ≡ true
      → (c == b'\\') ≡ false
      → TakesOff c (if g then escape_unicode c else (if p then c ∷ [] else escape_unicode c)) r
  finish true p c r sc other = unicode-TakesOff c r sc
  finish false true c r sc other = plain-TakesOff c r other
  finish false false c r sc other = unicode-TakesOff c r sc

  special :
      (k : ℕ) (first : Bool) (c : ℕ) (r : Str)
      → (c == k) ≡ true
      → TakesOff k (escape_char u first k) r
      → TakesOff c (escape_char u first c) r
  special k first c r e h =
      subst (λ j. TakesOff j (escape_char u first j) r) (sym ((==_iff c k).0 e)) h

  escape_char-TakesOff :
      (first : Bool) (c : ℕ) (r : Str) → is_scalar c ≡ true → TakesOff c (escape_char u first c) r
  unfolding escape_char unescape_from escape_step
  escape_char-TakesOff first c r sc = elim (Bool-cases (c == 0)) [
    | inl e ↦ special 0 first c r e (λ n. refl)
    | inr e0 ↦ elim (Bool-cases (c == 9)) [
      | inl e ↦ special 9 first c r e (λ n. refl)
      | inr e9 ↦ elim (Bool-cases (c == 13)) [
        | inl e ↦ special 13 first c r e (λ n. refl)
        | inr e13 ↦ elim (Bool-cases (c == 10)) [
          | inl e ↦ special 10 first c r e (λ n. refl)
          | inr e10 ↦
              rw (e0, e9, e13, e10) (quotes (Bool-cases ((c == b'"' || c == b'\'') || c == b'\\')))
        ]
      ]
    ]
  ]
    where
      quotes :
          (((c == b'"' || c == b'\'') || c == b'\\') ≡ true)
            ⊎ (((c == b'"' || c == b'\'') || c == b'\\') ≡ false)
          → TakesOff c
              (if (c == b'"' || c == b'\'') || c == b'\\'
                then b'\\' ∷ c ∷ []
                else (if first && u.grapheme_extended c
                    then escape_unicode c
                    else (if u.printable c then c ∷ [] else escape_unicode c)))
              r
      quotes (inl e) = rw e (quoted-TakesOff c r e)
      quotes (inr e) =
          rw e (finish (first && u.grapheme_extended c) (u.printable c) c r sc (ground arith))

  unescape_from-escape_rest :
      (s : Str) (n : ℕ) → AreScalars s → length s ≤ n → unescape_from n (escape_rest u s) ≡ s
  unfolding escape_rest
  unescape_from-escape_rest [] zero sc h = unfold unescape_from in refl
  unescape_from-escape_rest [] (suc n) sc h = unfold unescape_from in refl
  unescape_from-escape_rest (c ∷ s) zero sc h = absurd (omega arith)
  unescape_from-escape_rest (c ∷ s) (suc n) sc h =
      let (p, q) = &&_split (is_scalar c) (all is_scalar s) sc in
      escape_char-TakesOff false c (escape_rest u s) p n
      ∙ ap (λ t. c ∷ t) (unescape_from-escape_rest s n q (omega arith))

  -- An escape has a character at least.
  escape_char-length : (first : Bool) (c : ℕ) → 1 ≤ length (escape_char u first c)
  unfolding escape_char escape_unicode
  escape_char-length first c = ground arith

  escape_rest-length : (s : Str) → length s ≤ length (escape_rest u s)
  unfolding escape_rest
  escape_rest-length [] = omega arith
  escape_rest-length (c ∷ s) = omega (
    arith,
    length-append (escape_char u false c) (escape_rest u s),
    escape_char-length false c,
    escape_rest-length s,
  )

  long_enough :
      (n : ℕ) (c : ℕ) (s : Str)
      → suc (length s) ≤ n
      → AreScalars (c ∷ s)
      → unescape_from n (escape_char u true c ++ escape_rest u s) ≡ c ∷ s
  long_enough zero c s h sc = absurd (omega arith)
  long_enough (suc n) c s h sc =
      let (p, q) = &&_split (is_scalar c) (all is_scalar s) sc in
      escape_char-TakesOff true c (escape_rest u s) p n
      ∙ ap (λ t. c ∷ t) (unescape_from-escape_rest s n q (omega arith))

  -- Decoding the escaped form of a text gives the text back, whatever the Unicode tables say.
  pub unescape-escape_debug : (s : Str) → AreScalars s → unescape (escape_debug u s) ≡ s
  unfolding unescape escape_debug
  unescape-escape_debug [] sc = unfold unescape_from in refl
  unescape-escape_debug (c ∷ s) sc =
      long_enough (length (escape_char u true c ++ escape_rest u s)) c s
        (omega (
          arith,
          length-append (escape_char u true c) (escape_rest u s),
          escape_char-length true c,
          escape_rest-length s,
        ))
        sc
