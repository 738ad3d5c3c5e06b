-- ===== src/LogText/Parts.antt =====
-- What a top-level split is: `split_top_level` of dogwood-language/src/interpreter/log_parse.rs against a
-- grammar of texts whose brackets and quotes are closed.
use dogwood.Prelude.{
  ℕ, suc, ◌≡◌, ◌∙◌, refl, sym, ap, ap₂, subst, Bool, true, false, not, ◌&&◌, ◌||◌, List, [], ◌∷◌,
  ◌++◌, map, Str, ◌==◌, ==_iff, all, arith, join, &&_split, if◌then◌else◌,
}
use mathlib.Core.List.{append_assoc, append-nil}
use dogwood.Int.{ℤ, pos, negsuc, ◌+ℤ◌}
use dogwood.LogText.{push_front, split_from, split_top_level, opens, closes, is_top}

-- The inside of a quoted text, up to the quote that closes it.
pub data QuotedText : Type 0 where
  closing : QuotedText
  character : ℕ → QuotedText → QuotedText
  escaped : ℕ → QuotedText → QuotedText

pub data Text : Type 0 where
  done : Text
  plain : ℕ → Text → Text
  quoted : QuotedText → Text → Text
  -- An opening bracket, what is inside, a closing bracket, and what follows.
  group : ℕ → Text → ℕ → Text → Text

abbrev pub quoted_text : QuotedText → Str
quoted_text closing = b'"' ∷ []
quoted_text (character c q) = c ∷ quoted_text q
quoted_text (escaped c q) = b'\\' ∷ c ∷ quoted_text q

abbrev pub text_of : Text → Str
text_of done = []
text_of (plain c t) = c ∷ text_of t
text_of (quoted q t) = b'"' ∷ (quoted_text q ++ text_of t)
text_of (group a t b u) = a ∷ (text_of t ++ (b ∷ text_of u))

abbrev pub is_closed : QuotedText → Bool
is_closed closing = true
is_closed (character c q) = not (c == b'\\' || c == b'"') && is_closed q
is_closed (escaped c q) = is_closed q

abbrev pub is_special : ℕ → Bool
is_special c = c == b'"' || (opens c || closes c)

-- The delimiter is in no place but between brackets or quotes, if the text is on the top level; inside of
-- brackets it may be anywhere.
abbrev pub is_part : ℕ → Bool → Text → Bool
is_part delim top done = true
is_part delim top (plain c t) =
    not (is_special c) && (not (c == delim && top) && is_part delim top t)
is_part delim top (quoted q t) = is_closed q && is_part delim top t
is_part delim top (group a t b u) =
    opens a && (closes b && (is_part delim false t && is_part delim top u))

abbrev HasPart : List Str → Type 0
HasPart [] = ⊥
HasPart (p ∷ parts) = Unit

push_front-HasPart : (s : Str) (parts : List Str) → HasPart (push_front s parts)
push_front-HasPart s [] = tt
push_front-HasPart s (p ∷ parts) = tt

push_front-append :
    (a b : Str) (parts : List Str) → push_front a (push_front b parts) ≡ push_front (a ++ b) parts
push_front-append a b [] = refl
push_front-append a b (p ∷ parts) = ap (λ t. t ∷ parts) (sym (append_assoc a b p))

push_front-nil : (parts : List Str) → HasPart parts → push_front [] parts ≡ parts
push_front-nil [] h = absurd h
push_front-nil (p ∷ parts) h = refl

and_false : (b : Bool) → (b && false) ≡ false
and_false true = refl
and_false false = refl

module _ (delim : ℕ) where
  split_from-HasPart :
      (depth : ℤ) (in_str esc : Bool) (s : Str) → HasPart (split_from delim depth in_str esc s)
  unfolding split_from
  split_from-HasPart depth in_str esc [] = tt
  split_from-HasPart depth in_str true (c ∷ s) = push_front-HasPart (c ∷ []) _
  split_from-HasPart depth in_str false (c ∷ s) = choose (c == b'\\' && in_str) _ _ (push _) (
      choose (c == b'"') _ _ (push _) (
        choose (opens c && not in_str) _ _ (push _) (
          choose (closes c && not in_str) _ _ (push _)
            (choose ((c == delim && is_top depth) && not in_str) _ _ tt (push _)))))
    where
      push : (parts : List Str) → HasPart (push_front (c ∷ []) parts)
      push parts = push_front-HasPart (c ∷ []) parts

      choose : (b : Bool) (x y : List Str) → HasPart x → HasPart y → HasPart (if b then x else y)
      choose true x y p q = p
      choose false x y p q = q

  split_from-quoted_text :
      (q : QuotedText) (k : ℕ) (s : Str)
      → is_closed q ≡ true
      → split_from delim (pos k) true false (quoted_text q ++ s)
        ≡ push_front (quoted_text q) (split_from delim (pos k) false false s)
  unfolding split_from
  split_from-quoted_text closing k s h = refl
  split_from-quoted_text (character c q) k s h =
      let (p, r) = &&_split (not (c == b'\\' || c == b'"')) (is_closed q) h in
      let slash : (c == b'\\') ≡ false = ground arith in
      let not_quote : (c == b'"') ≡ false = ground arith in
      rw
        (
          slash,
          not_quote,
          and_false (opens c),
          and_false (closes c),
          and_false (c == delim && is_top (pos k)),
        )
        refl
      ∙ ap (push_front (c ∷ [])) (split_from-quoted_text q k s r)
      ∙ push_front-append (c ∷ []) (quoted_text q) _
  split_from-quoted_text (escaped c q) k s h =
      ap (λ parts. push_front (b'\\' ∷ []) (push_front (c ∷ []) parts))
        (split_from-quoted_text q k s h)
      ∙ ap (push_front (b'\\' ∷ [])) (push_front-append (c ∷ []) (quoted_text q) _)
      ∙ push_front-append (b'\\' ∷ []) (c ∷ quoted_text q) _

  deeper : (k : ℕ) → pos k +ℤ pos 1 ≡ pos (suc k)
  unfolding ◌+ℤ◌
  deeper k = ground arith

  shallower : (k : ℕ) → pos (suc k) +ℤ negsuc 0 ≡ pos k
  unfolding ◌+ℤ◌
  shallower k = ground arith

  enters :
      (a k : ℕ) (t s : Str)
      → opens a ≡ true
      → split_from delim (pos k) false false ((a ∷ t) ++ s)
        ≡ push_front (a ∷ []) (split_from delim (pos (suc k)) false false (t ++ s))
  unfolding split_from
  enters a k t s h =
      let not_quote : (a == b'"') ≡ false = ground arith in
      rw (and_false (a == b'\\'), not_quote, h, deeper k) refl

  leaves :
      (b k : ℕ) (s : Str)
      → closes b ≡ true
      → split_from delim (pos (suc k)) false false (b ∷ s)
        ≡ push_front (b ∷ []) (split_from delim (pos k) false false s)
  unfolding split_from
  leaves b k s h =
      let not_quote : (b == b'"') ≡ false = ground arith in
      let not_open : opens b ≡ false = ground arith in
      rw (and_false (b == b'\\'), not_quote, not_open, h, shallower k) refl

  split_from-text_of :
      (t : Text) (k : ℕ) (s : Str)
      → is_part delim (k == 0) t ≡ true
      → split_from delim (pos k) false false (text_of t ++ s)
        ≡ push_front (text_of t) (split_from delim (pos k) false false s)
  unfolding split_from
  split_from-text_of done k s h = sym (push_front-nil _ (split_from-HasPart (pos k) false false s))
  split_from-text_of (plain c t) k s h =
      let (p, r) = &&_split (not (is_special c)) _ h in
      let (d, u) = &&_split (not (c == delim && k == 0)) (is_part delim (k == 0) t) r in
      let not_quote : (c == b'"') ≡ false = ground arith in
      let not_open : opens c ≡ false = ground arith in
      let not_close : closes c ≡ false = ground arith in
      let cut : (c == delim && k == 0) ≡ false = ground arith in
      rw (and_false (c == b'\\'), not_quote, not_open, not_close, cut) refl
      ∙ ap (push_front (c ∷ [])) (split_from-text_of t k s u)
      ∙ push_front-append (c ∷ []) (text_of t) _
  split_from-text_of (quoted q t) k s h =
      let (p, r) = &&_split (is_closed q) (is_part delim (k == 0) t) h in
      ap (λ u. push_front (b'"' ∷ []) (split_from delim (pos k) true false u))
        (append_assoc (quoted_text q) (text_of t) s)
      ∙ ap (push_front (b'"' ∷ [])) (
          split_from-quoted_text q k (text_of t ++ s) p
          ∙ ap (push_front (quoted_text q)) (split_from-text_of t k s r)
          ∙ push_front-append (quoted_text q) (text_of t) _)
      ∙ push_front-append (b'"' ∷ []) (quoted_text q ++ text_of t) _
  split_from-text_of (group a t b u) k s h =
      let (p, r) = &&_split (opens a) _ h in
      let (q, v) = &&_split (closes b) _ r in
      let nested : (suc k == 0) ≡ false = ground arith in
      let (inner, after) = &&_split (is_part delim false t) (is_part delim (k == 0) u) v in
      enters a k (text_of t ++ (b ∷ text_of u)) s p
      ∙ ap (push_front (a ∷ [])) (
          ap (split_from delim (pos (suc k)) false false)
            (append_assoc (text_of t) (b ∷ text_of u) s)
          ∙ split_from-text_of t (suc k) (b ∷ (text_of u ++ s))
              (subst (λ top. is_part delim top t ≡ true) (sym nested) inner)
          ∙ ap (push_front (text_of t)) (
              leaves b k (text_of u ++ s) q
              ∙ ap (push_front (b ∷ [])) (split_from-text_of u k s after)
              ∙ push_front-append (b ∷ []) (text_of u) _)
          ∙ push_front-append (text_of t) (b ∷ text_of u) _)
      ∙ push_front-append (a ∷ []) (text_of t ++ (b ∷ text_of u)) _

  -- The delimiter on the top level ends a part.
  cuts :
      (s : Str)
      → is_special delim ≡ false
      → split_from delim (pos 0) false false (delim ∷ s)
        ≡ [] ∷ split_from delim (pos 0) false false s
  unfolding split_from
  cuts s h =
      let not_quote : (delim == b'"') ≡ false = ground arith in
      let not_open : opens delim ≡ false = ground arith in
      let not_close : closes delim ≡ false = ground arith in
      let same : (delim == delim) ≡ true = (==_iff delim delim).1 refl in
      rw (and_false (delim == b'\\'), not_quote, not_open, not_close, same) refl

  -- The split of texts that are joined by the delimiter gives the texts back, where each has its brackets and
  -- quotes closed and the delimiter only inside of them: brackets of any kind and nesting, quotes with escapes,
  -- and a delimiter that is neither a bracket nor a quote.
  pub split_top_level-join :
      (t : Text) (ts : List Text)
      → is_special delim ≡ false
      → all (is_part delim true) (t ∷ ts) ≡ true
      → split_top_level (join (delim ∷ []) (map text_of (t ∷ ts))) delim ≡ map text_of (t ∷ ts)
  unfolding split_top_level join
  split_top_level-join t [] d h =
      ap (split_from delim (pos 0) false false) (sym (append-nil (text_of t)))
      ∙ split_from-text_of t 0 [] (&&_split (is_part delim true t) true h).0
      ∙ unfold split_from in ap (λ p. p ∷ []) (append-nil (text_of t))
  split_top_level-join t (u ∷ ts) d h =
      let (p, q) = &&_split (is_part delim true t) _ h in
      split_from-text_of t 0 _ p
      ∙ ap (push_front (text_of t)) (cuts _ d)
      ∙ ap₂ ◌∷◌ (append-nil (text_of t)) (split_top_level-join u ts d q)
