-- ===== src/PartitionKey/Injective.antt =====
-- Values of equal partition keys: `partition_value_key` of dogwood-language/src/engine.rs.
use dogwood.Prelude.{
  ℕ, ◌<◌, ◌≡◌, ◌≢◌, ◌↔◌, ◌∙◌, refl, sym, ap, Bool, true, false, not, [], ◌∷◌, ◌++◌, Str, str, any,
  utf8_len, ◌==◌, arith,
}
use mathlib.Core.List.{append_assoc}
use dogwood.Decimal.{cedar_decimal_value}
use dogwood.Decimal.Laws
use dogwood.Decimals.{to_string, to_string-digits}
use dogwood.Value.{
  Value, null, bool, int, decimal, string, entity, array, object, Items, nil, cons, Fields, end,
  field, dom_eq,
}
use dogwood.Value.Denote.{meaning, meanings, entries, dom_eq-meaning}
use dogwood.PartitionKey.{
  int_to_string, canon_decimal_for_partition, framed, bool_text, partition_value_key, items_key,
  members_key,
}
use dogwood.PartitionKey.Agree.{partition_value_key-dom_eq}
use dogwood.PartitionKey.Digits.{digits_split, to_string_inj, int_to_string_inj}
use dogwood.PartitionKey.Canon.{canon_of_inj}

utf8_len-cons : (c : ℕ) (s : Str) → utf8_len s < utf8_len (c ∷ s)
unfolding utf8_len
utf8_len-cons c s = ground arith

-- Of two texts that go on from parts of one length, the parts agree.
same_size : (a b x y : Str) → utf8_len a ≡ utf8_len b → a ++ x ≡ b ++ y → (a ≡ b) × (x ≡ y)
unfolding utf8_len
same_size [] [] x y l e = (refl, e)
same_size [] (d ∷ b) x y l e = absurd (omega (arith, utf8_len-cons d b))
same_size (c ∷ a) [] x y l e = absurd (omega (arith, utf8_len-cons c a))
same_size (c ∷ a) (d ∷ b) x y l e =
    let h : c ≡ d = cc in
    let t : a ++ x ≡ b ++ y = cc in
    let l' : utf8_len (d ∷ a) ≡ utf8_len (d ∷ b) = rw h at l in
    let (p, q) = same_size a b x y (omega (arith, l')) t in (cc, q)

-- The length in bytes, a colon, and the text.
abbrev pub sized : Str → Str → Str
sized body rest = to_string (utf8_len body) ++ (b':' ∷ (body ++ rest))

sized_inj : (a b x y : Str) → sized a x ≡ sized b y → (a ≡ b) × (x ≡ y)
sized_inj a b x y e =
    let (p, q) =
      digits_split (to_string (utf8_len a)) (to_string (utf8_len b)) (b':' ∷ (a ++ x))
        (b':' ∷ (b ++ y)) (to_string-digits (utf8_len a)) (to_string-digits (utf8_len b)) refl refl
        e in
    same_size a b x y (to_string_inj (utf8_len a) (utf8_len b) p) (cc q)

pub framed-sized : (tag : ℕ) (body rest : Str) → framed tag body ++ rest ≡ tag ∷ sized body rest
unfolding framed
framed-sized tag body rest =
    ap (λ t. tag ∷ t) (append_assoc (to_string (utf8_len body)) (b':' ∷ body) rest)

framed_inj :
    (s t : ℕ) (a b x y : Str) → framed s a ++ x ≡ framed t b ++ y → (s ≡ t) × (a ≡ b) × (x ≡ y)
framed_inj s t a b x y e =
    let k : s ∷ sized a x ≡ t ∷ sized b y = sym (framed-sized s a x) ∙ e ∙ framed-sized t b y in
    let (p, q) = sized_inj a b x y (cc k) in (cc k, p, q)

-- The tag and the body of a key.
abbrev pub tag_of : Value → ℕ
tag_of null = b'n'
tag_of (bool b) = b'b'
tag_of (int i) = b'i'
tag_of (decimal s) = b'd'
tag_of (string s) = b's'
tag_of (entity ty id) = b'e'
tag_of (array items) = b'a'
tag_of (object fs) = b'o'

abbrev pub body_of : Value → Str
body_of null = []
body_of (bool b) = bool_text b
body_of (int i) = int_to_string i
body_of (decimal s) = canon_decimal_for_partition s
body_of (string s) = s
body_of (entity ty id) = ty ++ (str "::\"" ++ (id ++ str "\""))
body_of (array items) = items_key items
body_of (object fs) = members_key fs

pub key-framed : (v : Value) → partition_value_key v ≡ framed (tag_of v) (body_of v)
unfolding partition_value_key framed to_string dogwood.Decimals.dec_digits utf8_len
key-framed null = refl
key-framed (bool b) = refl
key-framed (int i) = refl
key-framed (decimal s) = refl
key-framed (string s) = refl
key-framed (entity ty id) = refl
key-framed (array items) = refl
key-framed (object fs) = refl

-- No entity type inside the value holds a quote.
abbrev pub unquoted : Str → Bool
unquoted s = not (any (λ c. c == b'"') s)

abbrev mutual
  pub IsUnquoted : Value → Type 0
  IsUnquoted (entity ty id) = unquoted ty ≡ true
  IsUnquoted (array items) = AreUnquoted items
  IsUnquoted (object fs) = FieldsUnquoted fs
  IsUnquoted _ = Unit

  pub AreUnquoted : Items → Type 0
  AreUnquoted nil = Unit
  AreUnquoted (cons v vs) = IsUnquoted v × AreUnquoted vs

  pub FieldsUnquoted : Fields → Type 0
  FieldsUnquoted end = Unit
  FieldsUnquoted (field k v fs) = IsUnquoted v × FieldsUnquoted fs

bool_text_inj : (a b : Bool) → bool_text a ≡ bool_text b → a ≡ b
bool_text_inj true true e = refl
bool_text_inj false false e = refl
bool_text_inj true false e = cc
bool_text_inj false true e = cc

snoc_inj : (a b : Str) (c : ℕ) → a ++ c ∷ [] ≡ b ++ c ∷ [] → a ≡ b
snoc_inj [] [] c e = refl
snoc_inj [] (d ∷ []) c e = cc
snoc_inj [] (d ∷ d' ∷ b) c e = cc
snoc_inj (x ∷ []) [] c e = cc
snoc_inj (x ∷ x' ∷ a) [] c e = cc
snoc_inj (x ∷ a) (y ∷ b) c e = let ih = snoc_inj a b c (cc e) in cc (ih, e)

abbrev colon : ℕ
colon = b':'

abbrev quote : ℕ
quote = b'"'

abbrev quoted_from : Str → Str
quoted_from x = colon ∷ colon ∷ quote ∷ x

no_type_ahead : (t x y : Str) → unquoted t ≡ true → quoted_from x ≡ t ++ quoted_from y → t ≡ []
no_type_ahead [] x y h e = refl
no_type_ahead (c ∷ []) x y h e = let q : quote ≡ colon = cc e in absurd (omega (arith, q))
no_type_ahead (c ∷ d ∷ []) x y h e = let q : quote ≡ colon = cc e in absurd (omega (arith, q))
no_type_ahead (c ∷ d ∷ f ∷ t) x y h e = let q : f ≡ quote = cc e in ground (arith, q)

entity_split :
    (s t x y : Str)
    → unquoted s ≡ true
    → unquoted t ≡ true
    → s ++ quoted_from x ≡ t ++ quoted_from y
    → (s ≡ t) × (x ≡ y)
entity_split [] t x y h k e =
    let p = no_type_ahead t x y k e in
    let q : quoted_from x ≡ quoted_from y = rw p at e in (sym p, cc q)
entity_split (c ∷ s) [] x y h k e = let p = no_type_ahead (c ∷ s) y x h (sym e) in cc p
entity_split (c ∷ s) (d ∷ t) x y h k e =
    let (p, q) = entity_split s t x y (ground arith) (ground arith) (cc e) in (cc (p, e), q)

pub key_split :
    (a b : Value) (x y : Str)
    → partition_value_key a ++ x ≡ partition_value_key b ++ y
    → (tag_of a ≡ tag_of b) × (body_of a ≡ body_of b) × (x ≡ y)
key_split a b x y e =
    framed_inj (tag_of a) (tag_of b) (body_of a) (body_of b) x y
      (ap (λ t. t ++ x) (sym (key-framed a)) ∙ e ∙ ap (λ t. t ++ y) (key-framed b))

key-nonempty : (v : Value) (r : Str) → partition_value_key v ++ r ≢ []
key-nonempty v r e =
    let q : tag_of v ∷ sized (body_of v) r ≡ [] =
      sym (framed-sized (tag_of v) (body_of v) r) ∙ ap (λ t. t ++ r) (sym (key-framed v)) ∙ e in
    cc q

cons_later : (d r : Str) (c : ℕ) → d ++ c ∷ r ≢ []
cons_later [] r c e = cc
cons_later (x ∷ d) r c e = cc

members_key-field :
    (k : Str) (v : Value) (fs : Fields)
    → members_key (field k v fs) ≡ sized k (partition_value_key v ++ members_key fs)
unfolding members_key
members_key-field k v fs =
    append_assoc (to_string (utf8_len k)) (colon ∷ (k ++ partition_value_key v)) (members_key fs)
    ∙ ap (λ t. to_string (utf8_len k) ++ colon ∷ t)
        (append_assoc k (partition_value_key v) (members_key fs))

mutual
  unfolding meaning canon_decimal_for_partition Laws.denote items_key

  pub body_inj :
      (a b : Value)
      → IsUnquoted a
      → IsUnquoted b
      → tag_of a ≡ tag_of b
      → body_of a ≡ body_of b
      → meaning a ≡ meaning b
  body_inj null null h k t e = refl
  body_inj (bool a) (bool b) h k t e = let q = bool_text_inj a b e in cc q
  body_inj (int a) (int b) h k t e = let q = int_to_string_inj a b e in cc q
  body_inj (decimal a) (decimal b) h k t e =
      let q = canon_of_inj (cedar_decimal_value a) (cedar_decimal_value b) a b e in cc q
  body_inj (string a) (string b) h k t e = cc
  body_inj (entity s a) (entity u b) h k t e =
      let (p, q) = entity_split s u (a ++ str "\"") (b ++ str "\"") h k e in
      let r = snoc_inj a b quote q in cc (p, r)
  body_inj (array a) (array b) h k t e = let q = items_inj a b h k e in cc q
  body_inj (object a) (object b) h k t e = let q = members_inj a b h k e in cc q
  body_inj _ _ h k t e = absurd (omega arith)

  items_inj :
      (a b : Items)
      → AreUnquoted a
      → AreUnquoted b
      → items_key a ≡ items_key b
      → meanings a ≡ meanings b
  items_inj nil nil h k e = refl
  items_inj (cons v vs) (cons w ws) h k e =
      let (t, p, q) = key_split v w (items_key vs) (items_key ws) e in
      let i = body_inj v w h.0 k.0 t p in let r = items_inj vs ws h.1 k.1 q in cc (i, r)
  items_inj nil (cons w ws) h k e = absurd (key-nonempty w (items_key ws) (sym e))
  items_inj (cons v vs) nil h k e = absurd (key-nonempty v (items_key vs) e)

  members_inj :
      (a b : Fields)
      → FieldsUnquoted a
      → FieldsUnquoted b
      → members_key a ≡ members_key b
      → entries a ≡ entries b
  members_inj end end h k e = refl
  members_inj (field i v fs) (field j w gs) h k e =
      let (n, p) =
        sized_inj i j (partition_value_key v ++ members_key fs)
          (partition_value_key w ++ members_key gs)
          (sym (members_key-field i v fs) ∙ e ∙ members_key-field j w gs) in
      let (t, p', q) = key_split v w (members_key fs) (members_key gs) p in
      let m = body_inj v w h.0 k.0 t p' in let r = members_inj fs gs h.1 k.1 q in cc (n, m, r)
  members_inj end (field j w gs) h k e =
      absurd (cons_later _ _ _ (sym (members_key-field j w gs) ∙ sym e))
  members_inj (field i v fs) end h k e =
      absurd (cons_later _ _ _ (sym (members_key-field i v fs) ∙ e))

-- Where no entity type holds a quote, two values have one partition key exactly if they are equal in the
-- domain.
pub partition_value_key_iff :
    (a b : Value)
    → IsUnquoted a
    → IsUnquoted b
    → (partition_value_key a ≡ partition_value_key b) ↔ (dom_eq a b ≡ true)
partition_value_key_iff a b h k = (
  λ e.
      let (t, p, q) = key_split a b [] [] (ap (λ t. t ++ []) e) in
      (dom_eq-meaning a b).1 (body_inj a b h k t p),
  partition_value_key-dom_eq a b,
)
