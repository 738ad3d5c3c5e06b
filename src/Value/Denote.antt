-- ===== src/Value/Denote.antt =====
-- What values denote, and `dom_eq` of dogwood-language/src/interpreter/value.rs.
use dogwood.Prelude.{
  suc, Bool, true, ◌&&◌, ◌≡◌, ◌↔◌, ap, refl, Str, ◌==◌, ==_iff, &&_split, str_eq, str_eq_iff, arith,
}
use dogwood.Int.{ℤ}
use dogwood.Int.Order.{eqb_ℤ_iff}
use dogwood.Decimal.Laws
use dogwood.Decimal.Laws.{Denotation, decimal_eq_iff}
use dogwood.Value.{
  Value, null, bool, int, decimal, string, entity, array, object, Items, nil, cons, Fields, end,
  field, len_items, len_fields, value_eq, dom_eq, zip_dom_eq, zip_fields_dom_eq,
}

-- Values with each decimal replaced by what it denotes.
mutual
  pub data Meaning : Type 0 where
    nothing : Meaning
    truth : Bool → Meaning
    number : ℤ → Meaning
    dec : Denotation → Meaning
    text : Str → Meaning
    uid : Str → Str → Meaning
    seq : Meanings → Meaning
    rec : Entries → Meaning

  pub data Meanings : Type 0 where
    none_left : Meanings
    more : Meaning → Meanings → Meanings

  pub data Entries : Type 0 where
    no_entry : Entries
    entry : Str → Meaning → Entries → Entries

unfoldable mutual
  pub meaning : Value → Meaning
  meaning null = nothing
  meaning (bool b) = truth b
  meaning (int n) = number n
  meaning (decimal s) = dec (Laws.denote s)
  meaning (string s) = text s
  meaning (entity t i) = uid t i
  meaning (array vs) = seq (meanings vs)
  meaning (object fs) = rec (entries fs)

  pub meanings : Items → Meanings
  meanings nil = none_left
  meanings (cons v vs) = more (meaning v) (meanings vs)

  pub entries : Fields → Entries
  entries end = no_entry
  entries (field k v fs) = entry k (meaning v) (entries fs)

mutual
  unfolding dom_eq value_eq meaning

  dom_eq_sound : (a b : Value) → dom_eq a b ≡ true → meaning a ≡ meaning b
  dom_eq_sound (decimal a) (decimal b) h = ap dec ((decimal_eq_iff a b).0 h)
  dom_eq_sound (array a) (array b) h =
      let (p, q) = &&_split (len_items a == len_items b) (zip_dom_eq a b) h in
      ap seq (items_sound a b ((==_iff (len_items a) (len_items b)).0 p) q)
  dom_eq_sound (object a) (object b) h =
      let (p, q) = &&_split (len_fields a == len_fields b) (zip_fields_dom_eq a b) h in
      ap rec (fields_sound a b ((==_iff (len_fields a) (len_fields b)).0 p) q)
  dom_eq_sound null null h = refl
  dom_eq_sound (bool a) (bool b) h = ground arith
  dom_eq_sound (int a) (int b) h = ground (arith, eqb_ℤ_iff a b)
  dom_eq_sound (string a) (string b) h = ground (arith, str_eq_iff a b)
  dom_eq_sound (entity s a) (entity t b) h = ground (arith, str_eq_iff a b, str_eq_iff s t)
  dom_eq_sound _ _ h = cc

  items_sound :
      (a b : Items) → len_items a ≡ len_items b → zip_dom_eq a b ≡ true → meanings a ≡ meanings b
  items_sound nil nil l h = refl
  items_sound (cons v vs) (cons w ws) l h =
      let (p, q) = &&_split (dom_eq v w) (zip_dom_eq vs ws) h in
      cc (dom_eq_sound v w p, items_sound vs ws (omega arith) q)
  items_sound nil (cons w ws) l h = absurd (omega arith)
  items_sound (cons v vs) nil l h = absurd (omega arith)

  fields_sound :
      (a b : Fields)
      → len_fields a ≡ len_fields b
      → zip_fields_dom_eq a b ≡ true
      → entries a ≡ entries b
  fields_sound end end l h = refl
  fields_sound (field k v fs) (field j w gs) l h =
      let (p, q) = &&_split (str_eq k j && dom_eq v w) (zip_fields_dom_eq fs gs) h in
      let (r, s) = &&_split (str_eq k j) (dom_eq v w) p in
      cc ((str_eq_iff k j).0 r, dom_eq_sound v w s, fields_sound fs gs (omega arith) q)
  fields_sound end (field j w gs) l h = absurd (omega arith)
  fields_sound (field k v fs) end l h = absurd (omega arith)

mutual
  unfolding dom_eq value_eq meaning

  dom_eq_complete : (a b : Value) → meaning a ≡ meaning b → dom_eq a b ≡ true
  dom_eq_complete (decimal a) (decimal b) h = (decimal_eq_iff a b).1 (cc)
  dom_eq_complete (array a) (array b) h =
      let (p, q) = items_complete a b (cc) in ground (arith, p, q)
  dom_eq_complete (object a) (object b) h =
      let (p, q) = fields_complete a b (cc) in ground (arith, p, q)
  dom_eq_complete null null h = refl
  dom_eq_complete (bool a) (bool b) h = ground arith
  dom_eq_complete (int a) (int b) h = ground (arith, eqb_ℤ_iff a b)
  dom_eq_complete (string a) (string b) h = ground (arith, str_eq_iff a b)
  dom_eq_complete (entity s a) (entity t b) h = ground (arith, str_eq_iff a b, str_eq_iff s t)
  dom_eq_complete _ _ h = cc

  items_complete :
      (a b : Items)
      → meanings a ≡ meanings b
      → (len_items a ≡ len_items b) × (zip_dom_eq a b ≡ true)
  items_complete nil nil h = (refl, refl)
  items_complete (cons v vs) (cons w ws) h =
      let (p, q) = items_complete vs ws (cc) in
      (ap suc p, ground (arith, dom_eq_complete v w (cc), q))
  items_complete nil (cons w ws) h = cc
  items_complete (cons v vs) nil h = cc

  fields_complete :
      (a b : Fields)
      → entries a ≡ entries b
      → (len_fields a ≡ len_fields b) × (zip_fields_dom_eq a b ≡ true)
  fields_complete end end h = (refl, refl)
  fields_complete (field k v fs) (field j w gs) h =
      let (p, q) = fields_complete fs gs (cc) in
      (ap suc p, ground (arith, str_eq_iff k j, dom_eq_complete v w (cc), q))
  fields_complete end (field j w gs) h = cc
  fields_complete (field k v fs) end h = cc

-- Two values are domain-equal exactly when they denote the same thing: decimals by the number that
-- Cedar reads, or by their text where Cedar rejects both, everything else by structure.
pub dom_eq-meaning : (a b : Value) → (dom_eq a b ≡ true) ↔ (meaning a ≡ meaning b)
dom_eq-meaning a b = (dom_eq_sound a b, dom_eq_complete a b)
