-- ===== src/PartitionKey/Agree.antt =====
-- Partition keys of equal values: `partition_value_key` of dogwood-language/src/engine.rs.
use dogwood.Prelude.{◌≡◌, refl, ap, true, Option, none, some, Str}
use dogwood.Int.{ℤ}
use dogwood.Decimal.{cedar_decimal_value}
use dogwood.Decimal.Laws
use dogwood.Decimal.Laws.{Denotation, accepted, rejected, of_value}
use dogwood.Value.{
  Value, null, bool, int, decimal, string, entity, array, object, Items, nil, cons, Fields, end,
  field, dom_eq,
}
use dogwood.Value.Denote.{meaning, meanings, entries, dom_eq-meaning}
use dogwood.PartitionKey.{
  canon_accepted, canon_of, canon_decimal_for_partition, framed, partition_value_key, items_key,
  members_key,
}

canon_of_congr :
    (p q : Option ℤ) (a b : Str) → of_value p a ≡ of_value q b → canon_of p a ≡ canon_of q b
canon_of_congr (some x) (some y) a b h = ap canon_accepted (cc)
canon_of_congr none none a b h = cc
canon_of_congr (some x) none a b h = cc
canon_of_congr none (some y) a b h = cc

mutual
  unfolding partition_value_key meaning canon_decimal_for_partition Laws.denote

  key_congr : (a b : Value) → meaning a ≡ meaning b → partition_value_key a ≡ partition_value_key b
  key_congr (decimal a) (decimal b) h =
      ap (framed b'd') (canon_of_congr (cedar_decimal_value a) (cedar_decimal_value b) a b (cc))
  key_congr (array a) (array b) h = ap (framed b'a') (items_congr a b (cc))
  key_congr (object a) (object b) h = ap (framed b'o') (members_congr a b (cc))
  key_congr null null h = refl
  key_congr (bool a) (bool b) h = cc
  key_congr (int a) (int b) h = cc
  key_congr (string a) (string b) h = cc
  key_congr (entity s a) (entity t b) h = cc
  key_congr _ _ h = cc

  items_congr : (a b : Items) → meanings a ≡ meanings b → items_key a ≡ items_key b
  items_congr nil nil h = refl
  items_congr (cons v vs) (cons w ws) h = rw (key_congr v w (cc), items_congr vs ws (cc))
  items_congr nil (cons w ws) h = cc
  items_congr (cons v vs) nil h = cc

  members_congr : (a b : Fields) → entries a ≡ entries b → members_key a ≡ members_key b
  members_congr end end h = refl
  members_congr (field k v fs) (field j w gs) h =
      let e : k ≡ j = cc in rw (key_congr v w (cc), members_congr fs gs (cc), e)
  members_congr end (field j w gs) h = cc
  members_congr (field k v fs) end h = cc

-- Values that are equal in the domain have the same partition key.
pub partition_value_key-dom_eq :
    (a b : Value) → dom_eq a b ≡ true → partition_value_key a ≡ partition_value_key b
partition_value_key-dom_eq a b h = key_congr a b ((dom_eq-meaning a b).0 h)
