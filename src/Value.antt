-- ===== src/Value.antt =====
-- Runtime values, dogwood-language/src/interpreter/value.rs: `Value`, its derived equality and `dom_eq`.
pub mod Denote
use dogwood.Prelude.{
  ℕ, zero, suc, Bool, true, false, ◌&&◌, Option, none, some, List, [], ◌∷◌, Str, ◌==◌, str_eq,
}
use dogwood.Int.{ℤ, eqb_ℤ}
use dogwood.Decimal.{decimal_eq}
use dogwood.Map.{Map}

mutual
  pub data Value : Type 0 where
    null : Value
    bool : Bool → Value
    int : ℤ → Value
    decimal : Str → Value
    string : Str → Value
    entity : Str → Str → Value
    array : Items → Value
    object : Fields → Value

  pub data Items : Type 0 where
    nil : Items
    cons : Value → Items → Items

  -- The members of an object in key order.
  pub data Fields : Type 0 where
    end : Fields
    field : Str → Value → Fields → Fields

unfoldable pub members : Fields → Map Value
members end = []
members (field k v fs) = (k, v) ∷ members fs

unfoldable pub of_members : Map Value → Fields
of_members [] = end
of_members ((k, v) ∷ m) = field k v (of_members m)

unfoldable pub of_list : List Value → Items
of_list [] = nil
of_list (v ∷ vs) = cons v (of_list vs)

abbrev pub len_items : Items → ℕ
len_items nil = 0
len_items (cons v vs) = suc (len_items vs)

abbrev pub len_fields : Fields → ℕ
len_fields end = 0
len_fields (field k v fs) = suc (len_fields fs)

abbrev pub bool_eq : Bool → Bool → Bool
bool_eq true b = b
bool_eq false true = false
bool_eq false false = true

-- The derived structural equality `==`.
unfoldable mutual
  pub value_eq : Value → Value → Bool
  value_eq null null = true
  value_eq (bool a) (bool b) = bool_eq a b
  value_eq (int a) (int b) = eqb_ℤ a b
  value_eq (decimal a) (decimal b) = str_eq a b
  value_eq (string a) (string b) = str_eq a b
  value_eq (entity s a) (entity t b) = str_eq s t && str_eq a b
  value_eq (array a) (array b) = items_eq a b
  value_eq (object a) (object b) = fields_eq a b
  value_eq _ _ = false

  pub items_eq : Items → Items → Bool
  items_eq nil nil = true
  items_eq (cons v vs) (cons w ws) = value_eq v w && items_eq vs ws
  items_eq _ _ = false

  pub fields_eq : Fields → Fields → Bool
  fields_eq end end = true
  fields_eq (field k v fs) (field j w gs) = str_eq k j && (value_eq v w && fields_eq fs gs)
  fields_eq _ _ = false

-- Domain equality: structural, with decimals compared by value.
unfoldable mutual
  pub dom_eq : Value → Value → Bool
  dom_eq (decimal a) (decimal b) = decimal_eq a b
  dom_eq (array a) (array b) = len_items a == len_items b && zip_dom_eq a b
  dom_eq (object a) (object b) = len_fields a == len_fields b && zip_fields_dom_eq a b
  dom_eq a b = value_eq a b

  pub zip_dom_eq : Items → Items → Bool
  zip_dom_eq (cons v vs) (cons w ws) = dom_eq v w && zip_dom_eq vs ws
  zip_dom_eq _ _ = true

  pub zip_fields_dom_eq : Fields → Fields → Bool
  zip_fields_dom_eq (field k v fs) (field j w gs) =
      (str_eq k j && dom_eq v w) && zip_fields_dom_eq fs gs
  zip_fields_dom_eq _ _ = true

unfoldable pub as_int : Value → Option ℤ
as_int (int n) = some n
as_int _ = none
