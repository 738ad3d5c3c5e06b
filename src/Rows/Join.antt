-- ===== src/Rows/Join.antt =====
-- `join_rows` of dogwood-language/src/interpreter/eval.rs.
use dogwood.Prelude.{
  ◌≡◌, ◌⊎◌, inl, inr, refl, true, false, Option, none, some, [], ◌∷◌, ◌++◌, Str, str_eq_refl, arith,
  Bool-cases,
}
use dogwood.Prelude.Options.{>>=-eq-some}
use dogwood.Value.{Value, dom_eq}
use dogwood.Value.Denote.{dom_eq-meaning}
use dogwood.Rows.{Row, find_column, join_column, join_into, join_rows}

-- The column holds the value, up to domain equality.
abbrev pub HasColumn : Row → Str → Value → Type 0
HasColumn row k v = (w : Value) × (find_column row k ≡ some w) × (dom_eq w v ≡ true)

-- Every column of the row, the shadowed ones too.
abbrev pub Agrees : Row → Row → Type 0
Agrees c [] = Unit
Agrees c ((k, v) ∷ b) = HasColumn c k v × Agrees c b

-- What a row's columns read, a later row reads too.
abbrev pub Extends : Row → Row → Type 0
Extends a c = (k : Str) (v : Value) → find_column a k ≡ some v → find_column c k ≡ some v

find_column-append :
    (a : Row) (k : Str) (v : Value) (b : Row)
    → find_column a k ≡ some v
    → find_column (a ++ b) k ≡ some v
unfolding find_column
find_column-append [] k v b h = cc
find_column-append ((j, w) ∷ a) k v b h = ground (arith, find_column-append a k v b)

find_column-snoc :
    (a : Row) (k : Str) (v : Value)
    → find_column a k ≡ none
    → find_column (a ++ (k, v) ∷ []) k ≡ some v
unfolding find_column
find_column-snoc [] k v h = rw (str_eq_refl k)
find_column-snoc ((j, w) ∷ a) k v h = ground (arith, find_column-snoc a k v)

dom_eq_refl : (v : Value) → dom_eq v v ≡ true
dom_eq_refl v = (dom_eq-meaning v v).1 refl

-- One column of the second row, with the outcome of looking it up in the row so far.
join_column_sound :
    (out : Row) (k : Str) (v : Value) (o : Option Value) (c : Row)
    → find_column out k ≡ o
    → join_column o out k v ≡ some c
    → Extends out c × HasColumn c k v
join_column_sound out k v none c e h = (
  λ j w p. let q : out ++ (k, v) ∷ [] ≡ c = cc in rw (← q) (find_column-append out j w _ p),
  (
    v,
    (let q : out ++ (k, v) ∷ [] ≡ c = cc in rw (← q) (find_column-snoc out k v e)),
    dom_eq_refl v,
  ),
)
join_column_sound out k v (some w) c e h = kept (Bool-cases (dom_eq w v))
  where
    kept : (dom_eq w v ≡ true) ⊎ (dom_eq w v ≡ false) → Extends out c × HasColumn c k v
    kept (inl same) = let q : out ≡ c = ground arith in (λ j x p. rw (← q) p, (w, rw (← q) e, same))
    kept (inr differ) = ground arith

join_into_sound : (b out c : Row) → join_into out b ≡ some c → Extends out c × Agrees c b
unfolding join_into
join_into_sound [] out c h = (λ k v p. ground arith, tt)
join_into_sound ((k, v) ∷ b) out c h =
    let (d, p, q) =
      >>=-eq-some (join_column (find_column out k) out k v) (λ joined. join_into joined b) h in
    let (ext, has) = join_column_sound out k v (find_column out k) d refl p in
    let (ext', agree) = join_into_sound b d c q in
    let (w, r, s) = has in (λ j x e. ext' j x (ext j x e), ((w, ext' k w r, s), agree))

-- A joined row reads every column of the left row as that row does, and every column of the right row
-- up to domain equality.
pub join_rows_sound : (a b c : Row) → join_rows a b ≡ some c → Extends a c × Agrees c b
unfolding join_rows
join_rows_sound a b c h = join_into_sound b a c h
