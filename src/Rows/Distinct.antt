-- ===== src/Rows/Distinct.antt =====
-- Deduplication by `rows_eq`, dogwood-language/src/interpreter/eval.rs.
use dogwood.Prelude.{
  suc, ◌≡◌, ◌↔◌, ◌⊎◌, inl, inr, refl, ap, Bool, true, false, ◌&&◌, ◌||◌, List, [], ◌∷◌, ◌++◌, Str,
  str_eq, str_eq_iff, length, any, any-append, ◌==◌, ==_iff, &&_split, arith, Bool-cases,
}
use dogwood.Value.{dom_eq}
use dogwood.Value.Denote
use dogwood.Value.Denote.{dom_eq-meaning}
use dogwood.Rows.{Row, zip_columns_eq, rows_eq, push_new, push_all_new}

-- A row with each value replaced by what it denotes.
unfoldable pub row_meaning : Row → List (Str × Denote.Meaning)
row_meaning [] = []
row_meaning ((k, v) ∷ row) = (k, Denote.meaning v) ∷ row_meaning row

rows_eq_sound :
    (a b : Row) → length a ≡ length b → zip_columns_eq a b ≡ true → row_meaning a ≡ row_meaning b
unfolding zip_columns_eq row_meaning
rows_eq_sound [] [] l h = refl
rows_eq_sound ((k, v) ∷ a) ((j, w) ∷ b) l h =
    let (p, q) = &&_split (str_eq k j && dom_eq v w) (zip_columns_eq a b) h in
    let (r, s) = &&_split (str_eq k j) (dom_eq v w) p in
    cc ((str_eq_iff k j).0 r, (dom_eq-meaning v w).0 s, rows_eq_sound a b (omega arith) q)
rows_eq_sound [] (x ∷ b) l h = absurd (omega arith)
rows_eq_sound (x ∷ a) [] l h = absurd (omega arith)

rows_eq_complete :
    (a b : Row)
    → row_meaning a ≡ row_meaning b
    → (length a ≡ length b) × (zip_columns_eq a b ≡ true)
unfolding zip_columns_eq row_meaning
rows_eq_complete [] [] h = (refl, refl)
rows_eq_complete ((k, v) ∷ a) ((j, w) ∷ b) h =
    let (p, q) = rows_eq_complete a b (cc) in
    (ap suc p, ground (arith, str_eq_iff k j, (dom_eq-meaning v w).1 (cc), q))
rows_eq_complete [] (x ∷ b) h = cc
rows_eq_complete (x ∷ a) [] h = cc

rows_eq_iff : (a b : Row) → (rows_eq a b ≡ true) ↔ (row_meaning a ≡ row_meaning b)
unfolding rows_eq
rows_eq_iff a b = (
  λ h.
      let (p, q) = &&_split (length a == length b) (zip_columns_eq a b) h in
      rows_eq_sound a b ((==_iff (length a) (length b)).0 p) q,
  λ h. let (p, q) = rows_eq_complete a b h in ground (arith, p, q),
)

-- The row stands among the rows, up to domain equality.
abbrev pub has_row : List Row → Row → Bool
has_row rows row = any (λ r. rows_eq r row) rows

-- Equal rows stand among the same rows.
has_row_congr : (rows : List Row) (a b : Row) → rows_eq a b ≡ true → has_row rows a ≡ has_row rows b
has_row_congr [] a b h = refl
has_row_congr (r ∷ rows) a b h =
    ground (arith, rows_eq_iff r a, rows_eq_iff r b, rows_eq_iff a b, has_row_congr rows a b h)

has_row-push_new :
    (out : List Row) (row x : Row) → has_row (push_new out row) x ≡ (has_row out x || rows_eq row x)
unfolding push_new
has_row-push_new out row x = elim (Bool-cases (has_row out row)) [
  | inl old ↦ rw old (seen (Bool-cases (rows_eq row x)) old)
  | inr new ↦ rw (new, any-append (λ r. rows_eq r x) out (row ∷ [])) (ground arith)
]
  where
    seen :
        (rows_eq row x ≡ true) ⊎ (rows_eq row x ≡ false)
        → has_row out row ≡ true
        → has_row out x ≡ (has_row out x || rows_eq row x)
    seen (inl e) old = rw (← has_row_congr out row x e, old)
    seen (inr e) old = ground arith

-- Deduplication loses no row and adds none, up to domain equality.
pub has_row-push_all_new :
    (rows out : List Row) (x : Row)
    → has_row (push_all_new out rows) x ≡ (has_row out x || has_row rows x)
unfolding push_all_new
has_row-push_all_new [] out x = ground arith
has_row-push_all_new (row ∷ rows) out x =
    ground (arith, has_row-push_all_new rows (push_new out row) x, has_row-push_new out row x)

-- No row stands twice, up to domain equality.
abbrev pub AreDistinct : List Row → Type 0
AreDistinct [] = Unit
AreDistinct (r ∷ rows) = (has_row rows r ≡ false) × AreDistinct rows

distinct-snoc :
    (out : List Row) (row : Row)
    → AreDistinct out
    → has_row out row ≡ false
    → AreDistinct (out ++ row ∷ [])
distinct-snoc [] row d h = (refl, tt)
distinct-snoc (r ∷ out) row d h = (
  rw (any-append (λ x. rows_eq x r) out (row ∷ []))
      (ground (arith, rows_eq_iff r row, rows_eq_iff row r)),
  distinct-snoc out row d.1 (ground arith),
)

push_new-AreDistinct :
    (out : List Row) (row : Row) → AreDistinct out → AreDistinct (push_new out row)
unfolding push_new
push_new-AreDistinct out row d = elim (Bool-cases (has_row out row)) [
  | inl old ↦ rw old d
  | inr new ↦ rw new (distinct-snoc out row d new)
]

-- Rows pushed by deduplication onto rows that are distinct, up to domain equality, are distinct again.
pub push_all_new-AreDistinct :
    (rows out : List Row) → AreDistinct out → AreDistinct (push_all_new out rows)
unfolding push_all_new
push_all_new-AreDistinct [] out d = d
push_all_new-AreDistinct (row ∷ rows) out d =
    push_all_new-AreDistinct rows (push_new out row) (push_new-AreDistinct out row d)
