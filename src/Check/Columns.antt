-- ===== src/Check/Columns.antt =====
-- The columns that a predicate and an equality give to every row, dogwood-language/src/interpreter/eval.rs:
-- `match_args`, `eq_binding`.
use dogwood.Prelude.{
  ◌≡◌, ◌≢◌, ◌∙◌, refl, sym, ap, true, false, Option, none, some, [], ◌∷◌, Str, str_eq, str_eq_iff,
  str_eq_refl, arith, Bool-cases, ◌⊎◌, inl, inr, if◌then◌else◌,
}
use dogwood.Map
use dogwood.Map.Laws.{get-insert}
use dogwood.Value.{Value}
use dogwood.Rows.{Env, Row, find_column, drop_column, join_rows}
use dogwood.Rows.Join.{join_rows_sound, Agrees}
use dogwood.Eval.Names.{OptionOf}

module _ (x : Str) where
  -- The row has the column.
  abbrev pub Binds : Row → Type 0
  Binds row = (v : Value) × (find_column row x ≡ some v)

  pub get_column : (row : Row) → find_column row x ≡ Map.get row x
  unfolding find_column Map.get
  get_column [] = refl
  get_column ((k, v) ∷ row) = rw (get_column row) refl

  pub single-Binds : (v : Value) → Binds ((x, v) ∷ [])
  unfolding find_column
  single-Binds v = (v, rw (str_eq_refl x) refl)

  pub insert-Binds : (b : Env) (n : Str) (v : Value) → Binds b → Binds (Map.insert b n v)
  insert-Binds b n v (w, h) = kept (Bool-cases (str_eq n x))
    where
      read : find_column (Map.insert b n v) x ≡ (if str_eq n x then some v else Map.get b x)
      read = get_column (Map.insert b n v) ∙ get-insert b n v x

      kept : (str_eq n x ≡ true) ⊎ (str_eq n x ≡ false) → Binds (Map.insert b n v)
      kept (inl same) = (v, rw same at read)
      kept (inr other) = (w, read ∙ rw other (sym (get_column b) ∙ h))

  pub insert_self-Binds : (b : Env) (v : Value) → Binds (Map.insert b x v)
  insert_self-Binds b v =
      (v, get_column (Map.insert b x v) ∙ get-insert b x v x ∙ rw (str_eq_refl x) refl)

  find_column-drop_column :
      (n : Str) (row : Row) → n ≢ x → find_column (drop_column n row) x ≡ find_column row x
  unfolding find_column drop_column
  find_column-drop_column n [] apart = refl
  find_column-drop_column n ((k, w) ∷ row) apart =
      ground (arith, find_column-drop_column n row apart, str_eq_iff k n, str_eq_iff k x)

  pub drop-Binds : (n : Str) (row : Row) → n ≢ x → Binds row → Binds (drop_column n row)
  drop-Binds n row apart (v, h) = (v, find_column-drop_column n row apart ∙ h)

  Agrees-Binds : (c b : Row) → Agrees c b → Binds b → Binds c
  unfolding find_column
  Agrees-Binds c [] a (v, h) = cc
  Agrees-Binds c ((k, w) ∷ b) a (v, h) = elim (Bool-cases (str_eq k x)) [
    | inl same ↦
        let (u, has, e) = a.0 in (u, ap (find_column c) (sym ((str_eq_iff k x).0 same)) ∙ has)
    | inr other ↦ Agrees-Binds c b a.1 (v, rw other at h)
  ]

  -- A joined row has the columns of both.
  pub join-Binds : (a b : Row) → Binds a ⊎ Binds b → OptionOf Binds (join_rows a b)
  join-Binds a b h = joined (join_rows a b) refl h
    where
      joined : (o : Option Row) → join_rows a b ≡ o → Binds a ⊎ Binds b → OptionOf Binds o
      joined none e k = tt
      joined (some c) e (inl (v, r)) = (v, (join_rows_sound a b c e).0 x v r)
      joined (some c) e (inr has) = Agrees-Binds c b (join_rows_sound a b c e).1 has
