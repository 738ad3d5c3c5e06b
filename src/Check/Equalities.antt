-- ===== src/Check/Equalities.antt =====
-- The column that an equality gives to every row: `eq_restricted_var` of
-- dogwood-language/src/extension/temporal/check.rs against `eq_binding` of
-- dogwood-language/src/interpreter/eval.rs.
use dogwood.Prelude.{
  ◌≡◌, refl, sym, ap, subst, Bool, true, false, Option, none, some, Str, ◌⊎◌, inl, inr, All, ℕ,
}
use dogwood.Prelude.Panics.{Exec, value, panic, Ensures}
use dogwood.Map
use dogwood.Value.{Value}
use dogwood.Event.{Trace}
use dogwood.Ast.{CmpOp, Term, var}
use dogwood.Rows.{Env}
use dogwood.Resolve.{resolve_term}
use dogwood.Eval.{
  comparison_rows, eq_binding, filter_witness, eval_comparison, unbound_var, resolve_term_at,
}
use dogwood.Check.{bare_var, eq_restricted_var, one_var, eq_var_of, is_restrictor}
use dogwood.Check.Columns.{Binds, single-Binds}

module _ (x : Str) where
  abbrev OneSide : Option Str → Option Str → Type 0
  OneSide l r = ((l ≡ some x) × (r ≡ none)) ⊎ ((l ≡ none) × (r ≡ some x))

  one_var-OneSide : (l r : Option Str) (a b : Bool) → one_var l r a b ≡ some x → OneSide l r
  one_var-OneSide (some n) none a true h = inl (h, refl)
  one_var-OneSide none (some n) true b h = inr (refl, h)
  one_var-OneSide (some n) none a false h = cc
  one_var-OneSide none (some n) false b h = cc
  one_var-OneSide (some n) (some m) a b h = cc
  one_var-OneSide none none a b h = cc

  unbound_var-none : (env : Env) (t : Term) → bare_var t ≡ none → unbound_var env t ≡ none
  unfolding unbound_var
  unbound_var-none env (var n) h = cc
  unbound_var-none env _ h = refl

  -- The unbound variable resolves to nothing, and is what the equality binds.
  free_var :
      (t : Trace) (i : ℕ) (env : Env) (e : Term)
      → Map.get env x ≡ none
      → bare_var e ≡ some x
      → (unbound_var env e ≡ some x) × (resolve_term_at t i env e ≡ value none)
  unfolding unbound_var resolve_term_at resolve_term
  free_var t i env (var n) free h =
      let same : n ≡ x = cc in
      subst
        (λ k. (unbound_var env (var k) ≡ some x) × (resolve_term_at t i env (var k) ≡ value none))
        (sym same) (rw (unbound_var, free) refl, ap value free)
  free_var t i env _ free h = cc

  left_rows :
      (m : Exec (Option Value))
      → Ensures (All (Binds x)) (comparison_rows CmpOp.eq (some x) none (value none) m)
  unfolding comparison_rows eq_binding eval_comparison filter_witness
  left_rows (value none) = tt
  left_rows (value (some v)) = (single-Binds x v, tt)
  left_rows panic = tt

  right_rows :
      (m : Exec (Option Value))
      → Ensures (All (Binds x)) (comparison_rows CmpOp.eq none (some x) m (value none))
  unfolding comparison_rows eq_binding eval_comparison filter_witness
  right_rows (value none) = tt
  right_rows (value (some v)) = (single-Binds x v, tt)
  right_rows panic = tt

  equality_rows :
      (t : Trace) (i : ℕ) (env : Env) (l r : Term)
      → Map.get env x ≡ none
      → OneSide (bare_var l) (bare_var r)
      → Ensures (All (Binds x)) (
          comparison_rows CmpOp.eq
            (unbound_var env l)
            (unbound_var env r)
            (resolve_term_at t i env l)
            (resolve_term_at t i env r))
  equality_rows t i env l r free (inl (a, b)) =
      let (u, v) = free_var t i env l free a in
      rw (u, v, unbound_var-none env r b) (left_rows (resolve_term_at t i env r))
  equality_rows t i env l r free (inr (a, b)) =
      let (u, v) = free_var t i env r free b in
      rw (u, v, unbound_var-none env l a) (right_rows (resolve_term_at t i env l))

  -- A comparison binds the variable that it restricts.
  pub comparison-Binds :
      (t : Trace) (i : ℕ) (env : Env) (op : CmpOp) (l r : Term)
      → Map.get env x ≡ none
      → eq_var_of op l r ≡ some x
      → Ensures (All (Binds x)) (
          comparison_rows op
            (unbound_var env l)
            (unbound_var env r)
            (resolve_term_at t i env l)
            (resolve_term_at t i env r))
  unfolding eq_restricted_var
  comparison-Binds t i env CmpOp.eq l r free h =
      equality_rows t i env l r free
        (one_var-OneSide (bare_var l) (bare_var r) (is_restrictor l) (is_restrictor r) h)
  comparison-Binds t i env _ l r free h = cc
