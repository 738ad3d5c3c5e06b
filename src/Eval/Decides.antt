-- ===== src/Eval/Decides.antt =====
-- The operators of dogwood-language/src/interpreter/eval.rs and the clauses of the formal semantics.
use dogwood.Prelude.{
  ℕ, zero, suc, ◌-◌, ◌≤◌, ◌<◌, ◌≡◌, ◌↔◌, ◌⊎◌, inl, inr, refl, Bool, true, false, Option, none, some,
  List, [], ◌∷◌, arith,
}
use mathlib.Core.Bool
use dogwood.Prelude.Panics.{Exec, value, panic, ◌>>=◌, map_exec}
use dogwood.Int.{pos}
use dogwood.Map
use dogwood.Event.{Trace, trace_len}
use dogwood.Value.{Value, dom_eq}
use dogwood.Ast.{
  Interval, concrete, BinderSlot, name, slot_param, slot_binder, slot_name, CmpOp, Condition,
  Predicate,
}
use dogwood.Rows.{Env, Row}
use dogwood.Loop.Laws.{Returns, any_down_sound, any_down_complete, all_up_iff}
use dogwood.Resolve.{match_predicate, in_window}
use dogwood.Eval.{
  is_some, is_nonempty, in_window_and, scan_formerly, anchor_holds, eval_since, eval_previous,
  eval_and, or_else_bool, with_bindings, match_occurrences, compare_values, eval_comparison,
  tp_holds,
}
use dogwood.Eval.Expanded.{IsNamed}
use dogwood.Eval.Operators.{in_window-Returns, in_window_and-Returns, anchor_holds-Returns}
use dogwood.Eval.Semantics.{HoldsBoth, HoldsExists, HoldsFormerly, HoldsPrevious, HoldsSince}

window_and_iff :
    (m n : Exec Bool) → (in_window_and m n ≡ value true) ↔ (m ≡ value true) × (n ≡ value true)
unfolding in_window_and
window_and_iff (value true) n = (λ h. (refl, h), λ h. h.1)
window_and_iff (value false) n = (λ h. cc, λ h. cc h.0)
window_and_iff panic n = (λ h. cc, λ h. cc h.0)

pub or_else_iff :
    (m n : Exec Bool)
    → Returns m
    → (or_else_bool m n ≡ value true) ↔ (m ≡ value true) ⊎ (n ≡ value true)
or_else_iff (value true) n p = (λ h. inl refl, λ h. refl)
or_else_iff (value false) n p = (λ h. inr h, elim [ inl e ↦ cc | inr e ↦ e ])
or_else_iff panic n p = cc p.1

pub not_iff :
    (m : Exec Bool) → Returns m → (map_exec Bool.not m ≡ value true) ↔ (¬ (m ≡ value true))
not_iff (value true) p = (λ h. cc, λ h. absurd (h refl))
not_iff (value false) p = (λ h e. cc, λ h. refl)
not_iff panic p = cc p.1

pub is_some_iff :
    (m : Exec (Option Env)) → (map_exec is_some m ≡ value true) ↔ ((b : Env) × (m ≡ value (some b)))
is_some_iff (value (some b)) = (λ h. (b, refl), λ h. refl)
is_some_iff (value none) = (λ h. cc, λ h. cc h.1)
is_some_iff panic = (λ h. cc, λ h. cc h.1)

nonempty_iff :
    (m : Exec (List Row))
    → (map_exec is_nonempty m ≡ value true)
      ↔ ((row : Row) × (rows : List Row) × (m ≡ value (row ∷ rows)))
nonempty_iff (value (row ∷ rows)) = (λ h. (row, rows, refl), λ h. refl)
nonempty_iff (value []) = (λ h. cc, λ h. cc h.2)
nonempty_iff panic = (λ h. cc, λ h. cc h.2)

pub comparison_iff :
    (op : CmpOp) (m n : Exec (Option Value))
    → (eval_comparison op m n ≡ value true) ↔ (
        (a : Value) × (b : Value) × (m ≡ value (some a))
        × (n ≡ value (some b))
        × (compare_values op a b ≡ true))
unfolding eval_comparison
comparison_iff op (value (some a)) (value (some b)) =
    (λ h. (a, b, refl, refl, cc), λ (x, y, p, q, r). cc)
comparison_iff op (value none) (value b) = (λ h. cc, λ h. cc h.2)
comparison_iff op (value (some a)) (value none) = (λ h. cc, λ h. cc h.3)
comparison_iff op (value a) panic = (λ h. cc, λ h. cc h.3)
comparison_iff op panic n = (λ h. cc, λ h. cc h.2)

pub tp_iff :
    (i : ℕ) (o : Option Value)
    → (tp_holds i o ≡ true)
      ↔ (o ≡ none) ⊎ ((v : Value) × (o ≡ some v) × (dom_eq v (Value.int (pos i)) ≡ true))
unfolding tp_holds
tp_iff i none = (λ h. inl refl, λ h. refl)
tp_iff i (some v) = (λ h. inr (v, refl, h), elim [ inl e ↦ cc | inr (w, p, q) ↦ cc ])

pub value_iff : (b : Bool) → (value b ≡ value true) ↔ (b ≡ true)
value_iff b = (λ h. cc, λ h. cc)

bindings_iff :
    (env : Env) (m : Exec (Option Env)) (r : Env → Exec Bool) (R : Env → Type 0)
    → ((env' : Env) → (r env' ≡ value true) ↔ R env')
    → ((m >>= with_bindings env r) ≡ value true)
      ↔ ((b : Env) × (m ≡ value (some b)) × R (Map.extend env b))
bindings_iff env (value (some b)) r R q = (
  λ h. (b, refl, (q (Map.extend env b)).0 h),
  λ (c, e, h). let e' : b ≡ c = cc e in (q (Map.extend env b)).1 (rw e' h),
)
bindings_iff env (value none) r R q = (λ h. cc, λ (c, e, h). cc)
bindings_iff env panic r R q = (λ h. cc, λ (c, e, h). cc)

module _ (t : Trace) where
  pub and_iff :
      (i : ℕ) (env : Env) (o : Option Predicate) (l : Exec Bool) (r : Env → Exec Bool) (L : Type 0)
      (R : Env → Type 0)
      → (l ≡ value true) ↔ L
      → ((env' : Env) → (r env' ≡ value true) ↔ R env')
      → (eval_and t i env o l r ≡ value true) ↔ HoldsBoth t i env o L R
  unfolding eval_and
  and_iff i env none (value true) r L R p q = (λ h. (p.0 refl, (q env).0 h), λ h. (q env).1 h.1)
  and_iff i env none (value false) r L R p q = (λ h. cc, λ h. cc (p.1 h.0))
  and_iff i env none panic r L R p q = (λ h. cc, λ h. cc (p.1 h.0))
  and_iff i env (some pr) l r L R p q = bindings_iff env (match_predicate t i env pr) r R q

  pub formerly_iff :
      (i : ℕ) (w : Interval) (f : ℕ → Exec Bool) (C : ℕ → Type 0)
      → i < trace_len t
      → ((j : ℕ) → j ≤ i → Returns (f j))
      → ((j : ℕ) → j ≤ i → (f j ≡ value true) ↔ C j)
      → (scan_formerly t i w f ≡ value true) ↔ HoldsFormerly t i (concrete w) C
  unfolding scan_formerly
  formerly_iff i w f C h ret q = (
    λ e.
        let (j, p, found) = any_down_sound _ i e in
        let (a, b) = (window_and_iff (in_window t i j w) (f j)).0 found in (j, p, a, (q j p).0 b),
    λ (j, p, a, c).
        any_down_complete _ i j
          (λ k s. in_window_and-Returns t _ _ (in_window-Returns t i k w h (omega arith)) (ret k s))
          p ((window_and_iff (in_window t i j w) (f j)).1 (a, (q j p).1 c)),
  )

  pub previous_iff :
      (i : ℕ) (w : Interval) (f : ℕ → Exec Bool) (C : ℕ → Type 0)
      → ((j : ℕ) → suc j ≡ i → (f j ≡ value true) ↔ C j)
      → (eval_previous t i (value w) f ≡ value true) ↔ HoldsPrevious t i (concrete w) C
  unfolding eval_previous
  previous_iff zero w f C q = (λ h. cc, λ (j, e, a, c). absurd (omega arith))
  previous_iff (suc n) w f C q = (
    λ e.
        let (a, b) = (window_and_iff (in_window t (suc n) n w) (f n)).0 e in
        (n, refl, a, (q n refl).0 b),
    λ (j, e, a, c).
        let e' : j ≡ n = omega arith in
        (window_and_iff (in_window t (suc n) n w) (f n)).1 (rw e' at a, (q n refl).1 (rw e' at c)),
  )

  anchor_iff :
      (i j : ℕ) (r : Exec Bool) (l : ℕ → Exec Bool) (R : Type 0) (L : ℕ → Type 0)
      → j ≤ i
      → (r ≡ value true) ↔ R
      → ((k : ℕ) → k ≤ i → (l k ≡ value true) ↔ L k)
      → (anchor_holds i j r l ≡ value true) ↔ R × ((k : ℕ) → j < k → k ≤ i → L k)
  unfolding anchor_holds
  anchor_iff i j (value true) l R L h p q = (
    λ e. (
      p.0 refl,
      λ k a b. (q k b).0 ((all_up_iff l (suc j) (i - j)).0 e k (omega arith) (omega arith)),
    ),
    λ (r, e).
        (all_up_iff l (suc j) (i - j)).1
          (λ k a b. (q k (omega arith)).1 (e k (omega arith) (omega arith))),
  )
  anchor_iff i j (value false) l R L h p q = (λ e. cc, λ (r, e). cc (p.1 r))
  anchor_iff i j panic l R L h p q = (λ e. cc, λ (r, e). cc (p.1 r))

  pub since_iff :
      (i : ℕ) (w : Interval) (l r : ℕ → Exec Bool) (L R : ℕ → Type 0)
      → i < trace_len t
      → ((k : ℕ) → k ≤ i → Returns (l k))
      → ((k : ℕ) → k ≤ i → Returns (r k))
      → ((k : ℕ) → k ≤ i → (l k ≡ value true) ↔ L k)
      → ((k : ℕ) → k ≤ i → (r k ≡ value true) ↔ R k)
      → (eval_since t i w l r ≡ value true) ↔ HoldsSince t i (concrete w) L R
  unfolding eval_since
  since_iff i w l r L R h lret rret ql qr = (
    λ e.
        let (j, p, found) = any_down_sound _ i e in
        let (a, b) = (window_and_iff (in_window t i j w) (anchor_holds i j (r j) l)).0 found in
        let (c, d) = (anchor_iff i j (r j) l (R j) L p (qr j p) ql).0 b in (j, p, a, c, d),
    λ (j, p, a, c, d).
        any_down_complete _ i j
          (λ k s.
            in_window_and-Returns t _ _ (in_window-Returns t i k w h (omega arith))
              (anchor_holds-Returns t i k (r k) l s (rret k s) lret))
          p
          ((window_and_iff (in_window t i j w) (anchor_holds i j (r j) l)).1
            (a, (anchor_iff i j (r j) l (R j) L p (qr j p) ql).1 (c, d))),
  )

  pub exists_iff :
      (i : ℕ) (env : Env) (v : BinderSlot) (c : Condition)
      → IsNamed v
      → ((slot_name v >>= λ n. map_exec is_nonempty (match_occurrences t i (Map.remove env n) c))
          ≡ value true)
        ↔ HoldsExists t i env v c
  unfolding slot_name
  exists_iff i env (name n) c x = nonempty_iff (match_occurrences t i (Map.remove env n) c)
  exists_iff i env (slot_param p) c x = absurd x
  exists_iff i env (slot_binder p) c x = absurd x
