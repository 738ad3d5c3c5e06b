-- ===== src/Relativize/Encode.antt =====
-- What the relativization builds: the predicate of an own event, guards, and the encodings of `previous`
-- and of `since`, dogwood-language/src/event_schema/relativize.rs.
use dogwood.Prelude.{
  ℕ, suc, Bool, true, false, ◌&&◌, ◌||◌, List, [], ◌∷◌, ◌++◌, Str, str, join, if◌then◌else◌,
}
use dogwood.Prelude.Panics.{Exec, value, panic, ◌>>=◌}
use dogwood.Decimals.{to_string}
use dogwood.Pins.{DerivedEvent, pin_term}
use dogwood.Ast
use dogwood.Ast.{
  WithinSpec, CmpOp, BinderType, timepoint, named, TypedBinder, Condition, and, or, formerly, since,
  predicate, comparison, exists, tp, pred, NamedArgs, no_args, arg, Term, var, agg, count,
}
use dogwood.Relativize.Universal.{UniversalPin}

unfoldable pub fresh : Str → ℕ → Str
fresh stem n = str "__pin_" ++ (stem ++ to_string n)

-- A predicate for the kind that has exactly the pinned arguments.
unfoldable pub mu_args : List UniversalPin → NamedArgs
mu_args [] = no_args
mu_args (p ∷ ps) = arg (join (str ".") p.field_path) (pin_term p.root p.context_path) (mu_args ps)

unfoldable pub mu_branch : List UniversalPin → DerivedEvent → Condition
mu_branch pins e = predicate (pred e.namespace e.action e.kind (mu_args pins))

unfoldable pub mu_from : List UniversalPin → Condition → List DerivedEvent → Condition
mu_from pins acc [] = acc
mu_from pins acc (e ∷ events) = mu_from pins (or acc (mu_branch pins e)) events

-- An event of any declared kind that agrees with the request on every pin.
unfoldable pub mu : List UniversalPin → List DerivedEvent → Exec Condition
mu pins [] = panic
mu pins (e ∷ events) = value (mu_from pins (mu_branch pins e) events)

-- Only an event that a predicate matches can satisfy the condition.
unfoldable pub implies_mine : Condition → Bool
implies_mine (predicate p) = true
implies_mine (and l r) = implies_mine l || implies_mine r
implies_mine (or l r) = implies_mine l && implies_mine r
implies_mine (exists x c) = implies_mine c
implies_mine _ = false

unfoldable pub guard_mine : List UniversalPin → List DerivedEvent → Condition → Exec Condition
guard_mine pins schema body =
    if implies_mine body then value body else (do m ← mu pins schema; value (and m body))

-- The negation of a condition that only an own event satisfies.
abbrev pub is_confined_negation : Condition → Bool
is_confined_negation (Condition.not inner) = implies_mine inner
is_confined_negation _ = false

abbrev pub ands : Condition → List Condition → Condition
ands first [] = first
ands first (c ∷ parts) = ands (and first c) parts

abbrev pub tp_var : Str → Condition
tp_var n = tp (Ast.name n)

abbrev pub cmp_vars : CmpOp → Str → Str → Condition
cmp_vars op a b = comparison op (var a) (var b)

-- The aggregate stands on the left, so that the comparison binds the variable.
abbrev pub cmp_agg_eq : Term → Str → Condition
cmp_agg_eq e n = comparison CmpOp.eq e (var n)

abbrev pub typed_tp : Str → TypedBinder
typed_tp n = record { slot = Ast.name n; ty = timepoint }

abbrev pub typed_long : Str → TypedBinder
typed_long n = record { slot = Ast.name n; ty = named (str "Long" ∷ []) }

abbrev pub count_agg : Str → Condition → Term
count_agg over body = agg (count (typed_tp over ∷ []) body)

-- `formerly[0,W](body ∧ tp(v))`
abbrev pub formerly_at : WithinSpec → Condition → Str → Condition
formerly_at within body v = formerly within (and body (tp_var v))

-- An own position strictly between the anchor and the decision.
unfoldable pub between : WithinSpec → Condition → Condition → Str → Str → Str → Condition
between within mine b ti tj tk = exists (typed_tp tk) (
    ands (formerly_at within mine tk) (
      formerly_at within b tj ∷ tp_var ti ∷ cmp_vars CmpOp.lt tj tk ∷ cmp_vars CmpOp.lt tk ti ∷ []))

unfoldable pub latest_own : WithinSpec → Condition → Condition → Str → Str → Str → Condition
latest_own within mine b ti tj tk = exists (typed_tp ti) (
    exists (typed_tp tj) (
      ands (tp_var ti) (
        formerly_at within b tj
        ∷ cmp_vars CmpOp.lt tj ti
        ∷ Condition.not (between within mine b ti tj tk)
        ∷ [])))

-- `rewrite_previous`, after its body is rewritten and guarded.
unfoldable pub encode_previous :
    List UniversalPin → List DerivedEvent → WithinSpec → Condition → ℕ → Exec (Condition × ℕ)
encode_previous pins schema within b n = do
  mine ← mu pins schema
  value (
    latest_own within mine b (fresh (str "ti") n) (fresh (str "tj") (suc n))
        (fresh (str "tk") (suc (suc n))),
    suc (suc (suc n)),
  )

-- How many own positions in `(tj, ti]` satisfy the condition.
unfoldable pub count_in_range : WithinSpec → Condition → Condition → Str → Str → Str → Term
count_in_range within at anchor ti tj tk = count_agg tk (
    ands (formerly_at within at tk)
      (anchor ∷ tp_var ti ∷ cmp_vars CmpOp.lt tj tk ∷ cmp_vars CmpOp.le tk ti ∷ []))

unfoldable pub continuous_since :
    WithinSpec → Condition → Condition → Condition → Str → Str → Str → Str → Str → Str → Condition
continuous_since within mine l anchor ti tj tk_all tk_left n1 n2 = exists (typed_tp ti) (
    exists (typed_tp tj) (
      exists (typed_long n1) (
        exists (typed_long n2) (
          ands (tp_var ti) (
            anchor
            ∷ cmp_agg_eq (count_in_range within mine anchor ti tj tk_all) n1
            ∷ cmp_agg_eq (count_in_range within (and mine l) anchor ti tj tk_left) n2
            ∷ cmp_vars CmpOp.eq n1 n2
            ∷ [])))))

-- The general encoding of `rewrite_since`, after both sides are rewritten and the right one guarded.
unfoldable pub encode_since :
    List UniversalPin
    → List DerivedEvent
    → Condition
    → WithinSpec
    → Condition
    → ℕ
    → Exec (Condition × ℕ)
encode_since pins schema l within anchor_body n = do
  mine ← mu pins schema
  let tj = fresh (str "tj") (suc n)
  value (
    continuous_since within mine l (formerly_at within anchor_body tj) (fresh (str "ti") n) tj
        (fresh (str "tk_all") (suc (suc n))) (fresh (str "tk_left") (suc (suc (suc n))))
        (fresh (str "n") (suc (suc (suc (suc n)))))
        (fresh (str "n") (suc (suc (suc (suc (suc n)))))),
    suc (suc (suc (suc (suc (suc n))))),
  )
