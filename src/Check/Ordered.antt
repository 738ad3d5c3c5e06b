-- ===== src/Check/Ordered.antt =====
-- What the evaluation-order rule asks of one conjunct: `check_demands` of
-- dogwood-language/src/extension/temporal/check.rs against the rows of the relational mode.
use dogwood.Prelude.{
  ◌≡◌, ◌∙◌, refl, sym, ap, Bool, true, false, ◌||◌, Option, none, some, [], ◌∷◌, Str, str_eq,
  str_eq_iff, arith, ◌⊎◌, inl, inr, Bool-cases, any, any-append, if◌then◌else◌,
}
use dogwood.Prelude.Results.{Result, ok, ◌>>◌, >>=-eq-ok}
use dogwood.Map
use dogwood.LeafMap.{StrSet, set_contains}
use dogwood.Ast.{
  BinderSlot, name, slot_param, slot_binder, Condition, and, formerly, previous, since, comparison,
  exists, Term,
}
use dogwood.Check.{
  body_has_sigil, bare_var, eq_var_of, collect_range_restricted, collect_free, collect_term_var,
  remove_slot, find_missing,
}
use dogwood.Check.Names.{contains-remove}
use dogwood.Check.Restricted.{Restricts, collected, and_left, and_right}
use dogwood.Check.Safe.{first_ok, none_or_ok}
use dogwood.Check.Demands.{
  visit, check_conjunct_demands, reject_unmet_filter_var, comparison_demands, value_side, is_and,
  flatten_and, conjunct,
}

abbrev pub Lists : StrSet → Str → Type 0
Lists names x = set_contains names x ≡ true

-- The variables that a conjunct reads and does not bind itself.
abbrev pub ComparisonConsumes : Option Str → Term → Term → Str → Type 0
ComparisonConsumes (some bound) l r x =
    Lists (collect_term_var (value_side (bare_var l) bound l r) []) x
ComparisonConsumes none l r x = Lists (collect_term_var r (collect_term_var l [])) x

abbrev pub Consumes : Condition → Str → Type 0
Consumes (Condition.not c) x = Lists (collect_free c []) x
Consumes (since l w r) x =
    Lists (collect_free l []) x × (set_contains (collect_range_restricted r []) x ≡ false)
Consumes (comparison op l r) x = ComparisonConsumes (eq_var_of op l r) l r x
Consumes (formerly w c) x = Consumes c x
Consumes (previous w c) x = Consumes c x
Consumes (exists v c) x = Consumes c x
Consumes _ x = ⊥

or_false : (b : Bool) → (b || false) ≡ b
or_false true = refl
or_false false = refl

pub any-flatten_and : (c : Condition) → any body_has_sigil (flatten_and c) ≡ body_has_sigil c
unfolding flatten_and body_has_sigil
any-flatten_and (and l r) =
    any-append body_has_sigil (flatten_and l) (flatten_and r)
    ∙ rw (any-flatten_and l, any-flatten_and r) refl
any-flatten_and _ = or_false _

found_all :
    (has : Str → Bool) (names : StrSet) (x : Str)
    → find_missing has names ≡ none
    → Lists names x
    → has x ≡ true
unfolding find_missing Map.get
found_all has [] x h k = cc
found_all has ((n, u) ∷ names) x h k = elim (Bool-cases (has n)) [
  | inl here ↦ elim (Bool-cases (str_eq n x)) [
    | inl same ↦ ap has (sym ((str_eq_iff n x).0 same)) ∙ here
    | inr other ↦ found_all has names x (rw here at h) (ground (arith))
  ]
  | inr missing ↦ let never = rw missing at h in cc
]

pub removed_slot :
    (s : BinderSlot) (rho : StrSet) (x : Str) → Lists (remove_slot s rho) x → Lists rho x
removed_slot (name n) rho x h = (contains-remove rho n x h).1
removed_slot (slot_param p) rho x h = h
removed_slot (slot_binder b) rho x h = h

chain_or :
    (c : Condition) (x : Str) (m : Result (Unit {0}))
    → Consumes c x
    → (if is_and c then ok tt else m) ≡ ok tt
    → m ≡ ok tt
chain_or (and l r) x m k h = absurd k
chain_or _ x m k h = h

comparison_met :
    (o : Option Str) (l r : Term) (rho : StrSet) (x : Str)
    → ComparisonConsumes o l r x
    → comparison_demands o l r rho ≡ ok tt
    → Lists rho x
unfolding reject_unmet_filter_var
comparison_met (some bound) l r rho x k h = found_all (set_contains rho) _ x (none_or_ok _ _ h) k
comparison_met none l r rho x k h = found_all (set_contains rho) _ x (none_or_ok _ _ h) k

pub check_conjunct_demands-Lists :
    (c : Condition) (rho : StrSet) (x : Str)
    → Consumes c x
    → check_conjunct_demands c rho ≡ ok tt
    → Lists rho x
unfolding check_conjunct_demands reject_unmet_filter_var
check_conjunct_demands-Lists (Condition.not c) rho x k h =
    found_all (set_contains rho) (collect_free c []) x (none_or_ok _ _ h) k
check_conjunct_demands-Lists (since l w r) rho x k h =
    let listed = found_all _ (collect_free l []) x (none_or_ok _ _ h) k.0 in rw k.1 at listed
check_conjunct_demands-Lists (comparison op l r) rho x k h =
    comparison_met (eq_var_of op l r) l r rho x k h
check_conjunct_demands-Lists (formerly w c) rho x k h =
    check_conjunct_demands-Lists c rho x k (chain_or c x _ k h)
check_conjunct_demands-Lists (previous w c) rho x k h =
    check_conjunct_demands-Lists c rho x k (chain_or c x _ k h)
check_conjunct_demands-Lists (exists v c) rho x k h =
    removed_slot v.slot rho x
      (check_conjunct_demands-Lists c (remove_slot v.slot rho) x k (chain_or c x _ k h))
check_conjunct_demands-Lists _ rho x k h = absurd k

-- What a conjunct adds to the walk is what it restricts.
conjunct_adds :
    (c : Condition) (nested : StrSet → Result (Unit {0})) (rho rho' : StrSet)
    → (conjunct c nested).walk rho ≡ ok rho'
    → (check_conjunct_demands c rho ≡ ok tt) × (collect_range_restricted c rho ≡ rho')
conjunct_adds c nested rho rho' h =
    let (u, p, q) = >>=-eq-ok (check_conjunct_demands c rho >> nested rho) _ h in
    (first_ok _ _ p, cc)

-- What the walk adds along a chain, every row of the chain binds.
pub walk-adds :
    (c : Condition) (rho rho' : StrSet) (x : Str)
    → (visit c).walk rho ≡ ok rho'
    → Lists rho' x
    → Lists rho x ⊎ Restricts x c
unfolding visit
walk-adds (and l r) rho rho' x h k =
    let (mid, p, q) = >>=-eq-ok ((visit l).walk rho) _ h in
    elim (walk-adds r mid rho' x q k) [
      | inl before ↦ elim (walk-adds l rho mid x p before) [
        | inl old ↦ inl old
        | inr left ↦ inr (and_left x l r left)
      ]
      | inr right ↦ inr (and_right x l r right)
    ]
walk-adds c rho rho' x h k =
    let (p, q) = conjunct_adds c ((visit c).nested_chains) rho rho' h in
    collected x c rho (ap (λ names. set_contains names x) q ∙ k)
