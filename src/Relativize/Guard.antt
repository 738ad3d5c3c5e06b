-- ===== src/Relativize/Guard.antt =====
-- On an own event the guard is a tautology, and it binds nothing: `mu` and `guard_mine` of
-- dogwood-language/src/event_schema/relativize.rs.
use dogwood.Prelude.{
  ℕ, ◌<◌, ◌≡◌, ◌∙◌, refl, ap, subst, Bool, true, false, ◌||◌, Option, none, some, List, [], ◌∷◌,
  ◌++◌, any, all, map, arith, &&_split, fun_ext, if◌then◌else◌,
}
use mathlib.Core.List.{append-nil}
use dogwood.Prelude.Panics.{Exec, value, panic, ◌>>=◌, map_exec}
use dogwood.Map
use dogwood.Event.{EventData, Trace, trace_event, trace_len}
use dogwood.Ast.{Condition, and, or, predicate, pred, Predicate}
use dogwood.Rows.{Env, Row, push_all_new, push_new, rows_eq, zip_columns_eq, join_all}
use dogwood.Loop.{collect_rows}
use dogwood.Loop.Laws.{Returns}
use dogwood.Resolve.{match_predicate, match_args, match_args_from}
use dogwood.Eval.{
  as_predicate, is_some, option_row, eval_and, and_rows, eval_condition, match_occurrences,
}
use dogwood.Eval.Operators.{point-Returns}
use dogwood.Eval.Returning.{map_exec-Returns}
use dogwood.Eval.Names.{HasIdentifiers}
use dogwood.Eval.RowDistinct.{join_all-match_occurrences}
use dogwood.Eval.SameKeys.{SameKeys}
use dogwood.Pins.{DerivedEvent}
use dogwood.Pins.Unforgeable.{pin_holds, keep_if, match_pin_args}
use dogwood.Relativize.{UniversalPin, mu_from, mu_branch, mu_args}
use dogwood.Relativize.Mine.{
  pin_of, has_identity, is_mine, mu_args-pin_args, all-map, pin_holds_same,
}
use dogwood.Relativize.Same.{Same}

-- The truth value and the rows of a condition that binds nothing.
abbrev Tells : Trace → ℕ → Env → Condition → Bool → Type 0
Tells t i env c b =
    (eval_condition t i env c ≡ value b)
    × (match_occurrences t i env c ≡ value (if b then [] ∷ [] else []))

abbrev empty_match : Bool → Option Env
empty_match b = if b then some [] else none

or-Tells :
    (t : Trace) (i : ℕ) (env : Env) (l r : Condition) (a b : Bool)
    → Tells t i env l a
    → Tells t i env r b
    → Tells t i env (or l r) (a || b)
unfolding eval_condition push_all_new push_new rows_eq zip_columns_eq
or-Tells t i env l r true true p q = (rw (p.0) refl, rw (p.1, q.1) refl)
or-Tells t i env l r true false p q = (rw (p.0) refl, rw (p.1, q.1) refl)
or-Tells t i env l r false true p q = (rw (p.0, q.0) refl, rw (p.1, q.1) refl)
or-Tells t i env l r false false p q = (rw (p.0, q.0) refl, rw (p.1, q.1) refl)

or_assoc : (a b c : Bool) → ((a || b) || c) ≡ (a || (b || c))
or_assoc a b c = ground arith

module _ (start : Env) (schema : List DerivedEvent) (pins : List UniversalPin) (t : Trace) (i : ℕ)
    (env : Env) (x : EventData) (at : trace_event t i ≡ value x) (s : SameKeys start env)
    (holds : all (λ (u : UniversalPin). pin_holds start x (pin_of u)) pins ≡ true) where
  branch_match :
      (e : DerivedEvent)
      → match_predicate t i env (pred e.namespace e.action e.kind (mu_args pins))
        ≡ value (empty_match (has_identity x e))
  unfolding match_predicate match_args
  branch_match e = rw at (by_identity (has_identity x e))
    where
      args : match_args_from env x (mu_args pins) [] ≡ value (some [])
      args =
          ap (λ a. match_args_from env x a []) (mu_args-pin_args pins)
          ∙ match_pin_args env x (map pin_of pins) []
          ∙ ap (λ b. value (keep_if b (some [])))
              (all-map (pin_holds env x) pins
                ∙ ap (λ (f : UniversalPin → Bool). all f pins)
                    (fun_ext (λ (u : UniversalPin). pin_holds_same start env x (pin_of u) s))
                ∙ holds)

      by_identity :
          (b : Bool)
          → (if b then match_args_from env x (mu_args pins) [] else value none)
            ≡ value (empty_match b)
      by_identity true = args
      by_identity false = refl

  branch-Tells : (e : DerivedEvent) → Tells t i env (mu_branch pins e) (has_identity x e)
  unfolding mu_branch eval_condition
  branch-Tells e = rw (branch_match e) (by_identity (has_identity x e))
    where
      by_identity :
          (b : Bool)
          → (map_exec is_some (value (empty_match b)) ≡ value b)
            × (map_exec option_row (value (empty_match b)) ≡ value (if b then [] ∷ [] else []))
      by_identity true = (refl, refl)
      by_identity false = (refl, refl)

  mu_from-Tells :
      (acc : Condition) (events : List DerivedEvent) (b : Bool)
      → Tells t i env acc b
      → Tells t i env (mu_from pins acc events) (b || any (has_identity x) events)
  unfolding mu_from
  mu_from-Tells acc [] true p = p
  mu_from-Tells acc [] false p = p
  mu_from-Tells acc (e ∷ events) b p =
      subst (Tells t i env (mu_from pins (or acc (mu_branch pins e)) events))
        (or_assoc b (has_identity x e) _)
        (mu_from-Tells (or acc (mu_branch pins e)) events (b || has_identity x e)
          (or-Tells t i env acc (mu_branch pins e) b (has_identity x e) p (branch-Tells e)))

mu_from-as_predicate :
    (pins : List UniversalPin) (l r : Condition) (events : List DerivedEvent)
    → as_predicate (mu_from pins (or l r) events) ≡ none
unfolding mu_from
mu_from-as_predicate pins l r [] = refl
mu_from-as_predicate pins l r (e ∷ events) =
    mu_from-as_predicate pins (or l r) (mu_branch pins e) events

joined_empty :
    (m : Exec (List Row))
    → ((rows : List Row) → m ≡ value rows → join_all [] rows ≡ rows)
    → (map_exec (join_all []) m >>= λ found. value (found ++ [])) ≡ m
joined_empty (value rows) h = ap value (append-nil _ ∙ h rows refl)
joined_empty panic h = refl

module _ (t : Trace) (i : ℕ) (env : Env) where
  and_rows-unit :
      (m c : Condition)
      → HasIdentifiers c
      → match_occurrences t i env m ≡ value ([] ∷ [])
      → match_occurrences t i env (and m c) ≡ match_occurrences t i env c
  unfolding eval_condition and_rows collect_rows Map.extend
  and_rows-unit m c n e = rw e (
      joined_empty (match_occurrences t i env c)
        (λ rows q. join_all-match_occurrences c t i env rows n q))

  eval_and-unit :
      (m c : Condition)
      → as_predicate m ≡ none
      → eval_condition t i env m ≡ value true
      → eval_condition t i env (and m c) ≡ eval_condition t i env c
  unfolding eval_condition eval_and
  eval_and-unit m c a e = rw (a, e) refl

  eval_and-match :
      (p : Predicate) (c : Condition)
      → match_predicate t i env p ≡ value (some [])
      → eval_condition t i env (and (predicate p) c) ≡ eval_condition t i env c
  unfolding eval_condition eval_and Map.extend
  eval_and-match p c e = rw e refl

event-Returns : (t : Trace) (i : ℕ) → i < trace_len t → Returns (trace_event t i)
unfolding trace_event
event-Returns t i h = map_exec-Returns _ _ (point-Returns t i h)

module _ (start : Env) (first : DerivedEvent) (pins : List UniversalPin) (t : Trace) (i : ℕ)
    (env : Env) (x : EventData) (at : trace_event t i ≡ value x) (s : SameKeys start env)
    (holds : all (λ (u : UniversalPin). pin_holds start x (pin_of u)) pins ≡ true) where
  guard_eval :
      (others : List DerivedEvent) (c : Condition)
      → any (has_identity x) (first ∷ others) ≡ true
      → eval_condition t i env (mu_from pins (mu_branch pins first) others) ≡ value true
      → eval_condition t i env (and (mu_from pins (mu_branch pins first) others) c)
        ≡ eval_condition t i env c
  unfolding mu_from mu_branch
  guard_eval [] c k e =
      let same : has_identity x first ≡ true = ground arith in
      eval_and-match t i env (pred first.namespace first.action first.kind (mu_args pins)) c (
        branch_match start (first ∷ []) pins t i env x at s holds first
        ∙ ap (λ b. value (empty_match b)) same)
  guard_eval (e' ∷ others) c k e =
      eval_and-unit t i env _ c
        (mu_from-as_predicate pins (mu_branch pins first) (mu_branch pins e') others) e

module _ (start : Env) (first : DerivedEvent) (others : List DerivedEvent)
    (pins : List UniversalPin) where
  -- A conjunction with the guard is its right side.
  pub mu_from-Same :
      (c : Condition)
      → HasIdentifiers c
      → Same start (first ∷ others) pins (and (mu_from pins (mu_branch pins first) others) c) c
  unfolding is_mine
  mu_from-Same c n t i env own h s =
      let (x, at) = event-Returns t i h in
      let (identity, holds) = &&_split (any (has_identity x) (first ∷ others)) _ (own i x at) in
      let schema : List DerivedEvent = first ∷ others in
      let tells =
        mu_from-Tells start schema pins t i env x at s holds (mu_branch pins first) others
          (has_identity x first) (branch-Tells start schema pins t i env x at s holds first) in
      let (e, r) =
        subst (Tells t i env (mu_from pins (mu_branch pins first) others)) identity tells in
      (
        guard_eval start first pins t i env x at s holds others c identity e,
        and_rows-unit t i env (mu_from pins (mu_branch pins first) others) c n r,
      )
