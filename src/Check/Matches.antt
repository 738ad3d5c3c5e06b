-- ===== src/Check/Matches.antt =====
-- What a match of a predicate and an equality bind, dogwood-language/src/interpreter/eval.rs: `match_args`,
-- `eq_binding`.
use dogwood.Prelude.{
  ◌≡◌, ◌∙◌, refl, sym, ap, subst, Bool, true, false, Option, none, some, List, [], Str, ◌⊎◌, inl,
  inr, All, if◌then◌else◌, ℕ,
}
use dogwood.Prelude.Panics.{Exec, value, panic, ◌>>=◌, map_exec, Ensures}
use dogwood.Map
use dogwood.Value.{Value, dom_eq}
use dogwood.Event.{EventData, Trace, field_path, trace_event}
use dogwood.Ast.{NamedArgs, no_args, arg, arg_path, pred, Term, var, wildcard}
use dogwood.Rows.{Env}
use dogwood.Resolve.{
  match_arg, match_field, match_var, match_resolved, or_get, then_match, match_args_from,
  match_args, match_predicate, same_identity, resolve_term,
}
use dogwood.Eval.{option_row}
use dogwood.Eval.Names.{OptionOf}
use dogwood.LeafMap.{StrSet, set_contains}
use dogwood.Check.{bare_var, insert_option, collect_arg_names}
use dogwood.Check.Names.{contains-set_insert}
use dogwood.Check.Columns.{Binds, get_column, insert-Binds, insert_self-Binds}

module _ (x : Str) where
  -- An argument is the variable itself.
  abbrev pub Mentions : NamedArgs → Type 0
  Mentions no_args = ⊥
  Mentions (arg n t rest) = (bare_var t ≡ some x) ⊎ Mentions rest

  pub contains-insert_option :
      (o : Option Str) (out : StrSet)
      → set_contains (insert_option o out) x ≡ true
      → (set_contains out x ≡ true) ⊎ (o ≡ some x)
  contains-insert_option none out h = inl h
  contains-insert_option (some n) out h = elim (contains-set_insert out n x h) [
    | inl same ↦ inr (ap some same)
    | inr before ↦ inl before
  ]

  pub contains-collect_arg_names :
      (args : NamedArgs) (out : StrSet)
      → set_contains (collect_arg_names args out) x ≡ true
      → (set_contains out x ≡ true) ⊎ Mentions args
  unfolding collect_arg_names
  contains-collect_arg_names no_args out h = inl h
  contains-collect_arg_names (arg n t rest) out h =
      elim (contains-collect_arg_names rest (insert_option (bare_var t) out) h) [
        | inl before ↦ elim (contains-insert_option (bare_var t) out before) [
          | inl old ↦ inl old
          | inr same ↦ inr (inl same)
        ]
        | inr later ↦ inr (inr later)
      ]

  abbrev pub OptionBinds : Option Env → Type 0
  OptionBinds o = OptionOf (Binds x) o

  if-Binds : (b : Bool) (row : Env) → Binds x row → OptionBinds (if b then some row else none)
  if-Binds true row h = h
  if-Binds false row h = tt

  match_var-Binds :
      (o : Option Value) (v : Value) (n : Str) (b : Env)
      → Binds x b
      → OptionBinds (match_var o v n b)
  match_var-Binds none v n b h = insert-Binds x b n v h
  match_var-Binds (some w) v n b h = if-Binds (dom_eq w v) b h

  match_resolved-Binds :
      (m : Exec (Option Value)) (v : Value) (b : Env)
      → Binds x b
      → Ensures OptionBinds (m >>= λ o. value (match_resolved o v b))
  match_resolved-Binds (value none) v b h = tt
  match_resolved-Binds (value (some w)) v b h = if-Binds (dom_eq w v) b h
  match_resolved-Binds panic v b h = tt

  match_field-Binds :
      (env : Env) (o : Option Value) (t : Term) (b : Env)
      → Binds x b
      → Ensures OptionBinds (match_field env o t b)
  unfolding match_arg
  match_field-Binds env none t b h = tt
  match_field-Binds env (some v) wildcard b h = h
  match_field-Binds env (some v) (var n) b h = match_var-Binds _ v n b h
  match_field-Binds env (some v) other b h = match_resolved-Binds (resolve_term env other) v b h

  match_self-Binds :
      (env b : Env) (v : Value)
      → Map.get env x ≡ none
      → OptionBinds (match_var (or_get (Map.get env x) (Map.get b x)) v x b)
  match_self-Binds env b v free = rw free (known (Map.get b x) refl)
    where
      known : (o : Option Value) → Map.get b x ≡ o → OptionBinds (match_var o v x b)
      known none e = insert_self-Binds x b v
      known (some w) e = if-Binds (dom_eq w v) b (w, get_column x b ∙ e)

  match_mention-Binds :
      (env : Env) (o : Option Value) (t : Term) (b : Env)
      → Map.get env x ≡ none
      → bare_var t ≡ some x
      → Ensures OptionBinds (match_field env o t b)
  unfolding match_arg
  match_mention-Binds env none t b free same = tt
  match_mention-Binds env (some v) (var n) b free same =
      let e : n ≡ x = cc in
      subst (λ k. OptionBinds (match_var (or_get (Map.get env k) (Map.get b k)) v k b)) (sym e)
        (match_self-Binds env b v free)
  match_mention-Binds env (some v) _ b free same = cc

  then_match-Binds :
      (P : Env → Type 0) (m : Exec (Option Env)) (k : Env → Exec (Option Env))
      → Ensures (OptionOf P) m
      → ((b : Env) → P b → Ensures OptionBinds (k b))
      → Ensures OptionBinds (then_match m k)
  then_match-Binds P (value none) k h f = tt
  then_match-Binds P (value (some b)) k h f = f b h
  then_match-Binds P panic k h f = tt

  rest-Binds :
      (env : Env) (event : EventData) (args : NamedArgs) (b : Env)
      → Binds x b
      → Ensures OptionBinds (match_args_from env event args b)
  unfolding match_args_from
  rest-Binds env event no_args b h = h
  rest-Binds env event (arg n t rest) b h =
      then_match-Binds (Binds x) _ _ (match_field-Binds env (field_path event (arg_path n)) t b h)
        (λ b' k. rest-Binds env event rest b' k)

  any_match : (m : Exec (Option Env)) → Ensures (OptionOf (λ b. Unit {0})) m
  any_match (value none) = tt
  any_match (value (some b)) = tt
  any_match panic = tt

  match_args_from-Binds :
      (env : Env) (event : EventData) (args : NamedArgs) (b : Env)
      → Map.get env x ≡ none
      → Mentions args
      → Ensures OptionBinds (match_args_from env event args b)
  unfolding match_args_from
  match_args_from-Binds env event no_args b free h = absurd h
  match_args_from-Binds env event (arg n t rest) b free (inl same) =
      then_match-Binds (Binds x) _ _
        (match_mention-Binds env (field_path event (arg_path n)) t b free same)
        (λ b' k. rest-Binds env event rest b' k)
  match_args_from-Binds env event (arg n t rest) b free (inr later) =
      then_match-Binds (λ b'. Unit {0}) _ _ (any_match _)
        (λ b' u. match_args_from-Binds env event rest b' free later)

  -- A match binds the variable that an argument is.
  pub match_predicate-Binds :
      (t : Trace) (i : ℕ) (env : Env) (namespace : List Str) (action kind : Str) (args : NamedArgs)
      → Map.get env x ≡ none
      → Mentions args
      → Ensures
          (All (Binds x))
          (map_exec option_row (match_predicate t i env (pred namespace action kind args)))
  unfolding match_predicate match_args
  match_predicate-Binds t i env namespace action kind args free h = at (trace_event t i)
    where
      rows :
          (m : Exec (Option Env))
          → Ensures OptionBinds m
          → Ensures (All (Binds x)) (map_exec option_row m)
      rows (value none) k = tt
      rows (value (some b)) k = (k, tt)
      rows panic k = tt

      tested :
          (same : Bool) (event : EventData)
          → Ensures
              (All (Binds x))
              (map_exec option_row (if same then match_args_from env event args [] else value none))
      tested true event = rows _ (match_args_from-Binds env event args [] free h)
      tested false event = tt

      at :
          (m : Exec EventData)
          → Ensures (All (Binds x)) (
              map_exec option_row (
                m >>= λ event.
                if same_identity event namespace action kind
                then match_args_from env event args []
                else value none))
      at (value event) = tested (same_identity event namespace action kind) event
      at panic = tt
