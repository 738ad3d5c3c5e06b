-- ===== src/LeafMap/Needed.antt =====
-- What the leaf map lists for an action: `LeafMap::build` and `needed_for` of
-- dogwood-language/src/leaf_map.rs.
use dogwood.Prelude.{
  ◌≡◌, ◌∙◌, refl, sym, ap, Bool, true, false, ◌&&◌, ◌||◌, Option, none, some, List, [], ◌∷◌, Str,
  str_eq, any, arith,
}
use dogwood.Prelude.Options.{◌>>=◌, >>=-eq-some}
use dogwood.Map
use dogwood.Map.{Map}
use dogwood.Unicode.{Unicode}
use dogwood.Event.{Event}
use dogwood.LeafMap.{
  ActionRef, ActionScope, concrete_action, action_list, unconstrained, TemporalField, StrSet,
  set_contains, CedarActions, LeafMap, fold_always, fold_if, entry_or_empty, seeded, Expansion,
  targets, why, target_action_uid, target_uids, or_unparsable, expansion, add_expansion, add_leaf,
  add_leaves, build, needed_for, event_action_uid,
}
use dogwood.LeafMap.Entries.{
  entry_has, has_leaf, extend_entry, entry_has-insert_targets, entry_has-seed_actions,
  get-extend_all, set_contains-insert, set_contains-extend,
}

get-fold_always :
    (m : LeafMap) (uid id : Str) {ids : StrSet}
    → Map.get (fold_always m).by_action uid ≡ some ids
    → set_contains ids id ≡ has_leaf m uid id
unfolding fold_always Map.get
get-fold_always m uid id {ids} h = branch m.always h
  where
    entry :
        (always : StrSet) (o : Option StrSet)
        → extend_entry always o ≡ some ids
        → set_contains ids id ≡ (set_contains always id || set_contains (entry_or_empty o) id)
    entry always none e = cc
    entry always (some s) e =
        let q : Map.extend s always ≡ ids = cc in
        rw (← q) (ground (arith, set_contains-extend always s id))

    branch :
        (always : StrSet)
        → Map.get (fold_if always m).by_action uid ≡ some ids
        → set_contains ids id ≡ (set_contains always id || entry_has m.by_action uid id)
    branch [] e = rw e (refl)
    branch (x ∷ xs) e =
        entry (x ∷ xs) (Map.get m.by_action uid) (sym (get-extend_all m.by_action (x ∷ xs) uid) ∙ e)

-- What an expansion reaches.
abbrev reached : Expansion → Str → Bool
reached (targets uids) uid = any (λ v. str_eq v uid) uids
reached (why reason) uid = true

-- The action entity is the one, or is none that Cedar can parse.
abbrev pub may_be : Option Str → Str → Bool
may_be (some v) uid = str_eq v uid
may_be none uid = true

module _ (parse_uid : Str → Option Str) (u : Unicode) where
  -- Some action of a list may be the one.
  abbrev pub any_may_be : List ActionRef → Str → Bool
  any_may_be refs uid = any (λ a. may_be (target_action_uid parse_uid u a) uid) refs

  -- The leaf may concern the action: its scope is the bare `action`, or names no action, or an action that
  -- Cedar cannot parse, or the action itself.
  abbrev pub concerns : ActionScope → List ActionRef → Str → Bool
  concerns unconstrained refs uid = true
  concerns scope [] uid = true
  concerns scope (a ∷ refs) uid = any_may_be (a ∷ refs) uid

  reached-or_unparsable :
      (o : Option (List Str)) (v : Option Str) (uid : Str)
      → reached (or_unparsable parse_uid u (v >>= λ w. o >>= λ ws. some (w ∷ ws))) uid
        ≡ (may_be v uid || reached (or_unparsable parse_uid u o) uid)
  reached-or_unparsable o none uid = refl
  reached-or_unparsable none (some w) uid = ground arith
  reached-or_unparsable (some ws) (some w) uid = refl

  reached-target_uids :
      (refs : List ActionRef) (uid : Str)
      → reached (or_unparsable parse_uid u (target_uids parse_uid u refs)) uid ≡ any_may_be refs uid
  unfolding target_uids
  reached-target_uids [] uid = refl
  reached-target_uids (a ∷ refs) uid =
      reached-or_unparsable (target_uids parse_uid u refs) (target_action_uid parse_uid u a) uid
      ∙ ap (λ b. may_be (target_action_uid parse_uid u a) uid || b) (reached-target_uids refs uid)

  reached-expansion :
      (scope : ActionScope) (refs : List ActionRef) (uid : Str)
      → reached (expansion parse_uid u scope refs) uid ≡ concerns scope refs uid
  unfolding expansion
  reached-expansion unconstrained refs uid = refl
  reached-expansion (concrete_action r) [] uid = refl
  reached-expansion (concrete_action r) (a ∷ refs) uid = reached-target_uids (a ∷ refs) uid
  reached-expansion (action_list rs) [] uid = refl
  reached-expansion (action_list rs) (a ∷ refs) uid = reached-target_uids (a ∷ refs) uid

  has_leaf-add_expansion :
      (x : Expansion) (m : LeafMap) (uid j id : Str)
      → has_leaf (add_expansion parse_uid u m j x) uid id
        ≡ ((reached x uid && str_eq j id) || has_leaf m uid id)
  has_leaf-add_expansion (targets uids) m uid j id =
      ground (arith, entry_has-insert_targets uids m.by_action uid j id)
  has_leaf-add_expansion (why reason) m uid j id = ground (arith, set_contains-insert m.always j id)

  -- A leaf of that id that may concern the action.
  abbrev pub lists : Str → Str → TemporalField → Bool
  lists uid id f = concerns f.action f.target_actions uid && str_eq f.id id

  has_leaf-add_leaves :
      (leaves : List TemporalField) (m : LeafMap) (uid id : Str)
      → has_leaf (add_leaves parse_uid u m leaves) uid id
        ≡ (any (lists uid id) leaves || has_leaf m uid id)
  unfolding add_leaves add_leaf
  has_leaf-add_leaves [] m uid id = refl
  has_leaf-add_leaves (f ∷ leaves) m uid id = ground (
    arith,
    has_leaf-add_leaves leaves (add_leaf parse_uid u m f) uid id,
    has_leaf-add_expansion (expansion parse_uid u f.action f.target_actions) m uid f.id id,
    reached-expansion f.action f.target_actions uid,
  )

  has_leaf-seeded : (schema : CedarActions) (uid id : Str) → has_leaf (seeded schema) uid id ≡ false
  unfolding seeded Map.get
  has_leaf-seeded schema uid id =
      entry_has-seed_actions schema.action_groups schema.actions [] uid id refl

  -- Where `needed_for` answers for an event, it lists exactly the ids of the leaves that may concern the
  -- event's action: their scope is the bare `action`, or has no target action, or has one that Cedar cannot
  -- parse, or has the event's action among its targets.
  pub needed_for-build :
      (leaves : List TemporalField) (schema : CedarActions) (e : Event) (ids : StrSet) (id : Str)
      → needed_for parse_uid u (build parse_uid u leaves schema) e ≡ some ids
      → (uid : Str) × (event_action_uid parse_uid u e ≡ some uid)
        × (set_contains ids id ≡ any (lists uid id) leaves)
  unfolding needed_for build
  needed_for-build leaves schema e ids id h =
      let (uid, p, q) = >>=-eq-some (event_action_uid parse_uid u e) _ h in
      (
        uid,
        p,
        get-fold_always _ uid id q
            ∙ has_leaf-add_leaves leaves (seeded schema) uid id
            ∙ rw (has_leaf-seeded schema uid id) (ground arith),
      )
