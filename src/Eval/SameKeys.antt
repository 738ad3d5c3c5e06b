-- ===== src/Eval/SameKeys.antt =====
-- Bindings leave the request's part of an environment alone: its keys are no identifiers.
use dogwood.Prelude.{◌≡◌, sym, ◌∙◌, List, [], ◌∷◌, Str}
use dogwood.Prelude.Panics.{Ensures, bind-Ensures}
use dogwood.Map
use dogwood.Map.Laws.{get-insert_ne, get-remove_ne}
use dogwood.Ast.{BinderSlot, name, slot_param, slot_binder, slot_name, TypedBinder, binder_name}
use dogwood.Rows.{Env, Row}
use dogwood.Eval.{extend_env, shed_for_binders}
use dogwood.RequestEnv.Keys.{IsIdentifier, IsKey, key-ne-identifier}
use dogwood.Eval.Names.{SlotIdentifier, SlotIdentifiers, Named}

-- The two environments read every request key alike.
abbrev pub SameKeys : Env → Env → Type 0
SameKeys start env = (k : Str) → IsKey k → Map.get env k ≡ Map.get start k

module _ (start : Env) where
  pub extend-SameKeys :
      (row : Row) (env : Env) → Named row → SameKeys start env → SameKeys start (extend_env env row)
  unfolding Map.extend
  extend-SameKeys [] env n h = h
  extend-SameKeys ((j, v) ∷ row) env n h =
      extend-SameKeys row (Map.insert env j v) n.1
        (λ k key. get-insert_ne env j v k (λ e. key-ne-identifier j k n.0 key (sym e)) ∙ h k key)

  pub remove-SameKeys :
      (env : Env) (x : Str)
      → IsIdentifier x
      → SameKeys start env
      → SameKeys start (Map.remove env x)
  remove-SameKeys env x i h k key =
      get-remove_ne env x k (λ e. key-ne-identifier x k i key (sym e)) ∙ h k key

  pub slot-Ensures : (x : BinderSlot) → SlotIdentifier x → Ensures IsIdentifier (slot_name x)
  unfolding slot_name
  slot-Ensures (name n) h = h
  slot-Ensures (slot_param p) h = tt
  slot-Ensures (slot_binder b) h = tt

  pub binder-Ensures :
      (x : TypedBinder) → SlotIdentifier x.slot → Ensures IsIdentifier (binder_name x)
  unfolding binder_name
  binder-Ensures x h = slot-Ensures x.slot h

  pub shed-SameKeys :
      (vs : List TypedBinder) (env : Env)
      → SlotIdentifiers vs
      → SameKeys start env
      → Ensures (SameKeys start) (shed_for_binders env vs)
  unfolding shed_for_binders
  shed-SameKeys [] env s h = h
  shed-SameKeys (v ∷ vs) env s h =
      bind-Ensures IsIdentifier (SameKeys start) (binder_name v) _ (binder-Ensures v s.0)
        (λ n i. shed-SameKeys vs (Map.remove env n) s.1 (remove-SameKeys env n i h))
