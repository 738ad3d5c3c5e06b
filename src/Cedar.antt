-- ===== src/Cedar.antt =====
-- What the authorizer uses of the `cedar-policy` crate: expressions, contexts, requests, entities.
use dogwood.Prelude.{Bool, Option, List, Str}
use dogwood.Prelude.Results.{Result}
use dogwood.Int.{ℤ}

-- `Decision`
pub data Decision : Type 0 where
  allow deny : Decision

-- The operations of the crate. An error carries its text; the store is checked against one schema.
pub record Cedar : Type 1 where
  pub Expr : Type 0
  pub Context : Type 0
  pub Uid : Type 0
  pub Request : Type 0
  pub Entity : Type 0
  pub Entities : Type 0
  pub new_bool : Bool → Expr
  pub new_long : ℤ → Expr
  pub new_string : Str → Expr
  pub new_decimal : Str → Expr
  pub new_entity_uid : Uid → Expr
  pub new_set : List Expr → Expr
  pub new_record : List (Str × Expr) → Option Expr
  pub context_from_pairs : List (Str × Expr) → Result Context
  pub uid_from_str : Str → Result Uid
  pub unknown_uid : Uid
  pub uid_to_string : Uid → Str
  pub new_request : Uid → Uid → Uid → Context → Result Request
  pub principal : Request → Option Uid
  pub resource : Request → Option Uid
  pub new_entity : Uid → List (Str × Expr) → List Uid → Result Entity
  pub with_uid : Uid → Entity
  pub from_entities : List Entity → Result Entities
  pub add_entities : Entities → List Entity → Result Entities
  pub action_entities : Result (List Entity)
