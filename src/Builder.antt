-- ===== src/Builder.antt =====
-- The builder of an authorizer, dogwood-language/src/authorize/mod.rs: `AuthorizerBuilder::build`.
pub mod Choice
use dogwood.Prelude.{Bool, true, false, not, ◌&&◌, List, [], ◌∷◌, Str, if◌then◌else◌}
use dogwood.Prelude.Results.{Result, ok, err}
use dogwood.Unicode.{Unicode}
use dogwood.Prelude.{Option}
use dogwood.LeafMap.{TemporalField, CedarActions}
use dogwood.Engine.{Engine, PartitionKey, prepare, set_partition_keys}

-- The part of a temporal engine's lifecycle before its first event.
pub record Backend (E : Type 0) : Type 0 where
  pub prepare : E → List TemporalField → Result E
  pub supports_partitioning : E → Bool
  pub set_partition_keys : E → List PartitionKey → E

-- What a lowered policy set holds for the temporal engine.
pub record Program : Type 0 where
  pub temporal_leaves : List TemporalField
  pub temporal_leaves_nonrelativized : List TemporalField
  pub partition_keys : List PartitionKey

pub data Built {ℓ} (A : Type ℓ) : Type ℓ where
  built : A → Built A
  partitioning_unsupported : Built A
  backend_error : Str → Built A

abbrev pub has_keys : Program → Bool
has_keys program = elim program.partition_keys [ [] ↦ false | _ ∷ _ ↦ true ]

module _ {E : Type 0} (backend : Backend E) where
  abbrev pub start : Bool → Program → E → Result E
  start true program e =
      backend.prepare (backend.set_partition_keys e program.partition_keys)
        program.temporal_leaves_nonrelativized
  start false program e = backend.prepare e program.temporal_leaves

module _ {P E : Type 0} (backend : Backend E) where
  abbrev pub prepared : P → Result E → Built (P × E)
  prepared p (ok e) = built (p, e)
  prepared p (err message) = backend_error message

  abbrev pub after_policy : Bool → Program → E → P → Built (P × E)
  after_policy partitioned program e p =
      if partitioned && not (backend.supports_partitioning e)
      then partitioning_unsupported
      else prepared p (start backend partitioned program e)

  -- The policy engine is prepared first, with the given outcome.
  unfoldable pub build_authorizer : Bool → Program → Result P → E → Built (P × E)
  build_authorizer partition program (err message) e = backend_error message
  build_authorizer partition program (ok p) e =
      after_policy (partition && has_keys program) program e p
