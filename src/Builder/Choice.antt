-- ===== src/Builder/Choice.antt =====
-- The outcomes of `AuthorizerBuilder::build`, dogwood-language/src/authorize/mod.rs.
use dogwood.Prelude.{◌≡◌, ◌≢◌, ◌↔◌, refl, Bool, true, false, not, ◌&&◌, if◌then◌else◌}
use dogwood.Prelude.Results.{Result, ok, err}
use dogwood.Builder.{
  Backend, Program, partitioning_unsupported, has_keys, prepared, start, build_authorizer,
}

module _ {P E : Type 0} (backend : Backend E) where
  prepared_ne : (p : P) (r : Result E) → prepared backend p r ≢ partitioning_unsupported
  prepared_ne p (ok e) h = cc
  prepared_ne p (err m) h = cc

  -- The builder refuses partitioned evaluation exactly if the policy engine was prepared, the caller asked
  -- for partitions, the schema has partition keys, and the temporal engine does not partition.
  pub build_authorizer-unsupported :
      (partition : Bool) (program : Program) (policy : Result P) (e : E)
      → (build_authorizer backend partition program policy e ≡ partitioning_unsupported) ↔ (
          (p : P) × (policy ≡ ok p)
          × (partition ≡ true)
          × (has_keys program ≡ true)
          × (backend.supports_partitioning e ≡ false))
  unfolding build_authorizer
  build_authorizer-unsupported partition program (err m) e = (λ h. cc, λ h. cc h.1)
  build_authorizer-unsupported partition program (ok p) e =
      branch partition (has_keys program) (backend.supports_partitioning e)
    where
      branch :
          (a k s : Bool)
          → ((if (a && k) && not s
                then partitioning_unsupported
                else prepared backend p (start backend (a && k) program e))
              ≡ partitioning_unsupported)
            ↔ ((q : P) × (ok p ≡ ok q) × (a ≡ true) × (k ≡ true) × (s ≡ false))
      branch true true false = (λ h. (p, refl, refl, refl, refl), λ h. refl)
      branch true true true = (λ h. absurd (prepared_ne p _ h), λ h. cc h.4)
      branch true false s = (λ h. absurd (prepared_ne p _ h), λ h. cc h.3)
      branch false k s = (λ h. absurd (prepared_ne p _ h), λ h. cc h.2)
