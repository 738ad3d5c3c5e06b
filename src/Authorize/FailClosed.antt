-- ===== src/Authorize/FailClosed.antt =====
-- The error paths of `decide_at`, dogwood-language/src/api.rs.
use dogwood.Prelude.{◌≡◌, ◌↔◌, refl, Option}
use dogwood.Prelude.Results.{Result, ok, err, >>=-eq-ok}
use dogwood.Unicode.{Unicode}
use dogwood.Event.{Event}
use dogwood.Provider.{Scripts, Resolver}
use dogwood.Cedar.{Cedar, allow}
use dogwood.Engine.{Bindings}
use dogwood.CedarRequest.{build_context, build_request, build_entities}
use dogwood.Authorize.{
  Response, AuthorizationDecision, Lowered, deny_with_errors, push_errors, decide, decide_from,
  or_deny, temporal_result,
}

module _ (c : Cedar) (s : Scripts) (u : Unicode) where
  -- The policy engine allows the request, and everything on the way to it succeeded.
  abbrev pub Allowed :
      (c.Request → c.Entities → AuthorizationDecision)
      → Lowered c s u
      → Option Resolver
      → Event
      → Bindings
      → Type 0
  Allowed policy lowered resolver event bindings =
      (context : c.Context) × (request : c.Request) × (entities : c.Entities) × (build_context c s u
          bindings lowered.providers resolver event.event
        ≡ ok context)
      × (build_request c s u event.event event.scope context ≡ ok request)
      × (build_entities c s u request event.event ≡ ok entities)
      × ((policy request entities).decision ≡ allow)

  module _ (policy : c.Request → c.Entities → AuthorizationDecision) (lowered : Lowered c s u) where
    or_deny-allow :
        (m : Result Response)
        → (or_deny c s u policy lowered m).decision ≡ allow
        → (r : Response) × (m ≡ ok r) × (r.decision ≡ allow)
    unfolding deny_with_errors
    or_deny-allow (ok r) h = (r, refl, h)
    or_deny-allow (err e) h = cc

    temporal_ok :
        (t : Result Bindings) (b : Bindings)
        → temporal_result c s u policy lowered t ≡ ok b
        → t ≡ ok b
    temporal_ok (ok a) b h = h
    temporal_ok (err e) b h = cc

    -- The decision allows exactly if the temporal engine answered, the context, the request and the entity
    -- store, the action entities in it included, were built without an error, and the policy engine allows
    -- that request over that store.
    pub decide_from-allow :
        (resolver : Option Resolver) (event : Event) (temporal : Result Bindings)
        → ((decide_from c s u policy lowered resolver event temporal).decision ≡ allow) ↔ (
            (bindings : Bindings) × (temporal ≡ ok bindings)
            × Allowed policy lowered resolver event bindings)
    unfolding decide_from decide push_errors
    decide_from-allow resolver event temporal = (
      λ h.
          let (r, p, q) = or_deny-allow _ h in
          let (bindings, p1, p) = >>=-eq-ok (temporal_result c s u policy lowered temporal) _ p in
          let (context, p2, p) =
            >>=-eq-ok (build_context c s u bindings lowered.providers resolver event.event) _ p in
          let (request, p3, p) =
            >>=-eq-ok (build_request c s u event.event event.scope context) _ p in
          let (entities, p4, p) = >>=-eq-ok (build_entities c s u request event.event) _ p in
          (
            bindings,
            temporal_ok temporal bindings p1,
            (context, request, entities, p2, p3, p4, cc),
          ),
      λ (bindings, p1, (context, request, entities, p2, p3, p4, p5)). rw (p1, p2, p3, p4) p5,
    )
