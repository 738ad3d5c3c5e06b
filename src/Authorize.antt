-- ===== src/Authorize.antt =====
-- The decision runtime, dogwood-language/src/api.rs: `ingest`, `decide_at`, `decide`, and the response of
-- dogwood-language/src/authorize/mod.rs.
pub mod FailClosed
pub mod Runtime
use dogwood.Prelude.{
  ℕ, zero, suc, Bool, true, false, not, Option, none, some, List, [], ◌∷◌, ◌++◌, map, any, Str, str,
  str_eq, if◌then◌else◌,
}
use dogwood.Prelude.Options
use dogwood.Prelude.Panics
use dogwood.Prelude.Panics.{Exec, value, panic}
use dogwood.Prelude.Results.{Result, ok, err, ◌>>=◌, map_err, ok_or, collect}
use dogwood.Map
use dogwood.Map.{Map}
use dogwood.Unicode.{Unicode, entity_uid_string}
use dogwood.Value
use dogwood.Value.{Value, Items, Fields}
use dogwood.Event.{Event, EventData, EntityRecord, Scope}
use dogwood.LeafMap.{qualified_action_uid}
use dogwood.Provider.{Scripts, ProviderField, Resolver, eval_provider}
use dogwood.Cedar.{Cedar, Decision, allow, deny}
use dogwood.Engine.{Bindings}
use dogwood.CedarRequest.{build_context, build_request, build_entities}

pub record DogwoodRuleRef : Type 0 where
  pub rule_index : ℕ
  pub cedar_policy_id : Str

pub record Response : Type 0 where
  pub decision : Decision
  pub reason : List DogwoodRuleRef
  pub errors : List Str

unfoldable pub deny_with_errors : List Str → Response
deny_with_errors errors = record { decision = deny; reason = []; errors = errors }

unfoldable pub push_errors : Response → List Str → Response
push_errors r [] = r
push_errors r (e ∷ errors) = record r { errors = (e ∷ errors) ++ r.errors }

pub record AuthorizationDecision : Type 0 where
  pub decision : Decision
  pub determining_policy_ids : List Str
  pub errors : List Str

-- The lifecycle of a temporal engine after its preparation.
pub record TemporalEngine (E : Type 0) : Type 0 where
  pub observe : E → Event → E
  pub evaluate : E → Exec (Result Bindings × E)

-- `rule_ids.iter().position(|rid| rid == id)`
abbrev pub position : Str → List Str → ℕ → Option ℕ
position id [] k = none
position id (r ∷ ids) k =
    let later = position id ids (suc k) in if str_eq r id then some k else later

abbrev pub cons_ref : Str → Option ℕ → List DogwoodRuleRef → List DogwoodRuleRef
cons_ref id none refs = refs
cons_ref id (some k) refs = record { rule_index = k; cedar_policy_id = id } ∷ refs

unfoldable pub rule_refs : List Str → List Str → List DogwoodRuleRef
rule_refs rule_ids [] = []
rule_refs rule_ids (id ∷ ids) = cons_ref id (position id rule_ids 0) (rule_refs rule_ids ids)

module _ (c : Cedar) (s : Scripts) (u : Unicode) where
  -- The fields of `Lowered` that a decision reads.
  pub record Lowered : Type 0 where
    pub decision_kinds : List Str
    pub providers : List (ProviderField s)
    pub rule_ids : List Str

  module _ (policy : c.Request → c.Entities → AuthorizationDecision) (lowered : Lowered) where
    unfoldable pub decide : c.Request → c.Entities → Response
    decide request entities =
        let d = policy request entities in
        record {
          decision = d.decision;
          reason = rule_refs lowered.rule_ids d.determining_policy_ids;
          errors = d.errors;
        }

    -- Any error on the way to the policies denies.
    abbrev pub or_deny : Result Response → Response
    or_deny (ok r) = r
    or_deny (err e) = deny_with_errors (e ∷ [])

    abbrev pub temporal_result : Result Bindings → Result Bindings
    temporal_result r = map_err (str "temporal evaluation: ") r

    -- `decide_at` after the temporal engine answered.
    unfoldable pub decide_from : Option Resolver → Event → Result Bindings → Response
    decide_from resolver event temporal = or_deny (do
      bindings ← temporal_result temporal
      context ← build_context c s u bindings lowered.providers resolver event.event
      request ← build_request c s u event.event event.scope context
      entities ← build_entities c s u request event.event
      ok (push_errors (decide request entities) []))

    module _ {E : Type 0} (temporal : TemporalEngine E) where
      unfoldable pub decide_at : E → Option Resolver → Event → Exec (Response × E)
      decide_at e resolver event =
          Panics.map_exec (λ (r : Result Bindings × E). (decide_from resolver event r.0, r.1))
            (temporal.evaluate e)

      abbrev pub some_response : Response × E → Option Response × E
      some_response r = (some r.0, r.1)

      -- Every event is observed; an event of a decision kind is decided too.
      unfoldable pub ingest : E → Option Resolver → Event → Exec (Option Response × E)
      ingest e resolver event =
          let observed = temporal.observe e event in
          if any (λ k. str_eq k event.event.kind) lowered.decision_kinds
          then Panics.map_exec some_response (decide_at observed resolver event)
          else value (none, observed)
