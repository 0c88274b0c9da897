-- ===== src/Agents/Invocation.antt =====
-- packages/agents/src/runtime.ts: the work of each role, and its race against the role's timer. What
-- the provider would answer to each role and the roles that run out of time are arguments.

use razorpay_buildathon.Base.{String, Bool, Option, none, some, List, ◌>>=◌, if◌then◌else◌}
use razorpay_buildathon.Base.Order.{TextOrder}
use razorpay_buildathon.Core.Json.{end, Params}
use razorpay_buildathon.Core.Actions.{ActionLibrary}
use razorpay_buildathon.Core.Taxonomy.{DeclineTaxonomy}
use razorpay_buildathon.Core.Roles.{
  RoleId, payment_diagnosis, customer_context, incident_intelligence, recovery_economics,
  communication, role_contract,
}
use razorpay_buildathon.Agents.Optimizer.{EconomicsCandidate}
use razorpay_buildathon.Agents.DeliberationReducer.{
  DiagnosisClaim, ContextClaim, IncidentClaim, Language,
}
use razorpay_buildathon.Agents.Specialists.{
  SpecialistInput, SpecialistOutcome, Settlement, fulfilled, rejected, timed_out, Reply,
  deterministic, diagnose, read_context, correlate_incident, value_actions,
}

pub record CommunicationClaim : Type 0 where
  pub template_id : String
  pub language : Language
  pub slots : Params

pub data Claim : Type 0 where
  diagnosis_claim : DiagnosisClaim → Claim
  context_claim : ContextClaim → Claim
  incident_claim : IncidentClaim → Claim
  economics_claim : List EconomicsCandidate → Claim
  communication_claim : CommunicationClaim → Claim

-- What the world does during a run.
pub record World : Type 0 where
  pub diagnosis : Option (Reply DiagnosisClaim)
  pub context : Option (Reply ContextClaim)
  pub runs_out : RoleId → Bool

-- The parts of an `AgentRuntime` that do not change.
pub record Runtime : Type 0 where
  pub order : TextOrder
  pub library : ActionLibrary
  pub taxonomy : DeclineTaxonomy

abbrev pub claimed : {A : Type 0} → (A → Claim) → SpecialistOutcome A → SpecialistOutcome Claim
claimed f o = record {
  claim = f o.claim;
  used_provider = o.used_provider;
  provider = o.provider;
  model = o.model;
  latency_ms = o.latency_ms;
  cached_input_tokens = o.cached_input_tokens;
}

abbrev pub settled_as : {A : Type 0} → (A → Claim) → Settlement A → Settlement Claim
settled_as f (fulfilled o) = fulfilled (claimed f o)
settled_as f (rejected e) = rejected e

-- A role whose contract forbids the provider never receives one.
abbrev pub provider_for : {A : Type 0} → RoleId → Option A → Option A
provider_for role provider = if (role_contract role).may_use_provider then provider else none

-- What the work of a role settles to, or `none` where it throws while it is started: the economics
-- are computed before there is a promise.
abbrev pub work :
    Runtime → World → SpecialistInput → List String → RoleId → Option (Settlement Claim)
work rt w input allowed payment_diagnosis = some (
    settled_as diagnosis_claim
      (diagnose input rt.taxonomy (provider_for payment_diagnosis w.diagnosis)))
work rt w input allowed customer_context =
    some (settled_as context_claim (read_context input (provider_for customer_context w.context)))
work rt w input allowed incident_intelligence =
    some (fulfilled (claimed incident_claim (correlate_incident input)))
work rt w input allowed recovery_economics =
    value_actions rt.order input rt.library input.code allowed
    >>= (λ o. some (fulfilled (claimed economics_claim o)))
work rt w input allowed communication = some (
    fulfilled (
      deterministic (
        communication_claim
          (record { template_id = "WA_GENERIC_DUE"; language = input.language; slots = end }))))

-- `#invoke`, with the race against the role's timer, which is set once the work is started.
unfoldable pub invoke :
    Runtime → World → SpecialistInput → List String → RoleId → Option (Settlement Claim)
unfolding role_contract diagnose read_context correlate_incident value_actions
invoke rt w input allowed role = work rt w input allowed role >>= (λ s.
    some (if w.runs_out role then rejected (timed_out role (role_contract role).timeout_ms) else s))
