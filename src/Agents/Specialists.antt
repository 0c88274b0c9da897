-- ===== src/Agents/Specialists.antt =====
-- packages/agents/src/specialists.ts and the claims of claims.ts there. The prompts are left out:
-- what the provider would answer is an argument, and no provider is `none`. A chance of recovery is
-- in hundredths.
use razorpay_buildathon.Base.{
  ℕ, ◌+◌, ◌*◌, ◌/◌, String, Bool, true, false, Option, none, some, List, [], ◌∷◌, ◌===◌, any,
  filter, sort, get_or, ◌>>=◌,
}
use razorpay_buildathon.Base.Int.{ℤ, pos, minus, leb_ℤ}
use razorpay_buildathon.Base.Order.{TextOrder}
use razorpay_buildathon.Core.Types.{Domain, Rail}
use razorpay_buildathon.Core.Taxonomy.{DeclineTaxonomy, Classification, classify}
use razorpay_buildathon.Core.Actions.{ActionDef, ActionLibrary, selectable_for_rail, p_recover}
use razorpay_buildathon.Core.Roles.{RoleId}
use razorpay_buildathon.Core.Floats.{hundredths}
use razorpay_buildathon.Engine.Reconciler.{given}
use razorpay_buildathon.Agents.Optimizer.{EconomicsCandidate}
use razorpay_buildathon.Agents.DeliberationReducer.{
  DiagnosisClaim, ContextClaim, IncidentClaim, Language, unknown,
}

-- Of `context`, which only the prompt shows, nothing is kept.
pub record SpecialistInput : Type 0 where
  pub case_id : String
  pub domain : Domain
  pub rail : Rail
  pub code : String
  pub attempt_no : ℕ
  pub amount_paise : ℕ
  pub evidence_refs : List String
  pub customer_reply : Option String
  pub prior_contacts : ℕ
  pub opted_out : Bool
  pub language : Language
  pub incident_id : Option String
  pub segment_degraded : Option Bool

pub record SpecialistOutcome (A : Type 0) : Type 0 where
  pub claim : A
  pub used_provider : Bool
  pub provider : Option String
  pub model : Option String
  pub latency_ms : Option ℕ
  pub cached_input_tokens : Option ℕ

-- What a promise of an outcome comes to. The errors keep what their messages name.
pub data Failure : Type 0 where
  timed_out : RoleId → ℕ → Failure
  not_configured : Failure
  provider_failed : String → Failure

pub data Settlement (A : Type 0) : Type 0 where
  fulfilled : SpecialistOutcome A → Settlement A
  rejected : Failure → Settlement A

-- The answer of the provider to a request.
pub record Answer (A : Type 0) : Type 0 where
  pub value : A
  pub provider : String
  pub model : String
  pub latency_ms : ℕ
  pub cached_input_tokens : ℕ

pub data Reply (A : Type 0) : Type 0 where
  answered : Answer A → Reply A
  failed : String → Reply A

module _ {A : Type 0} where
  abbrev pub deterministic : A → SpecialistOutcome A
  deterministic claim = record {
    claim = claim;
    used_provider = false;
    provider = none;
    model = none;
    latency_ms = none;
    cached_input_tokens = none;
  }

  abbrev pub asked : (A → A) → Reply A → Settlement A
  asked f (failed message) = rejected (provider_failed message)
  asked f (answered a) = fulfilled (record {
    claim = f a.value;
    used_provider = true;
    provider = some a.provider;
    model = some a.model;
    latency_ms = some a.latency_ms;
    cached_input_tokens = some a.cached_input_tokens;
  })

abbrev pub known_cause : SpecialistInput → Classification → DiagnosisClaim
known_cause input known = record {
  primary_cause = known.cause;
  confidence = hundredths known.confidence;
  alternatives = [];
  rule_id = some known.rule_id;
  evidence_refs = input.evidence_refs;
}

abbrev pub by_classification :
    Option Classification
    → SpecialistInput
    → Option (Reply DiagnosisClaim)
    → Settlement DiagnosisClaim
by_classification (some known) input provider = fulfilled (deterministic (known_cause input known))
by_classification none input none = rejected not_configured
by_classification none input (some reply) = asked (λ claim. claim) reply

unfoldable pub diagnose :
    SpecialistInput → DeclineTaxonomy → Option (Reply DiagnosisClaim) → Settlement DiagnosisClaim
diagnose input taxonomy provider =
    by_classification (classify taxonomy input.rail input.code input.attempt_no) input provider

abbrev pub base_context : SpecialistInput → ContextClaim
base_context input = record {
  intent = unknown;
  opted_out = input.opted_out;
  language = input.language;
  prior_contacts = input.prior_contacts;
}

abbrev pub interpreted :
    Option String → SpecialistInput → Option (Reply ContextClaim) → Settlement ContextClaim
interpreted none input provider = fulfilled (deterministic (base_context input))
interpreted (some text) input none = fulfilled (deterministic (base_context input))
interpreted (some text) input (some reply) =
    asked (λ claim. record claim { prior_contacts = input.prior_contacts }) reply

unfoldable pub read_context :
    SpecialistInput → Option (Reply ContextClaim) → Settlement ContextClaim
read_context input provider = interpreted (given input.customer_reply) input provider

abbrev pub correlated : Option String → Bool → IncidentClaim
correlated (some id) degraded = record { attach = true; incident_id = some id; suppress = true }
correlated none degraded = record { attach = false; incident_id = none; suppress = degraded }

unfoldable pub correlate_incident : SpecialistInput → SpecialistOutcome IncidentClaim
correlate_incident input =
    deterministic (correlated (given input.incident_id) (get_or false input.segment_degraded))

-- `Math.round(pRecover * amountPaise - cost)`, computed exactly.
abbrev pub expected_value : ℕ → ℕ → ℕ → ℤ
expected_value chance amount cost = minus (pos ((chance * amount + 50) / 100)) cost

abbrev pub valued : SpecialistInput → ActionDef → ℕ → EconomicsCandidate
valued input a chance = record {
  action_id = a.id;
  p_recover = chance;
  value_at_risk_paise = input.amount_paise;
  action_cost_paise = a.action_cost_paise;
  expected_value_paise = expected_value chance input.amount_paise a.action_cost_paise;
}

-- The candidates in turn; a throw of `pRecover` ends the call.
abbrev pub value_each :
    SpecialistInput → ActionLibrary → String → List ActionDef → Option (List EconomicsCandidate)
value_each input library cause [] = some []
value_each input library cause (a ∷ rest) = p_recover library a.id cause >>= (λ chance.
    value_each input library cause rest >>= (λ vs. some (valued input a chance ∷ vs)))

abbrev pub best_first : EconomicsCandidate → EconomicsCandidate → Bool
best_first x y = leb_ℤ y.expected_value_paise x.expected_value_paise

unfoldable pub value_actions :
    TextOrder
    → SpecialistInput
    → ActionLibrary
    → String
    → List String
    → Option (SpecialistOutcome (List EconomicsCandidate))
value_actions order input library cause allowed =
    value_each input library cause
      (filter (λ a. any (λ id. id === a.id) allowed) (selectable_for_rail order library input.rail))
    >>= (λ vs. some (deterministic (sort best_first vs)))
