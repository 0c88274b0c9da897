-- ===== src/Agents/DeliberationReducer.antt =====
-- packages/agents/src/reducer.ts: the reducer of the specialists' claims. A confidence is a
-- literal, and compared as the runtime's number; the texts `rationale` and `why` are left out.
pub mod Precedence
use razorpay_buildathon.Base.{
  ℕ, String, Bool, true, false, ◌||◌, Option, none, some, List, [], ◌∷◌, if◌then◌else◌, sort, map,
}
use razorpay_buildathon.Core.Floats.{Floats, Literal, double_of, hundredths}

pub data Intent : Type 0 where
  will_pay will_update dispute opt_out missing_po unknown : Intent

pub record Alternative : Type 0 where
  pub cause : String
  pub confidence : Literal

pub data Language : Type 0 where
  en hi hinglish : Language

pub record DiagnosisClaim : Type 0 where
  pub primary_cause : String
  pub confidence : Literal
  pub alternatives : List Alternative
  pub rule_id : Option String
  pub evidence_refs : List String

pub record ContextClaim : Type 0 where
  pub intent : Intent
  pub opted_out : Bool
  pub language : Language
  pub prior_contacts : ℕ

pub record IncidentClaim : Type 0 where
  pub attach : Bool
  pub incident_id : Option String
  pub suppress : Bool

pub record ReducerInput : Type 0 where
  pub diagnosis : DiagnosisClaim
  pub context : ContextClaim
  pub incident : IncidentClaim

pub data StopReason : Type 0 where
  customer_opted_out disputed escalate_to_human : StopReason

pub data ResolvedBy : Type 0 where
  single_hypothesis precedence_rule confidence_margin provider escalate : ResolvedBy

pub record Strategy : Type 0 where
  pub selected_cause : String
  pub confidence : Literal
  pub suppress : Bool
  pub stop_reason : Option StopReason
  pub rejected : List String
  pub resolved_by : ResolvedBy

-- What a call of the provider would give: its answer, or a throw.
pub data Reply : Type 0 where
  answer : String → Literal → List String → Reply
  fails : Reply

abbrev pub material_margin : Literal
material_margin = hundredths 15

abbrev pub causes_of : DiagnosisClaim → List String
causes_of d = map (λ a. a.cause) d.alternatives

abbrev pub stop : StopReason → DiagnosisClaim → Strategy
stop reason d = record {
  selected_cause = d.primary_cause;
  confidence = d.confidence;
  suppress = false;
  stop_reason = some reason;
  rejected = [];
  resolved_by = precedence_rule;
}

abbrev pub escalated : DiagnosisClaim → Strategy
escalated d = record {
  selected_cause = d.primary_cause;
  confidence = d.confidence;
  suppress = false;
  stop_reason = some escalate_to_human;
  rejected = causes_of d;
  resolved_by = escalate;
}

abbrev pub chosen : DiagnosisClaim → Bool → List String → ResolvedBy → Strategy
chosen d suppress rejected by = record {
  selected_cause = d.primary_cause;
  confidence = d.confidence;
  suppress = suppress;
  stop_reason = none;
  rejected = rejected;
  resolved_by = by;
}

-- With a provider or without, on a material conflict.
abbrev pub adjudicate : Option Reply → DiagnosisClaim → Strategy
adjudicate none d = escalated d
adjudicate (some fails) d = escalated d
adjudicate (some (answer cause confidence rejected)) d = record {
  selected_cause = cause;
  confidence = confidence;
  suppress = false;
  stop_reason = none;
  rejected = rejected;
  resolved_by = provider;
}

abbrev pub falling : Floats → Alternative → Alternative → Bool
falling f x y = f.le (double_of f y.confidence) (double_of f x.confidence)

-- The alternatives by falling confidence; `margin >= MATERIAL_MARGIN` for the first.
abbrev pub clears : Floats → DiagnosisClaim → List Alternative → Bool
clears f d [] = true
clears f d (runner_up ∷ rest) =
    let margin = f.sub (double_of f d.confidence) (double_of f runner_up.confidence) in
    f.le (double_of f material_margin) margin

unfoldable pub by_margin : Floats → Option Reply → DiagnosisClaim → Strategy
by_margin f p d = elim d.alternatives [
  | [] ↦ chosen d false [] single_hypothesis
  | a ∷ rest ↦
      if clears f d (sort (falling f) (a ∷ rest))
      then chosen d false (map (λ b. b.cause) (a ∷ rest)) confidence_margin
      else adjudicate p d
]

abbrev pub opts_out : ContextClaim → Bool
opts_out c = c.opted_out || elim c.intent [
  | opt_out ↦ true
  | will_pay ↦ false
  | will_update ↦ false
  | dispute ↦ false
  | missing_po ↦ false
  | unknown ↦ false
]

abbrev pub disputes : Intent → Bool
disputes dispute = true
disputes will_pay = false
disputes will_update = false
disputes opt_out = false
disputes missing_po = false
disputes unknown = false

unfoldable pub reduce : Floats → Option Reply → ReducerInput → Strategy
unfolding by_margin
reduce f p input =
    if opts_out input.context
    then stop customer_opted_out input.diagnosis
    else if disputes input.context.intent
    then stop disputed input.diagnosis
    else if input.incident.suppress
    then chosen input.diagnosis true [] precedence_rule
    else by_margin f p input.diagnosis
