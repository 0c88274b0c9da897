-- ===== src/Core/Events.antt =====
-- packages/core/src/events.ts: the case events and the reducer, the sole writer of case state.
pub mod Reduction
pub mod Counters
pub mod Closing
use razorpay_buildathon.Base.{
  ℕ, suc, ◌+◌, String, Bool, true, false, not, ◌&&◌, Option, none, some, List, [], ◌∷◌, ◌++◌,
  if◌then◌else◌, any,
}
use razorpay_buildathon.Base.Int.{ℤ, pos, negsuc, suc_ℤ, eq_ℤ}
use razorpay_buildathon.Core.Types.{Domain, EvidenceKind, same_kind, Tier, tier0}
use razorpay_buildathon.Core.StateMachine.{
  CaseState, detected, diagnosing, planning, awaiting_approval, executing, observing, scheduled,
  suppressed_by_incident, TerminalState, to_state, same_state, can_transition, is_terminal,
}

pub data CaseEvent : Type 0 where
  case_opened : Domain → Bool → CaseEvent
  evidence_added : EvidenceKind → String → CaseEvent
  diagnosis_started : Tier → CaseEvent
  plan_proposed : ℕ → CaseEvent
  approval_required : String → CaseEvent
  approval_granted : String → CaseEvent
  approval_expired : CaseEvent
  action_executed : String → ℕ → CaseEvent
  action_scheduled : String → String → CaseEvent
  outcome_observed : String → CaseEvent
  incident_attached : String → CaseEvent
  incident_released : String → CaseEvent
  terminal_reached : TerminalState → String → CaseEvent

pub record StoredCaseEvent : Type 0 where
  pub case_id : String
  pub seq : ℤ
  pub event : CaseEvent
  pub source : String
  pub occurred_at : ℕ

pub record CaseRevision : Type 0 where
  pub case_id : String
  pub revision : ℕ
  pub reduced_through_seq : ℤ
  pub state : CaseState
  pub tier : Tier
  pub holdout : Bool
  pub attempt_count : ℕ
  pub plan_version : ℕ
  pub incident_id : Option String
  pub terminal_reason : Option String
  pub evidence_kinds : List EvidenceKind
  pub changed_kinds : List EvidenceKind

-- What the reducer throws: `CaseEventOrderError` and `IllegalTransitionError`.
pub data ReduceError : Type 0 where
  case_event_order : ℤ → ℤ → ReduceError
  illegal_transition : CaseState → CaseState → ReduceError

pub data Reduced : Type 0 where
  ok : CaseRevision → Reduced
  err : ReduceError → Reduced

unfoldable pub initial_revision : String → CaseRevision
initial_revision case_id = record {
  case_id = case_id;
  revision = 0;
  reduced_through_seq = negsuc 0;
  state = detected;
  tier = tier0;
  holdout = false;
  attempt_count = 0;
  plan_version = 0;
  incident_id = none;
  terminal_reason = none;
  evidence_kinds = [];
  changed_kinds = [];
}

-- The state that an event drives the case to; no event holds `null` in the source.
unfoldable pub target_state : CaseEvent → CaseState → CaseState
target_state (case_opened d h) current = detected
target_state (evidence_added k i) current = current
target_state (diagnosis_started t) current = diagnosing
target_state (plan_proposed v) current = planning
target_state (approval_required r) current = awaiting_approval
target_state (approval_granted a) current = executing
target_state approval_expired current = CaseState.stopped_human
target_state (action_executed a n) current = observing
target_state (action_scheduled a f) current = scheduled
target_state (outcome_observed o) current =
    if same_state current executing then observing else current
target_state (incident_attached i) current = suppressed_by_incident
target_state (incident_released i) current = scheduled
target_state (terminal_reached t r) current = to_state t

abbrev pub includes_kind : List EvidenceKind → EvidenceKind → Bool
includes_kind ks k = any (same_kind k) ks

-- The fields that one kind of event changes, each by its own conditional.
unfoldable pub next_kinds : CaseEvent → List EvidenceKind → List EvidenceKind
next_kinds (evidence_added k i) ks = if includes_kind ks k then ks else ks ++ k ∷ []
next_kinds _ ks = ks

abbrev pub changed_by : CaseEvent → List EvidenceKind
changed_by (evidence_added k i) = k ∷ []
changed_by _ = []

abbrev pub next_tier : CaseEvent → Tier → Tier
next_tier (diagnosis_started t) tier = t
next_tier _ tier = tier

abbrev pub next_holdout : CaseEvent → Bool → Bool
next_holdout (case_opened d h) holdout = h
next_holdout _ holdout = holdout

abbrev pub next_attempts : CaseEvent → ℕ → ℕ
next_attempts (action_executed a n) attempts = attempts + 1
next_attempts _ attempts = attempts

abbrev pub next_plan : CaseEvent → ℕ → ℕ
next_plan (plan_proposed v) version = v
next_plan _ version = version

abbrev pub next_incident : CaseEvent → Option String → Option String
next_incident (incident_attached i) incident = some i
next_incident (incident_released i) incident = none
next_incident _ incident = incident

abbrev pub next_reason : CaseEvent → Option String → Option String
next_reason (terminal_reached t r) reason = some r
next_reason _ reason = reason

-- The revision that `reduce` returns once both checks have passed.
unfoldable pub next_revision : CaseRevision → StoredCaseEvent → CaseRevision
next_revision prev stored =
    let e = stored.event in
    record {
      case_id = prev.case_id;
      revision = prev.revision + 1;
      reduced_through_seq = stored.seq;
      state = target_state e prev.state;
      tier = next_tier e prev.tier;
      holdout = next_holdout e prev.holdout;
      attempt_count = next_attempts e prev.attempt_count;
      plan_version = next_plan e prev.plan_version;
      incident_id = next_incident e prev.incident_id;
      terminal_reason = next_reason e prev.terminal_reason;
      evidence_kinds = next_kinds e prev.evidence_kinds;
      changed_kinds = changed_by e;
    }

unfoldable pub reduce : CaseRevision → StoredCaseEvent → Reduced
reduce prev stored =
    let expected = suc_ℤ prev.reduced_through_seq in
    let next = target_state stored.event prev.state in
    if eq_ℤ stored.seq expected
    then (if can_transition prev.state next
        then ok (next_revision prev stored)
        else err (illegal_transition prev.state next))
    else err (case_event_order expected stored.seq)

-- A thrown error ends the fold.
abbrev pub and_then : Reduced → (CaseRevision → Reduced) → Reduced
and_then (ok r) f = f r
and_then (err x) f = err x

-- `events.reduce(reduce, prev)`.
unfoldable pub reduce_from : CaseRevision → List StoredCaseEvent → Reduced
reduce_from prev [] = ok prev
reduce_from prev (e ∷ es) = and_then (reduce prev e) (λ r. reduce_from r es)

unfoldable pub reduce_all : String → List StoredCaseEvent → Reduced
unfolding initial_revision
reduce_all case_id events = reduce_from (initial_revision case_id) events

unfoldable pub is_case_closed : CaseRevision → Bool
is_case_closed r = is_terminal r.state
