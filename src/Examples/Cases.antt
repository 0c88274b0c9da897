-- ===== src/Examples/Cases.antt =====
-- A case on its way from detection to a closed state, as a log and as a store.
use razorpay_buildathon.Base.{
  ℕ, ◌≡◌, refl, ◌↔◌, subst, String, true, false, none, some, List, [], ◌∷◌, arith, find?,
}
use razorpay_buildathon.Base.Int.{pos}
use razorpay_buildathon.Core.Types.{payment_failure, decline_code, tier0}
use razorpay_buildathon.Core.StateMachine.{
  CaseState, TerminalState, can_transition, is_terminal, planning, executing, detected,
}
use razorpay_buildathon.Core.StateMachine.Diagram.{◌⟶◌, can_transition-iff-⟶}
use razorpay_buildathon.Core.Events.{
  CaseEvent, StoredCaseEvent, CaseRevision, ok, case_opened, evidence_added, diagnosis_started,
  plan_proposed, terminal_reached, approval_expired, reduce_all, reduce_from, reduce, next_revision,
  initial_revision, target_state, next_kinds,
}
use razorpay_buildathon.Core.Events.Closing.{terminal_absorbs}
use razorpay_buildathon.Db.Tables.{CaseRow}
use razorpay_buildathon.Db.CaseEvents.{Db, Appended, is_case, append, replay}
use razorpay_buildathon.Db.CaseEvents.Replay.{Projects, stored_event, db_after, append_legal}
use razorpay_buildathon.Db.CaseEvents.Closing.{append-approval_expired_open}
use razorpay_buildathon.Db.CaseEvents.Consistency.{Consistent, ShowsRest, Stored, append-Consistent}

can_transition-iff-⟶_example : (can_transition planning executing ≡ true) ↔ (planning ⟶ executing)
can_transition-iff-⟶_example = can_transition-iff-⟶ planning executing

abbrev at_seq : ℕ → CaseEvent → StoredCaseEvent
at_seq n e = record {
  case_id = "case_1";
  seq = pos n;
  event = e;
  source = "engine";
  occurred_at = n;
}

abbrev log : List StoredCaseEvent
log =
    at_seq 0 (case_opened payment_failure false)
    ∷ at_seq 1 (diagnosis_started tier0)
    ∷ at_seq 2 (plan_proposed 1)
    ∷ at_seq 3 (terminal_reached TerminalState.recovered "payment_captured")
    ∷ []

abbrev closed_revision : CaseRevision
closed_revision = record {
  case_id = "case_1";
  revision = 4;
  reduced_through_seq = pos 3;
  state = CaseState.recovered;
  tier = tier0;
  holdout = false;
  attempt_count = 0;
  plan_version = 1;
  incident_id = none;
  terminal_reason = some "payment_captured";
  evidence_kinds = [];
  changed_kinds = [];
}

log-reduces : reduce_all "case_1" log ≡ ok closed_revision
unfolding reduce_all reduce_from reduce next_revision target_state can_transition next_kinds
log-reduces = refl

abbrev later : List StoredCaseEvent
later = at_seq 4 (evidence_added decline_code "ev_1") ∷ []

abbrev later_revision : CaseRevision
later_revision = record closed_revision {
  revision = 5;
  reduced_through_seq = pos 4;
  evidence_kinds = decline_code ∷ [];
  changed_kinds = decline_code ∷ [];
}

later-reduces : reduce_from closed_revision later ≡ ok later_revision
unfolding reduce_from reduce next_revision target_state can_transition next_kinds
later-reduces = refl

recovered-IsTerminal : is_terminal CaseState.recovered ≡ true
unfolding is_terminal
recovered-IsTerminal = refl

terminal_absorbs_example : later_revision.state ≡ closed_revision.state
terminal_absorbs_example =
    terminal_absorbs closed_revision later later_revision recovered-IsTerminal later-reduces

-- A case that has just been inserted.
abbrev pub fresh_case : CaseRow
fresh_case = record {
  id = "case_1";
  obligation_id = "ob_1";
  incident_id = none;
  domain = payment_failure;
  state = detected;
  tier = tier0;
  holdout_flag = false;
  next_seq = 0;
  opened_at = 0;
  closed_at = none;
  terminal_reason = none;
}

abbrev pub store : Db
store = record {
  cases = fresh_case ∷ [];
  case_events = [];
  case_revisions = [];
  schedule = record { rows = []; next_id = 0 };
}

pub store-Projects : Projects store fresh_case (initial_revision "case_1")
unfolding replay initial_revision reduce_all reduce_from
store-Projects = record {
  stored = refl;
  replayed = refl;
  numbered = refl;
  seqs = tt;
  revisions = tt;
  same_state = refl;
  same_reason = refl;
}

only_case : (id : String) (c : CaseRow) → find? (is_case id) store.cases ≡ some c → fresh_case ≡ c
only_case id c h = ground (arith)

store-ShowsRest : ShowsRest fresh_case (initial_revision "case_1")
unfolding initial_revision
store-ShowsRest = record { same_tier = refl; same_incident = refl; same_closing = refl }

pub store-Consistent : Consistent store
store-Consistent id c h = (
  initial_revision "case_1",
  subst (λ d. Projects store d (initial_revision "case_1")) (only_case id c h) store-Projects,
  subst (λ d. ShowsRest d (initial_revision "case_1")) (only_case id c h) store-ShowsRest,
)

append-Consistent_example : Stored (append "case_1" (diagnosis_started tier0) "engine" 5 store)
append-Consistent_example =
    append-Consistent store "case_1" (diagnosis_started tier0) "engine" 5 store-Consistent

detected-starts : can_transition detected (target_state (diagnosis_started tier0) detected) ≡ true
unfolding can_transition target_state
detected-starts = refl

detected-refuses : can_transition detected (target_state (plan_proposed 1) detected) ≡ false
unfolding can_transition target_state
detected-refuses = refl

append_legal_example :
    append "case_1" (diagnosis_started tier0) "engine" 5 store
    ≡ Appended.ok
        (stored_event fresh_case (diagnosis_started tier0) "engine" 5)
        (next_revision
          (initial_revision "case_1")
          (stored_event fresh_case (diagnosis_started tier0) "engine" 5))
        (db_after store fresh_case
          (stored_event fresh_case (diagnosis_started tier0) "engine" 5)
          (next_revision
            (initial_revision "case_1")
            (stored_event fresh_case (diagnosis_started tier0) "engine" 5))
          5)
append_legal_example =
    append_legal store fresh_case (initial_revision "case_1") (diagnosis_started tier0) "engine" 5
      store-Projects detected-starts

detected-IsLive : is_terminal detected ≡ false
unfolding is_terminal
detected-IsLive = refl

append-approval_expired_open_example :
    (db' : Db) × (c' : CaseRow) × (r' : CaseRevision) × (append "case_1" approval_expired
        "scheduler" 9 store
      ≡ Appended.ok (stored_event fresh_case approval_expired "scheduler" 9) r' db')
    × Projects db' c' r'
    × (c'.state ≡ CaseState.stopped_human)
    × (c'.closed_at ≡ none)
append-approval_expired_open_example =
    append-approval_expired_open store fresh_case (initial_revision "case_1") "scheduler" 9
      store-Projects detected-IsLive refl refl
