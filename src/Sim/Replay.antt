-- ===== src/Sim/Replay.antt =====
-- packages/sim/src/replay.ts: the replay verifier, over the tables of the event store, the ledger and
-- the payloads of the decline codes. Of a mismatch the expected and actual texts are left out.
pub mod Decisions
pub mod Reproduction
pub mod Checks
pub mod Verification
use razorpay_buildathon.Base.{
  ℕ, suc, String, Bool, true, false, ◌&&◌, Option, none, some, List, [], ◌∷◌, ◌++◌, ◌===◌, ◌==◌,
  ◌>>=◌, not, leb, length, filter, sort, if◌then◌else◌,
}
use razorpay_buildathon.Base.Order.{TextOrder}
use razorpay_buildathon.Core.Types.{Rail, tier0, tier1, tier2}
use razorpay_buildathon.Core.Taxonomy.{Classification}
use razorpay_buildathon.Core.Playbooks.{Plan}
use razorpay_buildathon.Core.StateMachine.{same_state}
use razorpay_buildathon.Core.Json.{Params, get_field}
use razorpay_buildathon.Core.Events.{CaseRevision, StoredCaseEvent, Reduced, reduce_all}
use razorpay_buildathon.Db.Tables.{CaseRow, RevisionRow}
use razorpay_buildathon.Db.CaseEvents.{Db, read_all}
use razorpay_buildathon.Db.Ledger.{LedgerEntry}
use razorpay_buildathon.Engine.Reconciler.{given, holds_text}
use razorpay_buildathon.Engine.Tier0.{
  Tier0Resolver, Tier0Input, Tier0Outcome, resolved, missed, resolve,
}
use razorpay_buildathon.Connectors.Webhook.{as_text}

pub data MismatchKind : Type 0 where
  revision_kind tier0_plan_kind tier0_rule_kind missing_ledger_rule_kind : MismatchKind

pub record ReplayMismatch : Type 0 where
  pub case_id : String
  pub kind : MismatchKind

pub record ReplayReport : Type 0 where
  pub cases_checked : ℕ
  pub revisions_reproduced : ℕ
  pub tier0_decisions_checked : ℕ
  pub tier0_reproduced : ℕ
  pub tier1_cases : ℕ
  pub mismatches : List ReplayMismatch
  pub ok : Bool

-- The payload of a piece of evidence of the kind `decline_code`.
pub record DeclineRow : Type 0 where
  pub case_id : String
  pub rail : Option Rail
  pub code : Option String
  pub observed_at : ℕ

abbrev pub first {ℓ} : {A : Type ℓ} → List A → Option A
first [] = none
first (x ∷ xs) = some x

abbrev pub newest_first : RevisionRow → RevisionRow → Bool
newest_first a b = leb b.revision a.revision

abbrev pub revision_of : String → RevisionRow → Bool
revision_of id v = v.case_id === id

unfoldable pub latest_revision : String → List RevisionRow → Option RevisionRow
latest_revision id revisions = first (sort newest_first (filter (revision_of id) revisions))

abbrev pub same_text : Option String → Option String → Bool
same_text none none = true
same_text (some s) (some t) = s === t
same_text _ _ = false

abbrev pub same_revision : CaseRevision → CaseRevision → Bool
same_revision a b =
    same_state a.state b.state
    && (a.revision == b.revision)
    && (a.attempt_count == b.attempt_count)
    && same_text a.terminal_reason b.terminal_reason

pub data RevisionCheck : Type 0 where
  unchecked reproduced differs : RevisionCheck

-- What the reducer throws ends the verification.
abbrev pub compared : Reduced → CaseRevision → Option RevisionCheck
compared (Reduced.err x) expected = none
compared (Reduced.ok r) expected = some (if same_revision r expected then reproduced else differs)

abbrev pub check_log : String → List StoredCaseEvent → Option RevisionRow → Option RevisionCheck
check_log id [] stored = some unchecked
check_log id (e ∷ es) none = some unchecked
check_log id (e ∷ es) (some row) = compared (reduce_all id (e ∷ es)) row.state_json

unfoldable pub check_revision : String → Db → Option RevisionCheck
unfolding read_all latest_revision
check_revision id db =
    check_log id (read_all id db.case_events) (latest_revision id db.case_revisions)

pub data Tier0Check : Type 0 where
  tier1_case skipped rederived : Tier0Check
  not_rederived : MismatchKind → Tier0Check

abbrev pub against : Params → Tier0Outcome → Tier0Check
against recorded (missed why c) = not_rederived tier0_plan_kind
against recorded (resolved c p) =
    if not (holds_text (as_text (get_field recorded "ruleId")) p.rule_id)
    then not_rederived tier0_rule_kind
    else if not (holds_text (as_text (get_field recorded "cause")) c.cause)
    then not_rederived tier0_plan_kind
    else rederived

abbrev pub with_inputs :
    Tier0Resolver → CaseRow → Option LedgerEntry → Option Rail → Option String → Tier0Check
with_inputs r c (some entry) (some rail) (some code) =
    against entry.payload
      (resolve r (record { domain = c.domain; rail = rail; code = code; attempt_no = 0 }))
with_inputs r c _ _ _ = skipped

abbrev pub from_decline :
    Tier0Resolver → CaseRow → Option LedgerEntry → Option DeclineRow → Tier0Check
from_decline r c entry none = skipped
from_decline r c entry (some d) = with_inputs r c entry d.rail (given d.code)

abbrev pub selected_plan : String → List LedgerEntry → Option LedgerEntry
selected_plan id ledger =
    first (filter (λ e. (e.case_id === id) && (e.event_type === "plan_selected")) ledger)

abbrev pub first_decline : String → List DeclineRow → Option DeclineRow
first_decline id declines =
    first (sort (λ a b. leb a.observed_at b.observed_at) (filter (λ d. d.case_id === id) declines))

abbrev pub of_tier0 : Tier0Resolver → CaseRow → List LedgerEntry → List DeclineRow → Tier0Check
of_tier0 r c ledger declines =
    from_decline r c (selected_plan c.id ledger) (first_decline c.id declines)

unfoldable pub check_tier0 :
    Tier0Resolver → CaseRow → List LedgerEntry → List DeclineRow → Tier0Check
check_tier0 r c ledger declines = elim c.tier [
  | tier0 ↦ of_tier0 r c ledger declines
  | tier1 ↦ tier1_case
  | tier2 ↦ tier1_case
]

-- The counts and the mismatches of the cases after this one are in `rest`.
abbrev pub tally_tier0 : String → Tier0Check → ReplayReport → ReplayReport
tally_tier0 id tier1_case rest = record rest { tier1_cases = suc rest.tier1_cases }
tally_tier0 id skipped rest = rest
tally_tier0 id rederived rest = record rest {
  tier0_decisions_checked = suc rest.tier0_decisions_checked;
  tier0_reproduced = suc rest.tier0_reproduced;
}
tally_tier0 id (not_rederived kind) rest = record rest {
  tier0_decisions_checked = suc rest.tier0_decisions_checked;
  mismatches = record { case_id = id; kind = kind } ∷ rest.mismatches;
}

abbrev pub tally_revision : String → RevisionCheck → ReplayReport → ReplayReport
tally_revision id unchecked rest = rest
tally_revision id reproduced rest = record rest {
  revisions_reproduced = suc rest.revisions_reproduced;
}
tally_revision id differs rest = record rest {
  mismatches = record { case_id = id; kind = revision_kind } ∷ rest.mismatches;
}

abbrev pub no_cases : ReplayReport
no_cases = record {
  cases_checked = 0;
  revisions_reproduced = 0;
  tier0_decisions_checked = 0;
  tier0_reproduced = 0;
  tier1_cases = 0;
  mismatches = [];
  ok = true;
}

unfoldable pub verify_cases :
    Tier0Resolver → Db → List LedgerEntry → List DeclineRow → List CaseRow → Option ReplayReport
verify_cases r db ledger declines [] = some no_cases
verify_cases r db ledger declines (c ∷ cs) = check_revision c.id db >>= (λ v.
    verify_cases r db ledger declines cs >>= (λ rest.
      some (tally_revision c.id v (tally_tier0 c.id (check_tier0 r c ledger declines) rest))))

abbrev pub concluded : ℕ → ReplayReport → ReplayReport
concluded n r = record r { cases_checked = n; ok = length r.mismatches == 0 }

unfoldable pub verify_replay :
    TextOrder → Tier0Resolver → Db → List LedgerEntry → List DeclineRow → Option ReplayReport
unfolding verify_cases
verify_replay order r db ledger declines =
    verify_cases r db ledger declines (sort (λ a b. order.before a.id b.id) db.cases)
    >>= (λ out. some (concluded (length db.cases) out))
