-- ===== src/Sim/Replay/Decisions.antt =====
-- A mismatch of a Tier 0 decision is not one of a revision.
use razorpay_buildathon.Base.{
  String, Bool, true, false, Option, none, some, List, ◌≡◌, refl, not, if◌then◌else◌,
}
use razorpay_buildathon.Db.Tables.{CaseRow}
use razorpay_buildathon.Db.Ledger.{LedgerEntry}
use razorpay_buildathon.Core.Types.{Rail, Tier, tier0, tier1, tier2}
use razorpay_buildathon.Core.Json.{Params}
use razorpay_buildathon.Engine.Reconciler.{given}
use razorpay_buildathon.Engine.Tier0.{Tier0Resolver, Tier0Outcome, resolved, missed}
use razorpay_buildathon.Sim.Replay.{
  MismatchKind, revision_kind, tier0_plan_kind, tier0_rule_kind, missing_ledger_rule_kind,
  DeclineRow, Tier0Check, tier1_case, skipped, rederived, not_rederived, check_tier0, against,
  with_inputs, from_decline, of_tier0, selected_plan, first_decline,
}

abbrev pub on_revision : MismatchKind → Bool
on_revision revision_kind = true
on_revision tier0_plan_kind = false
on_revision tier0_rule_kind = false
on_revision missing_ledger_rule_kind = false

-- A check of a Tier 0 decision that does not report a revision.
abbrev pub of_decision : Tier0Check → Bool
of_decision tier1_case = true
of_decision skipped = true
of_decision rederived = true
of_decision (not_rederived kind) = not (on_revision kind)

against-of_decision :
    (recorded : Params) (o : Tier0Outcome) → of_decision (against recorded o) ≡ true
against-of_decision recorded (missed why c) = refl
against-of_decision recorded (resolved c p) = by_rule _ _
  where
    by_rule :
        (rule cause : Bool)
        → of_decision (
            if not rule
            then not_rederived tier0_rule_kind
            else if not cause
            then not_rederived tier0_plan_kind
            else rederived)
          ≡ true
    by_rule false cause = refl
    by_rule true false = refl
    by_rule true true = refl

with_inputs-of_decision :
    (r : Tier0Resolver) (c : CaseRow) (e : Option LedgerEntry) (rail : Option Rail)
    (code : Option String)
    → of_decision (with_inputs r c e rail code) ≡ true
with_inputs-of_decision r c none rail code = refl
with_inputs-of_decision r c (some e) none code = refl
with_inputs-of_decision r c (some e) (some rail) none = refl
with_inputs-of_decision r c (some e) (some rail) (some code) = against-of_decision e.payload _

from_decline-of_decision :
    (r : Tier0Resolver) (c : CaseRow) (e : Option LedgerEntry) (d : Option DeclineRow)
    → of_decision (from_decline r c e d) ≡ true
from_decline-of_decision r c e none = refl
from_decline-of_decision r c e (some d) = with_inputs-of_decision r c e d.rail (given d.code)

of_tier0-of_decision :
    (r : Tier0Resolver) (c : CaseRow) (ledger : List LedgerEntry) (declines : List DeclineRow)
    → of_decision (of_tier0 r c ledger declines) ≡ true
of_tier0-of_decision r c ledger declines =
    from_decline-of_decision r c (selected_plan c.id ledger) (first_decline c.id declines)

pub check_tier0-of_decision :
    (r : Tier0Resolver) (c : CaseRow) (ledger : List LedgerEntry) (declines : List DeclineRow)
    → of_decision (check_tier0 r c ledger declines) ≡ true
unfolding check_tier0
check_tier0-of_decision r c ledger declines = by_tier c.tier
  where
    by_tier :
        (t : Tier)
        → of_decision (elim t [
          | tier0 ↦ of_tier0 r c ledger declines
          | tier1 ↦ tier1_case
          | tier2 ↦ tier1_case
        ])
          ≡ true
    by_tier tier0 = of_tier0-of_decision r c ledger declines
    by_tier tier1 = refl
    by_tier tier2 = refl
