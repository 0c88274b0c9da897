-- ===== src/Engine/Verifier.antt =====
-- packages/engine/src/verifier.ts: whether money arrived, and what it does to the case.
pub mod Receipts
pub mod Recovery
pub mod Stopped
use Prim.Native.String.{◌++◌}
use razorpay_buildathon.Base.{
  ℕ, String, Bool, true, false, not, ◌&&◌, Option, none, some, List, [], ◌∷◌, ◌===◌, leb, ltb,
  if◌then◌else◌, filter, find?, sort, is_some, update_where,
}
use razorpay_buildathon.Core.StateMachine.{TerminalState}
use razorpay_buildathon.Core.Json.{Params, end, field, number, text}
use razorpay_buildathon.Core.Events.{CaseEvent, terminal_reached, outcome_observed}
use razorpay_buildathon.Db.Tables.{CaseRow}
use razorpay_buildathon.Db.CaseEvents.{Db, Appended, AppendError, append}
use razorpay_buildathon.Db.Ledger.{LedgerEntry, append as append_entry}
use razorpay_buildathon.Engine.Executor.{AttemptRow}
use razorpay_buildathon.Engine.Reconciler.{
  InboundSettlement, MatchStrategy, by_idem_key, by_virtual_account, by_reference, unmatched,
  MatchResult, ObligationRow, SettlementRow, given, match, insert_settlement, settled_amount,
}

pub record Books : Type 0 where
  pub attempts : List AttemptRow
  pub obligations : List ObligationRow
  pub settlements : List SettlementRow
  pub db : Db
  pub ledger : List LedgerEntry

pub data VerificationOutcome : Type 0 where
  recovered : ℕ → VerificationOutcome
  partial : ℕ → ℕ → VerificationOutcome
  unmatched_settlement no_open_case : VerificationOutcome

-- A call returns, or throws what the event store threw; what it wrote before stays.
pub data Verified (A : Type 0) : Type 0 where
  returned : A → Books → Verified A
  thrown : AppendError → Books → Verified A

abbrev pub log : ℕ → String → String → Params → Books → Books
log now case_id event_type payload b = record b {
  ledger =
      append_entry now
        (record {
          case_id = case_id;
          actor = "verifier";
          event_type = event_type;
          payload = some payload;
          policy_version = none;
        })
        b.ledger;
}

abbrev pub strategy_text : MatchStrategy → String
strategy_text by_idem_key = "idem_key"
strategy_text by_virtual_account = "virtual_account"
strategy_text by_reference = "reference"
strategy_text unmatched = "unmatched"

abbrev pub first_case : List CaseRow → Option CaseRow
first_case [] = none
first_case (c ∷ cs) = some c

-- The earliest open case of an obligation.
unfoldable pub open_case : String → List CaseRow → Option CaseRow
open_case ob cases = first_case (
    sort (λ a b. leb a.opened_at b.opened_at)
      (filter (λ c. c.obligation_id === ob && not (is_some c.closed_at)) cases))

-- What the join with `obligations` gives: the case with what is owed.
abbrev pub with_owed : List ObligationRow → String → Option CaseRow → Option (CaseRow × ℕ)
with_owed obligations ob none = none
with_owed obligations ob (some c) = elim (find? (λ o. o.id === ob) obligations) [
  | none ↦ none
  | some o ↦ some (c, o.amount_paise)
]

abbrev pub settle_obligation : String → List ObligationRow → List ObligationRow
settle_obligation ob obligations =
    update_where (λ o. o.id === ob) (λ o. record o { state = "settled" }) obligations

abbrev pub closed_by : Appended → ℕ → String → Params → ℕ → Books → Verified VerificationOutcome
closed_by (Appended.err x) now case_id payload settled b = thrown x b
closed_by (Appended.ok e r db) now case_id payload settled b =
    returned (recovered settled) (log now case_id "recovered" payload (record b { db = db }))

abbrev pub settlement_payload : ℕ → ℕ → MatchStrategy → Params → Params
settlement_payload settled owed strategy rest =
    field "settled" (number settled)
      (field "owed" (number owed) (field "matchedBy" (text (strategy_text strategy)) rest))

-- The case of the match is open: the money covers what is owed, or it is a part.
unfoldable pub settle_case :
    ℕ → String → String → MatchStrategy → CaseRow → ℕ → ℕ → Books → Verified VerificationOutcome
settle_case now id ob strategy c owed settled b =
    if ltb settled owed
    then returned (partial settled owed)
        (log now c.id "partial_settlement" (settlement_payload settled owed strategy end) b)
    else let b' : Books = record b { obligations = settle_obligation ob b.obligations } in
      closed_by
        (append c.id
          (terminal_reached TerminalState.recovered ("settled_via_" ++ strategy_text strategy))
          "verifier" now b'.db)
        now c.id (settlement_payload settled owed strategy (field "settlementId" (text id) end))
        settled b'

abbrev pub on_open_case :
    Option (CaseRow × ℕ)
    → ℕ
    → String
    → String
    → MatchStrategy
    → Books
    → Verified VerificationOutcome
on_open_case none now id ob strategy b = returned no_open_case b
on_open_case (some (c, owed)) now id ob strategy b =
    settle_case now id ob strategy c owed (settled_amount ob b.settlements) b

abbrev pub on_obligation : Option String → MatchResult → ℕ → Books → Verified VerificationOutcome
on_obligation none m now b = returned unmatched_settlement b
on_obligation (some ob) m now b =
    on_open_case (with_owed b.obligations ob (open_case ob b.db.cases)) now m.settlement_id ob
      m.matched_by b

abbrev pub on_match : MatchResult → ℕ → Books → Verified VerificationOutcome
on_match m now b = on_obligation (given m.obligation_id) m now b

abbrev pub recorded : ℕ → InboundSettlement → Books → Books
recorded now s b = record b {
  settlements = insert_settlement now s (match b.attempts b.obligations s) b.settlements;
}

-- A settlement arrives: it is matched and recorded, and the open case of its obligation, if any,
-- is settled.
unfoldable pub on_settlement : ℕ → InboundSettlement → Books → Verified VerificationOutcome
unfolding settle_case
on_settlement now s b = on_match (match b.attempts b.obligations s) now (recorded now s b)

pub data SignalResult : Type 0 where
  signal_succeeded signal_failed signal_opted_out signal_disputed : SignalResult

abbrev pub signal_event : SignalResult → CaseEvent
signal_event signal_succeeded = outcome_observed "succeeded"
signal_event signal_failed = outcome_observed "failed"
signal_event signal_opted_out = terminal_reached TerminalState.opted_out "opted_out"
signal_event signal_disputed = terminal_reached TerminalState.disputed "disputed"

abbrev pub signal_text : SignalResult → String
signal_text signal_succeeded = "outcome_succeeded"
signal_text signal_failed = "outcome_failed"
signal_text signal_opted_out = "outcome_opted_out"
signal_text signal_disputed = "outcome_disputed"

abbrev pub logged_after : Appended → ℕ → String → String → Params → Books → Verified (Unit {0})
logged_after (Appended.err x) now case_id event_type payload b = thrown x b
logged_after (Appended.ok e r db) now case_id event_type payload b =
    returned tt (log now case_id event_type payload (record b { db = db }))

unfoldable pub on_outcome : ℕ → String → SignalResult → Params → Books → Verified (Unit {0})
on_outcome now case_id signal detail b =
    logged_after (append case_id (signal_event signal) "verifier" now b.db) now case_id
      (signal_text signal) detail b

unfoldable pub exhaust : ℕ → String → String → Books → Verified (Unit {0})
exhaust now case_id reason b =
    logged_after
      (append case_id (terminal_reached TerminalState.unrecoverable reason) "verifier" now b.db) now
      case_id "unrecoverable" (field "reason" (text reason) end) b
