-- ===== src/Engine/CaseManager.antt =====
-- packages/engine/src/case-manager.ts: opening a case, or attaching to the open one.
pub mod Deduplication
pub mod Attachment
use razorpay_buildathon.Base.{
  ℕ, String, Bool, true, false, ◌&&◌, Option, none, some, List, [], ◌∷◌, ◌++◌, ◌===◌, if◌then◌else◌,
  any, find?,
}
use razorpay_buildathon.Core.Types.{Domain, tier0}
use razorpay_buildathon.Core.StateMachine.{detected}
use razorpay_buildathon.Core.Events.{case_opened}
use razorpay_buildathon.Db.Tables.{CaseRow}
use razorpay_buildathon.Db.CaseEvents.{Db, Appended, AppendError, is_case, append}
use razorpay_buildathon.Engine.Reconciler.{ObligationRow}
use razorpay_buildathon.Engine.Verifier.{open_case}

pub record OpenCaseRequest : Type 0 where
  pub case_id : String
  pub merchant_id : String
  pub customer_id : String
  pub obligation_id : String
  pub external_ref : String
  pub domain : Domain
  pub amount_paise : ℕ
  pub due_at : ℕ
  pub holdout : Bool

pub record OpenCaseResult : Type 0 where
  pub case_id : String
  pub attached : Bool

pub record Store : Type 0 where
  pub obligations : List ObligationRow
  pub db : Db

-- The primary keys of the two tables, and what the event store throws.
pub data OpenError : Type 0 where
  duplicate_obligation duplicate_case : OpenError
  not_appended : AppendError → OpenError

-- A call that throws leaves what it had committed.
pub data Opening : Type 0 where
  opened : OpenCaseResult → Store → Opening
  thrown : OpenError → Store → Opening

-- The key of the unique index.
abbrev pub has_key : String → String → ObligationRow → Bool
has_key merchant external_ref o = (o.merchant_id === merchant) && (o.external_ref === external_ref)

abbrev pub due_obligation : OpenCaseRequest → ObligationRow
due_obligation req = record {
  id = req.obligation_id;
  merchant_id = req.merchant_id;
  customer_id = req.customer_id;
  obligation_type = req.domain;
  amount_paise = req.amount_paise;
  due_at = req.due_at;
  external_ref = req.external_ref;
  virtual_account = none;
  state = "due";
}

-- The insert that keeps the row already there, and the id that it returns.
unfoldable pub upsert_obligation :
    OpenCaseRequest → List ObligationRow → Option (String × List ObligationRow)
upsert_obligation req obligations =
    elim (find? (has_key req.merchant_id req.external_ref) obligations) [
      | some o ↦ some (o.id, obligations)
      | none ↦
          if any (λ o. o.id === req.obligation_id) obligations
          then none
          else some (req.obligation_id, obligations ++ due_obligation req ∷ [])
    ]

abbrev pub new_case : ℕ → String → OpenCaseRequest → CaseRow
new_case now obligation_id req = record {
  id = req.case_id;
  obligation_id = obligation_id;
  incident_id = none;
  domain = req.domain;
  state = detected;
  tier = tier0;
  holdout_flag = req.holdout;
  next_seq = 0;
  opened_at = now;
  closed_at = none;
  terminal_reason = none;
}

abbrev pub with_new_case : ℕ → String → OpenCaseRequest → Store → Store
with_new_case now obligation_id req s = record s {
  db = record s.db { cases = s.db.cases ++ new_case now obligation_id req ∷ [] };
}

-- The event stands outside the transaction that inserted the case.
abbrev pub after_event : Appended → OpenCaseRequest → Store → Opening
after_event (Appended.ok e r db) req s =
    opened (record { case_id = req.case_id; attached = false }) (record s { db = db })
after_event (Appended.err x) req s = thrown (not_appended x) s

-- `s` is the store with the obligation, and `before` what a rollback restores.
unfoldable pub attach_or_open :
    Option CaseRow → ℕ → OpenCaseRequest → String → Store → Store → Opening
attach_or_open (some c) now req obligation_id s before =
    opened (record { case_id = c.id; attached = true }) s
attach_or_open none now req obligation_id s before =
    let s' = with_new_case now obligation_id req s in
    if any (is_case req.case_id) s.db.cases
    then thrown duplicate_case before
    else after_event
        (append req.case_id (case_opened req.domain req.holdout) "case_manager" now s'.db) req s'

abbrev pub with_obligation :
    Option (String × List ObligationRow) → ℕ → OpenCaseRequest → Store → Opening
with_obligation none now req s = thrown duplicate_obligation s
with_obligation (some (obligation_id, obligations)) now req s =
    attach_or_open (open_case obligation_id s.db.cases) now req obligation_id
      (record s { obligations = obligations }) s

unfoldable pub open_or_attach : ℕ → OpenCaseRequest → Store → Opening
unfolding upsert_obligation attach_or_open
open_or_attach now req s = with_obligation (upsert_obligation req s.obligations) now req s

-- `none` where the source throws that the case does not exist.
unfoldable pub obligation_id_for : String → Store → Option String
obligation_id_for case_id s = elim (find? (is_case case_id) s.db.cases) [
  | none ↦ none
  | some c ↦ some c.obligation_id
]
