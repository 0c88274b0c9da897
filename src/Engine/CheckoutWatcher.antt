-- ===== src/Engine/CheckoutWatcher.antt =====
-- packages/engine/src/checkout-watcher.ts: quiet checkout sessions become abandonment cases.
pub mod Conversion
use razorpay_buildathon.Base.{
  ℕ, ◌+◌, ◌-◌, ◌/◌, String, Bool, true, false, not, ◌&&◌, Option, none, some, List, [], ◌∷◌, ◌++◌,
  ◌===◌, leb, if◌then◌else◌, any, filter, find?, is_some, map, sort, update_where,
}
use razorpay_buildathon.Core.Json.{end, field, number, text}
use razorpay_buildathon.Db.Ledger.{LedgerEntry, append as append_entry}
use razorpay_buildathon.Engine.Reconciler.{ObligationRow}
use razorpay_buildathon.Engine.CaseManager.{has_key}

pub record CheckoutEvent : Type 0 where
  pub session_id : String
  pub merchant_id : String
  pub customer_id : String
  pub external_ref : String
  pub amount_paise : ℕ
  pub stage : String

pub record AbandonedSession : Type 0 where
  pub session_id : String
  pub merchant_id : String
  pub customer_id : String
  pub external_ref : String
  pub amount_paise : ℕ
  pub last_stage : String
  pub idle_ms : ℕ

-- A row of `checkout_sessions`.
pub record SessionRow : Type 0 where
  pub id : String
  pub merchant_id : String
  pub customer_id : String
  pub external_ref : String
  pub amount_paise : ℕ
  pub last_stage : String
  pub last_active_at : ℕ
  pub completed_at : Option ℕ
  pub case_id : Option String

abbrev pub is_session : String → String → SessionRow → Bool
is_session merchant external_ref s =
    (s.merchant_id === merchant) && (s.external_ref === external_ref)

abbrev pub new_session : ℕ → CheckoutEvent → SessionRow
new_session now e = record {
  id = e.session_id;
  merchant_id = e.merchant_id;
  customer_id = e.customer_id;
  external_ref = e.external_ref;
  amount_paise = e.amount_paise;
  last_stage = e.stage;
  last_active_at = now;
  completed_at = none;
  case_id = none;
}

-- An event of a session already there only moves its stage and its time; `none` is the violation of
-- the primary key.
unfoldable pub touch : ℕ → CheckoutEvent → List SessionRow → Option (List SessionRow)
touch now e sessions =
    if any (is_session e.merchant_id e.external_ref) sessions
    then some (
        update_where (is_session e.merchant_id e.external_ref)
          (λ s. record s { last_stage = e.stage; last_active_at = now }) sessions)
    else if any (λ s. s.id === e.session_id) sessions
    then none
    else some (sessions ++ new_session now e ∷ [])

unfoldable pub complete : ℕ → String → String → List SessionRow → List SessionRow
complete now merchant external_ref sessions =
    update_where (is_session merchant external_ref) (λ s. record s { completed_at = some now })
      sessions

abbrev pub abandoned_session : ℕ → SessionRow → AbandonedSession
abandoned_session now s = record {
  session_id = s.id;
  merchant_id = s.merchant_id;
  customer_id = s.customer_id;
  external_ref = s.external_ref;
  amount_paise = s.amount_paise;
  last_stage = s.last_stage;
  idle_ms = now - s.last_active_at;
}

-- `last_active_at <= now - threshold`, with the subtraction carried over.
abbrev pub is_abandoned : ℕ → ℕ → List ObligationRow → SessionRow → Bool
is_abandoned threshold_ms now obligations s =
    not (is_some s.completed_at)
    && (not (is_some s.case_id)
        && (leb (s.last_active_at + threshold_ms) now
            && not (any (has_key s.merchant_id s.external_ref) obligations)))

unfoldable pub abandoned : ℕ → ℕ → List ObligationRow → List SessionRow → List AbandonedSession
abandoned threshold_ms now obligations sessions = map (abandoned_session now) (
    sort (λ a b. leb a.last_active_at b.last_active_at)
      (filter (is_abandoned threshold_ms now obligations) sessions))

unfoldable pub mark_converted :
    ℕ
    → ℕ
    → String
    → String
    → List SessionRow
    → List LedgerEntry
    → List SessionRow × List LedgerEntry
mark_converted threshold_ms now session_id case_id sessions ledger = (
  update_where (λ s. s.id === session_id) (λ s. record s { case_id = some case_id }) sessions,
  append_entry now
      (record {
        case_id = case_id;
        actor = "checkout_watcher";
        event_type = "abandonment_detected";
        payload = some (
            field "sessionId" (text session_id)
              (field "thresholdMinutes" (number (threshold_ms / 60_000)) end));
        policy_version = none;
      })
      ledger,
)
