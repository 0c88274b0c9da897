-- ===== src/Engine/IntentRouter.antt =====
-- packages/engine/src/intent-router.ts: what a customer's intent means, and the promises to pay.
pub mod Promises
pub mod Meaning
use razorpay_buildathon.Base.{
  ℕ, ◌+◌, suc, String, Bool, true, false, ◌&&◌, Option, none, some, List, [], ◌∷◌, ◌++◌, ◌===◌, leb,
  if◌then◌else◌, filter, any, count, get_or, update_where,
}
use razorpay_buildathon.Core.Platform.{Platform}
use razorpay_buildathon.Core.Json.{Params, end, field, text}
use razorpay_buildathon.Core.StateMachine.{TerminalState}
use razorpay_buildathon.Db.CaseEvents.{AppendError}
use razorpay_buildathon.Db.Ledger.{LedgerEntry, append as append_entry}
use razorpay_buildathon.Engine.Reconciler.{SettlementRow, holds_text}
use razorpay_buildathon.Engine.Verifier.{
  Books, Verified, SignalResult, signal_disputed, signal_opted_out, on_outcome,
}

pub data CustomerIntent : Type 0 where
  will_pay will_update dispute opt_out missing_po unknown : CustomerIntent

pub record IntentContext : Type 0 where
  pub case_id : String
  pub obligation_id : String
  pub amount_paise : ℕ
  pub promised_for : Option ℕ

pub data IntentOutcome : Type 0 where
  terminal : TerminalState → String → IntentOutcome
  record_promise : String → ℕ → IntentOutcome
  request_information : String → String → IntentOutcome
  continue : String → IntentOutcome

pub data PromiseState : Type 0 where
  open_promise kept broken : PromiseState

pub record PromiseRow : Type 0 where
  pub id : String
  pub case_id : String
  pub obligation_id : String
  pub promised_at : ℕ
  pub promised_for : ℕ
  pub amount_paise : ℕ
  pub source : String
  pub state : PromiseState
  pub settled_at : Option ℕ

-- The tables that the router writes, the verifier's among them.
pub record Desk : Type 0 where
  pub books : Books
  pub promises : List PromiseRow

pub data Routed : Type 0 where
  returned : IntentOutcome → Desk → Routed
  thrown : AppendError → Desk → Routed

abbrev pub log : ℕ → String → String → Params → Desk → Desk
log now case_id event_type payload d = record d {
  books = record d.books {
    ledger =
        append_entry now
          (record {
            case_id = case_id;
            actor = "intent_router";
            event_type = event_type;
            payload = some payload;
            policy_version = none;
          })
          d.books.ledger;
  };
}

abbrev pub after_outcome : Verified (Unit {0}) → IntentOutcome → Desk → Routed
after_outcome (Verified.returned u b) outcome d = returned outcome (record d { books = b })
after_outcome (Verified.thrown x b) outcome d = thrown x (record d { books = b })

abbrev pub promise : ℕ → String → ℕ → IntentContext → PromiseRow
promise now id promised_for ctx = record {
  id = id;
  case_id = ctx.case_id;
  obligation_id = ctx.obligation_id;
  promised_at = now;
  promised_for = promised_for;
  amount_paise = ctx.amount_paise;
  source = "customer_reply";
  state = open_promise;
  settled_at = none;
}

abbrev pub with_promise : Platform → ℕ → String → ℕ → IntentContext → Desk → Routed
with_promise pf now id promised_for ctx d = returned (record_promise id promised_for) (
    log now ctx.case_id "promise_recorded"
      (field "promiseId" (text id) (
        field "promisedFor" (text (pf.iso promised_for))
          (field "note" (text "evidence, not recovered money") end)))
      (record d { promises = d.promises ++ promise now id promised_for ctx ∷ [] }))

-- `id` is what `randomUUID` gave, and `promise_grace_ms` how long a promise without a date gets.
unfoldable pub route : Platform → ℕ → ℕ → String → CustomerIntent → IntentContext → Desk → Routed
route pf promise_grace_ms now id dispute ctx d =
    after_outcome (on_outcome now ctx.case_id signal_disputed end d.books)
      (terminal TerminalState.disputed "customer disputed the obligation") d
route pf promise_grace_ms now id opt_out ctx d =
    after_outcome (on_outcome now ctx.case_id signal_opted_out end d.books)
      (terminal TerminalState.opted_out "customer opted out of contact") d
route pf promise_grace_ms now id will_pay ctx d =
    with_promise pf now id (get_or (now + promise_grace_ms) ctx.promised_for) ctx d
route pf promise_grace_ms now id missing_po ctx d =
    returned (request_information "purchase_order" "EM_PO_REQUEST") (
      log now ctx.case_id "information_requested"
        (field "field" (text "purchase_order") (field "template" (text "EM_PO_REQUEST") end)) d)
route pf promise_grace_ms now id will_update ctx d =
    returned (continue "customer intends to update their payment method") d
route pf promise_grace_ms now id unknown ctx d =
    returned (continue "no actionable intent extracted") d

abbrev pub is_open : PromiseRow → Bool
is_open p = elim p.state [ open_promise ↦ true | kept ↦ false | broken ↦ false ]

-- The promises whose date has passed.
abbrev pub is_due : ℕ → PromiseRow → Bool
is_due now p = is_open p && leb p.promised_for now

abbrev pub was_kept : List SettlementRow → PromiseRow → Bool
was_kept settlements p = any (λ s. holds_text s.obligation_id p.obligation_id) settlements

abbrev pub settle_promise : ℕ → Bool → PromiseRow → PromiseRow
settle_promise now was_kept p = record p {
  state = if was_kept then kept else broken;
  settled_at = some now;
}

-- The loop's body for one of the selected rows.
abbrev pub reconcile_one : ℕ → PromiseRow → Desk → Desk
reconcile_one now p d =
    let kept' = was_kept d.books.settlements p in
    log now p.case_id (if kept' then "promise_kept" else "promise_broken")
      (field "promiseId" (text p.id) end)
      (record d {
        promises = update_where (λ q. q.id === p.id) (settle_promise now kept') d.promises;
      })

pub record Reconciled : Type 0 where
  pub kept_count : ℕ
  pub broken_count : ℕ
  pub desk : Desk

abbrev pub tally : Bool → Reconciled → Reconciled
tally true rest = record rest { kept_count = suc rest.kept_count }
tally false rest = record rest { broken_count = suc rest.broken_count }

unfoldable pub reconcile_rows : ℕ → List PromiseRow → Desk → Reconciled
reconcile_rows now [] d = record { kept_count = 0; broken_count = 0; desk = d }
reconcile_rows now (p ∷ ps) d =
    tally (was_kept d.books.settlements p) (reconcile_rows now ps (reconcile_one now p d))

unfoldable pub reconcile_promises : ℕ → Desk → Reconciled
unfolding reconcile_rows
reconcile_promises now d = reconcile_rows now (filter (is_due now) d.promises) d

unfoldable pub open_promises : String → List PromiseRow → ℕ
open_promises case_id promises = count (λ p. (p.case_id === case_id) && is_open p) promises
