-- ===== src/Console/WebhookRoute.antt =====
-- packages/console/src/webhook-route.ts: the provider's deliveries, over the books of the verifier.
-- The raw body is an argument, `none` where it is too large.
pub mod Redelivery
use Prim.Native.String.{◌++◌, slice}
use razorpay_buildathon.Base.{
  ℕ, String, Bool, true, false, ◌&&◌, ◌||◌, Option, none, some, List, [], ◌∷◌, ◌===◌, leb, get_or,
  find?, filter, any, sort, if◌then◌else◌,
}
use razorpay_buildathon.Core.Platform.{Platform}
use razorpay_buildathon.Core.Json.{
  Value, null, number, text, Items, Fields, end, field, Params, get_field,
}
use razorpay_buildathon.Db.CaseEvents.{AppendError}
use razorpay_buildathon.Db.Ledger.{LedgerEntry, append as append_entry}
use razorpay_buildathon.Engine.Executor.{AttemptRow}
use razorpay_buildathon.Engine.Reconciler.{ObligationRow}
use razorpay_buildathon.Engine.Verifier.{
  Books, VerificationOutcome, recovered, partial, unmatched_settlement, no_open_case, Verified,
  returned, thrown, on_settlement,
}
use razorpay_buildathon.Connectors.Webhook.{
  NormalizedEvent, Ingested, event, unverified, malformed, member, as_text, or_else, string_of,
  ingest_webhook,
}

pub data Reply : Type 0 where
  replied : ℕ → String → Reply
  crashed : AppendError → Reply

abbrev pub paid_events : List String
paid_events = "payment_link.paid" ∷ "payment.captured" ∷ "subscription.charged" ∷ []

abbrev pub is_paid : Option String → Bool
is_paid none = false
is_paid (some t) = any (λ p. p === t) paid_events

abbrev pub reference_max : ℕ
reference_max = 40

-- The latest attempt for the obligation of the notes or under the reference, with its obligation.
abbrev pub joined : List ObligationRow → List AttemptRow → Option (AttemptRow × ObligationRow)
joined obligations [] = none
joined obligations (a ∷ rest) = elim (find? (λ o. o.id === a.obligation_id) obligations) [
  | none ↦ joined obligations rest
  | some o ↦ some (a, o)
]

unfoldable pub attempt_for : String → String → Books → Option (AttemptRow × ObligationRow)
attempt_for obligation_id reference b = joined b.obligations (
    sort (λ x y. leb y.sent_at x.sent_at)
      (filter
        (λ a.
          (a.obligation_id === obligation_id) || (slice a.idem_key 0 reference_max === reference))
        b.attempts))

abbrev pub kind_of : VerificationOutcome → String
kind_of (recovered settled) = "recovered"
kind_of (partial settled owed) = "partial"
kind_of unmatched_settlement = "unmatched"
kind_of no_open_case = "no_open_case"

pub record Settled : Type 0 where
  pub case_id : String
  pub outcome : String

abbrev pub settled_as : String → Verified VerificationOutcome → Verified (Option Settled)
settled_as case_id (returned o b) =
    returned (some (record { case_id = case_id; outcome = kind_of o })) b
settled_as case_id (thrown x b) = thrown x b

abbrev pub settle_attempt :
    Option (AttemptRow × ObligationRow) → ℕ → NormalizedEvent → Books → Verified (Option Settled)
settle_attempt none now e b = returned none b
settle_attempt (some (a, o)) now e b = settled_as a.case_id (
    on_settlement now
      (record {
        id = "set_wh_" ++ e.event_id;
        merchant_id = o.merchant_id;
        amount_paise = get_or o.amount_paise e.amount_paise;
        source = "razorpay_webhook";
        reference = none;
        idem_key = some a.idem_key;
        virtual_account = none;
      })
      b)

abbrev pub text_or_null : Option String → Value
text_or_null none = null
text_or_null (some t) = text t

abbrev pub number_or_null : Option ℕ → Value
number_or_null none = null
number_or_null (some n) = number n

-- An `undefined` field is not written.
abbrev pub defined_field : String → Option Value → Fields → Fields
defined_field key none fs = fs
defined_field key (some v) fs = field key v fs

abbrev pub case_of : Option Settled → NormalizedEvent → String
case_of none e = get_or e.event_id e.external_ref
case_of (some s) e = s.case_id

abbrev pub outcome_of : Option Settled → Option String
outcome_of none = none
outcome_of (some s) = some s.outcome

abbrev pub ok_text : Option Settled → String
ok_text none = "ok"
ok_text (some s) = "ok — case " ++ (s.case_id ++ (" " ++ s.outcome))

abbrev pub payload_of : Option Settled → NormalizedEvent → Params
payload_of s e = field "eventId" (text e.event_id) (
    defined_field "type" e.event_type (
      field "rail" (text_or_null e.rail) (
        field "errorCode" (text_or_null e.error_code) (
          field "externalRef" (text_or_null e.external_ref) (
            field "amountPaise" (number_or_null e.amount_paise) (
              field "settled" (text_or_null (outcome_of s))
                (field "surface" (text "live") end)))))))

abbrev pub acknowledge : Verified (Option Settled) → ℕ → NormalizedEvent → Reply × Books
acknowledge (thrown x b) now e = (crashed x, b)
acknowledge (returned s b) now e = (
  replied 200 (ok_text s),
  record b {
    ledger =
        append_entry now
          (record {
            case_id = case_of s e;
            actor = "razorpay_webhook";
            event_type = "webhook_received";
            payload = some (payload_of s e);
            policy_version = none;
          })
          b.ledger;
  },
)

-- `payload->>'eventId'`, which the entries of this route have as a text.
abbrev pub holds_id : String → Option String → Bool
holds_id id none = false
holds_id id (some t) = t === id

abbrev pub records : String → LedgerEntry → Bool
records id e =
    (e.event_type === "webhook_received") && holds_id id (as_text (get_field e.payload "eventId"))

module _ (parse : String → Option Value) (items_text : Items → String) where
  unfoldable pub settle_if_paid : Platform → ℕ → NormalizedEvent → Books → Verified (Option Settled)
  unfolding attempt_for
  settle_if_paid pf now e b =
      if is_paid (as_text e.event_type)
      then settle_attempt
          (attempt_for
            (string_of parse items_text pf
              (or_else (member (some e.notes) "obligation_id") (some (text ""))))
            (get_or "" e.external_ref) b)
          now e b
      else returned none b

  abbrev pub on_ingested : Platform → Ingested → ℕ → Books → Reply × Books
  on_ingested pf unverified now b = (replied 401 "signature verification failed", b)
  on_ingested pf malformed now b = (replied 400 "malformed body", b)
  on_ingested pf (event e) now b =
      if any (records e.event_id) b.ledger
      then (replied 200 "duplicate, already processed", b)
      else acknowledge (settle_if_paid pf now e b) now e

  unfoldable pub handle_webhook :
      Platform → String → String → ℕ → String → Option String → Books → Reply × Books
  unfolding settle_if_paid
  handle_webhook pf secret merchant_id now signature none b = (replied 413 "body too large", b)
  handle_webhook pf secret merchant_id now signature (some raw) b =
      if secret === ""
      then (replied 503 "RAZORPAY_WEBHOOK_SECRET is not configured", b)
      else on_ingested pf (ingest_webhook parse items_text pf raw signature secret merchant_id) now
          b
