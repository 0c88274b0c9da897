-- ===== src/Engine/Executor.antt =====
-- packages/engine/src/executor.ts: the execution of an action under its token. The clock is read once
-- for each call, and the adapter is a parameter.
pub mod Admission
pub mod SingleUse
use razorpay_buildathon.Base.{
  ℕ, String, Bool, true, false, not, ◌&&◌, Option, none, some, List, [], ◌∷◌, ◌++◌, ◌===◌,
  if◌then◌else◌, any, get_or, update_where, filter,
}
use razorpay_buildathon.Core.Platform.{Platform}
use razorpay_buildathon.Core.Json.{Params, join}
use razorpay_buildathon.Core.Actions.{
  ActionDef, ActionLibrary, ActionError, ActionSurface, ActionKind, capability_kind, schedule_kind,
  Found, get,
}
use razorpay_buildathon.Core.Capability.{
  CapabilityToken, TokenRejection, Minter, Call, hash_params, verify,
}
use razorpay_buildathon.Connectors.Adapter.{AdapterCall, CallResult, Adapter}
use razorpay_buildathon.Engine.TokenBurner.{BurnRow, has_nonce, burn, is_burned}
use razorpay_buildathon.Engine.ObligationLease.{Locks, LeaseError, Outcome, with_lease}

pub record ExecuteRequest : Type 0 where
  pub case_id : String
  pub obligation_id : String
  pub customer_id : String
  pub action_id : String
  pub attempt_no : ℕ
  pub params : Params
  pub token : CapabilityToken
  pub amount_paise : Option ℕ

pub data AttemptState : Type 0 where
  in_flight succeeded failed reconciled : AttemptState

pub record AttemptRow : Type 0 where
  pub idem_key : String
  pub case_id : String
  pub obligation_id : String
  pub action_id : String
  pub attempt_no : ℕ
  pub surface : ActionSurface
  pub state : AttemptState
  pub request : Params
  pub sent_at : ℕ
  pub settled_at : Option ℕ

-- A call that reached the provider.
pub record SentCall : Type 0 where
  pub capability : String
  pub call : AdapterCall
  pub nonce : String

-- The two tables, and the provider's side of the calls.
pub record Tables : Type 0 where
  pub burns : List BurnRow
  pub attempts : List AttemptRow
  pub sent : List SentCall

pub data ExecuteError : Type 0 where
  not_in_library : ActionError → ExecuteError
  schedule_action_not_executable : String → ExecuteError
  unsupported_capability : String → ExecuteError
  token_rejected : TokenRejection → ExecuteError
  lease_error : LeaseError → ExecuteError
  token_replay : String → ExecuteError
  duplicate_attempt : String → ExecuteError
  provider_threw : ExecuteError

pub data Executed : Type 0 where
  executed : String → ActionSurface → CallResult → Executed
  thrown : ExecuteError → Executed

unfoldable pub idempotency_key : Platform → String → String → ℕ → Params → String
idempotency_key pf case_id action_id attempt_no params =
    pf.sha256
      (join "|" (case_id ∷ action_id ∷ pf.show_number attempt_no ∷ hash_params pf params ∷ []))

abbrev pub has_idem_key : String → AttemptRow → Bool
has_idem_key key a = a.idem_key === key

abbrev pub settle_row : AttemptState → ℕ → AttemptRow → AttemptRow
settle_row state now a = record a { state = state; settled_at = some now }

unfoldable pub settle : ℕ → String → AttemptState → Tables → Tables
settle now key state t = record t {
  attempts = update_where (has_idem_key key) (settle_row state now) t.attempts;
}

abbrev pub outcome_state : CallResult → AttemptState
outcome_state r = if r.ok then succeeded else failed

-- After the provider was called.
abbrev pub settled : Option CallResult → Adapter → ℕ → String → Tables → Executed × Tables
settled none adapter now key t = (thrown provider_threw, t)
settled (some r) adapter now key t =
    (executed key adapter.surface r, settle now key (outcome_state r) t)

-- `invoke`, after its check of the capability; the status probe is no action.
unfoldable pub send : Adapter → ℕ → String → ExecuteRequest → String → Tables → Executed × Tables
send adapter now capability req key t =
    let call : AdapterCall = record {
      case_id = req.case_id;
      obligation_id = req.obligation_id;
      customer_id = req.customer_id;
      params = req.params;
      idem_key = key;
    } in
    if capability === "fetchPaymentStatus"
    then (thrown provider_threw, t)
    else settled (adapter.answer capability call req.token) adapter now key (record t {
      sent =
          t.sent ++ record { capability = capability; call = call; nonce = req.token.nonce } ∷ [];
    })

-- The insert of the attempt, then the call.
unfoldable pub attempt : Adapter → ℕ → String → ExecuteRequest → String → Tables → Executed × Tables
unfolding send
attempt adapter now capability req key t =
    if any (has_idem_key key) t.attempts
    then (thrown (duplicate_attempt key), t)
    else send adapter now capability req key (record t {
      attempts =
          t.attempts
          ++ record {
            idem_key = key;
            case_id = req.case_id;
            obligation_id = req.obligation_id;
            action_id = req.action_id;
            attempt_no = req.attempt_no;
            surface = adapter.surface;
            state = in_flight;
            request = req.params;
            sent_at = now;
            settled_at = none;
          }
            ∷ [];
    })

abbrev pub attempt_burned :
    Option (List BurnRow)
    → Adapter
    → ℕ
    → String
    → ExecuteRequest
    → String
    → Tables
    → Executed × Tables
attempt_burned none adapter now capability req key t = (thrown (token_replay req.token.nonce), t)
attempt_burned (some burns) adapter now capability req key t =
    attempt adapter now capability req key (record t { burns = burns })

-- What runs under the lease.
unfoldable pub under_lease :
    Adapter → ℕ → String → ExecuteRequest → String → Tables → Executed × Tables
unfolding burn attempt
under_lease adapter now capability req key t =
    attempt_burned (burn now req.token t.burns) adapter now capability req key t

abbrev pub leased : Outcome (Executed × Tables) × Locks → Tables → Executed × (Tables × Locks)
leased (Outcome.ok (r, t'), locks) t = (r, (t', locks))
leased (Outcome.err e, locks) t = (thrown (lease_error e), (t, locks))

-- After the verification of the token: the lease.
abbrev pub by_verdict :
    Option TokenRejection
    → Platform
    → Adapter
    → ℕ
    → ℕ
    → String
    → ExecuteRequest
    → Tables
    → Locks
    → Executed × (Tables × Locks)
by_verdict (some x) pf adapter ttl_ms now capability req t locks =
    (thrown (token_rejected x), (t, locks))
by_verdict none pf adapter ttl_ms now capability req t locks =
    leased
      (with_lease ttl_ms now req.obligation_id (join "" ("executor:" ∷ req.case_id ∷ []))
        (λ held. (
          under_lease adapter now capability req
              (idempotency_key pf req.case_id req.action_id req.attempt_no req.params) t,
          held,
        ))
        locks)
      t

abbrev pub call_of : ExecuteRequest → Call
call_of req = record {
  action_id = req.action_id;
  params = req.params;
  amount_paise = req.amount_paise;
}

-- After the action's kind: the capability and the token.
unfoldable pub admit :
    Platform
    → Adapter
    → Minter
    → ℕ
    → ℕ
    → String
    → ExecuteRequest
    → Tables
    → Locks
    → Executed × (Tables × Locks)
unfolding under_lease
admit pf adapter m ttl_ms now capability req t locks =
    if not (any (λ c. c === capability) adapter.capabilities)
    then (thrown (unsupported_capability capability), (t, locks))
    else by_verdict (verify pf m now req.token (call_of req)) pf adapter ttl_ms now capability req t
        locks

abbrev pub schedules : ActionKind → Bool
schedules schedule_kind = true
schedules capability_kind = false

abbrev pub by_kind :
    Found
    → Platform
    → Adapter
    → Minter
    → ℕ
    → ℕ
    → ExecuteRequest
    → Tables
    → Locks
    → Executed × (Tables × Locks)
by_kind (Found.err e) pf adapter m ttl_ms now req t locks = (thrown (not_in_library e), (t, locks))
by_kind (Found.ok action) pf adapter m ttl_ms now req t locks =
    if schedules action.kind
    then (thrown (schedule_action_not_executable req.action_id), (t, locks))
    else admit pf adapter m ttl_ms now (get_or "" action.capability) req t locks

unfoldable pub execute :
    Platform
    → Adapter
    → ActionLibrary
    → Minter
    → ℕ
    → ℕ
    → ExecuteRequest
    → Tables
    → Locks
    → Executed × (Tables × Locks)
unfolding admit
execute pf adapter lib m ttl_ms now req t locks =
    by_kind (get lib req.action_id) pf adapter m ttl_ms now req t locks

abbrev pub is_in_flight : AttemptRow → Bool
is_in_flight a = elim a.state [
  | in_flight ↦ true
  | succeeded ↦ false
  | failed ↦ false
  | reconciled ↦ false
]

-- `reconcile`: the attempts in flight whose keys the provider finds. The counts that it returns are
-- left out.
unfoldable pub reconcile : Adapter → ℕ → Tables → Tables
reconcile adapter now t = record t {
  attempts =
      update_where (λ a. is_in_flight a && adapter.finds a.idem_key) (settle_row reconciled now)
        t.attempts;
}
