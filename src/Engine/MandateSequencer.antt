-- ===== src/Engine/MandateSequencer.antt =====
-- packages/engine/src/mandate-sequencer.ts: the steps around the debit of a mandate. A time is in
-- milliseconds; the texts `because` are left out.
pub mod Notice
use razorpay_buildathon.Base.{
  ℕ, String, ◌+◌, ◌*◌, ◌-◌, ◌/◌, Bool, true, false, not, Option, none, some, List, [], ◌∷◌, get_or,
  get_elem?, ltb, if◌then◌else◌, any, min, max,
}
use razorpay_buildathon.Core.Types.{Rail, same_rail, upi_autopay, enach}
use razorpay_buildathon.Core.Json.{Params, end, field, text, number}
use razorpay_buildathon.Core.Taxonomy.{DeclineTaxonomy, Classification, classify}

pub data MandateState : Type 0 where
  active paused revoked unknown : MandateState

pub record MandateFacts : Type 0 where
  pub rail : Rail
  pub state : MandateState
  pub cap_paise : Option ℕ
  pub amount_paise : ℕ
  pub pre_debit_notified_at : Option ℕ
  pub attempt_no : ℕ
  pub next_presentation_at : Option ℕ

pub record SequencedStep : Type 0 where
  pub action_id : String
  pub params : Params
  pub delay_ms : ℕ

-- Why a debit is not allowed.
pub data Blocker : Type 0 where
  carries_no_mandate : Rail → Blocker
  mandate_revoked mandate_paused : Blocker
  exceeds_cap : ℕ → ℕ → Blocker

pub record MandateSequence : Type 0 where
  pub permitted : Bool
  pub blocked_by : Option Blocker
  pub steps : List SequencedStep

abbrev pub hour : ℕ
hour = 3600000

abbrev pub day : ℕ
day = 24 * hour

abbrev pub pre_debit_notice_ms : ℕ
pre_debit_notice_ms = 24 * hour

abbrev pub mandate_rails : List Rail
mandate_rails = upi_autopay ∷ enach ∷ []

-- `Math.ceil(ms / HOUR)`.
unfoldable pub hours_up : ℕ → ℕ
hours_up ms = (ms + (hour - 1)) / hour

abbrev ladder : List ℕ
ladder = 6 * hour ∷ 2 * day ∷ 5 * day ∷ []

unfoldable pub backoff_ms : ℕ → ℕ
backoff_ms attempt_no = get_or 0 (get_elem? ladder (min attempt_no 2))

abbrev pub blocked : Blocker → List SequencedStep → MandateSequence
blocked why steps = record { permitted = false; blocked_by = some why; steps = steps }

abbrev pub ask_update : String → SequencedStep
ask_update reason = record {
  action_id = "request_payment_method_update";
  params = field "reason_code" (text reason) (field "channel" (text "whatsapp") end);
  delay_ms = 0;
}

abbrev pub await_retry : ℕ → ℕ → SequencedStep
await_retry hours delay = record {
  action_id = "await_provider_retry";
  params = field "expected_at_hours" (number hours) end;
  delay_ms = delay;
}

abbrev pub await_notice : SequencedStep
await_notice = record {
  action_id = "await_mandate_prerequisite";
  params = field "prerequisite" (text "pre_debit_notified") end;
  delay_ms = 0;
}

-- `Math.max(0, next - now)`, or the backoff where no presentation is set.
abbrev pub wait_ms : ℕ → ℕ → Option ℕ → ℕ
wait_ms now attempt_no none = backoff_ms attempt_no
wait_ms now attempt_no (some next) = next - now

abbrev pub over_cap : Option ℕ → ℕ → Bool
over_cap none amount = false
over_cap (some cap) amount = ltb cap amount

-- With `now - notifiedAt < NOTICE` as `now < notifiedAt + NOTICE`, for a notice dated later than now.
unfoldable pub debit_steps : ℕ → MandateFacts → List SequencedStep
unfolding hours_up
debit_steps now facts = elim facts.pre_debit_notified_at [
  | none ↦ await_notice ∷ await_retry 24 pre_debit_notice_ms ∷ []
  | some notified_at ↦
      if ltb now (notified_at + pre_debit_notice_ms)
      then await_retry (hours_up (notified_at + pre_debit_notice_ms - now))
          (notified_at + pre_debit_notice_ms - now)
        ∷ []
      else await_retry (hours_up (wait_ms now facts.attempt_no facts.next_presentation_at))
          (wait_ms now facts.attempt_no facts.next_presentation_at)
        ∷ []
]

abbrev pub cap_or_debit : ℕ → MandateFacts → MandateSequence
cap_or_debit now facts =
    if over_cap facts.cap_paise facts.amount_paise
    then blocked (exceeds_cap facts.amount_paise (get_or 0 facts.cap_paise))
        (ask_update "MANDATE_AMOUNT_EXCEEDED" ∷ [])
    else record { permitted = true; blocked_by = none; steps = debit_steps now facts }

abbrev pub by_state : ℕ → MandateFacts → MandateState → MandateSequence
by_state now facts revoked = blocked mandate_revoked (ask_update "MANDATE_REVOKED" ∷ [])
by_state now facts paused = blocked mandate_paused (ask_update "MANDATE_PAUSED" ∷ [])
by_state now facts active = cap_or_debit now facts
by_state now facts unknown = cap_or_debit now facts

unfoldable pub sequence : ℕ → MandateFacts → MandateSequence
unfolding debit_steps
sequence now facts =
    if not (any (same_rail facts.rail) mandate_rails)
    then blocked (carries_no_mandate facts.rail) []
    else by_state now facts facts.state

abbrev permitted_by : Option Classification → Bool
permitted_by none = false
permitted_by (some c) = c.retry_permitted

unfoldable pub retry_permitted : DeclineTaxonomy → Rail → String → ℕ → Bool
unfolding classify
retry_permitted taxonomy rail code attempt_no =
    permitted_by (classify taxonomy rail code attempt_no)
