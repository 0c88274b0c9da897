-- ===== src/Engine/MandateSequencer/Notice.antt =====
-- When a mandate may be debited, and how long after its notice.
use razorpay_buildathon.Base.{
  ℕ, ◌+◌, ◌≤◌, ◌≡◌, ◌≢◌, refl, ◌↔◌, ◌⊎◌, inl, inr, String, Bool, true, false, Option, none, some,
  [], ◌∷◌, arith, any, ltb, count, ◌===◌, ===_iff, ◌*◌, zero, suc, All, Option-cases, Bool-cases,
}
use razorpay_buildathon.Core.Types.{same_rail, upi_autopay, enach}
use razorpay_buildathon.Engine.MandateSequencer.{
  MandateState, MandateFacts, SequencedStep, MandateSequence, paused, revoked, pre_debit_notice_ms,
  hour, day, backoff_ms, ask_update, cap_or_debit, by_state, active, unknown, mandate_rails,
  over_cap, debit_steps, sequence,
}

abbrev pub WithinCap : Option ℕ → ℕ → Type 0
WithinCap none amount = Unit {0}
WithinCap (some cap) amount = amount ≤ cap

-- A debit is permitted exactly on the two mandate rails, while the mandate is neither revoked nor
-- paused, and within its cap if it has one.
pub sequence_permitted_iff :
    (now : ℕ) (facts : MandateFacts)
    → ((sequence now facts).permitted ≡ true) ↔ (
        ((facts.rail ≡ upi_autopay) ⊎ (facts.rail ≡ enach))
        × (facts.state ≢ revoked)
        × (facts.state ≢ paused)
        × WithinCap facts.cap_paise facts.amount_paise)
unfolding sequence
sequence_permitted_iff now facts = ground (arith)

-- The time from which a debit is allowed by the notice: 24 hours after the notice, which goes out
-- now if it has not yet.
abbrev pub notice_over : ℕ → Option ℕ → ℕ
notice_over now none = now + pre_debit_notice_ms
notice_over now (some notified_at) = notified_at + pre_debit_notice_ms

-- A step does not present the debit before the notice is over.
abbrev pub RespectsNotice : ℕ → MandateFacts → SequencedStep → Type 0
RespectsNotice now facts step =
    step.action_id ≡ "await_provider_retry"
    → notice_over now facts.pre_debit_notified_at ≤ now + step.delay_ms

apart : (a b : String) → (a === b) ≡ false → a ≡ b → ⊥
apart a b f e = ground (arith, ===_iff a b)

debit_steps-RespectsNotice :
    (now : ℕ) (facts : MandateFacts) → All (RespectsNotice now facts) (debit_steps now facts)
unfolding debit_steps
debit_steps-RespectsNotice now facts = elim (Option-cases facts.pre_debit_notified_at) [
  | inl e ↦ rw e (
    (λ h. absurd (apart "await_mandate_prerequisite" "await_provider_retry" refl h)),
    ((λ _. ground arith), tt),
  )
  | inr (n, e) ↦ elim (Bool-cases (ltb now (n + pre_debit_notice_ms))) [
    | inl early ↦ rw (e, early) ((λ _. ground (arith)), tt)
    | inr late ↦ rw (e, late) ((λ _. ground (arith)), tt)
  ]
]

abbrev pub is_debit : SequencedStep → Bool
is_debit step = step.action_id === "await_provider_retry"

abbrev pub one_if : Bool → ℕ
one_if true = 1
one_if false = 0

debit_steps-count : (now : ℕ) (facts : MandateFacts) → count is_debit (debit_steps now facts) ≡ 1
unfolding debit_steps
debit_steps-count now facts = ground (arith)

-- A sequence has the steps of a debit, or it is blocked with at most a request for another method.
Blocked : MandateSequence → Type 0
Blocked s =
    (s.permitted ≡ false)
    × ((s.steps ≡ []) ⊎ ((reason : String) × (s.steps ≡ ask_update reason ∷ [])))

Shape : ℕ → MandateFacts → MandateSequence → Type 0
Shape now facts s = ((s.permitted ≡ true) × (s.steps ≡ debit_steps now facts)) ⊎ Blocked s

cap_or_debit-Shape : (now : ℕ) (facts : MandateFacts) → Shape now facts (cap_or_debit now facts)
unfolding Shape Blocked
cap_or_debit-Shape now facts = elim (Bool-cases (over_cap facts.cap_paise facts.amount_paise)) [
  | inl over ↦ rw over (inr (refl, inr ("MANDATE_AMOUNT_EXCEEDED", refl)))
  | inr fits ↦ rw fits (inl (refl, refl))
]

by_state-Shape :
    (now : ℕ) (facts : MandateFacts) (state : MandateState)
    → Shape now facts (by_state now facts state)
unfolding Shape Blocked
by_state-Shape now facts revoked = inr (refl, inr ("MANDATE_REVOKED", refl))
by_state-Shape now facts paused = inr (refl, inr ("MANDATE_PAUSED", refl))
by_state-Shape now facts active = cap_or_debit-Shape now facts
by_state-Shape now facts unknown = cap_or_debit-Shape now facts

sequence-Shape : (now : ℕ) (facts : MandateFacts) → Shape now facts (sequence now facts)
unfolding sequence Shape Blocked
sequence-Shape now facts = elim (Bool-cases (any (same_rail facts.rail) mandate_rails)) [
  | inl e ↦ rw (sequence, e) (by_state-Shape now facts facts.state)
  | inr e ↦ rw (sequence, e) (inr (refl, inl refl))
]

-- The sequence presents the debit once if it is permitted and never if it is blocked, and then not
-- before 24 hours after the notice, or 24 hours from now if the notice has not been sent.
pub sequence-RespectsNotice :
    (now : ℕ) (facts : MandateFacts)
    → let s = sequence now facts in
      All (RespectsNotice now facts) s.steps × (count is_debit s.steps ≡ one_if s.permitted)
unfolding Shape Blocked
sequence-RespectsNotice now facts = elim (sequence-Shape now facts) [
  | inl (p, e) ↦ rw (p, e) (debit_steps-RespectsNotice now facts, debit_steps-count now facts)
  | inr (p, inl e) ↦ rw (p, e) (tt, refl)
  | inr (p, inr (r, e)) ↦
      rw (p, e)
        (
          ((λ h. absurd (apart "request_payment_method_update" "await_provider_retry" refl h)), tt),
          refl,
        )
]

-- The waits between attempts never get shorter, from six hours up to five days.
pub backoff_ms_rises :
    (a b : ℕ)
    → a ≤ b
    → (backoff_ms a ≤ backoff_ms b) × (6 * hour ≤ backoff_ms a) × (backoff_ms b ≤ 5 * day)
unfolding backoff_ms
backoff_ms_rises zero zero le = ground (arith)
backoff_ms_rises zero (suc zero) le = ground (arith)
backoff_ms_rises zero (suc (suc b)) le = ground (arith)
backoff_ms_rises (suc zero) zero le = ground (arith)
backoff_ms_rises (suc zero) (suc zero) le = ground (arith)
backoff_ms_rises (suc zero) (suc (suc b)) le = ground (arith)
backoff_ms_rises (suc (suc a)) zero le = ground (arith)
backoff_ms_rises (suc (suc a)) (suc zero) le = ground (arith)
backoff_ms_rises (suc (suc a)) (suc (suc b)) le = ground (arith)
