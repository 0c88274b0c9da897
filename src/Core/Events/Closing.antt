-- ===== src/Core/Events/Closing.antt =====
-- Terminal states are absorbing, and what a revision records of its end and of its incident.
use razorpay_buildathon.Base.{◌≡◌, refl, ◌⊎◌, true, List, String, arith, is_some}
use razorpay_buildathon.Core.StateMachine.{
  CaseState, suppressed_by_incident, is_terminal, can_transition,
}
use razorpay_buildathon.Core.Events.{
  approval_expired, CaseRevision, StoredCaseEvent, ok, initial_revision, next_revision, reduce,
  reduce_from, reduce_all, target_state,
}
use razorpay_buildathon.Core.Events.Reduction.{reduce_from-keeps, reduce-legal, reduce-next}

can_transition-terminal :
    (s u : CaseState) → is_terminal s ≡ true → can_transition s u ≡ true → s ≡ u
unfolding can_transition
can_transition-terminal s u h k = ground arith

reduce-state :
    (prev : CaseRevision) (e : StoredCaseEvent) (next : CaseRevision)
    → reduce prev e ≡ ok next
    → can_transition prev.state next.state ≡ true
unfolding next_revision
reduce-state prev e next q = ground (arith, reduce-legal prev e next q, reduce-next prev e next q)

-- Once a case is in a terminal state, whatever events its log goes on with, a log that is reduced
-- without error leaves it in that state.
pub terminal_absorbs :
    (prev : CaseRevision) (es : List StoredCaseEvent) (r : CaseRevision)
    → is_terminal prev.state ≡ true
    → reduce_from prev es ≡ ok r
    → r.state ≡ prev.state
terminal_absorbs prev es r t h =
    reduce_from-keeps (λ x. x.state ≡ prev.state)
      (λ p e next q k.
        ground (arith, can_transition-terminal p.state next.state, reduce-state p e next q))
      es prev r h refl

pub record RevisionInv (r : CaseRevision) : Type 0 where
  pub suppressed_owned : r.state ≡ suppressed_by_incident → is_some r.incident_id ≡ true
  pub reason_closed : is_some r.terminal_reason ≡ true → is_terminal r.state ≡ true
  pub closed_reason :
      is_terminal r.state ≡ true
      → (is_some r.terminal_reason ≡ true) ⊎ (r.state ≡ CaseState.stopped_human)

next_revision-Inv :
    (prev : CaseRevision) (e : StoredCaseEvent)
    → can_transition prev.state (target_state e.event prev.state) ≡ true
    → RevisionInv prev
    → RevisionInv (next_revision prev e)
unfolding next_revision can_transition target_state
next_revision-Inv prev e q v = ground arith

initial_revision-Inv : (case_id : String) → RevisionInv (initial_revision case_id)
unfolding initial_revision is_terminal
initial_revision-Inv case_id = ground arith

-- In a revision that a log reduces to: a suppressed case names the incident that suppressed it, a
-- terminal reason is recorded only in a terminal state, and every terminal state but
-- STOPPED_HUMAN has its reason recorded.
pub reduce_all-RevisionInv :
    (case_id : String) (es : List StoredCaseEvent) (r : CaseRevision)
    → reduce_all case_id es ≡ ok r
    → RevisionInv r
unfolding reduce_all
reduce_all-RevisionInv case_id es r h =
    reduce_from-keeps RevisionInv
      (λ p e next q v.
        rw (reduce-next p e next q) (next_revision-Inv p e (reduce-legal p e next q) v))
      es (initial_revision case_id) r h (initial_revision-Inv case_id)

-- An expired approval stops a case, and leaves a case that had no terminal reason without one.
pub approval_expired_unreasoned :
    (prev : CaseRevision) (e : StoredCaseEvent) (next : CaseRevision)
    → e.event ≡ approval_expired
    → reduce prev e ≡ ok next
    → (next.state ≡ CaseState.stopped_human) × (next.terminal_reason ≡ prev.terminal_reason)
unfolding reduce next_revision target_state
approval_expired_unreasoned prev e next x h = ground arith
