-- ===== src/Core/StateMachine.antt =====
-- packages/core/src/state-machine.ts: the states of a case and the legal transitions.
pub mod Diagram
use razorpay_buildathon.Base.{ℕ, String, Bool, true, false, List, [], ◌∷◌, ◌==◌, if◌then◌else◌, any}

pub data CaseState : Type 0 where
  detected diagnosing planning awaiting_approval executing observing scheduled : CaseState
  suppressed_by_incident : CaseState
  recovered unrecoverable cancelled disputed opted_out stopped_human : CaseState

-- The position in `CASE_STATES`, by which states are compared.
abbrev pub state_index : CaseState → ℕ
state_index detected = 0
state_index diagnosing = 1
state_index planning = 2
state_index awaiting_approval = 3
state_index executing = 4
state_index observing = 5
state_index scheduled = 6
state_index suppressed_by_incident = 7
state_index recovered = 8
state_index unrecoverable = 9
state_index cancelled = 10
state_index disputed = 11
state_index opted_out = 12
state_index stopped_human = 13

-- `===` on two states.
abbrev pub same_state : CaseState → CaseState → Bool
same_state a b = state_index a == state_index b

-- `TERMINAL_STATES`, as a type of its own.
pub data TerminalState : Type 0 where
  recovered unrecoverable cancelled disputed opted_out stopped_human : TerminalState

abbrev pub to_state : TerminalState → CaseState
to_state TerminalState.recovered = CaseState.recovered
to_state TerminalState.unrecoverable = CaseState.unrecoverable
to_state TerminalState.cancelled = CaseState.cancelled
to_state TerminalState.disputed = CaseState.disputed
to_state TerminalState.opted_out = CaseState.opted_out
to_state TerminalState.stopped_human = CaseState.stopped_human

unfoldable pub terminal_states : List CaseState
terminal_states =
    CaseState.recovered ∷ CaseState.unrecoverable ∷ CaseState.cancelled ∷ CaseState.disputed
    ∷ CaseState.opted_out ∷ CaseState.stopped_human ∷ []

-- Membership of the set `TERMINAL`.
unfoldable pub is_terminal : CaseState → Bool
unfolding terminal_states
is_terminal s = any (same_state s) terminal_states

unfoldable pub legal : CaseState → List CaseState
legal detected = diagnosing ∷ suppressed_by_incident ∷ []
legal diagnosing = planning ∷ suppressed_by_incident ∷ []
legal planning = awaiting_approval ∷ executing ∷ scheduled ∷ suppressed_by_incident ∷ []
legal awaiting_approval = executing ∷ suppressed_by_incident ∷ []
legal executing = observing ∷ suppressed_by_incident ∷ []
legal observing = diagnosing ∷ scheduled ∷ planning ∷ suppressed_by_incident ∷ []
legal scheduled = diagnosing ∷ executing ∷ suppressed_by_incident ∷ []
legal suppressed_by_incident = scheduled ∷ diagnosing ∷ []
legal CaseState.recovered = []
legal CaseState.unrecoverable = []
legal CaseState.cancelled = []
legal CaseState.disputed = []
legal CaseState.opted_out = []
legal CaseState.stopped_human = []

unfoldable pub can_transition : CaseState → CaseState → Bool
unfolding is_terminal legal
can_transition from to =
    if same_state from to
    then true
    else if is_terminal from
    then false
    else if is_terminal to
    then true
    else any (same_state to) (legal from)
