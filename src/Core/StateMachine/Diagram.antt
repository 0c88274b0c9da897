-- ===== src/Core/StateMachine/Diagram.antt =====
-- The transition diagram of a case as a relation, and what its paths allow.
use razorpay_buildathon.Base.{
  ◌≡◌, refl, sym, subst, ◌↔◌, ◌⊎◌, inl, inr, Bool, true, false, ◌||◌, ◌&&◌, List, [], ◌∷◌, arith,
  any,
}
use razorpay_buildathon.Core.StateMachine.{
  CaseState, detected, diagnosing, planning, awaiting_approval, executing, observing, scheduled,
  suppressed_by_incident, same_state, TerminalState, to_state, is_terminal, can_transition,
}

pub same_state_iff : (a b : CaseState) → (same_state a b ≡ true) ↔ (a ≡ b)
same_state_iff a b = ground arith

-- The states that the agent may leave.
pub data Live : CaseState → Type 0 where
  detected_live : Live detected
  diagnosing_live : Live diagnosing
  planning_live : Live planning
  awaiting_approval_live : Live awaiting_approval
  executing_live : Live executing
  observing_live : Live observing
  scheduled_live : Live scheduled
  suppressed_live : Live suppressed_by_incident

ruleset live_states = (
  detected_live, diagnosing_live, planning_live, awaiting_approval_live, executing_live,
  observing_live, scheduled_live, suppressed_live,
)

infix 40 ◌⟶◌
pub data ◌⟶◌ (s : CaseState) (u : CaseState) : Type 0 where
  hold : s ≡ u → s ⟶ u
  finish : Live s → (t : TerminalState) → u ≡ to_state t → s ⟶ u
  suppress : Live s → u ≡ suppressed_by_incident → s ⟶ u
  diagnose :
      (s ≡ detected) ⊎ (s ≡ observing) ⊎ (s ≡ scheduled) ⊎ (s ≡ suppressed_by_incident)
      → u ≡ diagnosing
      → s ⟶ u
  plan : (s ≡ diagnosing) ⊎ (s ≡ observing) → u ≡ planning → s ⟶ u
  ask : s ≡ planning → u ≡ awaiting_approval → s ⟶ u
  execute : (s ≡ planning) ⊎ (s ≡ awaiting_approval) ⊎ (s ≡ scheduled) → u ≡ executing → s ⟶ u
  observe : s ≡ executing → u ≡ observing → s ⟶ u
  defer : (s ≡ planning) ⊎ (s ≡ observing) ⊎ (s ≡ suppressed_by_incident) → u ≡ scheduled → s ⟶ u

pub Live-not_terminal : {s : CaseState} → Live s → is_terminal s ≡ false
unfolding is_terminal
Live-not_terminal detected_live = refl
Live-not_terminal diagnosing_live = refl
Live-not_terminal planning_live = refl
Live-not_terminal awaiting_approval_live = refl
Live-not_terminal executing_live = refl
Live-not_terminal observing_live = refl
Live-not_terminal scheduled_live = refl
Live-not_terminal suppressed_live = refl

is_terminal-to_state : (t : TerminalState) → is_terminal (to_state t) ≡ true
unfolding is_terminal
is_terminal-to_state t = ground arith

can_transition-finish :
    (s : CaseState) (t : TerminalState)
    → is_terminal s ≡ false
    → can_transition s (to_state t) ≡ true
unfolding can_transition
can_transition-finish s t h = ground arith

can_transition-suppress :
    (s : CaseState) → is_terminal s ≡ false → can_transition s suppressed_by_incident ≡ true
unfolding can_transition
can_transition-suppress s h = ground arith

⟶-can_transition : (s u : CaseState) → s ⟶ u → can_transition s u ≡ true
unfolding can_transition
⟶-can_transition s u (hold e) = ground arith
⟶-can_transition s u (finish l t e) =
    subst (λ v. can_transition s v ≡ true) (sym e) (can_transition-finish s t (Live-not_terminal l))
⟶-can_transition s u (suppress l e) =
    subst (λ v. can_transition s v ≡ true) (sym e) (can_transition-suppress s (Live-not_terminal l))
⟶-can_transition s u (diagnose h e) = ground arith
⟶-can_transition s u (plan h e) = ground arith
⟶-can_transition s u (ask h e) = ground arith
⟶-can_transition s u (execute h e) = ground arith
⟶-can_transition s u (observe h e) = ground arith
⟶-can_transition s u (defer h e) = ground arith

is_live : (s : CaseState) → is_terminal s ≡ false → Live s
unfolding is_terminal
is_live detected h = detected_live
is_live diagnosing h = diagnosing_live
is_live planning h = planning_live
is_live awaiting_approval h = awaiting_approval_live
is_live executing h = executing_live
is_live observing h = observing_live
is_live scheduled h = scheduled_live
is_live suppressed_by_incident h = suppressed_live
is_live _ h = cc

into_terminal :
    (s : CaseState) (t : TerminalState)
    → can_transition s (to_state t) ≡ true
    → (s ≡ to_state t) ⊎ (is_terminal s ≡ false)
unfolding can_transition
into_terminal s t h = ground arith

terminal-⟶ :
    (s : CaseState) (t : TerminalState) → can_transition s (to_state t) ≡ true → s ⟶ to_state t
terminal-⟶ s t h = elim (into_terminal s t h) [
  | inl e ↦ hold e
  | inr l ↦ finish (is_live s l) t refl
]

can_transition-⟶ : (s u : CaseState) → can_transition s u ≡ true → s ⟶ u
unfolding can_transition
can_transition-⟶ s detected h = hold (ground arith)
can_transition-⟶ s diagnosing h =
    let cases : (s ≡ diagnosing)
        ⊎ ((s ≡ detected) ⊎ (s ≡ observing) ⊎ (s ≡ scheduled) ⊎ (s ≡ suppressed_by_incident)) =
      ground arith in
    elim cases [ inl e ↦ hold e | inr o ↦ diagnose o refl ]
can_transition-⟶ s planning h =
    let cases : (s ≡ planning) ⊎ ((s ≡ diagnosing) ⊎ (s ≡ observing)) = ground arith in
    elim cases [ inl e ↦ hold e | inr o ↦ plan o refl ]
can_transition-⟶ s awaiting_approval h =
    let cases : (s ≡ awaiting_approval) ⊎ (s ≡ planning) = ground arith in
    elim cases [ inl e ↦ hold e | inr o ↦ ask o refl ]
can_transition-⟶ s executing h =
    let cases : (s ≡ executing) ⊎ ((s ≡ planning) ⊎ (s ≡ awaiting_approval) ⊎ (s ≡ scheduled)) =
      ground arith in
    elim cases [ inl e ↦ hold e | inr o ↦ execute o refl ]
can_transition-⟶ s observing h =
    let cases : (s ≡ observing) ⊎ (s ≡ executing) = ground arith in
    elim cases [ inl e ↦ hold e | inr o ↦ observe o refl ]
can_transition-⟶ s scheduled h =
    let cases : (s ≡ scheduled)
        ⊎ ((s ≡ planning) ⊎ (s ≡ observing) ⊎ (s ≡ suppressed_by_incident)) =
      ground arith in
    elim cases [ inl e ↦ hold e | inr o ↦ defer o refl ]
can_transition-⟶ s suppressed_by_incident h =
    let cases : (s ≡ suppressed_by_incident) ⊎ (is_terminal s ≡ false) = ground arith in
    elim cases [ inl e ↦ hold e | inr l ↦ suppress (is_live s l) refl ]
can_transition-⟶ s CaseState.recovered h = terminal-⟶ s TerminalState.recovered h
can_transition-⟶ s CaseState.unrecoverable h = terminal-⟶ s TerminalState.unrecoverable h
can_transition-⟶ s CaseState.cancelled h = terminal-⟶ s TerminalState.cancelled h
can_transition-⟶ s CaseState.disputed h = terminal-⟶ s TerminalState.disputed h
can_transition-⟶ s CaseState.opted_out h = terminal-⟶ s TerminalState.opted_out h
can_transition-⟶ s CaseState.stopped_human h = terminal-⟶ s TerminalState.stopped_human h

-- For any two states, the transition check passes exactly when the diagram has an edge between
-- them: a state may stay, a live state may finish in any terminal state or be suppressed, and
-- otherwise only the listed edges of the recovery loop are taken.
pub can_transition-iff-⟶ : (s u : CaseState) → (can_transition s u ≡ true) ↔ (s ⟶ u)
can_transition-iff-⟶ s u = (can_transition-⟶ s u, ⟶-can_transition s u)

-- A sequence of states, each reached from the one before by a permitted transition.
pub follows : CaseState → List CaseState → Bool
follows s [] = true
follows s (u ∷ us) = can_transition s u && follows u us

abbrev is_early : CaseState → Bool
is_early s = same_state s detected || same_state s diagnosing || is_terminal s

early_step :
    (s u : CaseState)
    → is_early s ≡ true
    → can_transition s u ≡ true
    → (is_early u ≡ true) ⊎ ((same_state planning u || same_state suppressed_by_incident u) ≡ true)
unfolding can_transition
early_step s u h k = ground arith

not_executing : (u : CaseState) → is_early u ≡ true → same_state executing u ≡ false
unfolding is_terminal
not_executing u h = ground arith

early_path :
    (s : CaseState) (us : List CaseState)
    → is_early s ≡ true
    → follows s us ≡ true
    → any (same_state executing) us ≡ true
    → any (λ u. same_state planning u || same_state suppressed_by_incident u) us ≡ true
unfolding follows
early_path s [] h f e = cc
early_path s (u ∷ us) h f e = elim (early_step s u h (ground arith)) [
  | inl early ↦ ground (arith, not_executing u early, early_path u us early)
  | inr passed ↦ rw passed
]

-- Along any sequence of permitted transitions from DETECTED, a case that comes to EXECUTING has
-- come through PLANNING or through SUPPRESSED_BY_INCIDENT.
pub executing_needs_plan :
    (us : List CaseState)
    → follows detected us ≡ true
    → any (same_state executing) us ≡ true
    → any (λ u. same_state planning u || same_state suppressed_by_incident u) us ≡ true
unfolding is_terminal
executing_needs_plan us f e = early_path detected us refl f e
