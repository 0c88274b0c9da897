-- ===== src/Db/CaseEvents/Closing.antt =====
-- What an append does to the end of a case.
use razorpay_buildathon.Base.{
  ℕ, ◌≡◌, refl, ◌∙◌, sym, String, true, false, none, arith, ===_refl, ap,
}
use razorpay_buildathon.Core.StateMachine.{can_transition, is_terminal, CaseState}
use razorpay_buildathon.Core.Events.{
  CaseEvent, CaseRevision, approval_expired, next_revision, target_state,
}
use razorpay_buildathon.Db.Tables.{CaseRow}
use razorpay_buildathon.Db.CaseEvents.{Db, Appended, append}
use razorpay_buildathon.Db.CaseEvents.Replay.{
  Projects, stored_event, row_after, db_after, append_legal, append-Projects,
}
use razorpay_buildathon.Engine.Scheduler.{pending_count}
use razorpay_buildathon.Engine.Scheduler.Settled.{pending_count-cancel_for_case}

-- After an append that takes a case to a terminal state nothing of it is left scheduled, and its
-- row is in that state.
pub append_terminal :
    (db : Db) (c : CaseRow) (r : CaseRevision) (event : CaseEvent) (source : String) (at : ℕ)
    → Projects db c r
    → can_transition c.state (target_state event c.state) ≡ true
    → is_terminal (target_state event c.state) ≡ true
    → (db' : Db) × (append c.id event source at db
        ≡ Appended.ok
            (stored_event c event source at)
            (next_revision r (stored_event c event source at))
            db')
      × (pending_count c.id db'.schedule ≡ 0)
      × ((row_after c (next_revision r (stored_event c event source at)) at).state
          ≡ target_state event c.state)
unfolding next_revision
append_terminal db c r event source at v l t =
    let e = stored_event c event source at in
    let next = next_revision r e in
    let same : next.state ≡ target_state event c.state =
      ap (target_state event) (sym v.same_state) in
    (
      db_after db c e next at,
      append_legal db c r event source at v l,
      rw (same, t) (pending_count-cancel_for_case at c.id c.id db.schedule ∙ rw (===_refl c.id)),
      same,
    )

-- An expired approval takes an open case without a terminal reason to STOPPED_HUMAN, and leaves its
-- `closed_at` empty: the stopped case still counts as open.
pub append-approval_expired_open :
    (db : Db) (c : CaseRow) (r : CaseRevision) (source : String) (at : ℕ)
    → Projects db c r
    → is_terminal c.state ≡ false
    → c.terminal_reason ≡ none
    → c.closed_at ≡ none
    → (db' : Db) × (c' : CaseRow) × (r' : CaseRevision) × (append c.id approval_expired source at db
        ≡ Appended.ok (stored_event c approval_expired source at) r' db')
      × Projects db' c' r'
      × (c'.state ≡ CaseState.stopped_human)
      × (c'.closed_at ≡ none)
unfolding next_revision target_state can_transition
append-approval_expired_open db c r source at v live reason open' =
    let e = stored_event c approval_expired source at in
    let next = next_revision r e in
    let l : can_transition c.state (target_state approval_expired c.state) ≡ true = ground arith in
    (
      db_after db c e next at,
      row_after c next at,
      next,
      append_legal db c r approval_expired source at v l,
      append-Projects db c r approval_expired source at v l,
      refl,
      ground (arith, v.same_reason),
    )
