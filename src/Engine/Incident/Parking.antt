-- ===== src/Engine/Incident/Parking.antt =====
-- What parking does to a case and to what it has scheduled.
use razorpay_buildathon.Base.{
  ℕ, ◌≡◌, refl, ◌∙◌, String, true, false, none, some, List, [], ◌∷◌, ◌++◌, arith, ===_refl, any,
}
use razorpay_buildathon.Core.StateMachine.{
  can_transition, is_terminal, CaseState, suppressed_by_incident,
}
use razorpay_buildathon.Core.Events.{
  CaseRevision, incident_attached, next_revision, target_state, illegal_transition,
}
use razorpay_buildathon.Db.Tables.{CaseRow, Schedule}
use razorpay_buildathon.Db.CaseEvents.{Db, refused, replay}
use razorpay_buildathon.Db.CaseEvents.Replay.{
  Projects, stored_event, row_after, db_after, append_legal, append_illegal, append-Projects,
}
use razorpay_buildathon.Engine.Scheduler.{pending_count, cancel_for_case}
use razorpay_buildathon.Engine.Scheduler.Settled.{pending_count-cancel_for_case}
use razorpay_buildathon.Engine.Incident.{
  World, MemberRow, Outcome, is_member, is_live, attach_one, suppress,
}

-- The members with one more.
abbrev pub joined : ℕ → String → String → List MemberRow → List MemberRow
joined now incident case_id members =
    members
    ++ record { incident_id = incident; case_id = case_id; attached_at = now; released_at = none }
      ∷ []

-- Every state from which nothing is terminal may be suppressed.
suppressible :
    (s : CaseState) → is_terminal s ≡ false → can_transition s suppressed_by_incident ≡ true
unfolding can_transition
suppressible s h = ground (arith)

unsuppressible :
    (s : CaseState) → is_terminal s ≡ true → can_transition s suppressed_by_incident ≡ false
unfolding can_transition
unsuppressible s h = ground (arith)

-- The tables with what a case has scheduled cancelled.
abbrev cancelled_db : ℕ → String → Db → Db
cancelled_db now case_id db = record db { schedule = (cancel_for_case now case_id db.schedule).0 }

reschedule :
    (s : Schedule) (db : Db) (c : CaseRow) (r : CaseRevision)
    → Projects db c r
    → Projects (record db { schedule = s }) c r
unfolding replay
reschedule s db c r v = record {
  stored = v.stored;
  replayed = v.replayed;
  numbered = v.numbered;
  seqs = v.seqs;
  revisions = v.revisions;
  same_state = v.same_state;
  same_reason = v.same_reason;
}

-- A live case of a state that is not terminal, no member yet, is parked: it becomes a member that
-- is not released, its row says that it is suppressed under the incident and shows its log, and
-- nothing of it is left scheduled.
pub attach_one_parks :
    (now : ℕ) (incident : String) (w : World) (c : CaseRow) (r : CaseRevision)
    → Projects w.db c r
    → is_terminal c.state ≡ false
    → any (is_live c.id) w.db.cases ≡ true
    → any (is_member incident c.id) w.members ≡ false
    → (w' : World) × (c' : CaseRow) × (r' : CaseRevision) × (attach_one now incident c.id w
        ≡ Outcome.ok 1 w')
      × (w'.members ≡ joined now incident c.id w.members)
      × Projects w'.db c' r'
      × (c'.id ≡ c.id)
      × (c'.state ≡ suppressed_by_incident)
      × (c'.incident_id ≡ some incident)
      × (pending_count c.id w'.db.schedule ≡ 0)
unfolding attach_one suppress target_state next_revision
attach_one_parks now incident w c r v live open' fresh =
    let event = incident_attached incident in
    let e = stored_event c event "incident_manager" now in
    let next = next_revision r e in
    let l = suppressible c.state live in
    let done = append_legal w.db c r event "incident_manager" now v l in
    let w' : World = record w {
      members = joined now incident c.id w.members;
      db = cancelled_db now c.id (db_after w.db c e next now);
    } in
    (
      w',
      row_after c next now,
      next,
      rw (fresh, open', suppress, done) refl,
      refl,
      reschedule (cancel_for_case now c.id (db_after w.db c e next now).schedule).0
          (db_after w.db c e next now) (row_after c next now) next
          (append-Projects w.db c r event "incident_manager" now v l),
      refl,
      refl,
      refl,
      pending_count-cancel_for_case now c.id c.id (db_after w.db c e next now).schedule
          ∙ rw (===_refl c.id) refl,
    )

-- A case that the store counts as live in a terminal state, which an expired approval leaves
-- behind, cannot be parked: the call throws, but it has already made the case a member, and what
-- the case has scheduled stays.
pub attach_one_stopped :
    (now : ℕ) (incident : String) (w : World) (c : CaseRow) (r : CaseRevision)
    → Projects w.db c r
    → is_terminal c.state ≡ true
    → any (is_live c.id) w.db.cases ≡ true
    → any (is_member incident c.id) w.members ≡ false
    → attach_one now incident c.id w
      ≡ Outcome.thrown
          (refused (illegal_transition c.state suppressed_by_incident))
          (record w { members = joined now incident c.id w.members })
unfolding attach_one suppress target_state
attach_one_stopped now incident w c r v dead open' fresh =
    let refusal =
      append_illegal w.db c r (incident_attached incident) "incident_manager" now v
        (unsuppressible c.state dead) in
    rw (fresh, open', suppress, refusal) refl
