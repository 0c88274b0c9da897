-- ===== src/Examples/Parking.antt =====
-- A case parked under an incident, and the ramp that releases it.
use razorpay_buildathon.Base.{◌≡◌, refl, true, false, none, some, [], ◌∷◌, any}
use razorpay_buildathon.Core.StateMachine.{
  is_terminal, can_transition, suppressed_by_incident, detected,
}
use razorpay_buildathon.Core.Events.{
  CaseRevision, approval_expired, next_revision, initial_revision, illegal_transition, target_state,
}
use razorpay_buildathon.Db.Tables.{CaseRow}
use razorpay_buildathon.Db.CaseEvents.{Db, refused}
use razorpay_buildathon.Db.CaseEvents.Replay.{
  Projects, stored_event, db_after, row_after, append-Projects,
}
use razorpay_buildathon.Engine.Incident.{
  IncidentRow, opened, World, Outcome, is_live, attach_one, get,
}
use razorpay_buildathon.Engine.Incident.Parking.{joined, attach_one_stopped}
use razorpay_buildathon.Engine.ReleaseController.{HealthReading, Controller, step, is_healthy}
use razorpay_buildathon.Engine.ReleaseController.Ramp.{Ramped, step-Ramped}
use razorpay_buildathon.Examples.Text.{text_order}
use razorpay_buildathon.Examples.Cases.{fresh_case, store, store-Projects}

abbrev incident : IncidentRow
incident = record {
  id = "inc_1";
  segment_label = "gateway:hdfc";
  state = opened;
  detected_by = "detector";
  release_stage = 0;
  opened_at = 0;
  closed_at = none;
}

abbrev world : World
world = record { incidents = incident ∷ []; members = []; db = store; ledger = [] }

detected-IsLive : is_terminal detected ≡ false
unfolding is_terminal
detected-IsLive = refl

-- The store after the approval of the case expired.
abbrev pub expired_revision : CaseRevision
expired_revision =
    next_revision (initial_revision "case_1")
      (stored_event fresh_case approval_expired "scheduler" 9)

abbrev pub expired_row : CaseRow
expired_row = row_after fresh_case expired_revision 9

abbrev pub expired_store : Db
expired_store =
    db_after store fresh_case (stored_event fresh_case approval_expired "scheduler" 9)
      expired_revision 9

detected-expires : can_transition detected (target_state approval_expired detected) ≡ true
unfolding can_transition target_state
detected-expires = refl

pub expired-Projects : Projects expired_store expired_row expired_revision
expired-Projects =
    append-Projects store fresh_case (initial_revision "case_1") approval_expired "scheduler" 9
      store-Projects detected-expires

abbrev expired_world : World
expired_world = record world { db = expired_store }

pub expired-IsTerminal : is_terminal expired_row.state ≡ true
unfolding is_terminal next_revision target_state
expired-IsTerminal = refl

expired-IsLive : any (is_live "case_1") expired_store.cases ≡ true
unfolding next_revision initial_revision
expired-IsLive = refl

attach_one_stopped_example :
    attach_one 10 "inc_1" "case_1" expired_world
    ≡ Outcome.thrown
        (refused (illegal_transition expired_row.state suppressed_by_incident))
        (record expired_world { members = joined 10 "inc_1" "case_1" [] })
attach_one_stopped_example =
    attach_one_stopped 10 "inc_1" expired_world expired_row expired_revision expired-Projects
      expired-IsTerminal expired-IsLive refl

abbrev parked_world : World
parked_world = record world { members = joined 5 "inc_1" "case_1" [] }

abbrev controller : Controller
controller = record { in_flight = []; health_threshold = 90 }

abbrev health : HealthReading
health = record { observed_rate = 95; baseline_rate = 100 }

incident-found : get "inc_1" parked_world ≡ some incident
unfolding get
incident-found = refl

health-good : is_healthy 90 health ≡ true
unfolding is_healthy
health-good = refl

step-Ramped_example :
    Ramped 20 "inc_1" incident parked_world
      (step text_order 20 0 "inc_1" health controller parked_world)
step-Ramped_example =
    step-Ramped text_order 20 0 "inc_1" health incident controller parked_world incident-found
      health-good
