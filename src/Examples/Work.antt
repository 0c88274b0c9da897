-- ===== src/Examples/Work.antt =====
-- Scheduled actions, claims and their routing.
use razorpay_buildathon.Base.{
  ℕ, ◌≡◌, refl, String, false, none, some, [], ◌∷◌, All, any, map, ◌==◌, get_elem?, arith,
}
use razorpay_buildathon.Core.Types.{decline_code}
use razorpay_buildathon.Core.Json.{end}
use razorpay_buildathon.Core.Roles.{RoleId, payment_diagnosis, customer_context}
use razorpay_buildathon.Db.Tables.{ScheduledRow, Schedule, pending, done}
use razorpay_buildathon.Engine.Scheduler.{tick}
use razorpay_buildathon.Engine.Scheduler.Rows.{Inv, ticks, cancels, run}
use razorpay_buildathon.Engine.Scheduler.Leasing.{tick_disjoint}
use razorpay_buildathon.Engine.Scheduler.Settled.{run_settled}
use razorpay_buildathon.Engine.Blackboard.{
  ClaimRow, valid, invalidated, Board, WriteClaim, write_claim, live_claims,
}
use razorpay_buildathon.Engine.WorkRouter.{in_roles, route}
use razorpay_buildathon.Engine.WorkRouter.Partition.{route-live_claims}
use razorpay_buildathon.Examples.Text.{text_order}

abbrev row : ℕ → ScheduledRow
row id = record {
  id = id;
  case_id = "case_1";
  obligation_id = "ob_1";
  fire_at = 100;
  action_ref = record { action_id = "send_payment_link"; params = end; attempt_no = 0 };
  state = pending;
  lease_owner = none;
  lease_expiry = none;
  attempts = 0;
  created_at = 0;
  settled_at = none;
}

abbrev done_row : ScheduledRow
done_row = record (row 0) { state = done; settled_at = some 150 }

abbrev schedule : Schedule
schedule = record { rows = done_row ∷ row 1 ∷ row 2 ∷ []; next_id = 3 }

schedule-Inv : Inv schedule
schedule-Inv = record {
  rising = (omega arith, (omega arith, (omega arith, omega arith)));
  rows_ok = ((refl, refl, refl), ((refl, refl, refl), ((refl, refl, refl), tt)));
}

tick_disjoint_example :
    All
      (λ a. any (λ b. b.id == a.id) (tick text_order 30000 200 [] "worker_1" 1 schedule).1 ≡ false)
      (tick text_order 30000 201 [] "worker_2" 1
        (tick text_order 30000 200 [] "worker_1" 1 schedule).0).1
tick_disjoint_example =
    tick_disjoint text_order 30000 200 201 [] [] "worker_1" "worker_2" 1 1 schedule

run_settled_example :
    get_elem?
      (run text_order schedule (ticks 30000 200 [] "worker_1" 5 ∷ cancels 300 "case_1" ∷ [])).rows
      0
    ≡ some done_row
run_settled_example =
    run_settled text_order (ticks 30000 200 [] "worker_1" 5 ∷ cancels 300 "case_1" ∷ []) schedule 0
      done_row schedule-Inv refl refl

abbrev claim : String → RoleId → ClaimRow
claim id role = record {
  id = id;
  case_id = "case_1";
  revision = 1;
  role = role;
  status = valid;
  evidence_refs = "ev_1" ∷ [];
  created_at = 0;
  invalidated_at = none;
}

abbrev pub board : Board
board = record {
  evidence = [];
  claims = claim "cl_1" payment_diagnosis ∷ claim "cl_2" customer_context ∷ [];
}

abbrev new_diagnosis : WriteClaim
new_diagnosis = record {
  id = "cl_3";
  case_id = "case_1";
  revision = 2;
  role = payment_diagnosis;
  evidence_refs = "ev_2" ∷ [];
}

abbrev board_after : Board
board_after = record {
  evidence = [];
  claims =
      record (claim "cl_1" payment_diagnosis) { status = invalidated; invalidated_at = some 7 }
      ∷ claim "cl_2" customer_context
      ∷ record (claim "cl_3" payment_diagnosis) {
        revision = 2;
        evidence_refs = "ev_2" ∷ [];
        created_at = 7;
      }
      ∷ [];
}

diagnosis-written : write_claim 7 new_diagnosis board ≡ some board_after
unfolding write_claim
diagnosis-written = refl

route-live_claims_example :
    in_roles
      (map (λ c. c.role) (live_claims "case_1" (route 7 "case_1" (decline_code ∷ []) board).1))
      payment_diagnosis
    ≡ in_roles (route 7 "case_1" (decline_code ∷ []) board).0.reused payment_diagnosis
route-live_claims_example = route-live_claims 7 "case_1" (decline_code ∷ []) board payment_diagnosis
