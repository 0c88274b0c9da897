-- ===== src/Engine/Scheduler/Settled.antt =====
-- Over any calls the invariant holds, and a settled row stays as it is.
use razorpay_buildathon.Base.{
  ℕ, ◌+◌, ◌≡◌, inl, inr, String, true, false, ◌&&◌, some, List, [], ◌∷◌, arith, ◌==◌, count, ◌===◌,
  ===_iff, All-get_elem?, get_elem?, get_elem?-update_where, get_elem?-append_left, Bool-cases,
  update_where, if◌then◌else◌,
}
use razorpay_buildathon.Base.Order.{TextOrder}
use razorpay_buildathon.Db.Tables.{ScheduleState, pending, ScheduledRow, Schedule}
use razorpay_buildathon.Engine.Scheduler.{
  is_open, is_leased, is_open_of, is_expired, settle_row, free_row, lease_row, schedule, tick,
  complete, release, reclaim_expired_leases, cancel_for_case, pending_count, due_rows, has_id_in,
}
use razorpay_buildathon.Engine.Scheduler.Rows.{
  Inv, Op, schedules, ticks, completes, releases, reclaims, cancels, step, run, schedule-Inv,
  complete-Inv, release-Inv, reclaim-Inv, cancel-Inv,
}
use razorpay_buildathon.Engine.Scheduler.Leasing.{tick-Inv, due_rows-Picks}

pub step-Inv : (order : TextOrder) (s : Schedule) (o : Op) → Inv s → Inv (step order s o)
unfolding step
step-Inv order s (schedules now req) v = schedule-Inv now req s v
step-Inv order s (ticks lease_ms now locked owner limit) v =
    tick-Inv order lease_ms now locked owner limit s v
step-Inv order s (completes now id) v = complete-Inv now id s v
step-Inv order s (releases id) v = release-Inv id s v
step-Inv order s (reclaims now) v = reclaim-Inv now s v
step-Inv order s (cancels now case_id) v = cancel-Inv now case_id s v

-- Whatever calls are made, in whatever order, the ids of the rows stay distinct and below the
-- next id, a row has a lease owner and expiry exactly while it is leased, and has a settling time
-- exactly if it is done or cancelled.
pub run-Inv : (order : TextOrder) (os : List Op) (s : Schedule) → Inv s → Inv (run order s os)
unfolding run
run-Inv order [] s v = v
run-Inv order (o ∷ os) s v = run-Inv order os (step order s o) (step-Inv order s o v)

-- A closed row is not picked.
not_picked :
    (order : TextOrder) (now : ℕ) (locked : List ℕ) (limit : ℕ) (s : Schedule) (i : ℕ)
    (r : ScheduledRow)
    → Inv s
    → get_elem? s.rows i ≡ some r
    → is_open r.state ≡ false
    → has_id_in (due_rows order now locked limit s) r ≡ false
not_picked order now locked limit s i r v e c =
    elim (Bool-cases (has_id_in (due_rows order now locked limit s) r)) [
      | inl t ↦
          let p =
            All-get_elem?
              (λ q. has_id_in (due_rows order now locked limit s) q ≡ true → q.state ≡ pending)
              s.rows i r (due_rows-Picks order now locked limit s v) e t in
          absurd (ground arith)
      | inr f ↦ f
    ]

step_settled :
    (order : TextOrder) (s : Schedule) (o : Op) (i : ℕ) (r : ScheduledRow)
    → Inv s
    → get_elem? s.rows i ≡ some r
    → is_open r.state ≡ false
    → get_elem? (step order s o).rows i ≡ some r
unfolding step schedule tick complete release reclaim_expired_leases cancel_for_case
step_settled order s (schedules now req) i r v e c = get_elem?-append_left s.rows _ i r e
step_settled order s (ticks lease_ms now locked owner limit) i r v e c =
    get_elem?-update_where (has_id_in (due_rows order now locked limit s))
      (lease_row owner (now + lease_ms)) s.rows i r e
      (not_picked order now locked limit s i r v e c)
step_settled order s (completes now id) i r v e c =
    get_elem?-update_where (λ q. (q.id == id) && is_leased q.state)
      (settle_row ScheduleState.done now) s.rows i r e (ground arith)
step_settled order s (releases id) i r v e c =
    get_elem?-update_where (λ q. (q.id == id) && is_leased q.state) free_row s.rows i r e
      (ground arith)
step_settled order s (reclaims now) i r v e c =
    get_elem?-update_where (is_expired now) free_row s.rows i r e (ground arith)
step_settled order s (cancels now case_id) i r v e c =
    get_elem?-update_where (is_open_of case_id) (settle_row ScheduleState.cancelled now) s.rows i r
      e (ground arith)

-- A row that is done or cancelled is never leased, freed or settled again: over any later calls it
-- stays exactly as it is.
pub run_settled :
    (order : TextOrder) (os : List Op) (s : Schedule) (i : ℕ) (r : ScheduledRow)
    → Inv s
    → get_elem? s.rows i ≡ some r
    → is_open r.state ≡ false
    → get_elem? (run order s os).rows i ≡ some r
unfolding run
run_settled order [] s i r v e c = e
run_settled order (o ∷ os) s i r v e c =
    run_settled order os (step order s o) i r (step-Inv order s o v)
      (step_settled order s o i r v e c) c

open_after_cancel :
    (now : ℕ) (case_id j : String) (rs : List ScheduledRow)
    → count
        (is_open_of j)
        (update_where (is_open_of case_id) (settle_row ScheduleState.cancelled now) rs)
      ≡ (if case_id === j then 0 else count (is_open_of j) rs)
open_after_cancel now case_id j [] = ground arith
open_after_cancel now case_id j (r ∷ rs) = ground (
  arith,
  ===_iff r.case_id case_id,
  ===_iff r.case_id j,
  ===_iff case_id j,
  open_after_cancel now case_id j rs,
)

-- Cancelling for a case leaves it nothing outstanding, and leaves every other case what it had.
pub pending_count-cancel_for_case :
    (now : ℕ) (case_id j : String) (s : Schedule)
    → pending_count j (cancel_for_case now case_id s).0
      ≡ (if case_id === j then 0 else pending_count j s)
unfolding pending_count cancel_for_case
pending_count-cancel_for_case now case_id j s = open_after_cancel now case_id j s.rows
