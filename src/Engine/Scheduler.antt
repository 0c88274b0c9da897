-- ===== src/Engine/Scheduler.antt =====
-- packages/engine/src/scheduler.ts: the durable scheduler, over the table `scheduled_actions`.
pub mod Rows
pub mod Leasing
pub mod Settled
use razorpay_buildathon.Base.{
  ℕ, suc, ◌+◌, String, Bool, true, false, not, ◌&&◌, ◌||◌, Option, none, some, List, [], ◌∷◌, ◌++◌,
  ◌===◌, ◌==◌, leb, ltb, if◌then◌else◌, any, filter, map, update_where, count, sort, take,
}
use razorpay_buildathon.Base.Order.{TextOrder}
use razorpay_buildathon.Db.Tables.{
  ScheduleState, pending, leased, done, cancelled, ActionRef, ScheduledRow, Schedule,
}

abbrev pub is_pending : ScheduleState → Bool
is_pending pending = true
is_pending _ = false

abbrev pub is_leased : ScheduleState → Bool
is_leased leased = true
is_leased _ = false

-- `state IN ('pending','leased')`.
abbrev pub is_open : ScheduleState → Bool
is_open pending = true
is_open leased = true
is_open _ = false

-- What `tick` hands to its worker.
pub record ScheduledAction : Type 0 where
  pub id : ℕ
  pub case_id : String
  pub obligation_id : String
  pub fire_at : ℕ
  pub action_ref : ActionRef
  pub attempts : ℕ

pub record ScheduleRequest : Type 0 where
  pub case_id : String
  pub obligation_id : String
  pub fire_at : ℕ
  pub action_ref : ActionRef

unfoldable pub schedule : ℕ → ScheduleRequest → Schedule → Schedule × ℕ
schedule now req s = (
  record s {
    rows =
        s.rows
        ++ record {
          id = s.next_id;
          case_id = req.case_id;
          obligation_id = req.obligation_id;
          fire_at = req.fire_at;
          action_ref = req.action_ref;
          state = pending;
          lease_owner = none;
          lease_expiry = none;
          attempts = 0;
          created_at = now;
          settled_at = none;
        }
          ∷ [];
    next_id = suc s.next_id;
  },
  s.next_id,
)

-- A due row that no other transaction holds.
abbrev pub is_due : ℕ → List ℕ → ScheduledRow → Bool
is_due now locked r = is_pending r.state && leb r.fire_at now && not (any (λ i. i == r.id) locked)

-- `ORDER BY fire_at, case_id, id`.
abbrev pub row_before : TextOrder → ScheduledRow → ScheduledRow → Bool
row_before order a b =
    if ltb a.fire_at b.fire_at
    then true
    else if ltb b.fire_at a.fire_at
    then false
    else if a.case_id === b.case_id
    then leb a.id b.id
    else order.before a.case_id b.case_id

abbrev pub lease_row : String → ℕ → ScheduledRow → ScheduledRow
lease_row owner expiry r = record r {
  state = leased;
  lease_owner = some owner;
  lease_expiry = some expiry;
  attempts = r.attempts + 1;
}

abbrev pub to_action : ScheduledRow → ScheduledAction
to_action r = record {
  id = r.id;
  case_id = r.case_id;
  obligation_id = r.obligation_id;
  fire_at = r.fire_at;
  action_ref = r.action_ref;
  attempts = r.attempts + 1;
}

-- The rows that the SELECT … FOR UPDATE SKIP LOCKED LIMIT returns; `locked` are the ids that other
-- transactions hold.
unfoldable pub due_rows : TextOrder → ℕ → List ℕ → ℕ → Schedule → List ScheduledRow
due_rows order now locked limit s =
    take limit (sort (row_before order) (filter (is_due now locked) s.rows))

abbrev pub has_id_in : List ScheduledRow → ScheduledRow → Bool
has_id_in picked r = any (λ p. p.id == r.id) picked

-- `lease_ms` is 30 seconds and `limit` 50 where the caller gives none. With no row due the source
-- returns before the update, which would then change nothing.
unfoldable pub tick :
    TextOrder → ℕ → ℕ → List ℕ → String → ℕ → Schedule → Schedule × List ScheduledAction
unfolding due_rows
tick order lease_ms now locked owner limit s =
    let picked = due_rows order now locked limit s in
    (
      record s { rows = update_where (has_id_in picked) (lease_row owner (now + lease_ms)) s.rows },
      map to_action picked,
    )

abbrev pub settle_row : ScheduleState → ℕ → ScheduledRow → ScheduledRow
settle_row state now r = record r {
  state = state;
  settled_at = some now;
  lease_owner = none;
  lease_expiry = none;
}

abbrev pub free_row : ScheduledRow → ScheduledRow
free_row r = record r { state = pending; lease_owner = none; lease_expiry = none }

unfoldable pub complete : ℕ → ℕ → Schedule → Schedule
complete now id s = record s {
  rows = update_where (λ r. (r.id == id) && is_leased r.state) (settle_row done now) s.rows;
}

unfoldable pub release : ℕ → Schedule → Schedule
release id s = record s {
  rows = update_where (λ r. (r.id == id) && is_leased r.state) free_row s.rows;
}

abbrev pub is_expired : ℕ → ScheduledRow → Bool
is_expired now r =
    is_leased r.state && elim r.lease_expiry [ none ↦ false | some expiry ↦ leb expiry now ]

unfoldable pub reclaim_expired_leases : ℕ → Schedule → Schedule × ℕ
reclaim_expired_leases now s = (
  record s { rows = update_where (is_expired now) free_row s.rows },
  count (is_expired now) s.rows,
)

abbrev pub is_open_of : String → ScheduledRow → Bool
is_open_of case_id r = r.case_id === case_id && is_open r.state

unfoldable pub cancel_for_case : ℕ → String → Schedule → Schedule × ℕ
cancel_for_case now case_id s = (
  record s { rows = update_where (is_open_of case_id) (settle_row cancelled now) s.rows },
  count (is_open_of case_id) s.rows,
)

unfoldable pub pending_count : String → Schedule → ℕ
pending_count case_id s = count (is_open_of case_id) s.rows
