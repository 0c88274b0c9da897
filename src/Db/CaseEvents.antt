-- ===== src/Db/CaseEvents.antt =====
-- packages/db/src/case-events.ts: the event store. Each call is one transaction: what it throws
-- leaves the tables as they were.
pub mod Numbering
pub mod Replay
pub mod Closing
pub mod Consistency
use razorpay_buildathon.Base.{
  ℕ, suc, String, Bool, true, false, Option, none, some, List, [], ◌∷◌, ◌++◌, ◌===◌, ◌==◌, leb,
  if◌then◌else◌, any, filter, find?, update_where, sort, ◌&&◌, is_some,
}
use razorpay_buildathon.Base.Int.{ℤ, pos, leb_ℤ, eq_ℤ}
use razorpay_buildathon.Core.StateMachine.{is_terminal}
use razorpay_buildathon.Core.Events.{
  CaseEvent, StoredCaseEvent, CaseRevision, ReduceError, Reduced, reduce_all,
}
use razorpay_buildathon.Db.Tables.{Schedule, CaseRow, RevisionRow}
use razorpay_buildathon.Engine.Scheduler.{cancel_for_case}

pub record Db : Type 0 where
  pub cases : List CaseRow
  pub case_events : List StoredCaseEvent
  pub case_revisions : List RevisionRow
  pub schedule : Schedule

-- `case … does not exist`, the unique index on (case_id, seq), the primary key of the revisions,
-- and what the reducer throws.
pub data AppendError : Type 0 where
  no_case : String → AppendError
  duplicate_seq : AppendError
  duplicate_revision : AppendError
  refused : ReduceError → AppendError

pub data Appended : Type 0 where
  ok : StoredCaseEvent → CaseRevision → Db → Appended
  err : AppendError → Appended

abbrev pub is_case : String → CaseRow → Bool
is_case id c = c.id === id

abbrev pub of_case : String → StoredCaseEvent → Bool
of_case id e = e.case_id === id

-- `SELECT … FROM case_events WHERE case_id = $1 ORDER BY seq`.
unfoldable pub read_all : String → List StoredCaseEvent → List StoredCaseEvent
read_all case_id events = sort (λ a b. leb_ℤ a.seq b.seq) (filter (of_case case_id) events)

-- `closed_at` follows the reason, not the state.
abbrev pub project : CaseRevision → ℕ → CaseRow → CaseRow
project r at c = record c {
  state = r.state;
  tier = r.tier;
  incident_id = r.incident_id;
  terminal_reason = r.terminal_reason;
  closed_at = if is_some r.terminal_reason then some at else c.closed_at;
}

abbrev pub advance : CaseRow → CaseRow
advance c = record c { next_seq = suc c.next_seq }

-- The writes after the reducer: the revision, the case row, and the cancellation in the same
-- transaction where the case has reached a terminal state.
unfoldable pub persist : String → ℕ → StoredCaseEvent → CaseRevision → Db → Appended
persist case_id at stored r db =
    if any (λ v. (v.case_id === case_id) && (v.revision == r.revision)) db.case_revisions
    then err duplicate_revision
    else ok stored r (record db {
      case_revisions =
          db.case_revisions
          ++ record { case_id = case_id; revision = r.revision; state_json = r; created_at = at }
            ∷ [];
      cases = update_where (is_case case_id) (project r at) db.cases;
      schedule =
          if is_terminal r.state then (cancel_for_case at case_id db.schedule).0 else db.schedule;
    })

abbrev pub after_reduce : Reduced → String → ℕ → StoredCaseEvent → Db → Appended
after_reduce (Reduced.ok r) case_id at stored db = persist case_id at stored r db
after_reduce (Reduced.err x) case_id at stored db = err (refused x)

-- The insert of the event under the lock on its case, and the reduction of the whole log.
unfoldable pub append_locked : CaseRow → CaseEvent → String → ℕ → Db → Appended
unfolding persist read_all
append_locked c event source at db =
    let stored : StoredCaseEvent = record {
      case_id = c.id;
      seq = pos c.next_seq;
      event = event;
      source = source;
      occurred_at = at;
    } in
    let events = db.case_events ++ stored ∷ [] in
    if any (λ e. of_case c.id e && eq_ℤ e.seq (pos c.next_seq)) db.case_events
    then err duplicate_seq
    else after_reduce (reduce_all c.id (read_all c.id events)) c.id at stored
        (record db { case_events = events; cases = update_where (is_case c.id) advance db.cases })

abbrev pub with_case : Option CaseRow → String → (CaseRow → Appended) → Appended
with_case none id f = err (no_case id)
with_case (some c) id f = f c

unfoldable pub append : String → CaseEvent → String → ℕ → Db → Appended
unfolding append_locked
append case_id event source at db =
    with_case (find? (is_case case_id) db.cases) case_id (λ c. append_locked c event source at db)

-- `replay`, from the log.
unfoldable pub replay : String → Db → Reduced
unfolding read_all
replay case_id db = reduce_all case_id (read_all case_id db.case_events)
