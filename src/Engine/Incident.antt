-- ===== src/Engine/Incident.antt =====
-- packages/engine/src/incident.ts: incidents and the cases parked under them. An incident's segment
-- and its statistics are left out: nothing here reads them.
pub mod Parking
use razorpay_buildathon.Base.{
  ℕ, String, ◌+◌, ◌-◌, Bool, true, false, not, ◌&&◌, Option, none, some, List, [], ◌∷◌, ◌++◌, ◌===◌,
  if◌then◌else◌, any, filter, find?, sort, update_where, get_or, is_some, map, length,
}
use razorpay_buildathon.Base.Order.{TextOrder}
use razorpay_buildathon.Core.Json.{Params, end, field, number}
use razorpay_buildathon.Core.Events.{incident_attached, incident_released}
use razorpay_buildathon.Db.Tables.{CaseRow}
use razorpay_buildathon.Db.CaseEvents.{Db, Appended, AppendError, append as append_event}
use razorpay_buildathon.Db.Ledger.{LedgerEntry, append as append_entry}
use razorpay_buildathon.Engine.Scheduler.{cancel_for_case}

-- The source's `open` is `opened`.
pub data IncidentState : Type 0 where
  opened releasing closed : IncidentState

pub record IncidentRow : Type 0 where
  pub id : String
  pub segment_label : String
  pub state : IncidentState
  pub detected_by : String
  pub release_stage : ℕ
  pub opened_at : ℕ
  pub closed_at : Option ℕ

pub record MemberRow : Type 0 where
  pub incident_id : String
  pub case_id : String
  pub attached_at : ℕ
  pub released_at : Option ℕ

-- The tables that the manager writes.
pub record World : Type 0 where
  pub incidents : List IncidentRow
  pub members : List MemberRow
  pub db : Db
  pub ledger : List LedgerEntry

-- A call returns, or throws what the event store threw; what it wrote before stays.
pub data Outcome (A : Type 0) : Type 0 where
  ok : A → World → Outcome A
  thrown : AppendError → World → Outcome A

abbrev pub then_do : {A B : Type 0} → Outcome A → (A → World → Outcome B) → Outcome B
then_do (ok a w) f = f a w
then_do (thrown e w) f = thrown e w

abbrev pub log : ℕ → String → String → String → Params → World → World
log now id actor event_type payload w = record w {
  ledger =
      append_entry now
        (record {
          case_id = id;
          actor = actor;
          event_type = event_type;
          payload = some payload;
          policy_version = none;
        })
        w.ledger;
}

abbrev pub is_incident : String → IncidentRow → Bool
is_incident id i = i.id === id

abbrev pub same_incident_state : IncidentState → IncidentState → Bool
same_incident_state opened opened = true
same_incident_state releasing releasing = true
same_incident_state closed closed = true
same_incident_state _ _ = false

abbrev pub is_open_for : String → IncidentRow → Bool
is_open_for label i = i.segment_label === label && not (same_incident_state i.state closed)

-- `open`: `LIMIT 1` takes the first row. The id is what `randomUUID` gave, and `payload` is what the
-- ledger keeps of the candidate.
unfoldable pub open_incident : ℕ → String → String → String → Params → World → String × World
open_incident now fresh label detected_by payload w = elim (find? (is_open_for label) w.incidents) [
  | some i ↦ (i.id, w)
  | none ↦ (
    fresh,
    log now fresh "detector" "incident_opened" payload (record w {
      incidents =
          w.incidents
          ++ record {
            id = fresh;
            segment_label = label;
            state = opened;
            detected_by = detected_by;
            release_stage = 0;
            opened_at = now;
            closed_at = none;
          }
            ∷ [];
    }),
  )
]

abbrev pub is_member : String → String → MemberRow → Bool
is_member incident case_id m = m.incident_id === incident && m.case_id === case_id

-- `SELECT 1 FROM cases WHERE id = $1 AND closed_at IS NULL`.
abbrev pub is_live : String → CaseRow → Bool
is_live id c = c.id === id && not (is_some c.closed_at)

-- The end of `attachAndSuppress` and of `repark` for one case: the event, then the cancellation.
abbrev pub after_append : Appended → ℕ → String → World → Outcome (Unit {0})
after_append (Appended.err x) now case_id w = thrown x w
after_append (Appended.ok e r db) now case_id w =
    ok tt (record w { db = record db { schedule = (cancel_for_case now case_id db.schedule).0 } })

unfoldable pub suppress : ℕ → String → String → String → World → Outcome (Unit {0})
suppress now incident source case_id w =
    after_append (append_event case_id (incident_attached incident) source now w.db) now case_id w

-- One turn of the loop of `attachAndSuppress`, with whether it parked the case.
unfoldable pub attach_one : ℕ → String → String → World → Outcome ℕ
attach_one now incident case_id w =
    if any (is_member incident case_id) w.members
    then ok 0 w
    else if not (any (is_live case_id) w.db.cases)
    then ok 0 w
    else then_do
        (suppress now incident "incident_manager" case_id (record w {
          members =
              w.members
              ++ record {
                incident_id = incident;
                case_id = case_id;
                attached_at = now;
                released_at = none;
              }
                ∷ [];
        }))
        (λ _ w'. ok 1 w')

unfoldable pub attach_each : ℕ → String → List String → ℕ → World → Outcome ℕ
unfolding attach_one
attach_each now incident [] parked w = ok parked w
attach_each now incident (id ∷ ids) parked w =
    then_do (attach_one now incident id w) (λ n w'. attach_each now incident ids (parked + n) w')

unfoldable pub attach_and_suppress : ℕ → String → List String → World → Outcome ℕ
unfolding attach_each
attach_and_suppress now incident ids w = then_do (attach_each now incident ids 0 w) (λ parked w'.
    ok parked (
      log now incident "incident_manager" "cases_parked"
        (field "parked" (number parked) (field "requested" (number (length ids)) end)) w'))

abbrev pub is_parked : String → MemberRow → Bool
is_parked incident m = m.incident_id === incident && not (is_some m.released_at)

unfoldable pub parked_cases : TextOrder → String → List MemberRow → List String
parked_cases order incident members =
    sort order.before (map (λ m. m.case_id) (filter (is_parked incident) members))

abbrev pub is_one_of : List String → String → Bool
is_one_of ids id = any (λ i. i === id) ids

-- The ids of the cases that are still live, of those to be released.
abbrev pub live_ids : List String → List CaseRow → List String
live_ids ids cases =
    map (λ c. c.id) (filter (λ c. is_one_of ids c.id && not (is_some c.closed_at)) cases)

unfoldable pub resume_each : ℕ → String → List String → List String → World → Outcome (Unit {0})
resume_each now incident still_live [] w = ok tt w
resume_each now incident still_live (id ∷ ids) w =
    if not (is_one_of still_live id)
    then resume_each now incident still_live ids w
    else elim (append_event id (incident_released incident) "release_controller" now w.db) [
      | Appended.ok e r db ↦ resume_each now incident still_live ids (record w { db = db })
      | Appended.err x ↦ thrown x w
    ]

abbrev pub mark_released : ℕ → String → List String → List MemberRow → List MemberRow
mark_released now incident ids members =
    update_where (λ m. m.incident_id === incident && is_one_of ids m.case_id)
      (λ m. record m { released_at = some now }) members

abbrev pub is_nil : List String → Bool
is_nil [] = true
is_nil (x ∷ xs) = false

unfoldable pub release : ℕ → String → List String → World → Outcome (Unit {0})
unfolding resume_each
release now incident ids w =
    if is_nil ids
    then ok tt w
    else let still_live = live_ids ids w.db.cases in
      then_do
        (resume_each now incident still_live ids
          (record w { members = mark_released now incident ids w.members }))
        (λ _ w'. ok tt (
          log now incident "release_controller" "cases_released"
            (field "released" (number (length still_live))
              (field "closedWhileParked" (number (length ids - length still_live)) end))
            w'))

unfoldable pub repark_each : ℕ → String → List String → World → Outcome (Unit {0})
repark_each now incident [] w = ok tt w
repark_each now incident (id ∷ ids) w =
    if not (any (is_live id) w.db.cases)
    then repark_each now incident ids w
    else then_do
        (suppress now incident "circuit_breaker" id (record w {
          members =
              update_where (is_member incident id) (λ m. record m { released_at = none }) w.members;
        }))
        (λ _ w'. repark_each now incident ids w')

unfoldable pub repark : ℕ → String → List String → World → Outcome (Unit {0})
unfolding repark_each
repark now incident ids w = then_do (repark_each now incident ids w) (λ _ w'. ok tt (
    log now incident "circuit_breaker" "cases_reparked" (field "reparked" (number (length ids)) end)
      w'))

abbrev pub in_state : ℕ → IncidentState → Option ℕ → IncidentRow → IncidentRow
in_state now state stage i = record i {
  state = state;
  release_stage = get_or i.release_stage stage;
  closed_at = if same_incident_state state closed then some now else i.closed_at;
}

unfoldable pub set_state : ℕ → String → IncidentState → Option ℕ → World → World
set_state now id state stage w = record w {
  incidents = update_where (is_incident id) (in_state now state stage) w.incidents;
}

unfoldable pub get : String → World → Option IncidentRow
get id w = find? (is_incident id) w.incidents
