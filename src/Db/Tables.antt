-- ===== src/Db/Tables.antt =====
-- The rows of migrations/0001_init.sql and migrations/0002_scheduler.sql that the stores read and
-- write. A table lists its rows in the order of their insertion.
use razorpay_buildathon.Base.{ℕ, String, Bool, Option, List}
use razorpay_buildathon.Core.Types.{Domain, Tier}
use razorpay_buildathon.Core.StateMachine.{CaseState}
use razorpay_buildathon.Core.Events.{CaseRevision}
use razorpay_buildathon.Core.Json.{Params}

pub data ScheduleState : Type 0 where
  pending leased done cancelled : ScheduleState

pub record ActionRef : Type 0 where
  pub action_id : String
  pub params : Params
  pub attempt_no : ℕ

pub record ScheduledRow : Type 0 where
  pub id : ℕ
  pub case_id : String
  pub obligation_id : String
  pub fire_at : ℕ
  pub action_ref : ActionRef
  pub state : ScheduleState
  pub lease_owner : Option String
  pub lease_expiry : Option ℕ
  pub attempts : ℕ
  pub created_at : ℕ
  pub settled_at : Option ℕ

-- `scheduled_actions` and its BIGSERIAL.
pub record Schedule : Type 0 where
  pub rows : List ScheduledRow
  pub next_id : ℕ

pub record CaseRow : Type 0 where
  pub id : String
  pub obligation_id : String
  pub incident_id : Option String
  pub domain : Domain
  pub state : CaseState
  pub tier : Tier
  pub holdout_flag : Bool
  pub next_seq : ℕ
  pub opened_at : ℕ
  pub closed_at : Option ℕ
  pub terminal_reason : Option String

pub record RevisionRow : Type 0 where
  pub case_id : String
  pub revision : ℕ
  pub state_json : CaseRevision
  pub created_at : ℕ
