-- ===== src/Agents/AgentRuntime.antt =====
-- packages/agents/src/runtime.ts: the specialists that the work router selected are run, and what
-- they claim is written. The random ids and the hash of a role's input are arguments.
pub mod Accounting
pub mod Starting
pub mod Returns
use Prim.Native.String.{◌++◌}
use razorpay_buildathon.Base.{
  ℕ, suc, String, Bool, true, false, Option, none, some, List, [], ◌∷◌, ◌>>=◌, map, if◌then◌else◌,
}
use razorpay_buildathon.Base.Order.{TextOrder}
use razorpay_buildathon.Core.Json.{Value, null, flag, number, text, end, field, Params}
use razorpay_buildathon.Core.Actions.{ActionLibrary}
use razorpay_buildathon.Core.Taxonomy.{DeclineTaxonomy}
use razorpay_buildathon.Core.Roles.{
  RoleId, payment_diagnosis, customer_context, incident_intelligence, recovery_economics,
  communication, role_contract,
}
use razorpay_buildathon.Db.Ledger.{LedgerEntry, append as append_entry}
use razorpay_buildathon.Engine.Blackboard.{
  Board, WriteClaim, write_claim, AgentRun, RunRow, RunStatus, run_ok, run_timeout, run_error,
  record_run,
}
use razorpay_buildathon.Agents.Optimizer.{EconomicsCandidate}
use razorpay_buildathon.Agents.DeliberationReducer.{
  DiagnosisClaim, ContextClaim, IncidentClaim, Language,
}
use razorpay_buildathon.Agents.Invocation.{
  CommunicationClaim, Claim, World, Runtime, claimed, settled_as, provider_for, work, invoke,
  diagnosis_claim, context_claim, incident_claim, economics_claim, communication_claim,
}
use razorpay_buildathon.Agents.Specialists.{
  SpecialistInput, SpecialistOutcome, Settlement, fulfilled, rejected, Failure, timed_out, Reply,
  deterministic, diagnose, read_context, correlate_incident, value_actions,
}

pub record Claims : Type 0 where
  pub diagnosis : Option DiagnosisClaim
  pub context : Option ContextClaim
  pub incident : Option IncidentClaim
  pub economics : Option (List EconomicsCandidate)

abbrev pub no_claims : Claims
no_claims = record { diagnosis = none; context = none; incident = none; economics = none }

-- A role with what it came to, and the ids drawn for its run and its claim.
pub record Task : Type 0 where
  pub role : RoleId
  pub settlement : Settlement Claim
  pub run_id : String
  pub claim_id : String
  pub input_hash : String

-- The tables that a run writes.
pub record Desk : Type 0 where
  pub board : Board
  pub runs : List RunRow
  pub ledger : List LedgerEntry

pub record RunResult : Type 0 where
  pub ran : List RoleId
  pub failed : List (RoleId × Failure)
  pub provider_calls : ℕ
  pub claims : Claims
  pub desk : Desk

-- What a run comes to: it throws before it writes a table, as a role's work throws while it is
-- started; or the work is settled, and then the loop over the roles gives its result, or `none` where
-- an insert hits a primary key.
pub data RunOutcome : Type 0 where
  not_started : RunOutcome
  settled : Option RunResult → RunOutcome

-- The ids and the hash that go with a role.
pub record Drawn : Type 0 where
  pub role : RoleId
  pub run_id : String
  pub claim_id : String
  pub input_hash : String

abbrev pub role_text : RoleId → String
role_text payment_diagnosis = "payment_diagnosis"
role_text customer_context = "customer_context"
role_text incident_intelligence = "incident_intelligence"
role_text recovery_economics = "recovery_economics"
role_text communication = "communication"

abbrev pub text_or_null : Option String → Value
text_or_null none = null
text_or_null (some t) = text t

abbrev pub number_or_null : Option ℕ → Value
number_or_null none = null
number_or_null (some n) = number n

abbrev pub log : ℕ → String → RoleId → String → Params → List LedgerEntry → List LedgerEntry
log now case_id role event_type payload ledger =
    append_entry now
      (record {
        case_id = case_id;
        actor = "agent:" ++ role_text role;
        event_type = event_type;
        payload = some payload;
        policy_version = none;
      })
      ledger

abbrev pub agent_run : String → ℕ → Task → RunStatus → AgentRun
agent_run case_id revision t status = record {
  id = t.run_id;
  case_id = case_id;
  revision = revision;
  role = t.role;
  status = status;
  input_hash = t.input_hash;
  provider = none;
  model = none;
  latency_ms = none;
  cost_paise = none;
}

-- `message` is the text of an error, and `names_timeout` the test for `timeout` in it.
module _ (message : Failure → String) (names_timeout : String → Bool) where
  abbrev pub failed_desk : ℕ → String → ℕ → Task → Failure → Desk → List RunRow → Desk
  failed_desk now case_id revision t e d runs = record d {
    runs = runs;
    ledger =
        log now case_id t.role "agent_run_failed"
          (field "revision" (number revision) (field "error" (text (message e)) end)) d.ledger;
  }

  abbrev pub written_desk :
      ℕ → String → ℕ → Task → SpecialistOutcome Claim → Desk → List RunRow → Board → Desk
  written_desk now case_id revision t o d runs board = record {
    board = board;
    runs = runs;
    ledger =
        log now case_id t.role "claim_written"
          (field "revision" (number revision) (
            field "usedProvider" (flag o.used_provider) (
              field "provider" (text_or_null o.provider) (
                field "model" (text_or_null o.model)
                  (field "cachedInputTokens" (number_or_null o.cached_input_tokens) end)))))
          d.ledger;
  }

  abbrev pub new_claim : SpecialistInput → ℕ → Task → WriteClaim
  new_claim input revision t = record {
    id = t.claim_id;
    case_id = input.case_id;
    revision = revision;
    role = t.role;
    evidence_refs = input.evidence_refs;
  }

  -- The loop's body; `none` where an insert hits a primary key.
  abbrev pub settle_task : Settlement Claim → ℕ → SpecialistInput → ℕ → Task → Desk → Option Desk
  settle_task (rejected e) now input revision t d =
      record_run now
        (agent_run input.case_id revision t
          (if names_timeout (message e) then run_timeout else run_error))
        d.runs
      >>= (λ runs. some (failed_desk now input.case_id revision t e d runs))
  settle_task (fulfilled o) now input revision t d =
      record_run now
        (record (agent_run input.case_id revision t run_ok) {
          provider = o.provider;
          model = o.model;
          latency_ms = o.latency_ms;
        })
        d.runs
      >>= (λ runs.
          write_claim now (new_claim input revision t) d.board
          >>= (λ board. some (written_desk now input.case_id revision t o d runs board)))

  abbrev pub or_claim : {A : Type 0} → Option A → A → Option A
  or_claim none a = some a
  or_claim (some later) a = some later

  -- A later claim of a role stands.
  abbrev pub note_claim : Claim → Claims → Claims
  note_claim (diagnosis_claim c) cs = record cs { diagnosis = or_claim cs.diagnosis c }
  note_claim (context_claim c) cs = record cs { context = or_claim cs.context c }
  note_claim (incident_claim c) cs = record cs { incident = or_claim cs.incident c }
  note_claim (economics_claim c) cs = record cs { economics = or_claim cs.economics c }
  note_claim (communication_claim c) cs = cs

  abbrev pub note : RoleId → Settlement Claim → RunResult → RunResult
  note role (rejected e) r = record r { failed = (role, e) ∷ r.failed }
  note role (fulfilled o) r = record r {
    ran = role ∷ r.ran;
    provider_calls = if o.used_provider then suc r.provider_calls else r.provider_calls;
    claims = note_claim o.claim r.claims;
  }

  unfoldable pub settle_all : ℕ → SpecialistInput → ℕ → List Task → Desk → Option RunResult
  settle_all now input revision [] d =
      some (record { ran = []; failed = []; provider_calls = 0; claims = no_claims; desk = d })
  settle_all now input revision (t ∷ ts) d =
      settle_task t.settlement now input revision t d
      >>= (λ d'. settle_all now input revision ts d' >>= (λ r. some (note t.role t.settlement r)))

  abbrev pub task : Drawn → Settlement Claim → Task
  task x s = record {
    role = x.role;
    settlement = s;
    run_id = x.run_id;
    claim_id = x.claim_id;
    input_hash = x.input_hash;
  }

  -- `roles.map`, which starts every role's work; `none` where one throws as it is started.
  unfoldable pub start_all :
      Runtime → World → SpecialistInput → List String → List Drawn → Option (List Task)
  start_all rt w input allowed [] = some []
  start_all rt w input allowed (x ∷ xs) =
      invoke rt w input allowed x.role
      >>= (λ s. start_all rt w input allowed xs >>= (λ ts. some (task x s ∷ ts)))

  abbrev pub on_started : Option (List Task) → ℕ → SpecialistInput → ℕ → Desk → RunOutcome
  on_started none now input revision d = not_started
  on_started (some ts) now input revision d = settled (settle_all now input revision ts d)

  unfoldable pub run :
      Runtime → World → ℕ → ℕ → List Drawn → SpecialistInput → List String → Desk → RunOutcome
  unfolding settle_all start_all
  run rt w now revision roles input allowed d =
      on_started (start_all rt w input allowed roles) now input revision d
