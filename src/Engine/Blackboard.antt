-- ===== src/Engine/Blackboard.antt =====
-- packages/engine/src/blackboard.ts and the `claims` table of migrations/0003_blackboard.sql: the
-- shared board of evidence and claims. Payloads, which the board only stores, are left out.
pub mod Claims
use razorpay_buildathon.Base.{
  ℕ, String, Bool, true, false, not, ◌&&◌, ◌≤◌, Option, none, some, List, [], ◌∷◌, ◌++◌, ◌===◌,
  ◌==◌, leb, if◌then◌else◌, any, filter, map, update_where, length, count, sort,
}
use razorpay_buildathon.Core.Types.{EvidenceKind, same_kind}
use razorpay_buildathon.Core.Roles.{
  RoleId, payment_diagnosis, customer_context, incident_intelligence, recovery_economics,
  communication, same_role,
}

pub data ClaimStatus : Type 0 where
  valid : ClaimStatus
  invalidated : ClaimStatus

abbrev pub is_valid : ClaimStatus → Bool
is_valid valid = true
is_valid invalidated = false

pub record ClaimRow : Type 0 where
  pub id : String
  pub case_id : String
  pub revision : ℕ
  pub role : RoleId
  pub status : ClaimStatus
  pub evidence_refs : List String
  pub created_at : ℕ
  pub invalidated_at : Option ℕ

pub record EvidenceRow : Type 0 where
  pub id : String
  pub case_id : String
  pub kind : EvidenceKind
  pub source : String
  pub observed_at : ℕ

-- The tables, oldest row first.
pub record Board : Type 0 where
  pub evidence : List EvidenceRow
  pub claims : List ClaimRow

pub record WriteClaim : Type 0 where
  pub id : String
  pub case_id : String
  pub revision : ℕ
  pub role : RoleId
  pub evidence_refs : List String

abbrev pub holds_role : String → RoleId → ClaimRow → Bool
holds_role case_id role c = c.case_id === case_id && same_role c.role role && is_valid c.status

abbrev pub fall : ℕ → ClaimRow → ClaimRow
fall now c = record c { status = invalidated; invalidated_at = some now }

abbrev pub new_claim : ℕ → WriteClaim → ClaimRow
new_claim now w = record {
  id = w.id;
  case_id = w.case_id;
  revision = w.revision;
  role = w.role;
  status = valid;
  evidence_refs = w.evidence_refs;
  created_at = now;
  invalidated_at = none;
}

-- A repeated primary key refuses the insert.
unfoldable pub add_evidence : EvidenceRow → Board → Option Board
add_evidence e b =
    if any (λ x. x.id === e.id) b.evidence
    then none
    else some (record b { evidence = b.evidence ++ e ∷ [] })

-- The update and the insert are one transaction: `none` where the insert hits the primary key or
-- the unique index on the live claim of a role, and then neither was made.
unfoldable pub write_claim : ℕ → WriteClaim → Board → Option Board
write_claim now w b =
    let claims = update_where (holds_role w.case_id w.role) (fall now) b.claims in
    if any (λ c. c.id === w.id) claims
    then none
    else if any (holds_role w.case_id w.role) claims
    then none
    else some (record b { claims = claims ++ new_claim now w ∷ [] })

-- The place of a role's text in `ORDER BY role`.
abbrev role_rank : RoleId → ℕ
role_rank communication = 0
role_rank customer_context = 1
role_rank incident_intelligence = 2
role_rank payment_diagnosis = 3
role_rank recovery_economics = 4

abbrev pub is_live_of : String → ClaimRow → Bool
is_live_of case_id c = c.case_id === case_id && is_valid c.status

abbrev by_role : ClaimRow → ClaimRow → Bool
by_role c d = leb (role_rank c.role) (role_rank d.role)

unfoldable pub live_claims : String → Board → List ClaimRow
live_claims case_id b = sort by_role (filter (is_live_of case_id) b.claims)

abbrev pub holds_one_of : String → List RoleId → ClaimRow → Bool
holds_one_of case_id roles c =
    c.case_id === case_id && any (same_role c.role) roles && is_valid c.status

-- Returns how many claims fell. No role, no statement.
unfoldable pub invalidate_roles : ℕ → String → List RoleId → Board → Board × ℕ
invalidate_roles now case_id [] b = (b, 0)
invalidate_roles now case_id (r ∷ roles) b = (
  record b { claims = update_where (holds_one_of case_id (r ∷ roles)) (fall now) b.claims },
  count (holds_one_of case_id (r ∷ roles)) b.claims,
)

pub data RunStatus : Type 0 where
  run_ok run_timeout run_error run_skipped : RunStatus

pub record AgentRun : Type 0 where
  pub id : String
  pub case_id : String
  pub revision : ℕ
  pub role : RoleId
  pub status : RunStatus
  pub input_hash : String
  pub provider : Option String
  pub model : Option String
  pub latency_ms : Option ℕ
  pub cost_paise : Option ℕ

-- A row of `agent_runs`.
pub record RunRow : Type 0 where
  pub run : AgentRun
  pub started_at : ℕ
  pub completed_at : ℕ

-- `none` where the insert hits the primary key.
unfoldable pub record_run : ℕ → AgentRun → List RunRow → Option (List RunRow)
record_run now run rows =
    if any (λ r. r.run.id === run.id) rows
    then none
    else some (rows ++ record { run = run; started_at = now; completed_at = now } ∷ [])
