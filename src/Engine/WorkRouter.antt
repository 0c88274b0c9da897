-- ===== src/Engine/WorkRouter.antt =====
-- packages/engine/src/work-router.ts: which specialists a revision reruns.
use razorpay_buildathon.Base.{ℕ, String, Bool, ◌&&◌, ◌||◌, not, List, any, filter, map}
use razorpay_buildathon.Core.Types.{EvidenceKind}
use razorpay_buildathon.Core.Roles.{RoleId, role_ids, same_role, roles_depending_on}
use razorpay_buildathon.Engine.Blackboard.{Board, ClaimRow, live_claims, invalidate_roles}
pub mod Partition

pub record RoutingDecision : Type 0 where
  pub rerun : List RoleId
  pub reused : List RoleId
  pub changed_kinds : List EvidenceKind

abbrev pub in_roles : List RoleId → RoleId → Bool
in_roles rs r = any (same_role r) rs

unfoldable pub plan : List EvidenceKind → List RoleId → RoutingDecision
unfolding role_ids
plan changed_kinds live =
    let affected = roles_depending_on changed_kinds in
    record {
      rerun = filter (λ r. in_roles affected r || not (in_roles live r)) role_ids;
      reused = filter (λ r. in_roles live r && not (in_roles affected r)) role_ids;
      changed_kinds = changed_kinds;
    }

-- `route`: the live claims of the roles to rerun fall.
unfoldable pub route : ℕ → String → List EvidenceKind → Board → RoutingDecision × Board
unfolding plan
route now case_id changed_kinds b =
    let live = map (λ (c : ClaimRow). c.role) (live_claims case_id b) in
    let decision = plan changed_kinds live in
    let to_invalidate = filter (λ r. in_roles live r) decision.rerun in
    (decision, (invalidate_roles now case_id to_invalidate b).0)
