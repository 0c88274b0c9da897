-- ===== src/Engine/WorkRouter/Partition.antt =====
-- How the router splits the roles between rerun and reuse.
use razorpay_buildathon.Base.{
  ◌≡◌, ◌∙◌, Bool, not, ◌&&◌, ◌||◌, List, [], ◌∷◌, arith, filter, map, ℕ, String, refl, ap, inl, inr,
  Bool-cases,
}
use razorpay_buildathon.Core.Types.{EvidenceKind}
use razorpay_buildathon.Core.Roles.{
  RoleId, payment_diagnosis, customer_context, incident_intelligence, recovery_economics,
  communication, role_ids, same_role, same_role_iff, reads_any, roles_depending_on,
}
use razorpay_buildathon.Engine.WorkRouter.{in_roles, plan, route}
use razorpay_buildathon.Engine.Blackboard.{Board, ClaimRow, live_claims}
use razorpay_buildathon.Engine.Blackboard.Claims.{live_claims-invalidate_roles}

-- A filter of the registry holds a role exactly if the role passes.
in_roles-filter : (p : RoleId → Bool) (r : RoleId) → in_roles (filter p role_ids) r ≡ p r
unfolding role_ids
in_roles-filter p payment_diagnosis = ground arith
in_roles-filter p customer_context = ground arith
in_roles-filter p incident_intelligence = ground arith
in_roles-filter p recovery_economics = ground arith
in_roles-filter p communication = ground arith

pub in_roles-roles_depending_on :
    (kinds : List EvidenceKind) (r : RoleId)
    → in_roles (roles_depending_on kinds) r ≡ reads_any kinds r
unfolding roles_depending_on
in_roles-roles_depending_on kinds r = in_roles-filter (reads_any kinds) r

-- The claims of a role are reused exactly if it has a live claim and reads none of the changed
-- kinds of evidence, and every other role is rerun: the decision splits the roles in two.
pub plan_partition :
    (kinds : List EvidenceKind) (live : List RoleId) (r : RoleId)
    → let d = plan kinds live in
      (in_roles d.reused r ≡ (in_roles live r && not (reads_any kinds r)))
      × (in_roles d.rerun r ≡ not (in_roles d.reused r))
unfolding plan
plan_partition kinds live r =
    let deps = in_roles-roles_depending_on kinds r in
    let reused =
      in_roles-filter (λ s. in_roles live s && not (in_roles (roles_depending_on kinds) s)) r in
    let rerun =
      in_roles-filter (λ s. in_roles (roles_depending_on kinds) s || not (in_roles live s)) r in
    (reused ∙ ground (arith, deps), rerun ∙ ground (arith, reused))

in_roles-filter_any :
    (p : RoleId → Bool) (r : RoleId) (rs : List RoleId)
    → in_roles (filter p rs) r ≡ (in_roles rs r && p r)
in_roles-filter_any p r [] = refl
in_roles-filter_any p r (s ∷ rs) = elim (Bool-cases (same_role r s)) [
  | inl same ↦
      let e = ap p ((same_role_iff r s).0 same) in ground (arith, e, in_roles-filter_any p r rs)
  | inr other ↦ ground (arith, other, in_roles-filter_any p r rs)
]

-- After a revision was routed, the roles with a live claim in its case are exactly those whose
-- claims the decision reuses.
pub route-live_claims :
    (now : ℕ) (case_id : String) (kinds : List EvidenceKind) (b : Board) (s : RoleId)
    → let (d, b') = route now case_id kinds b in
      in_roles (map (λ c. c.role) (live_claims case_id b')) s ≡ in_roles d.reused s
unfolding route
route-live_claims now case_id kinds b s =
    let live = map (λ (c : ClaimRow). c.role) (live_claims case_id b) in
    let d = plan kinds live in
    let (reused, rerun) = plan_partition kinds live s in
    live_claims-invalidate_roles now case_id (filter (λ r. in_roles live r) d.rerun) s b
    ∙ ground (arith, in_roles-filter_any (λ r. in_roles live r) s d.rerun)
