-- ===== src/Core/Roles.antt =====
-- packages/core/src/roles.ts: the specialist roles and the evidence that each of them reads.
use razorpay_buildathon.Base.{
  ℕ, Bool, ◌≡◌, ◌↔◌, true, List, [], ◌∷◌, ◌==◌, arith, any, filter, String, false,
}
use razorpay_buildathon.Core.Types.{
  EvidenceKind, payment_attempt, decline_code, mandate_state, customer_profile, customer_reply,
  contact_history, obligation_state, incident_membership, segment_metrics, policy_snapshot,
  same_kind,
}

pub data RoleId : Type 0 where
  payment_diagnosis customer_context incident_intelligence recovery_economics : RoleId
  communication : RoleId

unfoldable pub role_ids : List RoleId
role_ids =
    payment_diagnosis ∷ customer_context ∷ incident_intelligence ∷ recovery_economics
    ∷ communication ∷ []

abbrev pub role_index : RoleId → ℕ
role_index payment_diagnosis = 0
role_index customer_context = 1
role_index incident_intelligence = 2
role_index recovery_economics = 3
role_index communication = 4

abbrev pub same_role : RoleId → RoleId → Bool
same_role a b = role_index a == role_index b

pub same_role_iff : (a b : RoleId) → (same_role a b ≡ true) ↔ (a ≡ b)
same_role_iff a b = ground arith

pub record RoleContract : Type 0 where
  pub role : RoleId
  pub depends_on : List EvidenceKind
  pub tool_scope : List String
  pub may_use_provider : Bool
  pub timeout_ms : ℕ
  pub call_budget : ℕ

-- `ROLE_REGISTRY`, by `roleContract`.
unfoldable pub role_contract : RoleId → RoleContract
role_contract payment_diagnosis = record {
  role = payment_diagnosis;
  depends_on = payment_attempt ∷ decline_code ∷ mandate_state ∷ [];
  tool_scope = "taxonomy_lookup" ∷ "attempt_history" ∷ [];
  may_use_provider = true;
  timeout_ms = 8000;
  call_budget = 1;
}
role_contract customer_context = record {
  role = customer_context;
  depends_on = customer_profile ∷ customer_reply ∷ contact_history ∷ obligation_state ∷ [];
  tool_scope = "customer_lookup" ∷ "obligation_lookup" ∷ "contact_budget_read" ∷ [];
  may_use_provider = true;
  timeout_ms = 8000;
  call_budget = 1;
}
role_contract incident_intelligence = record {
  role = incident_intelligence;
  depends_on = incident_membership ∷ segment_metrics ∷ [];
  tool_scope = "incident_index" ∷ "segment_baseline" ∷ [];
  may_use_provider = true;
  timeout_ms = 10000;
  call_budget = 1;
}
role_contract recovery_economics = record {
  role = recovery_economics;
  depends_on = payment_attempt ∷ decline_code ∷ obligation_state ∷ policy_snapshot ∷ [];
  tool_scope = "action_library" ∷ "policy_snapshot_read" ∷ [];
  may_use_provider = false;
  timeout_ms = 2000;
  call_budget = 0;
}
role_contract communication = record {
  role = communication;
  depends_on = customer_profile ∷ customer_reply ∷ contact_history ∷ policy_snapshot ∷ [];
  tool_scope = "template_catalog" ∷ [];
  may_use_provider = true;
  timeout_ms = 6000;
  call_budget = 1;
}

-- Whether a role reads one of the given kinds.
unfoldable pub reads_any : List EvidenceKind → RoleId → Bool
unfolding role_contract
reads_any kinds id = any (λ k. any (same_kind k) kinds) (role_contract id).depends_on

unfoldable pub roles_depending_on : List EvidenceKind → List RoleId
unfolding reads_any role_ids
roles_depending_on kinds = filter (reads_any kinds) role_ids
