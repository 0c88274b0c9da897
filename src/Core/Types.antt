-- ===== src/Core/Types.antt =====
-- packages/core/src/types.ts: the closed sets of the domain. Identifiers are texts, times are
-- milliseconds of the virtual clock, amounts are paise.
use razorpay_buildathon.Base.{ℕ, Bool, ◌≡◌, true, ◌==◌, ◌↔◌, arith, List, [], ◌∷◌}

pub data Rail : Type 0 where
  card upi_collect upi_autopay enach netbanking wallet smart_collect : Rail

abbrev pub rail_index : Rail → ℕ
rail_index card = 0
rail_index upi_collect = 1
rail_index upi_autopay = 2
rail_index enach = 3
rail_index netbanking = 4
rail_index wallet = 5
rail_index smart_collect = 6

abbrev pub same_rail : Rail → Rail → Bool
same_rail a b = rail_index a == rail_index b

pub data Domain : Type 0 where
  subscription_renewal payment_failure checkout_abandonment overdue_invoice : Domain

abbrev pub domain_index : Domain → ℕ
domain_index subscription_renewal = 0
domain_index payment_failure = 1
domain_index checkout_abandonment = 2
domain_index overdue_invoice = 3

pub data EvidenceKind : Type 0 where
  payment_attempt decline_code mandate_state customer_profile customer_reply : EvidenceKind
  contact_history obligation_state incident_membership segment_metrics : EvidenceKind
  policy_snapshot : EvidenceKind

abbrev pub evidence_kinds : List EvidenceKind
evidence_kinds =
    payment_attempt ∷ decline_code ∷ mandate_state ∷ customer_profile ∷ customer_reply
    ∷ contact_history ∷ obligation_state ∷ incident_membership ∷ segment_metrics ∷ policy_snapshot
    ∷ []

-- The position in `EVIDENCE_KINDS`, by which kinds are compared.
abbrev pub kind_index : EvidenceKind → ℕ
kind_index payment_attempt = 0
kind_index decline_code = 1
kind_index mandate_state = 2
kind_index customer_profile = 3
kind_index customer_reply = 4
kind_index contact_history = 5
kind_index obligation_state = 6
kind_index incident_membership = 7
kind_index segment_metrics = 8
kind_index policy_snapshot = 9

abbrev pub same_kind : EvidenceKind → EvidenceKind → Bool
same_kind a b = kind_index a == kind_index b

pub same_kind_iff : (a b : EvidenceKind) → (same_kind a b ≡ true) ↔ (a ≡ b)
same_kind_iff a b = ground arith

pub same_rail_iff : (a b : Rail) → (same_rail a b ≡ true) ↔ (a ≡ b)
same_rail_iff a b = ground arith

pub data Tier : Type 0 where
  tier0 tier1 tier2 : Tier
