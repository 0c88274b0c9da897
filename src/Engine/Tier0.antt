-- ===== src/Engine/Tier0.antt =====
-- packages/engine/src/tier0.ts: the deterministic resolver.
pub mod Resolution
use razorpay_buildathon.Base.{
  ℕ, String, Bool, true, false, ◌&&◌, not, Option, none, some, ltb, if◌then◌else◌,
}
use razorpay_buildathon.Core.Types.{Domain, Rail}
use razorpay_buildathon.Core.Taxonomy.{Classification, DeclineTaxonomy, classify}
use razorpay_buildathon.Core.Playbooks.{Plan, PlaybookTable, plan_for}

pub data Tier0Miss : Type 0 where
  unmapped_code no_playbook retry_ceiling_reached below_confidence : Tier0Miss

pub data Tier0Outcome : Type 0 where
  resolved : Classification → Plan → Tier0Outcome
  missed : Tier0Miss → Option Classification → Tier0Outcome

pub record Tier0Input : Type 0 where
  pub domain : Domain
  pub rail : Rail
  pub code : String
  pub attempt_no : ℕ

-- `min_confidence`, in hundredths, is 75 where the constructor is given none.
pub record Tier0Resolver : Type 0 where
  pub taxonomy : DeclineTaxonomy
  pub playbooks : PlaybookTable
  pub min_confidence : ℕ

-- The last test: the default plan of the cause.
abbrev with_plan : Option Plan → Classification → Tier0Outcome
with_plan none c = missed no_playbook (some c)
with_plan (some p) c = resolved c p

unfoldable pub resolve_classified :
    Tier0Resolver → Tier0Input → Option Classification → Tier0Outcome
resolve_classified r input none = missed unmapped_code none
resolve_classified r input (some c) =
    if ltb c.confidence r.min_confidence
    then missed below_confidence (some c)
    else if c.retry_eligible && not c.retry_permitted
    then missed retry_ceiling_reached (some c)
    else with_plan (plan_for r.playbooks input.domain c.cause) c

unfoldable pub resolve : Tier0Resolver → Tier0Input → Tier0Outcome
unfolding resolve_classified
resolve r input =
    resolve_classified r input (classify r.taxonomy input.rail input.code input.attempt_no)
