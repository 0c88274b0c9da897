-- ===== src/Engine/Tier0/Resolution.antt =====
-- When Tier 0 resolves a case, and what it then hands over.
use razorpay_buildathon.Base.{ℕ, ◌≡◌, ◌≤◌, ◌<◌, true, some, List, arith, ◌↔◌}
use razorpay_buildathon.Core.Actions.{ActionLibrary}
use razorpay_buildathon.Core.Taxonomy.{Classification, classify}
use razorpay_buildathon.Core.Taxonomy.Ceilings.{retry_permitted_iff}
use razorpay_buildathon.Core.Playbooks.{Playbook, Plan, LoadedTable, plan_for, parse_playbooks}
use razorpay_buildathon.Core.Playbooks.Plans.{IsRunnable, plan_for-IsRunnable}
use razorpay_buildathon.Engine.Tier0.{Tier0Resolver, Tier0Input, resolved, resolve}

-- What must hold for Tier 0 to act alone.
pub record Acts (r : Tier0Resolver) (i : Tier0Input) (c : Classification) (p : Plan) : Type 0 where
  pub mapped : classify r.taxonomy i.rail i.code i.attempt_no ≡ some c
  pub confident : r.min_confidence ≤ c.confidence
  pub permitted : c.retry_eligible ≡ true → c.retry_permitted ≡ true
  pub planned : plan_for r.playbooks i.domain c.cause ≡ some p

resolve-Acts :
    (r : Tier0Resolver) (i : Tier0Input) (c : Classification) (p : Plan)
    → resolve r i ≡ resolved c p
    → Acts r i c p
unfolding resolve
resolve-Acts r i c p h = ground arith

Acts-resolve :
    (r : Tier0Resolver) (i : Tier0Input) (c : Classification) (p : Plan)
    → Acts r i c p
    → resolve r i ≡ resolved c p
unfolding resolve
Acts-resolve r i c p a = ground arith

-- Tier 0 resolves a case, with a classification and a plan, exactly if the taxonomy maps the
-- code to that classification, its confidence is high enough, a retryable code has attempts
-- left, and the table has that plan for the cause.
pub resolve_iff :
    (r : Tier0Resolver) (i : Tier0Input) (c : Classification) (p : Plan)
    → (resolve r i ≡ resolved c p) ↔ Acts r i c p
resolve_iff r i c p = (resolve-Acts r i c p, Acts-resolve r i c p)

-- With playbooks that were loaded against a library, the plan that Tier 0 resolves has a step,
-- each step's action is in the library and not forbidden, and a retryable code has fewer
-- attempts behind it than its ceiling.
pub resolve_safe :
    (lib : ActionLibrary) (version : ℕ) (raw : List Playbook) (r : Tier0Resolver) (i : Tier0Input)
    (c : Classification) (p : Plan)
    → parse_playbooks lib version raw ≡ LoadedTable.ok r.playbooks
    → resolve r i ≡ resolved c p
    → IsRunnable lib p × (c.retry_eligible ≡ true → i.attempt_no < c.retry_ceiling)
resolve_safe lib version raw r i c p h k =
    let a = resolve-Acts r i c p k in
    (
      plan_for-IsRunnable lib version raw r.playbooks i.domain c.cause p h a.planned,
      λ eligible.
          ((retry_permitted_iff r.taxonomy i.rail i.code i.attempt_no 0 c a.mapped).0.0
            (a.permitted eligible)).1,
    )
