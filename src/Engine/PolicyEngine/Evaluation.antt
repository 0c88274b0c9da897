-- ===== src/Engine/PolicyEngine/Evaluation.antt =====
-- When an evaluation allows an action.
use razorpay_buildathon.Base.{
  ℕ, ◌<◌, ◌≡◌, refl, ◌↔◌, String, Bool, true, false, ◌&&◌, Option, none, some, List, [], ◌∷◌, arith,
  leb, get_or,
}
use razorpay_buildathon.Core.Platform.{Platform}
use razorpay_buildathon.Core.Actions.{ActionDef}
use razorpay_buildathon.Core.Policy.{
  ContactCap, Policy, allow, in_quiet_hours, cap_for, global_cap, action_allowed_on_rail,
}
use razorpay_buildathon.Engine.PolicyEngine.{
  EvaluationContext, BudgetRow, usage, first_spent, budget_exhausted, channel_of, above, spent,
  evaluate,
}

-- There is room for one more contact under a cap.
abbrev pub HasRoom : ℕ → List BudgetRow → String → Option ContactCap → Type 0
HasRoom now budgets customer none = Unit {0}
HasRoom now budgets customer (some c) = usage now budgets customer c.channel c.window_days < c.max

-- What the policy asks of an action before it may run.
pub record Permits (pf : Platform) (p : Policy) (now : ℕ) (budgets : List BudgetRow)
    (ctx : EvaluationContext) (action : ActionDef) : Type 0 where
  pub on_rail : action_allowed_on_rail p ctx.rail ctx.action_id ≡ true
  pub consents : action.consumes_contact_budget ≡ true → get_or false ctx.opted_out ≡ false
  pub attempts_left : ctx.attempt_no < p.max_attempts_per_case
  pub awake : action.quiet_hours_enforced ≡ true → in_quiet_hours pf now p ≡ false
  pub in_budget :
      action.consumes_contact_budget ≡ true
      → HasRoom now budgets ctx.customer_id (cap_for p (channel_of pf ctx.params))
        × HasRoom now budgets ctx.customer_id (global_cap p)
  pub below : above ctx.amount_paise p.require_approval_above_paise ≡ false

room_iff :
    (now : ℕ) (budgets : List BudgetRow) (customer : String) (c d : Option ContactCap)
    → (spent (first_spent now budgets customer (c ∷ d ∷ [])) ≡ false)
      ↔ (HasRoom now budgets customer c × HasRoom now budgets customer d)
unfolding first_spent
room_iff now budgets customer none none = ground (arith)
room_iff now budgets customer none (some d) = ground (arith)
room_iff now budgets customer (some c) none = ground (arith)
room_iff now budgets customer (some c) (some d) = ground (arith)

not_spent : (c : Option ContactCap) → spent c ≡ false → c ≡ none
not_spent c e = ground (arith)

spent-false : (c : Option ContactCap) → c ≡ none → spent c ≡ false
spent-false c e = rw e refl

pub in_budget_iff :
    (p : Policy) (now : ℕ) (budgets : List BudgetRow) (customer channel : String)
    → (budget_exhausted p now budgets customer channel ≡ none) ↔ (
        HasRoom now budgets customer (cap_for p channel)
        × HasRoom now budgets customer (global_cap p))
unfolding budget_exhausted
in_budget_iff p now budgets customer channel =
    let (a, b) = room_iff now budgets customer (cap_for p channel) (global_cap p) in
    ((λ e. a (spent-false _ e)), (λ r. not_spent _ (b r)))

and_false_iff : (a b : Bool) → ((a && b) ≡ false) ↔ (a ≡ true → b ≡ false)
and_false_iff true b = ((λ h _. h), (λ h. h refl))
and_false_iff false b = ((λ _ h. absurd (ground arith)), (λ _. refl))

and_false_swap : (a b : Bool) → (b ≡ true → a ≡ false) → (a && b) ≡ false
and_false_swap true true h = h refl
and_false_swap true false h = refl
and_false_swap false b h = refl

not_leb : (n m : ℕ) → m < n → leb n m ≡ false
not_leb n m h = ground (arith)

-- The checks of an evaluation, one after the other.
Checks : Platform → Policy → ℕ → List BudgetRow → EvaluationContext → ActionDef → Type 0
Checks pf p now budgets ctx action =
    (action_allowed_on_rail p ctx.rail ctx.action_id ≡ true)
    × ((get_or false ctx.opted_out && action.consumes_contact_budget) ≡ false)
    × (leb p.max_attempts_per_case ctx.attempt_no ≡ false)
    × ((action.quiet_hours_enforced && in_quiet_hours pf now p) ≡ false)
    × ((action.consumes_contact_budget
          && spent (budget_exhausted p now budgets ctx.customer_id (channel_of pf ctx.params)))
        ≡ false)
    × (above ctx.amount_paise p.require_approval_above_paise ≡ false)

evaluate-Checks :
    (pf : Platform) (p : Policy) (now : ℕ) (budgets : List BudgetRow) (ctx : EvaluationContext)
    (action : ActionDef)
    → ((evaluate pf p now budgets ctx action).outcome ≡ allow) ↔ Checks pf p now budgets ctx action
unfolding evaluate Checks
evaluate-Checks pf p now budgets ctx action = ground (arith)

Checks-Permits :
    (pf : Platform) (p : Policy) (now : ℕ) (budgets : List BudgetRow) (ctx : EvaluationContext)
    (action : ActionDef)
    → Checks pf p now budgets ctx action ↔ Permits pf p now budgets ctx action
unfolding Checks budget_exhausted
Checks-Permits pf p now budgets ctx action =
    let room =
      room_iff now budgets ctx.customer_id (cap_for p (channel_of pf ctx.params)) (global_cap p) in
    (
      (λ (r, o, a, q, b, x). record {
        on_rail = r;
        consents = (λ c. ground (arith));
        attempts_left = ground (arith);
        awake = (and_false_iff _ _).0 q;
        in_budget = (λ c. room.0 ((and_false_iff _ _).0 b c));
        below = x;
      }),
      (λ h. (
        h.on_rail,
        and_false_swap _ _ h.consents,
        not_leb _ _ h.attempts_left,
        (and_false_iff _ _).1 h.awake,
        (and_false_iff _ _).1 (λ c. room.1 (h.in_budget c)),
        h.below,
      )),
    )

-- An evaluation allows an action exactly if the action is permitted on the rail, the customer has
-- not opted out or is not contacted, attempts are left, no quiet hours hold it up, every cap on the
-- contact has room, and the amount needs no approval.
pub evaluate_iff :
    (pf : Platform) (p : Policy) (now : ℕ) (budgets : List BudgetRow) (ctx : EvaluationContext)
    (action : ActionDef)
    → ((evaluate pf p now budgets ctx action).outcome ≡ allow) ↔ Permits pf p now budgets ctx action
evaluate_iff pf p now budgets ctx action =
    let (a, b) = evaluate-Checks pf p now budgets ctx action in
    let (c, d) = Checks-Permits pf p now budgets ctx action in ((λ h. c (a h)), (λ h. b (d h)))
