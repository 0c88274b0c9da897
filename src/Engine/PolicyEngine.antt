-- ===== src/Engine/PolicyEngine.antt =====
-- packages/engine/src/policy-engine.ts: the decision on an action, the only minting of a token, and
-- the budgets of contact.
pub mod Evaluation
pub mod Decision
pub mod Budget
use razorpay_buildathon.Base.{
  ℕ, String, ◌+◌, ◌*◌, ◌/◌, Bool, true, false, ◌&&◌, Option, none, some, List, [], ◌∷◌, ◌++◌, ◌===◌,
  ◌==◌, leb, ltb, not, if◌then◌else◌, any, find?, get_or, update_where,
}
use razorpay_buildathon.Core.Types.{Rail}
use razorpay_buildathon.Core.Platform.{Platform}
use razorpay_buildathon.Core.Json.{
  Value, Items, Params, get_field, join, null, flag, number, text, array, object, nil, item,
}
use razorpay_buildathon.Core.Actions.{ActionDef, ActionLibrary, ActionError, Found, get}
use razorpay_buildathon.Core.Capability.{CapabilityToken, Minter, MintInput, mint, hash_params}
use razorpay_buildathon.Core.Policy.{
  ContactCap, Policy, RuleId, DecisionOutcome, PolicyDecision, action_not_allowed_on_rail,
  retry_cap, quiet_hours, contact_budget, amount_approval, opted_out, allowed, allow, block,
  require_approval, in_quiet_hours, cap_for, global_cap, action_allowed_on_rail,
}

pub record EvaluationContext : Type 0 where
  pub case_id : String
  pub obligation_id : String
  pub customer_id : String
  pub rail : Rail
  pub action_id : String
  pub params : Params
  pub attempt_no : ℕ
  pub amount_paise : Option ℕ
  pub opted_out : Option Bool

-- A row of `contact_budgets`, of `policy_decisions` and of `capability_tokens`.
pub record BudgetRow : Type 0 where
  pub customer_id : String
  pub channel : String
  pub window_start : ℕ
  pub used : ℕ
  pub cap : ℕ

pub record DecisionRow : Type 0 where
  pub case_id : String
  pub action_id : String
  pub decision : PolicyDecision
  pub decided_at : ℕ

pub record TokenRow : Type 0 where
  pub case_id : String
  pub obligation_id : String
  pub token : CapabilityToken
  pub minted_at : ℕ

pub record Store : Type 0 where
  pub budgets : List BudgetRow
  pub decisions : List DecisionRow
  pub tokens : List TokenRow

abbrev pub rule_text : RuleId → String
rule_text action_not_allowed_on_rail = "R-102"
rule_text retry_cap = "R-201"
rule_text RuleId.quiet_hours = "R-207"
rule_text contact_budget = "R-208"
rule_text amount_approval = "R-301"
rule_text RuleId.opted_out = "R-401"
rule_text allowed = "R-500"

abbrev day_ms : ℕ
day_ms = 86400000

-- A window has at least one day.
unfoldable pub window_start : ℕ → ℕ → ℕ
window_start now window_days = now / (window_days * day_ms) * (window_days * day_ms)

-- The primary key of `contact_budgets`.
abbrev pub has_key : String → String → ℕ → BudgetRow → Bool
has_key customer channel start b =
    b.customer_id === customer && (b.channel === channel && (b.window_start == start))

abbrev pub used_of : Option BudgetRow → ℕ
used_of none = 0
used_of (some b) = b.used

unfoldable pub usage : ℕ → List BudgetRow → String → String → ℕ → ℕ
unfolding window_start
usage now budgets customer channel window_days =
    used_of (find? (has_key customer channel (window_start now window_days)) budgets)

-- The cap that is spent, of those the loop visits; its text for people is left out.
unfoldable pub first_spent :
    ℕ → List BudgetRow → String → List (Option ContactCap) → Option ContactCap
unfolding usage
first_spent now budgets customer [] = none
first_spent now budgets customer (none ∷ rest) = first_spent now budgets customer rest
first_spent now budgets customer (some c ∷ rest) =
    let later = first_spent now budgets customer rest in
    if leb c.max (usage now budgets customer c.channel c.window_days) then some c else later

abbrev pub caps_of : Policy → String → List (Option ContactCap)
caps_of p channel = cap_for p channel ∷ global_cap p ∷ []

unfoldable pub budget_exhausted : Policy → ℕ → List BudgetRow → String → String → Option ContactCap
unfolding first_spent
budget_exhausted p now budgets customer channel =
    first_spent now budgets customer (caps_of p channel)

-- `String(value)`.
unfoldable mutual
  pub string_of : Platform → Value → String
  string_of pf null = "null"
  string_of pf (flag b) = if b then "true" else "false"
  string_of pf (number n) = pf.show_number n
  string_of pf (text s) = s
  string_of pf (array xs) = join "," (strings_of pf xs)
  string_of pf (object fs) = "[object Object]"

  -- An array's `null` is the empty text.
  pub strings_of : Platform → Items → List String
  strings_of pf nil = []
  strings_of pf (item null xs) = "" ∷ strings_of pf xs
  strings_of pf (item v xs) = string_of pf v ∷ strings_of pf xs

-- `String(params["channel"] ?? "sms")`.
abbrev channel_text : Platform → Option Value → String
channel_text pf none = "sms"
channel_text pf (some null) = "sms"
channel_text pf (some v) = string_of pf v

unfoldable pub channel_of : Platform → Params → String
channel_of pf params = channel_text pf (get_field params "channel")

abbrev pub above : Option ℕ → ℕ → Bool
above none threshold = false
above (some amount) threshold = ltb threshold amount

abbrev decide : Policy → DecisionOutcome → RuleId → PolicyDecision
decide p outcome rule = record { outcome = outcome; rule_id = rule; policy_version = p.version }

abbrev spent : Option ContactCap → Bool
spent none = false
spent (some c) = true

-- The decision on an action that the library has.
unfoldable pub evaluate :
    Platform → Policy → ℕ → List BudgetRow → EvaluationContext → ActionDef → PolicyDecision
evaluate pf p now budgets ctx action =
    if not (action_allowed_on_rail p ctx.rail ctx.action_id)
    then decide p block action_not_allowed_on_rail
    else if get_or false ctx.opted_out && action.consumes_contact_budget
    then decide p block RuleId.opted_out
    else if leb p.max_attempts_per_case ctx.attempt_no
    then decide p block retry_cap
    else if action.quiet_hours_enforced && in_quiet_hours pf now p
    then decide p block RuleId.quiet_hours
    else if action.consumes_contact_budget
        && spent (budget_exhausted p now budgets ctx.customer_id (channel_of pf ctx.params))
    then decide p block contact_budget
    else if above ctx.amount_paise p.require_approval_above_paise
    then decide p require_approval amount_approval
    else decide p allow allowed

unfoldable pub record_decision : ℕ → EvaluationContext → PolicyDecision → Store → Store
record_decision now ctx d store = record {
  budgets = store.budgets;
  decisions =
      store.decisions
      ++ record { case_id = ctx.case_id; action_id = ctx.action_id; decision = d; decided_at = now }
        ∷ [];
  tokens = store.tokens;
}

unfoldable pub persist_token : ℕ → EvaluationContext → CapabilityToken → Store → Store
persist_token now ctx t store = record {
  budgets = store.budgets;
  decisions = store.decisions;
  tokens =
      store.tokens
      ++ record {
        case_id = ctx.case_id;
        obligation_id = ctx.obligation_id;
        token = t;
        minted_at = now;
      }
        ∷ [];
}

pub data Authorization : Type 0 where
  decided : PolicyDecision → Option CapabilityToken → Authorization
  thrown : ActionError → Authorization

unfoldable pub mint_input : Platform → Policy → EvaluationContext → ActionDef → RuleId → MintInput
mint_input pf p ctx action rule = record {
  case_id = ctx.case_id;
  obligation_id = ctx.obligation_id;
  action_id = ctx.action_id;
  params_hash = hash_params pf ctx.params;
  attempt_no = ctx.attempt_no;
  amount_cap_paise = if action.amount_capped then some (get_or 0 ctx.amount_paise) else none;
  policy_version = p.version;
  rule_id = rule_text rule;
}

-- What follows the decision. `nonce` is what the minter's `randomBytes` gives.
unfoldable pub conclude :
    Platform
    → Policy
    → Minter
    → ℕ
    → String
    → EvaluationContext
    → ActionDef
    → PolicyDecision
    → Store
    → Authorization × Store
conclude pf p m now nonce ctx action d store = elim d.outcome [
  | allow ↦
      let t = mint pf m now nonce (mint_input pf p ctx action d.rule_id) in
      (decided d (some t), persist_token now ctx t (record_decision now ctx d store))
  | block ↦ (decided d none, record_decision now ctx d store)
  | require_approval ↦ (decided d none, record_decision now ctx d store)
]

unfoldable pub authorize :
    Platform
    → Policy
    → ActionLibrary
    → Minter
    → ℕ
    → String
    → EvaluationContext
    → Store
    → Authorization × Store
authorize pf p lib m now nonce ctx store = elim (get lib ctx.action_id) [
  | Found.ok action ↦
      conclude pf p m now nonce ctx action (evaluate pf p now store.budgets ctx action) store
  | Found.err e ↦ (thrown e, store)
]

-- One upsert of `consumeContactBudget`.
unfoldable pub bump : ℕ → String → ContactCap → List BudgetRow → List BudgetRow
bump now customer c budgets =
    let start = window_start now c.window_days in
    if any (has_key customer c.channel start) budgets
    then update_where (has_key customer c.channel start)
        (λ b. record {
          customer_id = b.customer_id;
          channel = b.channel;
          window_start = b.window_start;
          used = b.used + 1;
          cap = b.cap;
        })
        budgets
    else budgets
      ++ record {
        customer_id = customer;
        channel = c.channel;
        window_start = start;
        used = 1;
        cap = c.max;
      }
        ∷ []

unfoldable pub bump_all : ℕ → String → List (Option ContactCap) → List BudgetRow → List BudgetRow
unfolding bump
bump_all now customer [] budgets = budgets
bump_all now customer (none ∷ rest) budgets = bump_all now customer rest budgets
bump_all now customer (some c ∷ rest) budgets =
    bump_all now customer rest (bump now customer c budgets)

unfoldable pub consume_contact_budget :
    Policy → ℕ → String → String → List BudgetRow → List BudgetRow
unfolding bump_all
consume_contact_budget p now customer channel budgets =
    bump_all now customer (caps_of p channel) budgets
