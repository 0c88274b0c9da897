-- ===== src/Agents/Optimizer.antt =====
-- packages/agents/src/optimizer.ts: the ranking of the candidate actions. Values are in paise, and
-- the texts `why` are a type.
pub mod Choice
use razorpay_buildathon.Base.{
  ℕ, suc, String, ◌*◌, Bool, Option, none, some, List, [], ◌∷◌, ◌++◌, ◌===◌, if◌then◌else◌, any,
  filter, sort, map,
}
use razorpay_buildathon.Base.Int.{ℤ, eq_ℤ, leb_ℤ, minus, is_positive}
use razorpay_buildathon.Base.Order.{TextOrder}
use razorpay_buildathon.Core.Actions.{ActionDef, ActionLibrary, ActionError, Found, get}

-- A chance of recovery is in hundredths.
pub record EconomicsCandidate : Type 0 where
  pub action_id : String
  pub p_recover : ℕ
  pub value_at_risk_paise : ℕ
  pub action_cost_paise : ℕ
  pub expected_value_paise : ℤ

pub record ScoredAction : Type 0 where
  pub action_id : String
  pub expected_value_paise : ℤ
  pub model_cost_paise : ℕ
  pub risk_penalty_paise : ℕ
  pub score : ℤ
  pub rank : ℕ

pub data Why : Type 0 where
  not_permitted : Why
  not_in_library : ActionError → Why
  not_positive : ℤ → Why

pub record Rejection : Type 0 where
  pub action_id : String
  pub why : Why

pub record OptimizerResult : Type 0 where
  pub selected : Option ScoredAction
  pub ranked : List ScoredAction
  pub rejected : List Rejection

pub record OptimizerConstraints : Type 0 where
  pub permitted : List String
  pub prior_contacts : ℕ
  pub model_spend_paise : ℕ

abbrev pub reject : String → Why → Rejection
reject id why = record { action_id = id; why = why }

unfoldable pub score_of : ℕ → OptimizerConstraints → EconomicsCandidate → ActionDef → ScoredAction
score_of fatigue c cand action =
    let penalty = if action.consumes_contact_budget then c.prior_contacts * fatigue else 0 in
    record {
      action_id = cand.action_id;
      expected_value_paise = cand.expected_value_paise;
      model_cost_paise = c.model_spend_paise;
      risk_penalty_paise = penalty;
      score = minus (minus cand.expected_value_paise c.model_spend_paise) penalty;
      rank = 0;
    }

-- A turn of the loop over the candidates: the candidate is scored or rejected.
pub data Turn : Type 0 where
  scored : ScoredAction → Turn
  dropped : Rejection → Turn

abbrev pub scored_or_dropped : Found → ℕ → OptimizerConstraints → EconomicsCandidate → Turn
scored_or_dropped (Found.ok action) fatigue c cand = scored (score_of fatigue c cand action)
scored_or_dropped (Found.err e) fatigue c cand = dropped (reject cand.action_id (not_in_library e))

unfoldable pub consider : ActionLibrary → ℕ → OptimizerConstraints → EconomicsCandidate → Turn
unfolding score_of
consider lib fatigue c cand =
    if any (λ p. p === cand.action_id) c.permitted
    then scored_or_dropped (get lib cand.action_id) fatigue c cand
    else dropped (reject cand.action_id not_permitted)

abbrev pub scored_of : List Turn → List ScoredAction
scored_of [] = []
scored_of (scored s ∷ ts) = s ∷ scored_of ts
scored_of (dropped r ∷ ts) = scored_of ts

abbrev pub dropped_of : List Turn → List Rejection
dropped_of [] = []
dropped_of (scored s ∷ ts) = dropped_of ts
dropped_of (dropped r ∷ ts) = r ∷ dropped_of ts

-- `b.score - a.score || a.actionId.localeCompare(b.actionId)`, as: `a` may stand before `b`.
abbrev pub better : TextOrder → ScoredAction → ScoredAction → Bool
better order a b =
    if eq_ℤ a.score b.score then order.before a.action_id b.action_id else leb_ℤ b.score a.score

abbrev pub number_from : ℕ → List ScoredAction → List ScoredAction
number_from n [] = []
number_from n (s ∷ ss) = record s { rank = n } ∷ number_from (suc n) ss

abbrev pub worth : ScoredAction → Bool
worth s = is_positive s.score

abbrev pub first : List ScoredAction → Option ScoredAction
first [] = none
first (s ∷ ss) = some s

abbrev pub worthless_of : List ScoredAction → List Rejection
worthless_of [] = []
worthless_of (s ∷ ss) =
    if worth s then worthless_of ss else reject s.action_id (not_positive s.score) ∷ worthless_of ss

unfoldable pub rank :
    TextOrder → ActionLibrary → ℕ → List EconomicsCandidate → OptimizerConstraints → OptimizerResult
unfolding consider
rank order lib fatigue candidates c =
    let turns = map (consider lib fatigue c) candidates in
    let ranked = number_from 1 (sort (better order) (scored_of turns)) in
    record {
      selected = first (filter worth ranked);
      ranked = ranked;
      rejected = dropped_of turns ++ worthless_of ranked;
    }
