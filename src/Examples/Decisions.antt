-- ===== src/Examples/Decisions.antt =====
-- What the optimizer ranks and what the reducer settles on.
use razorpay_buildathon.Base.{◌≡◌, refl, ◌↔◌, true, false, none, some, List, [], ◌∷◌, All, any}
use razorpay_buildathon.Base.Int.{pos}
use razorpay_buildathon.Core.Actions.{get}
use razorpay_buildathon.Core.Floats.{hundredths}
use razorpay_buildathon.Agents.Optimizer.{
  EconomicsCandidate, ScoredAction, OptimizerConstraints, rank, consider, score_of, worth, better,
}
use razorpay_buildathon.Agents.Optimizer.Choice.{Owes, rank-selected}
use razorpay_buildathon.Agents.DeliberationReducer.{
  en, ReducerInput, escalate_to_human, unknown, opts_out, disputes, reduce,
}
use razorpay_buildathon.Agents.DeliberationReducer.Precedence.{
  is_close, Unanswered, reduce_escalates_iff,
}
use razorpay_buildathon.Examples.Numbers.{
  thousandths, thousandths-IsOrdered, thousandths-KeepsOrder,
}
use razorpay_buildathon.Examples.Text.{text_order}
use razorpay_buildathon.Examples.Loading.{library}

abbrev candidates : List EconomicsCandidate
candidates =
    record {
      action_id = "send_payment_link";
      p_recover = 1;
      value_at_risk_paise = 100000;
      action_cost_paise = 100;
      expected_value_paise = pos 900;
    }
    ∷ record {
      action_id = "charge_again";
      p_recover = 5;
      value_at_risk_paise = 100000;
      action_cost_paise = 0;
      expected_value_paise = pos 5000;
    }
    ∷ []

abbrev constraints : OptimizerConstraints
constraints = record {
  permitted = "send_payment_link" ∷ [];
  prior_contacts = 0;
  model_spend_paise = 100;
}

abbrev best : ScoredAction
best = record {
  action_id = "send_payment_link";
  expected_value_paise = pos 900;
  model_cost_paise = 100;
  risk_penalty_paise = 0;
  score = pos 800;
  rank = 1;
}

best-selected : (rank text_order library 1500 candidates constraints).selected ≡ some best
unfolding rank consider score_of get
best-selected = refl

rank-selected_example :
    Owes library 1500 constraints best
    × (worth best ≡ true)
    × (best.rank ≡ 1)
    × All
        (λ t. better text_order best t ≡ true)
        (rank text_order library 1500 candidates constraints).ranked
rank-selected_example =
    rank-selected text_order library 1500 candidates constraints best best-selected

abbrev claims : ReducerInput
claims = record {
  diagnosis = record {
    primary_cause = "insufficient_funds";
    confidence = hundredths 60;
    alternatives = record { cause = "issuer_down"; confidence = hundredths 55 } ∷ [];
    rule_id = none;
    evidence_refs = [];
  };
  context = record { intent = unknown; opted_out = false; language = en; prior_contacts = 0 };
  incident = record { attach = false; incident_id = none; suppress = false };
}

reduce_escalates_iff_example :
    ((reduce thousandths none claims).stop_reason ≡ some escalate_to_human) ↔ (
      (opts_out claims.context ≡ false)
      × (disputes claims.context.intent ≡ false)
      × (claims.incident.suppress ≡ false)
      × (any (is_close thousandths claims.diagnosis) claims.diagnosis.alternatives ≡ true)
      × Unanswered none)
reduce_escalates_iff_example =
    reduce_escalates_iff thousandths thousandths-IsOrdered thousandths-KeepsOrder none claims
