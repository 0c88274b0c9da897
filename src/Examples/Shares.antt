-- ===== src/Examples/Shares.antt =====
-- A small cohort with a holdout.
use razorpay_buildathon.Base.{
  ℕ, ◌+◌, ◌≤◌, ◌≡◌, refl, arith, String, Bool, true, false, none, some, List, [], ◌∷◌, All, map,
  if◌then◌else◌,
}
use razorpay_buildathon.Attribution.Rng.{draw}
use razorpay_buildathon.Attribution.Holdout.{Assignment, max_safe_integer}
use razorpay_buildathon.Attribution.Estimator.{
  CaseOutcome, EstimatorConfig, AttributionResult, default_estimator_config, estimate,
}
use razorpay_buildathon.Attribution.Estimator.Resampling.{estimate_total}
use razorpay_buildathon.Attribution.Estimator.Symmetry.{flip, Swapped, estimate_symmetric}
use razorpay_buildathon.Examples.Numbers.{thousandths}
use razorpay_buildathon.Examples.Text.{platform}

-- 0.26642920868471265 of the unit, as the source's generator gives from the seed 0.
first_draw : (draw 0).parts ≡ 1144304738
unfolding draw
first_draw = refl

abbrev assignments : List Assignment
assignments =
    record { stratum = "expired_card:lt_1k"; holdout = false }
    ∷ record { stratum = "insufficient_funds:1k_5k"; holdout = true }
    ∷ record { stratum = "expired_card:lt_1k"; holdout = true }
    ∷ []

abbrev outcome_of : String → Bool → Bool → ℕ → CaseOutcome
outcome_of id holdout recovered amount = record {
  case_id = id;
  holdout = holdout;
  recovered = recovered;
  amount_paise = amount;
  recovered_after_ms = if recovered then some 7_200_000 else none;
  merchant_dunning = none;
}

abbrev cohort : List CaseOutcome
cohort =
    outcome_of "c_1" false true 90_000
    ∷ outcome_of "c_2" false false 300_000
    ∷ outcome_of "c_3" true false 90_000
    ∷ outcome_of "c_4" true true 40_000
    ∷ []

abbrev config : EstimatorConfig
config = record default_estimator_config { bootstrap_samples = 2 }

cohort-IsSafe : All (λ o. o.amount_paise ≤ max_safe_integer) cohort
cohort-IsSafe = (omega arith, (omega arith, (omega arith, (omega arith, tt))))

flipped-IsSafe : All (λ o. o.amount_paise ≤ max_safe_integer) (map flip cohort)
flipped-IsSafe = (omega arith, (omega arith, (omega arith, (omega arith, tt))))

estimate_total_example :
    (r : AttributionResult thousandths) × (estimate thousandths platform cohort config ≡ some r)
    × (r.treated_n + r.holdout_n + r.excluded_treated + r.excluded_holdout ≡ 4)
estimate_total_example = estimate_total thousandths platform cohort config cohort-IsSafe

abbrev estimated : AttributionResult thousandths
estimated = (estimate_total thousandths platform cohort config cohort-IsSafe).0

abbrev flipped : AttributionResult thousandths
flipped = (estimate_total thousandths platform (map flip cohort) config flipped-IsSafe).0

estimate_symmetric_example :
    Swapped thousandths estimated flipped × Swapped thousandths flipped estimated
estimate_symmetric_example =
    estimate_symmetric thousandths platform cohort config estimated flipped
      (estimate_total thousandths platform cohort config cohort-IsSafe).1
      (estimate_total thousandths platform (map flip cohort) config flipped-IsSafe).1
