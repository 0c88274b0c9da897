-- ===== src/Attribution/Estimator.antt =====
-- packages/attribution/src/estimator.ts: incremental recovery against the holdout, over the runtime's
-- fractional numbers. An amount outside the value bands throws, which is `none`.

pub mod Resampling
pub mod Symmetry
use razorpay_buildathon.Base.{
  ℕ, zero, suc, ◌+◌, ◌*◌, ◌/◌, String, Bool, true, false, not, ◌&&◌, ◌||◌, Option, none, some, List,
  [], ◌∷◌, ◌++◌, ◌===◌, ◌==◌, ltb, length, get_elem?, get_or, ◌>>=◌, filter, count, map, sort,
  if◌then◌else◌,
}
use razorpay_buildathon.Base.Int.{ℤ, pos, add_ℤ}
use razorpay_buildathon.Core.Platform.{Platform}
use razorpay_buildathon.Core.Floats.{Floats, of_nat}
use razorpay_buildathon.Attribution.Rng.{u32, draw}
use razorpay_buildathon.Attribution.Holdout.{value_band}

pub record CaseOutcome : Type 0 where
  pub case_id : String
  pub holdout : Bool
  pub recovered : Bool
  pub amount_paise : ℕ
  pub recovered_after_ms : Option ℕ
  pub merchant_dunning : Option Bool

pub record EstimatorConfig : Type 0 where
  pub natural_recovery_window_ms : ℕ
  pub window_days : ℕ
  pub bootstrap_samples : ℕ
  pub seed : ℕ

abbrev pub default_estimator_config : EstimatorConfig
default_estimator_config = record {
  natural_recovery_window_ms = 30 * 60_000;
  window_days = 14;
  bootstrap_samples = 2000;
  seed = 20260902;
}

abbrev pub in_window : ℕ → Option ℕ → Bool
in_window window none = false
in_window window (some after) = ltb after window

unfoldable pub is_excluded : CaseOutcome → EstimatorConfig → Bool
is_excluded o c =
    if get_or false o.merchant_dunning
    then true
    else o.recovered && in_window c.natural_recovery_window_ms o.recovered_after_ms

abbrev pub total_paise : List CaseOutcome → ℕ
total_paise [] = 0
total_paise (o ∷ os) = o.amount_paise + total_paise os

abbrev pub recovered_in : List CaseOutcome → List CaseOutcome
recovered_in os = filter (λ o. o.recovered) os

abbrev pub eligible_arm : Bool → EstimatorConfig → List CaseOutcome → List CaseOutcome
eligible_arm true config outcomes =
    filter (λ o. o.holdout) (filter (λ o. not (is_excluded o config)) outcomes)
eligible_arm false config outcomes =
    filter (λ o. not o.holdout) (filter (λ o. not (is_excluded o config)) outcomes)

-- The distinct bands, in the order of their first cases; `none` where a case has no band.
unfoldable pub bands_of : List CaseOutcome → Option (List String)
bands_of [] = some []
bands_of (o ∷ os) = do
  b ← value_band o.amount_paise
  bands ← bands_of os
  some (b ∷ filter (λ x. not (x === b)) bands)

abbrev pub in_band : String → CaseOutcome → Bool
in_band band o = elim (value_band o.amount_paise) [ none ↦ false | some b ↦ b === band ]

-- One arm drawn again, with as many draws as it has cases: what it holds and the next state.
-- `none` would be the read of a case that is not there.
pub record Resample : Type 0 where
  pub recovered_count : ℕ
  pub value : ℕ
  pub state : ℕ

abbrev pub count_pick : CaseOutcome → Resample → Resample
count_pick o r = record r {
  recovered_count = (if o.recovered then 1 else 0) + r.recovered_count;
  value = o.amount_paise + r.value;
}

-- `Math.floor(rand() * arm.length)` of a draw of 2 ^ 32 parts, which is exact below 2 ^ 21 cases.
abbrev pub pick_index : ℕ → ℕ → ℕ
pick_index parts n = parts * n / 4294967296

unfoldable pub resample : ℕ → List CaseOutcome → ℕ → Option Resample
resample zero arm state = some (record { recovered_count = 0; value = 0; state = state })
resample (suc k) arm state = do
  o ← get_elem? arm (pick_index (draw state).parts (length arm))
  rest ← resample k arm (draw state).state
  some (count_pick o rest)

module _ (f : Floats) where
  open f use {Float, ratio, add, sub, mul, div, sqrt, le, round, floor}

  pub record BandEstimate : Type 0 where
    pub band : String
    pub treated_n : ℕ
    pub holdout_n : ℕ
    pub lift : Float
    pub mean_value_paise : ℤ
    pub incremental_paise : ℤ
    pub pooled_fallback : Bool

  pub record AttributionResult : Type 0 where
    pub treated_n : ℕ
    pub holdout_n : ℕ
    pub treated_recovered : ℕ
    pub holdout_recovered : ℕ
    pub treated_rate : Float
    pub holdout_rate : Float
    pub lift : Float
    pub lift_ci : Float × Float
    pub gross_recovered_paise : ℕ
    pub incremental_paise : ℤ
    pub incremental_ci : ℤ × ℤ
    pub incremental_stratified_paise : ℤ
    pub strata : List BandEstimate
    pub excluded_treated : ℕ
    pub excluded_holdout : ℕ
    pub mean_value_at_risk_paise : ℤ

  abbrev pub share : ℕ → ℕ → Float
  share part whole = if whole == 0 then of_nat f 0 else div (of_nat f part) (of_nat f whole)

  abbrev pub mean_paise : List CaseOutcome → Float
  mean_paise os = share (total_paise os) (length os)

  abbrev pub min_band_holdout : ℕ
  min_band_holdout = 20

  abbrev pub estimate_band : List CaseOutcome → List CaseOutcome → Float → String → BandEstimate
  estimate_band treated holdout pooled_lift band =
      let t = filter (in_band band) treated in
      let h = filter (in_band band) holdout in
      let t_rate = share (length (recovered_in t)) (length t) in
      let h_rate = share (length (recovered_in h)) (length h) in
      let pooled_fallback = ltb (length h) min_band_holdout in
      let band_lift = if pooled_fallback then pooled_lift else sub t_rate h_rate in
      let recovered_in_band = recovered_in t in
      let mean_value =
        if length recovered_in_band == 0 then mean_paise t else mean_paise recovered_in_band in
      record {
        band = band;
        treated_n = length t;
        holdout_n = length h;
        lift = band_lift;
        mean_value_paise = round mean_value;
        incremental_paise = round (mul (mul band_lift (of_nat f (length t))) mean_value);
        pooled_fallback = pooled_fallback;
      }

  unfoldable pub estimate_by_band :
      Platform → List CaseOutcome → List CaseOutcome → Float → Option (List BandEstimate)
  unfolding bands_of
  estimate_by_band pf treated holdout pooled_lift = do
    bands ← bands_of (treated ++ holdout)
    some (map (estimate_band treated holdout pooled_lift) (sort pf.key_before bands))

  abbrev pub sample_of : List CaseOutcome → List CaseOutcome → Resample → Resample → Float
  sample_of treated holdout t h =
      let n = of_nat f (length treated) in
      let l =
        sub (div (of_nat f t.recovered_count) n)
          (div (of_nat f h.recovered_count) (of_nat f (length holdout))) in
      mul (mul l n) (div (of_nat f t.value) n)

  -- The bootstrap's loop, with the samples still to draw.
  unfoldable pub samples : ℕ → List CaseOutcome → List CaseOutcome → ℕ → Option (List Float)
  samples zero treated holdout state = some []
  samples (suc k) treated holdout state = do
    t ← resample (length treated) treated state
    h ← resample (length holdout) holdout t.state
    xs ← samples k treated holdout h.state
    some (sample_of treated holdout t h ∷ xs)

  abbrev pub quantile : Float → List Float → ℤ
  quantile q sorted =
      round (get_or (of_nat f 0) (get_elem? sorted (floor (mul q (of_nat f (length sorted))))))

  abbrev pub interval : List Float → ℤ × ℤ
  interval xs =
      let sorted = sort le xs in (quantile (ratio 25 1000) sorted, quantile (ratio 975 1000) sorted)

  unfoldable pub bootstrap_incremental :
      List CaseOutcome → List CaseOutcome → EstimatorConfig → Option (ℤ × ℤ)
  unfolding samples resample
  bootstrap_incremental treated holdout config =
      if (length treated == 0) || (length holdout == 0) then some (pos 0, pos 0) else do
        xs ← samples config.bootstrap_samples treated holdout (u32 config.seed)
        some (interval xs)

  abbrev pub sum_incremental : List BandEstimate → ℤ
  sum_incremental [] = pos 0
  sum_incremental (b ∷ bs) = add_ℤ b.incremental_paise (sum_incremental bs)

  abbrev pub variance : Float → ℕ → Float
  variance r n = if n == 0 then of_nat f 0 else div (mul r (sub (of_nat f 1) r)) (of_nat f n)

  abbrev pub z_95 : Float
  z_95 = ratio 196 100

  abbrev pub result_of :
      EstimatorConfig → List CaseOutcome → List BandEstimate → ℤ × ℤ → AttributionResult
  result_of config outcomes strata ci =
      let treated = eligible_arm false config outcomes in
      let holdout = eligible_arm true config outcomes in
      let treated_rate = share (length (recovered_in treated)) (length treated) in
      let holdout_rate = share (length (recovered_in holdout)) (length holdout) in
      let lift = sub treated_rate holdout_rate in
      let mean_value = mean_paise treated in
      let se =
        sqrt
          (add (variance treated_rate (length treated)) (variance holdout_rate (length holdout))) in
      record {
        treated_n = length treated;
        holdout_n = length holdout;
        treated_recovered = length (recovered_in treated);
        holdout_recovered = length (recovered_in holdout);
        treated_rate = treated_rate;
        holdout_rate = holdout_rate;
        lift = lift;
        lift_ci = (sub lift (mul z_95 se), add lift (mul z_95 se));
        gross_recovered_paise = total_paise (recovered_in treated);
        incremental_paise = round (mul (mul lift (of_nat f (length treated))) mean_value);
        incremental_ci = ci;
        incremental_stratified_paise = sum_incremental strata;
        strata = strata;
        excluded_treated = count (λ o. not o.holdout && is_excluded o config) outcomes;
        excluded_holdout = count (λ o. o.holdout && is_excluded o config) outcomes;
        mean_value_at_risk_paise = round mean_value;
      }

  abbrev pub lift_of : EstimatorConfig → List CaseOutcome → Float
  lift_of config outcomes =
      let treated = eligible_arm false config outcomes in
      let holdout = eligible_arm true config outcomes in
      sub (share (length (recovered_in treated)) (length treated))
        (share (length (recovered_in holdout)) (length holdout))

  unfoldable pub estimate : Platform → List CaseOutcome → EstimatorConfig → Option AttributionResult
  unfolding estimate_by_band bootstrap_incremental
  estimate pf outcomes config =
      let treated = eligible_arm false config outcomes in
      let holdout = eligible_arm true config outcomes in
      do
        strata ← estimate_by_band pf treated holdout (lift_of config outcomes)
        ci ← bootstrap_incremental treated holdout config
        some (result_of config outcomes strata ci)

-- A case that recovered, with what only the simulator knows of it.
pub record SimulatedOutcome : Type 0 where
  pub outcome : CaseOutcome
  pub will_pay_regardless : Bool

abbrev pub caused : SimulatedOutcome → Bool
caused s = not s.outcome.holdout && (s.outcome.recovered && not s.will_pay_regardless)

unfoldable pub true_incremental : List SimulatedOutcome → ℕ
true_incremental outcomes = total_paise (map (λ s. s.outcome) (filter caused outcomes))
