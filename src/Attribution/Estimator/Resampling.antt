-- ===== src/Attribution/Estimator/Resampling.antt =====
-- The estimate is always given: every draw of the bootstrap picks a case of its arm.
use razorpay_buildathon.Base.{
  >>=-some, ℕ, zero, suc, ◌+◌, ◌*◌, ◌≤◌, ◌<◌, ◌≡◌, refl, String, Bool, true, false, not, ◌&&◌, ◌||◌,
  some, List, [], ◌∷◌, ◌++◌, arith, length, get_elem?, map, sort, ◌===◌, All, All-append,
  All-filter, count, filter, leb, le→leb, Bool-cases, inl, inr, ◌==◌,
}
use razorpay_buildathon.Base.Int.{ℤ, pos}
use razorpay_buildathon.Core.Platform.{Platform}
use razorpay_buildathon.Core.Floats.{Floats}
use razorpay_buildathon.Attribution.Rng.{draw, draw-lt, u32}
use razorpay_buildathon.Attribution.Holdout.{value_band, max_safe_integer}
use razorpay_buildathon.Attribution.Estimator.{
  CaseOutcome, EstimatorConfig, AttributionResult, Resample, count_pick, sample_of, interval,
  estimate_band, is_excluded, eligible_arm, bands_of, pick_index, resample, samples,
  bootstrap_incremental, estimate_by_band, estimate, result_of, lift_of,
}

get_elem?-below {ℓ} :
    {A : Type ℓ} (xs : List A) (i : ℕ) → i < length xs → (x : A) × (get_elem? xs i ≡ some x)
get_elem?-below [] i h = absurd (omega arith)
get_elem?-below (x ∷ xs) zero h = (x, refl)
get_elem?-below (x ∷ xs) (suc i) h = get_elem?-below xs i (omega arith)

pick_index-lt : (parts n : ℕ) → parts < 4294967296 → 0 < n → pick_index parts n < n
pick_index-lt parts n h k = let product : parts * n < 4294967296 * n = grind arith in omega arith

resample_total :
    (k : ℕ) (arm : List CaseOutcome) (state : ℕ)
    → 0 < length arm
    → (r : Resample) × (resample k arm state ≡ some r)
unfolding resample
resample_total zero arm state h = (_, refl)
resample_total (suc k) arm state h =
    let d = draw state in
    let (o, found) =
      get_elem?-below arm (pick_index d.parts (length arm))
        (pick_index-lt d.parts (length arm) (draw-lt state) h) in
    let (r, rest) = resample_total k arm d.state h in
    (count_pick o r, >>=-some _ _ found (>>=-some _ _ rest refl))

module _ (f : Floats) where
  samples_total :
      (k : ℕ) (treated holdout : List CaseOutcome) (state : ℕ)
      → 0 < length treated
      → 0 < length holdout
      → (xs : List f.Float) × (samples f k treated holdout state ≡ some xs)
  unfolding samples
  samples_total zero treated holdout state h k = (_, refl)
  samples_total (suc n) treated holdout state h k =
      let (t, te) = resample_total (length treated) treated state h in
      let (r, re) = resample_total (length holdout) holdout t.state k in
      let (xs, rest) = samples_total n treated holdout r.state h k in
      (
        sample_of f treated holdout t r ∷ xs,
        >>=-some _ _ te (>>=-some _ _ re (>>=-some _ _ rest refl)),
      )

  bootstrap_incremental_total :
      (treated holdout : List CaseOutcome) (config : EstimatorConfig)
      → (ci : ℤ × ℤ) × (bootstrap_incremental f treated holdout config ≡ some ci)
  unfolding bootstrap_incremental
  bootstrap_incremental_total treated holdout config =
      elim (Bool-cases ((length treated == 0) || (length holdout == 0))) [
        | inl t ↦ ((pos 0, pos 0), rw t refl)
        | inr n ↦
            let (xs, e) =
              samples_total config.bootstrap_samples treated holdout (u32 config.seed)
                (ground arith) (ground arith) in
            (interval f xs, rw n (>>=-some _ _ e refl))
      ]

value_band_total :
    (amount : ℕ) → amount ≤ max_safe_integer → (band : String) × (value_band amount ≡ some band)
unfolding value_band
value_band_total amount h = elim (Bool-cases (leb amount 100_000)) [
  | inl t ↦ ("lt_1k", rw t refl)
  | inr n ↦ elim (Bool-cases (leb amount 500_000)) [
    | inl t ↦ ("1k_5k", rw (n, t) refl)
    | inr m ↦ elim (Bool-cases (leb amount 2_500_000)) [
      | inl t ↦ ("5k_25k", rw (n, m, t) refl)
      | inr k ↦ ("gt_25k", rw (n, m, k, le→leb amount max_safe_integer h) refl)
    ]
  ]
]

abbrev HasBand : CaseOutcome → Type 0
HasBand o = o.amount_paise ≤ max_safe_integer

bands_of_total :
    (os : List CaseOutcome) → All HasBand os → (bands : List String) × (bands_of os ≡ some bands)
unfolding bands_of
bands_of_total [] h = ([], refl)
bands_of_total (o ∷ os) h =
    let (b, e) = value_band_total o.amount_paise h.0 in
    let (bands, rest) = bands_of_total os h.1 in
    (b ∷ filter (λ x. not (x === b)) bands, >>=-some _ _ e (>>=-some _ _ rest refl))

eligible_arm-HasBand :
    (arm : Bool) (config : EstimatorConfig) (outcomes : List CaseOutcome)
    → All HasBand outcomes
    → All HasBand (eligible_arm arm config outcomes)
eligible_arm-HasBand true config outcomes h =
    All-filter HasBand HasBand _ _ (λ o p t. p)
      (All-filter HasBand HasBand _ outcomes (λ o p t. p) h)
eligible_arm-HasBand false config outcomes h =
    All-filter HasBand HasBand _ _ (λ o p t. p)
      (All-filter HasBand HasBand _ outcomes (λ o p t. p) h)

-- Every case is in one of the arms, or excluded from one.
arms_add_up :
    (config : EstimatorConfig) (outcomes : List CaseOutcome)
    → length (eligible_arm false config outcomes)
        + length (eligible_arm true config outcomes)
        + count (λ o. not o.holdout && is_excluded o config) outcomes
        + count (λ o. o.holdout && is_excluded o config) outcomes
      ≡ length outcomes
arms_add_up config [] = omega arith
arms_add_up config (o ∷ os) = elim (Bool-cases (is_excluded o config)) [
  | inl t ↦ rw t (elim (Bool-cases o.holdout) [
    | inl h ↦ rw h (omega (arith, arms_add_up config os))
    | inr h ↦ rw h (omega (arith, arms_add_up config os))
  ])
  | inr t ↦ rw t (elim (Bool-cases o.holdout) [
    | inl h ↦ rw h (omega (arith, arms_add_up config os))
    | inr h ↦ rw h (omega (arith, arms_add_up config os))
  ])
]

-- For cases whose amounts are safe integers the estimate is given: no draw of the bootstrap reads
-- past the end of an arm, whatever the seed and the number of samples. Its arms and the cases that
-- it excluded from each add up to all the cases.
pub estimate_total :
    (f : Floats) (pf : Platform) (outcomes : List CaseOutcome) (config : EstimatorConfig)
    → All (λ o. o.amount_paise ≤ max_safe_integer) outcomes
    → (r : AttributionResult f) × (estimate f pf outcomes config ≡ some r)
      × (r.treated_n + r.holdout_n + r.excluded_treated + r.excluded_holdout ≡ length outcomes)
unfolding estimate estimate_by_band
estimate_total f pf outcomes config h =
    let treated = eligible_arm false config outcomes in
    let holdout = eligible_arm true config outcomes in
    let (bands, e) = bands_of_total (treated ++ holdout) (
      All-append HasBand treated holdout (eligible_arm-HasBand false config outcomes h)
        (eligible_arm-HasBand true config outcomes h)) in
    let (ci, boot) = bootstrap_incremental_total f treated holdout config in
    let strata =
      map (estimate_band f treated holdout (lift_of f config outcomes))
        (sort pf.key_before bands) in
    (
      result_of f config outcomes strata ci,
      >>=-some _ _ (>>=-some _ _ e refl) (>>=-some _ _ boot refl),
      arms_add_up config outcomes,
    )
