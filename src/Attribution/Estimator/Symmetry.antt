-- ===== src/Attribution/Estimator/Symmetry.antt =====
-- The estimator treats the two arms alike up to the sign of the lift: no exclusion looks at the arm.
use razorpay_buildathon.Base.{
  >>=-eq-some, ◌≡◌, refl, ap, sym, ◌∙◌, true, false, not, ◌&&◌, some, List, [], ◌∷◌, arith, length,
  length-map, count, map, ◌>>=◌,
}
use razorpay_buildathon.Base.Int.{ℤ}
use razorpay_buildathon.Core.Platform.{Platform}
use razorpay_buildathon.Core.Floats.{Floats}
use razorpay_buildathon.Attribution.Estimator.{
  CaseOutcome, EstimatorConfig, AttributionResult, BandEstimate, is_excluded, eligible_arm,
  recovered_in, bootstrap_incremental, estimate_by_band, estimate, result_of, lift_of, share,
}

-- The same case in the other arm.
abbrev pub flip : CaseOutcome → CaseOutcome
flip o = record o { holdout = not o.holdout }

eligible_arm-flip :
    (config : EstimatorConfig) (os : List CaseOutcome)
    → (eligible_arm true config (map flip os) ≡ map flip (eligible_arm false config os))
      × (eligible_arm false config (map flip os) ≡ map flip (eligible_arm true config os))
unfolding is_excluded
eligible_arm-flip config [] = (refl, refl)
eligible_arm-flip config (o ∷ os) =
    let ih = eligible_arm-flip config os in (ground (arith, ih.0), ground (arith, ih.1))

recovered_in-flip :
    (os : List CaseOutcome) → recovered_in (map flip os) ≡ map flip (recovered_in os)
recovered_in-flip [] = refl
recovered_in-flip (o ∷ os) = ground (arith, recovered_in-flip os)

length-recovered_in :
    (os : List CaseOutcome) → length (recovered_in (map flip os)) ≡ length (recovered_in os)
length-recovered_in os = ap length (recovered_in-flip os) ∙ length-map flip (recovered_in os)

excluded-flip :
    (config : EstimatorConfig) (os : List CaseOutcome)
    → (count (λ o. o.holdout && is_excluded o config) (map flip os)
        ≡ count (λ o. not o.holdout && is_excluded o config) os)
      × (count (λ o. not o.holdout && is_excluded o config) (map flip os)
          ≡ count (λ o. o.holdout && is_excluded o config) os)
unfolding is_excluded
excluded-flip config [] = (refl, refl)
excluded-flip config (o ∷ os) =
    let ih = excluded-flip config os in (ground (arith, ih.0), ground (arith, ih.1))

module _ (f : Floats) where
  estimate-result_of :
      (pf : Platform) (outcomes : List CaseOutcome) (config : EstimatorConfig)
      (r : AttributionResult f)
      → estimate f pf outcomes config ≡ some r
      → (strata : List (BandEstimate f)) × (ci : ℤ × ℤ) × (r
          ≡ result_of f config outcomes strata ci)
  unfolding estimate
  estimate-result_of pf outcomes config r h =
      let treated = eligible_arm false config outcomes in
      let holdout = eligible_arm true config outcomes in
      let (strata, e, h1) =
        >>=-eq-some (estimate_by_band f pf treated holdout (lift_of f config outcomes))
          (λ s. bootstrap_incremental f treated holdout config >>= λ ci.
            some (result_of f config outcomes s ci))
          h in
      let (ci, e', h2) =
        >>=-eq-some (bootstrap_incremental f treated holdout config)
          (λ ci. some (result_of f config outcomes strata ci)) h1 in
      (strata, ci, cc)

  -- What two estimates say of each other's arms.
  abbrev pub Swapped : AttributionResult f → AttributionResult f → Type 0
  Swapped r r' =
      (r'.treated_n ≡ r.holdout_n)
      × (r'.treated_recovered ≡ r.holdout_recovered)
      × (r'.treated_rate ≡ r.holdout_rate)
      × (r'.excluded_treated ≡ r.excluded_holdout)

  treated-Swapped :
      (config : EstimatorConfig) (os : List CaseOutcome) (s s' : List (BandEstimate f))
      (ci ci' : ℤ × ℤ)
      → Swapped (result_of f config os s ci) (result_of f config (map flip os) s' ci')
  treated-Swapped config os s s' ci ci' =
      let same = (eligible_arm-flip config os).1 in
      let n = ap length same ∙ length-map flip (eligible_arm true config os) in
      let recovered =
        ap (λ xs. length (recovered_in xs)) same
        ∙ length-recovered_in (eligible_arm true config os) in
      (
        n,
        recovered,
        ap (λ k. share f k (length (eligible_arm false config (map flip os)))) recovered
            ∙ ap (share f (length (recovered_in (eligible_arm true config os)))) n,
        (excluded-flip config os).1,
      )

  holdout-Swapped :
      (config : EstimatorConfig) (os : List CaseOutcome) (s s' : List (BandEstimate f))
      (ci ci' : ℤ × ℤ)
      → Swapped (result_of f config (map flip os) s' ci') (result_of f config os s ci)
  holdout-Swapped config os s s' ci ci' =
      let same = (eligible_arm-flip config os).0 in
      let n = ap length same ∙ length-map flip (eligible_arm false config os) in
      let recovered =
        ap (λ xs. length (recovered_in xs)) same
        ∙ length-recovered_in (eligible_arm false config os) in
      (
        sym n,
        sym recovered,
        sym (
            ap (λ k. share f k (length (eligible_arm true config (map flip os)))) recovered
            ∙ ap (share f (length (recovered_in (eligible_arm false config os)))) n),
        sym (excluded-flip config os).0,
      )

  -- If the cases change arms, every estimate of the one split swaps the sizes, the recoveries, the
  -- rates and the exclusions of the other's arms: the natural recovery window and the merchant's
  -- own dunning are excluded from both arms by the same rule.
  pub estimate_symmetric :
      (pf : Platform) (outcomes : List CaseOutcome) (config : EstimatorConfig)
      (r r' : AttributionResult f)
      → estimate f pf outcomes config ≡ some r
      → estimate f pf (map flip outcomes) config ≡ some r'
      → Swapped r r' × Swapped r' r
  estimate_symmetric pf outcomes config r r' h h' =
      let (s, ci, e) = estimate-result_of pf outcomes config r h in
      let (s', ci', e') = estimate-result_of pf (map flip outcomes) config r' h' in
      rw (e, e')
        (treated-Swapped config outcomes s s' ci ci', holdout-Swapped config outcomes s s' ci ci')
