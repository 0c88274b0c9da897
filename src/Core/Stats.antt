-- ===== src/Core/Stats.antt =====
-- packages/core/src/stats.ts: the statistics of the anomaly detector, over the runtime's numbers.

pub mod StepUp
use razorpay_buildathon.Base.{
  ℕ, zero, suc, ◌+◌, Bool, true, false, List, [], ◌∷◌, ◌==◌, ◌||◌, if◌then◌else◌, length, take,
  sort,
}
use razorpay_buildathon.Core.Floats.{Floats, of_nat}

module _ (f : Floats) where
  open f use {Float, ratio, add, sub, mul, div, sqrt, exp, abs, sign, larger, smaller, le, eq}

  unfoldable pub erf : Float → Float
  erf x =
      let ax = abs x in
      let t = div (of_nat f 1) (add (of_nat f 1) (mul (ratio 3275911 10000000) ax)) in
      let p4 = sub (mul (ratio 1061405429 1000000000) t) (ratio 1453152027 1000000000) in
      let p3 = add (mul p4 t) (ratio 1421413741 1000000000) in
      let p2 = sub (mul p3 t) (ratio 284496736 1000000000) in
      let p1 = add (mul p2 t) (ratio 254829592 1000000000) in
      let y = sub (of_nat f 1) (mul (mul p1 t) (exp (sub (of_nat f 0) (mul ax ax)))) in
      mul (sign x) y

  unfoldable pub normal_cdf : Float → Float
  normal_cdf z = mul (ratio 1 2) (add (of_nat f 1) (erf (div z (sqrt (of_nat f 2)))))

  pub record ZTestResult : Type 0 where
    pub z : Float
    pub p_value : Float
    pub observed_rate : Float
    pub baseline_rate : Float

  abbrev pub rate : ℕ → ℕ → Float
  rate part whole = if whole == 0 then of_nat f 0 else div (of_nat f part) (of_nat f whole)

  abbrev no_drop : Float → Float → ZTestResult
  no_drop observed baseline = record {
    z = of_nat f 0;
    p_value = of_nat f 1;
    observed_rate = observed;
    baseline_rate = baseline;
  }

  unfoldable pub two_proportion_z_test : ℕ → ℕ → ℕ → ℕ → ZTestResult
  unfolding normal_cdf
  two_proportion_z_test approvals attempts baseline_approvals baseline_attempts =
      let observed = rate approvals attempts in
      let baseline = rate baseline_approvals baseline_attempts in
      let pooled =
        div (of_nat f (approvals + baseline_approvals)) (of_nat f (attempts + baseline_attempts)) in
      let se = sqrt (
        mul (mul pooled (sub (of_nat f 1) pooled)) (
          add (div (of_nat f 1) (of_nat f attempts))
            (div (of_nat f 1) (of_nat f baseline_attempts)))) in
      let z = div (sub observed baseline) se in
      if (attempts == 0) || (baseline_attempts == 0)
      then no_drop observed baseline
      else if eq se (of_nat f 0)
      then no_drop observed baseline
      else record {
        z = z;
        p_value = normal_cdf z;
        observed_rate = observed;
        baseline_rate = baseline;
      }

  -- The comparison of the rank `i`, counted from 0, among `m`.
  abbrev pub passes : Float → ℕ → ℕ → Float → Bool
  passes alpha m i p = le p (mul (div (of_nat f (i + 1)) (of_nat f m)) alpha)

  module _ {ℓ} {A : Type ℓ} (p_value : A → Float) where
    -- The loop over the sorted items, from the rank `i`: one more than the cutoff, and 0 for -1.
    abbrev pub last_passing : Float → ℕ → ℕ → List A → ℕ → ℕ
    last_passing alpha m i [] cutoff = cutoff
    last_passing alpha m i (x ∷ xs) cutoff =
        last_passing alpha m (suc i) xs (if passes alpha m i (p_value x) then suc i else cutoff)

    abbrev pub by_p_value : A → A → Bool
    by_p_value a b = le (p_value a) (p_value b)

    unfoldable pub benjamini_hochberg : List A → Float → List A
    benjamini_hochberg items alpha =
        let sorted = sort by_p_value items in
        take (last_passing alpha (length sorted) 0 sorted 0) sorted

  unfoldable pub wilson_interval : ℕ → ℕ → Float → Float × Float
  wilson_interval successes n z =
      let n' = of_nat f n in
      let p = div (of_nat f successes) n' in
      let d = add (of_nat f 1) (div (mul z z) n') in
      let centre = add p (div (mul z z) (mul (of_nat f 2) n')) in
      let spread = mul z (
        sqrt (
          add (div (mul p (sub (of_nat f 1) p)) n')
            (div (mul z z) (mul (mul (of_nat f 4) n') n')))) in
      if n == 0 then (of_nat f 0, of_nat f 1) else (
        larger (of_nat f 0) (div (sub centre spread) d),
        smaller (of_nat f 1) (div (add centre spread) d),
      )
