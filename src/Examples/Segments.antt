-- ===== src/Examples/Segments.antt =====
-- A gateway with one failing issuer.
use mathlib.Core.List.{Permᴰ}
use razorpay_buildathon.Base.{
  ℕ, suc, ◌+◌, map, ◌≤◌, ◌≡◌, ◌⊎◌, refl, true, none, some, List, [], ◌∷◌, All, take, drop,
  get_elem?,
}
use razorpay_buildathon.Base.Int.{ℤ, pos, leb_ℤ}
use razorpay_buildathon.Core.Stats.{benjamini_hochberg, erf, two_proportion_z_test}
use razorpay_buildathon.Core.Stats.StepUp.{
  AllAt, Ascending, Fails, threshold, benjamini_hochberg_step_up,
}
use razorpay_buildathon.Engine.Detector.{
  SegmentKey, SegmentObservation, Hysteresis, DetectorConfig, evaluate, tested, segment_label,
  is_drop, is_ancestor, significant,
}
use razorpay_buildathon.Engine.Detector.Suppression.{Unrelated, evaluate-Unrelated}
use razorpay_buildathon.Engine.Detector.Streaks.{AllDistinct, state_after, streak, evaluate-streak}
use razorpay_buildathon.Examples.Numbers.{thousandths, thousandths-IsOrdered}

abbrev p_values : List ℤ
p_values = pos 30 ∷ pos 1 ∷ pos 900 ∷ pos 20 ∷ []

benjamini_hochberg_step_up_example :
    (ranked : List ℤ) × (n : ℕ) × Permᴰ ranked p_values
    × Ascending thousandths (λ p. p) (pos 50) ranked
    × (benjamini_hochberg thousandths (λ p. p) p_values (pos 50) ≡ take n ranked)
    × AllAt (Fails thousandths (λ p. p) (pos 50) 4) n (drop n ranked)
    × ((n ≡ 0)
        ⊎ ((j : ℕ) × (x : ℤ) × (n ≡ suc j)
            × (get_elem? ranked j ≡ some x)
            × (leb_ℤ x (threshold thousandths (λ p. p) (pos 50) 4 (j + 1)) ≡ true)))
benjamini_hochberg_step_up_example =
    benjamini_hochberg_step_up thousandths (λ p. p) (pos 50) thousandths-IsOrdered p_values

three_selected :
    benjamini_hochberg thousandths (λ p. p) p_values (pos 50) ≡ pos 1 ∷ pos 20 ∷ pos 30 ∷ []
unfolding benjamini_hochberg
three_selected = refl

abbrev gateway_a : SegmentKey
gateway_a = record {
  gateway = some "A";
  method = none;
  issuer = none;
  region = none;
  device = none;
}

abbrev issuer_hdfc : SegmentKey
issuer_hdfc = record gateway_a { issuer = some "HDFC" }

abbrev window : List SegmentObservation
window =
    record {
      segment = gateway_a;
      attempts = 200;
      approvals = 120;
      baseline_attempts = 2000;
      baseline_approvals = 1800;
    }
    ∷ record {
      segment = issuer_hdfc;
      attempts = 100;
      approvals = 20;
      baseline_attempts = 1000;
      baseline_approvals = 900;
    }
    ∷ []

abbrev config : DetectorConfig thousandths
config = record {
  volume_floor = 30;
  alpha = pos 990;
  dwell_windows = 2;
  close_within = pos 950;
  close_windows = 3;
}

abbrev empty : Hysteresis
empty = record { dwell = []; healthy = [] }

evaluate-Unrelated_example :
    let opened = (evaluate thousandths config window empty).1 in
    All (λ c. All (Unrelated thousandths thousandths-IsOrdered c) opened) opened
evaluate-Unrelated_example =
    evaluate-Unrelated thousandths thousandths-IsOrdered config window empty

window-Distinct : AllDistinct thousandths config (window ∷ window ∷ [])
unfolding tested segment_label
window-Distinct = ((refl, (refl, tt)), ((refl, (refl, tt)), tt))

evaluate-streak_example :
    All
      (λ c.
        (30 ≤ c.attempts)
        × (is_drop thousandths c ≡ true)
        × (2 ≤ streak thousandths config c.label (window ∷ window ∷ [])))
      (evaluate thousandths config window (state_after thousandths config (window ∷ []))).1
evaluate-streak_example = evaluate-streak thousandths config window (window ∷ []) window-Distinct

-- The issuer's drop is the deeper one, so its incident is the one that opens, in the second window.
issuer-opens :
    map
      (λ c. c.label)
      (evaluate thousandths config window (state_after thousandths config (window ∷ []))).1
    ≡ "gateway=A&issuer=HDFC" ∷ []
unfolding evaluate is_ancestor significant benjamini_hochberg two_proportion_z_test erf
    segment_label
issuer-opens = refl
