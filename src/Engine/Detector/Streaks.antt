-- ===== src/Engine/Detector/Streaks.antt =====
-- The dwell count over a run of windows, and what it takes to open an incident.
use razorpay_buildathon.Base.{
  ℕ, suc, ◌≤◌, ◌≡◌, refl, ◌∙◌, ap, String, true, false, List, [], ◌∷◌, arith, ◌===◌, ===_iff, All,
  All-filter, All-unit, All-map, All-sort, All-take, leb, leb→le, get_or, if◌then◌else◌, Bool-cases,
  inl, inr,
}
use razorpay_buildathon.Base.Assoc.{lookup, lookup-set_key}
use razorpay_buildathon.Core.Floats.{Floats}
use razorpay_buildathon.Engine.Detector.{
  SegmentObservation, Hysteresis, Candidate, DetectorConfig, has_label, observe, observe_all,
  dwell_count, evaluate, tested, significant, suppress, is_drop, candidate,
}
use razorpay_buildathon.Core.Stats.{benjamini_hochberg}

module _ (f : Floats) (config : DetectorConfig f) where
  -- No label stands twice.
  abbrev pub Distinct : List (Candidate f) → Type 0
  Distinct [] = Unit
  Distinct (c ∷ cs) = (has_label f c.label cs ≡ false) × Distinct cs

  -- What a window does to the count of a label.
  abbrev pub counted : List (Candidate f) → List (Candidate f) → String → ℕ → ℕ
  counted failing candidates label n =
      if has_label f label candidates then if has_label f label failing then suc n else 0 else n

  dwell_count-observe :
      (failing : List (Candidate f)) (c : Candidate f) (h : Hysteresis) (label : String)
      → dwell_count label (observe f config failing c h) ≡ (
          if c.label === label
          then if has_label f c.label failing then suc (dwell_count label h) else 0
          else dwell_count label h)
  unfolding dwell_count
  dwell_count-observe failing c h label = elim (Bool-cases (has_label f c.label failing)) [
    | inl t ↦ rw t (
        ground (
          arith,
          ===_iff c.label label,
          lookup-set_key c.label label (suc (get_or 0 (lookup c.label h.dwell))) h.dwell,
        ))
    | inr n ↦ rw n (ground (arith, lookup-set_key c.label label 0 h.dwell))
  ]

  dwell_count-observe_all :
      (failing candidates : List (Candidate f)) (h : Hysteresis) (label : String)
      → Distinct candidates
      → dwell_count label (observe_all f config failing candidates h)
        ≡ counted failing candidates label (dwell_count label h)
  unfolding observe_all
  dwell_count-observe_all failing [] h label d = refl
  dwell_count-observe_all failing (c ∷ cs) h label d = ground (
    arith,
    ===_iff c.label label,
    d.0,
    dwell_count-observe failing c h label,
    dwell_count-observe_all failing cs (observe f config failing c h) label d.1,
  )

  -- A history of windows, the latest first.
  abbrev pub state_after : List (List SegmentObservation) → Hysteresis
  state_after [] = record { dwell = []; healthy = [] }
  state_after (w ∷ earlier) = (evaluate f config w (state_after earlier)).0

  -- How many windows in a row, up to the latest that tests it, find the label significant.
  abbrev pub streak : String → List (List SegmentObservation) → ℕ
  streak label [] = 0
  streak label (w ∷ earlier) =
      let candidates = tested f config w in
      counted (significant f config candidates) candidates label (streak label earlier)

  abbrev pub AllDistinct : List (List SegmentObservation) → Type 0
  AllDistinct windows = All (λ w. Distinct (tested f config w)) windows

  dwell_count-state_after :
      (windows : List (List SegmentObservation)) (label : String)
      → AllDistinct windows
      → dwell_count label (state_after windows) ≡ streak label windows
  unfolding evaluate dwell_count tested
  dwell_count-state_after [] label d = refl
  dwell_count-state_after (w ∷ earlier) label d =
      let candidates = tested f config w in
      dwell_count-observe_all (significant f config candidates) candidates (state_after earlier)
        label d.0
      ∙ ap (counted (significant f config candidates) candidates label)
          (dwell_count-state_after earlier label d.1)

  tested-Volume :
      (w : List SegmentObservation)
      → All (λ c. config.volume_floor ≤ c.attempts) (tested f config w)
  unfolding tested
  tested-Volume w =
      All-map (λ c. config.volume_floor ≤ c.attempts) (candidate f) _
        (All-filter (λ _. Unit {0}) (λ o. config.volume_floor ≤ o.attempts)
          (λ o. leb config.volume_floor o.attempts) w
          (λ o u t. leb→le config.volume_floor o.attempts t) (All-unit w))

  abbrev IsFailing : Candidate f → Type 0
  IsFailing c = (config.volume_floor ≤ c.attempts) × (is_drop f c ≡ true)

  significant-IsFailing :
      (w : List SegmentObservation) → All IsFailing (significant f config (tested f config w))
  unfolding significant benjamini_hochberg
  significant-IsFailing w = All-take IsFailing _ _ (
      All-sort IsFailing _ _ (
        All-filter (λ c. config.volume_floor ≤ c.attempts) IsFailing (is_drop f) (tested f config w)
          (λ c v t. (v, t)) (tested-Volume w)))

  -- In a history of windows in which no label stands twice, a segment for which the latest window
  -- opens an incident has at least the floor's attempts in it and a rate below its baseline, and was
  -- found significant in at least as many of the windows that test it, up to the latest and in a
  -- row, as the configured dwell.
  pub evaluate-streak :
      (w : List SegmentObservation) (earlier : List (List SegmentObservation))
      → AllDistinct (w ∷ earlier)
      → All
          (λ c.
            (config.volume_floor ≤ c.attempts)
            × (is_drop f c ≡ true)
            × (config.dwell_windows ≤ streak c.label (w ∷ earlier)))
          (evaluate f config w (state_after earlier)).1
  unfolding evaluate suppress
  evaluate-streak w earlier d =
      All-filter IsOpened IsOpened _ _ (λ c p t. p)
        (All-filter IsFailing IsOpened _ (significant f config (tested f config w))
          (λ c p t.
            (p.0, p.1, rw (← dwell_count-state_after (w ∷ earlier) c.label d) (leb→le _ _ t)))
          (significant-IsFailing w))
    where
      IsOpened : Candidate f → Type 0
      IsOpened c =
          (config.volume_floor ≤ c.attempts)
          × (is_drop f c ≡ true)
          × (config.dwell_windows ≤ streak c.label (w ∷ earlier))
