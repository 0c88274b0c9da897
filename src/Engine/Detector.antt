-- ===== src/Engine/Detector.antt =====
-- packages/engine/src/detector.ts: the segmented anomaly detector, over the runtime's numbers.
pub mod Suppression
pub mod Streaks
use Prim.Native.String.{◌++◌}
use razorpay_buildathon.Base.{
  ℕ, suc, String, Bool, true, false, not, ◌&&◌, Option, none, some, List, [], ◌∷◌, ◌===◌, leb,
  if◌then◌else◌, filter, any, count, get_or, is_some, map,
}
use razorpay_buildathon.Base.Assoc.{lookup, set_key, remove_key}
use razorpay_buildathon.Core.Json.{join}
use razorpay_buildathon.Core.Floats.{Floats, of_nat}
use razorpay_buildathon.Core.Stats.{ZTestResult, two_proportion_z_test, benjamini_hochberg}

pub record SegmentKey : Type 0 where
  pub gateway : Option String
  pub method : Option String
  pub issuer : Option String
  pub region : Option String
  pub device : Option String

-- The values of a key in the order of DIMS.
abbrev pub dims : SegmentKey → List (Option String)
dims k = k.gateway ∷ k.method ∷ k.issuer ∷ k.region ∷ k.device ∷ []

abbrev pub named : SegmentKey → List (String × Option String)
named k =
    ("gateway", k.gateway)
    ∷ ("method", k.method)
    ∷ ("issuer", k.issuer)
    ∷ ("region", k.region)
    ∷ ("device", k.device)
    ∷ []

abbrev parts : List (String × Option String) → List String
parts [] = []
parts ((d, none) ∷ rest) = parts rest
parts ((d, some v) ∷ rest) = (d ++ ("=" ++ v)) ∷ parts rest

abbrev or_all : String → String
or_all s = if s === "" then "all" else s

unfoldable pub segment_label : SegmentKey → String
segment_label k = or_all (join "&" (parts (named k)))

-- Every dimension that the parent names has the parent's value in the child.
abbrev pub agrees : List (Option String) → List (Option String) → Bool
agrees [] cs = true
agrees (none ∷ ps) [] = agrees ps []
agrees (none ∷ ps) (c ∷ cs) = agrees ps cs
agrees (some p ∷ ps) [] = false
agrees (some p ∷ ps) (none ∷ cs) = false
agrees (some p ∷ ps) (some c ∷ cs) = (p === c) && agrees ps cs

abbrev pub named_dims : SegmentKey → ℕ
named_dims k = count is_some (dims k)

unfoldable pub is_ancestor : SegmentKey → SegmentKey → Bool
is_ancestor parent child =
    if leb (named_dims child) (named_dims parent) then false else agrees (dims parent) (dims child)

pub record SegmentObservation : Type 0 where
  pub segment : SegmentKey
  pub attempts : ℕ
  pub approvals : ℕ
  pub baseline_attempts : ℕ
  pub baseline_approvals : ℕ

-- The maps from a segment's label to its consecutive failing and healthy windows.
pub record Hysteresis : Type 0 where
  pub dwell : List (String × ℕ)
  pub healthy : List (String × ℕ)

unfoldable pub dwell_count : String → Hysteresis → ℕ
dwell_count label h = get_or 0 (lookup label h.dwell)

unfoldable pub healthy_count : String → Hysteresis → ℕ
healthy_count label h = get_or 0 (lookup label h.healthy)

unfoldable pub reset : String → Hysteresis → Hysteresis
reset label h = record { dwell = remove_key label h.dwell; healthy = remove_key label h.healthy }

unfoldable pub should_close : ℕ → String → Hysteresis → Bool
unfolding healthy_count
should_close close_windows label h = leb close_windows (healthy_count label h)

module _ (f : Floats) where
  pub record Candidate : Type 0 where
    pub segment : SegmentKey
    pub label : String
    pub test : ZTestResult f
    pub attempts : ℕ

  pub record DetectorConfig : Type 0 where
    pub volume_floor : ℕ
    pub alpha : f.Float
    pub dwell_windows : ℕ
    pub close_within : f.Float
    pub close_windows : ℕ

  abbrev pub candidate : SegmentObservation → Candidate
  candidate o = record {
    segment = o.segment;
    label = segment_label o.segment;
    test = two_proportion_z_test f o.approvals o.attempts o.baseline_approvals o.baseline_attempts;
    attempts = o.attempts;
  }

  unfoldable pub tested : DetectorConfig → List SegmentObservation → List Candidate
  tested config observations =
      map candidate (filter (λ o. leb config.volume_floor o.attempts) observations)

  -- Only drops are incidents.
  abbrev pub is_drop : Candidate → Bool
  is_drop c = f.lt c.test.z (of_nat f 0)

  unfoldable pub significant : DetectorConfig → List Candidate → List Candidate
  significant config candidates =
      benjamini_hochberg f (λ c. c.test.p_value) (filter is_drop candidates) config.alpha

  abbrev pub has_label : String → List Candidate → Bool
  has_label label cs = any (λ c. c.label === label) cs

  abbrev pub is_healthy : DetectorConfig → Candidate → Bool
  is_healthy config c = f.le (f.mul c.test.baseline_rate config.close_within) c.test.observed_rate

  -- The loop's body for one tested segment.
  abbrev pub observe : DetectorConfig → List Candidate → Candidate → Hysteresis → Hysteresis
  observe config failing c h =
      if has_label c.label failing
      then record {
        dwell = set_key c.label (suc (get_or 0 (lookup c.label h.dwell))) h.dwell;
        healthy = set_key c.label 0 h.healthy;
      }
      else record {
        dwell = set_key c.label 0 h.dwell;
        healthy =
            set_key c.label
              (if is_healthy config c then suc (get_or 0 (lookup c.label h.healthy)) else 0)
              h.healthy;
      }

  unfoldable pub observe_all :
      DetectorConfig → List Candidate → List Candidate → Hysteresis → Hysteresis
  observe_all config failing [] h = h
  observe_all config failing (c ∷ cs) h = observe_all config failing cs (observe config failing c h)

  abbrev pub drop_of : Candidate → f.Float
  drop_of c = f.sub c.test.baseline_rate c.test.observed_rate

  abbrev pub parent_explains_ratio : f.Float
  parent_explains_ratio = f.ratio 9 10

  -- A candidate is no ancestor of itself, so the test `other !== c` is left out here and below.
  abbrev pub explained_by : Candidate → Candidate → Bool
  explained_by c other =
      is_ancestor other.segment c.segment
      && f.le (f.mul (drop_of c) parent_explains_ratio) (drop_of other)

  abbrev pub superseded_by : Candidate → Candidate → Bool
  superseded_by c other =
      is_ancestor c.segment other.segment
      && f.lt (drop_of c) (f.mul (drop_of other) parent_explains_ratio)

  unfoldable pub suppress : List Candidate → List Candidate
  suppress dwelled =
      filter (λ c. not (any (explained_by c) dwelled) && not (any (superseded_by c) dwelled))
        dwelled

  unfoldable pub evaluate :
      DetectorConfig → List SegmentObservation → Hysteresis → Hysteresis × List Candidate
  unfolding tested significant observe_all suppress dwell_count
  evaluate config observations h =
      let candidates = tested config observations in
      let failing = significant config candidates in
      let h' = observe_all config failing candidates h in
      (h', suppress (filter (λ c. leb config.dwell_windows (dwell_count c.label h')) failing))
