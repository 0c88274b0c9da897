-- ===== src/Engine/ReleaseController.antt =====
-- packages/engine/src/release-controller.ts: the staged release of an incident's cases. `rounded` is
-- what `Math.round(parked.length * fraction * jitter)` gives, and `proposeReroute` is a constant record.
pub mod Park
pub mod Ramp
use razorpay_buildathon.Base.{
  ℕ, zero, suc, String, ◌+◌, ◌-◌, ◌*◌, Bool, not, ◌||◌, none, some, List, [], ◌∷◌, ◌===◌, ◌==◌, leb,
  if◌then◌else◌, length, take, min, max,
}
use razorpay_buildathon.Base.Order.{TextOrder}
use razorpay_buildathon.Core.Json.{end, field, number}
use razorpay_buildathon.Db.CaseEvents.{AppendError}
use razorpay_buildathon.Engine.Incident.{
  opened, releasing, closed, World, Outcome, log, parked_cases, release, repark, set_state, get,
  is_nil,
}

-- The rates in parts of one unit, and the threshold in hundredths.
pub record HealthReading : Type 0 where
  pub observed_rate : ℕ
  pub baseline_rate : ℕ

-- `held` is a step of the source's type that nothing returns.
pub data StepAction : Type 0 where
  released held reparked completed : StepAction

-- The reason, a text for people, is left out.
pub record ReleaseStep : Type 0 where
  pub stage : ℕ
  pub released_now : ℕ
  pub still_parked : ℕ
  pub action : StepAction

-- The slices in flight, by incident, and the health that the ramp asks for.
pub record Controller : Type 0 where
  pub in_flight : List (String × List String)
  pub health_threshold : ℕ

pub data Stepped : Type 0 where
  ok : ReleaseStep → Controller → World → Stepped
  thrown : AppendError → Controller → World → Stepped
  unknown_incident : String → Stepped

abbrev pub ramp_stages : ℕ
ramp_stages = 4

-- `RAMP_STAGES` in hundredths, the last for every stage from it on.
abbrev pub fraction : ℕ → ℕ
fraction zero = 5
fraction (suc zero) = 15
fraction (suc (suc zero)) = 40
fraction (suc (suc (suc n))) = 100

unfoldable pub is_healthy : ℕ → HealthReading → Bool
is_healthy threshold h =
    (h.baseline_rate == 0) || leb (h.baseline_rate * threshold) (h.observed_rate * 100)

abbrev pub in_flight_of : List (String × List String) → String → List String
in_flight_of [] id = []
in_flight_of ((k, ids) ∷ rest) id = if k === id then ids else in_flight_of rest id

abbrev pub set_in_flight : String → List String → Controller → Controller
set_in_flight id ids k = record k { in_flight = (id, ids) ∷ k.in_flight }

abbrev action_text : StepAction → String
action_text released = "release_released"
action_text held = "release_held"
action_text reparked = "release_reparked"
action_text completed = "release_completed"

abbrev pub log_step : ℕ → String → ReleaseStep → World → World
log_step now id s w =
    log now id "release_controller" (action_text s.action)
      (field "stage" (number s.stage) (
        field "releasedNow" (number s.released_now)
          (field "stillParked" (number s.still_parked) end)))
      w

-- How much of what is parked a step releases.
unfoldable pub target_of : ℕ → ℕ → ℕ → ℕ
target_of stage rounded parked = if fraction stage == 100 then parked else max 1 rounded

unfoldable pub slice_of : ℕ → ℕ → List String → List String
unfolding target_of
slice_of stage rounded parked =
    take (min (target_of stage rounded (length parked)) (length parked)) parked

-- The breaker, after the slice in flight has been parked again.
abbrev pub broken : TextOrder → ℕ → String → Controller → World → Stepped
broken order now id k w =
    let w' = set_state now id opened (some 0) w in
    let s : ReleaseStep = record {
      stage = 0;
      released_now = 0;
      still_parked = length (parked_cases order id w'.members);
      action = reparked;
    } in
    ok s k (log_step now id s w')

abbrev pub break_in : Outcome (Unit {0}) → TextOrder → ℕ → String → Controller → Stepped
break_in (Outcome.ok _ w) order now id k = broken order now id (set_in_flight id [] k) w
break_in (Outcome.thrown e w) order now id k = thrown e k w

unfoldable pub trip : TextOrder → ℕ → String → Controller → World → Stepped
trip order now id k w =
    let ids = in_flight_of k.in_flight id in
    if is_nil ids then broken order now id k w else break_in (repark now id ids w) order now id k

unfoldable pub complete : ℕ → String → Controller → World → Stepped
complete now id k w =
    let s : ReleaseStep = record {
      stage = ramp_stages;
      released_now = 0;
      still_parked = 0;
      action = completed;
    } in
    ok s k (log_step now id s (set_state now id closed (some ramp_stages) w))

abbrev pub advance_in : Outcome (Unit {0}) → ℕ → String → ℕ → List String → ℕ → Controller → Stepped
advance_in (Outcome.thrown e w) now id stage slice parked k = thrown e k w
advance_in (Outcome.ok _ w) now id stage slice parked k =
    let s : ReleaseStep = record {
      stage = stage + 1;
      released_now = length slice;
      still_parked = parked - length slice;
      action = released;
    } in
    ok s (set_in_flight id slice k)
      (log_step now id s (set_state now id releasing (some (stage + 1)) w))

unfoldable pub advance : ℕ → String → ℕ → List String → List String → Controller → World → Stepped
advance now id stage slice parked k w =
    advance_in (release now id slice w) now id stage slice (length parked) k

unfoldable pub step : TextOrder → ℕ → ℕ → String → HealthReading → Controller → World → Stepped
unfolding trip complete advance slice_of is_healthy
step order now rounded id health k w = elim (get id w) [
  | none ↦ unknown_incident id
  | some i ↦
      if not (is_healthy k.health_threshold health)
      then trip order now id k w
      else let parked = parked_cases order id w.members in
        if is_nil parked
        then complete now id k w
        else advance now id i.release_stage (slice_of i.release_stage rounded parked) parked k w
]
