-- ===== src/Core/Policy.antt =====
-- packages/core/src/policy.ts: the merchant's policy. `parsePolicy` only renames the fields of the
-- YAML text and has no definition here.
pub mod Window
use Prim.Native.Char.{Char, code}
use razorpay_buildathon.Base.{
  ℕ, String, ◌+◌, ◌*◌, ◌-◌, Bool, true, false, ◌&&◌, ◌||◌, Option, none, some, List, [], ◌∷◌, ◌===◌,
  ◌==◌, leb, ltb, if◌then◌else◌, any, find?, get_or,
}
use razorpay_buildathon.Core.Types.{Rail, same_rail}
use razorpay_buildathon.Core.Platform.{Platform}

pub record ContactCap : Type 0 where
  pub channel : String
  pub window_days : ℕ
  pub max : ℕ

pub record QuietHours : Type 0 where
  pub start : String
  pub end : String
  pub timezone : String

pub record Policy : Type 0 where
  pub version : String
  pub merchant : String
  pub quiet_hours : QuietHours
  pub contact_caps : List ContactCap
  pub max_attempts_per_case : ℕ
  pub require_approval_above_paise : ℕ
  pub allowed_actions : List (Rail × List String)

pub data RuleId : Type 0 where
  action_not_allowed_on_rail retry_cap quiet_hours contact_budget amount_approval : RuleId
  opted_out allowed : RuleId

pub data DecisionOutcome : Type 0 where
  allow block require_approval : DecisionOutcome

-- The reason, a text for people, is left out.
pub record PolicyDecision : Type 0 where
  pub outcome : DecisionOutcome
  pub rule_id : RuleId
  pub policy_version : String

unfoldable pub local_minutes : Platform → ℕ → String → ℕ
local_minutes pf at timezone = pf.zone_hour at timezone * 60 + pf.zone_minute at timezone

abbrev codes : String → List ℕ
codes String.[] = []
codes (String.◌∷◌ c s) = code c ∷ codes s

-- `Number` of a text of decimal digits; `none`, for NaN, of any other but the empty one.
digits_from : ℕ → List ℕ → Option ℕ
digits_from acc [] = some acc
digits_from acc (c ∷ cs) =
    let rest = digits_from (acc * 10 + (c - b'0')) cs in
    if leb b'0' c && leb c b'9' then rest else none

unfoldable pub number_of : List ℕ → Option ℕ
unfolding digits_from
number_of cs = digits_from 0 cs

-- The first two parts of `split(":")`; the second is `undefined` without a colon.
abbrev first_part : List ℕ → List ℕ
first_part [] = []
first_part (c ∷ cs) = let rest = first_part cs in if c == b':' then [] else c ∷ rest

abbrev second_part : List ℕ → Option (List ℕ)
second_part [] = none
second_part (c ∷ cs) = let rest = second_part cs in if c == b':' then some (first_part cs) else rest

abbrev minutes_of : Option ℕ → Option ℕ → Option ℕ
minutes_of none m = none
minutes_of (some h) none = none
minutes_of (some h) (some m) = some (h * 60 + m)

abbrev number_of? : Option (List ℕ) → Option ℕ
number_of? none = none
number_of? (some cs) = number_of cs

unfoldable pub to_minutes : String → Option ℕ
unfolding number_of
to_minutes hhmm =
    minutes_of (number_of (first_part (codes hhmm))) (number_of? (second_part (codes hhmm)))

-- The window of `inQuietHours`, in minutes of the day.
unfoldable pub in_window : ℕ → ℕ → ℕ → Bool
in_window now start end =
    if ltb end start then leb start now || ltb now end else leb start now && ltb now end

-- A comparison with NaN fails: of `now >= start || now < end` and its like, what is left.
unfoldable pub in_window? : ℕ → Option ℕ → Option ℕ → Bool
unfolding in_window
in_window? now none end = false
in_window? now (some start) none = false
in_window? now (some start) (some end) = in_window now start end

unfoldable pub in_quiet_hours : Platform → ℕ → Policy → Bool
unfolding in_window? to_minutes local_minutes
in_quiet_hours pf at p =
    in_window? (local_minutes pf at p.quiet_hours.timezone) (to_minutes p.quiet_hours.start)
      (to_minutes p.quiet_hours.end)

unfoldable pub cap_for : Policy → String → Option ContactCap
cap_for p channel = find? (λ c. c.channel === channel) p.contact_caps

unfoldable pub global_cap : Policy → Option ContactCap
global_cap p = find? (λ c. c.channel === "*") p.contact_caps

abbrev actions_on : List (Rail × List String) → Rail → List String
actions_on [] rail = []
actions_on ((r, ids) ∷ rest) rail = if same_rail r rail then ids else actions_on rest rail

unfoldable pub action_allowed_on_rail : Policy → Rail → String → Bool
action_allowed_on_rail p rail id = any (λ a. a === id) (actions_on p.allowed_actions rail)
