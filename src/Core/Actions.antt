-- ===== src/Core/Actions.antt =====
-- packages/core/src/actions.ts: the closed library of actions, and its loader after the YAML parse.
pub mod Lookup
use razorpay_buildathon.Base.{
  ℕ, String, Bool, true, false, not, ◌&&◌, ◌||◌, Option, none, some, List, [], ◌∷◌, ◌===◌, get_or,
  if◌then◌else◌, any, filter, find_last?, is_some, sort,
}
use razorpay_buildathon.Base.Order.{TextOrder}
use razorpay_buildathon.Core.Types.{Rail, same_rail}

pub data ActionKind : Type 0 where
  capability_kind schedule_kind : ActionKind

pub data ActionSurface : Type 0 where
  live simulated : ActionSurface

-- The fields that the program reads; `params`, which it only passes on, is left out. A chance of
-- recovery is in hundredths.
pub record ActionDef : Type 0 where
  pub id : String
  pub kind : ActionKind
  pub capability : Option String
  pub surface : ActionSurface
  pub rails : Option (List Rail)
  pub amount_capped : Bool
  pub consumes_contact_budget : Bool
  pub quiet_hours_enforced : Bool
  pub requires_approval : Bool
  pub optimizer_selectable : Bool
  pub action_cost_paise : ℕ
  pub p_recover_default : Option ℕ
  pub p_recover_by_cause : List (String × ℕ)
  pub stop_conditions : List String

pub record ForbiddenActionDef : Type 0 where
  pub id : String
  pub reason : String

-- The entries as they were given: of two with one id the later one is found, as in a `Map`.
pub record ActionLibrary : Type 0 where
  pub version : ℕ
  pub actions : List ActionDef
  pub forbidden : List ForbiddenActionDef

pub data ActionError : Type 0 where
  forbidden_action : String → String → ActionError
  unknown_action : String → ActionError

pub data Found : Type 0 where
  ok : ActionDef → Found
  err : ActionError → Found

abbrev pub has_id : String → ActionDef → Bool
has_id id a = a.id === id

abbrev pub forbids : String → ForbiddenActionDef → Bool
forbids id f = f.id === id

abbrev known : Option ActionDef → String → Found
known none id = err (unknown_action id)
known (some a) id = ok a

abbrev unless_forbidden : Option ForbiddenActionDef → Found → Found
unless_forbidden none rest = rest
unless_forbidden (some f) rest = err (forbidden_action f.id f.reason)

unfoldable pub get : ActionLibrary → String → Found
get lib id =
    unless_forbidden (find_last? (forbids id) lib.forbidden)
      (known (find_last? (has_id id) lib.actions) id)

unfoldable pub has : ActionLibrary → String → Bool
has lib id = is_some (find_last? (has_id id) lib.actions)

-- The values of the `Map`: an entry that a later one with its id replaced is gone.
unfoldable pub values : List ActionDef → List ActionDef
values [] = []
values (a ∷ rest) = if any (has_id a.id) rest then values rest else a ∷ values rest

-- The library sorted by id, in the order of the locale.
unfoldable pub all : TextOrder → ActionLibrary → List ActionDef
unfolding values
all order lib = sort (λ a b. order.before a.id b.id) (values lib.actions)

unfoldable pub selectable_for_rail : TextOrder → ActionLibrary → Rail → List ActionDef
unfolding all
selectable_for_rail order lib rail =
    filter
      (λ a.
        a.optimizer_selectable
        && elim a.rails [ none ↦ true | some rails ↦ any (same_rail rail) rails ])
      (all order lib)

abbrev chance_for : List (String × ℕ) → String → Option ℕ
chance_for [] cause = none
chance_for ((c, p) ∷ rest) cause = if c === cause then some p else chance_for rest cause

abbrev chance : Found → String → Option ℕ
chance (ok a) cause =
    some (get_or (get_or 0 a.p_recover_default) (chance_for a.p_recover_by_cause cause))
chance (err e) cause = none

-- The prior chance of recovery; `none` where `get` throws.
unfoldable pub p_recover : ActionLibrary → String → String → Option ℕ
unfolding get
p_recover lib id cause = chance (get lib id) cause

-- An entry of the YAML text; what it leaves out is `none`.
pub record RawAction : Type 0 where
  pub id : String
  pub kind : ActionKind
  pub capability : Option String
  pub surface : Option ActionSurface
  pub rails : Option (List Rail)
  pub amount_capped : Option Bool
  pub consumes_contact_budget : Option Bool
  pub quiet_hours_enforced : Option Bool
  pub requires_approval : Option Bool
  pub optimizer_selectable : Option Bool
  pub action_cost_paise : Option ℕ
  pub p_recover_default : Option ℕ
  pub p_recover_by_cause : Option (List (String × ℕ))
  pub stop_conditions : Option (List String)

pub record RawDefaults : Type 0 where
  pub requires_approval : Option Bool
  pub surface : Option ActionSurface

pub data LoadError : Type 0 where
  duplicate_action capability_missing capability_bound : String → LoadError

pub data Loaded : Type 0 where
  ok : List ActionDef → Loaded
  err : LoadError → Loaded

-- `a.capability` as a condition: it is given and is not the empty text.
abbrev pub names_capability : Option String → Bool
names_capability none = false
names_capability (some c) = not (c === "")

unfoldable pub to_action : RawDefaults → RawAction → ActionDef
to_action d a = record {
  id = a.id;
  kind = a.kind;
  capability = a.capability;
  surface = get_or (get_or simulated d.surface) a.surface;
  rails = a.rails;
  amount_capped = get_or false a.amount_capped;
  consumes_contact_budget = get_or false a.consumes_contact_budget;
  quiet_hours_enforced = get_or false a.quiet_hours_enforced;
  requires_approval = get_or (get_or false d.requires_approval) a.requires_approval;
  optimizer_selectable = get_or true a.optimizer_selectable;
  action_cost_paise = get_or 0 a.action_cost_paise;
  p_recover_default = a.p_recover_default;
  p_recover_by_cause = get_or [] a.p_recover_by_cause;
  stop_conditions = get_or [] a.stop_conditions;
}

-- The check of one entry against the ids seen so far.
unfoldable pub check_action : List String → RawAction → Option LoadError
check_action seen a =
    if any (λ s. s === a.id) seen then some (duplicate_action a.id) else elim a.kind [
      | capability_kind ↦
          if names_capability a.capability then none else some (capability_missing a.id)
      | schedule_kind ↦ if names_capability a.capability then some (capability_bound a.id) else none
    ]

abbrev prepend : ActionDef → Loaded → Loaded
prepend a (ok as') = ok (a ∷ as')
prepend a (err e) = err e

abbrev or_else : Option LoadError → Loaded → Loaded
or_else none rest = rest
or_else (some e) rest = err e

unfoldable pub load_actions : RawDefaults → List String → List RawAction → Loaded
load_actions d seen [] = ok []
load_actions d seen (a ∷ rest) =
    or_else (check_action seen a) (prepend (to_action d a) (load_actions d (a.id ∷ seen) rest))

pub data LoadedLibrary : Type 0 where
  ok : ActionLibrary → LoadedLibrary
  err : LoadError → LoadedLibrary

-- `parseActionLibrary`, after `parse` of the YAML library.
unfoldable pub parse_action_library :
    ℕ → RawDefaults → List RawAction → List ForbiddenActionDef → LoadedLibrary
parse_action_library version d raw forbidden = elim (load_actions d [] raw) [
  | ok actions ↦
      LoadedLibrary.ok (record { version = version; actions = actions; forbidden = forbidden })
  | err e ↦ LoadedLibrary.err e
]
