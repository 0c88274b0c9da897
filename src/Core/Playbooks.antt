-- ===== src/Core/Playbooks.antt =====
-- packages/core/src/playbooks.ts: the default plans, and their loader after the YAML parse.
pub mod Plans
use razorpay_buildathon.Base.{
  ℕ, String, Bool, true, false, ◌&&◌, ◌||◌, Option, none, some, List, [], ◌∷◌, ◌===◌, ◌==◌,
  if◌then◌else◌, any, find_last?, is_some,
}
use razorpay_buildathon.Core.Types.{Domain, domain_index}
use razorpay_buildathon.Core.Actions.{ActionLibrary, ActionError, Found, get}

-- A step's parameters are passed on unread, and are left out.
pub record PlanStep : Type 0 where
  pub action_id : String

-- The domain of a playbook: one of the closed set, or `*`.
pub data Scope : Type 0 where
  across : Scope
  only : Domain → Scope

abbrev pub same_scope : Scope → Scope → Bool
same_scope across across = true
same_scope (only d) (only e) = domain_index d == domain_index e
same_scope _ _ = false

pub record Playbook : Type 0 where
  pub domain : Scope
  pub cause : String
  pub rule_id : String
  pub steps : List PlanStep
  pub stop_conditions : List String

-- A plan has the fields of its playbook, and the mark `tier0_playbook`.
abbrev pub Plan : Type 0
Plan = Playbook

pub record PlaybookTable : Type 0 where
  pub version : ℕ
  pub playbooks : List Playbook

abbrev pub has_key : Scope → String → Playbook → Bool
has_key domain cause p = same_scope p.domain domain && p.cause === cause

abbrev pub or_default : Option Playbook → Option Playbook → Option Playbook
or_default (some p) q = some p
or_default none q = q

unfoldable pub plan_for : PlaybookTable → Domain → String → Option Plan
plan_for t domain cause =
    or_default (find_last? (has_key (only domain) cause) t.playbooks)
      (find_last? (has_key across cause) t.playbooks)

unfoldable pub has : PlaybookTable → Domain → String → Bool
has t domain cause =
    is_some (find_last? (has_key (only domain) cause) t.playbooks)
    || is_some (find_last? (has_key across cause) t.playbooks)

pub data PlaybookError : Type 0 where
  duplicate_playbook no_steps : Scope → String → PlaybookError
  bad_action : ActionError → PlaybookError

-- The first step that the library does not resolve throws.
unfoldable pub check_steps : ActionLibrary → List PlanStep → Option PlaybookError
check_steps lib [] = none
check_steps lib (s ∷ rest) = elim (get lib s.action_id) [
  | Found.ok a ↦ check_steps lib rest
  | Found.err e ↦ some (bad_action e)
]

unfoldable pub check_playbook : ActionLibrary → List Playbook → Playbook → Option PlaybookError
unfolding check_steps
check_playbook lib seen p =
    if any (has_key p.domain p.cause) seen
    then some (duplicate_playbook p.domain p.cause)
    else elim p.steps [
      | [] ↦ some (no_steps p.domain p.cause)
      | s ∷ rest ↦ check_steps lib (s ∷ rest)
    ]

pub data Loaded : Type 0 where
  ok : List Playbook → Loaded
  err : PlaybookError → Loaded

abbrev prepend : Playbook → Loaded → Loaded
prepend p (ok ps) = ok (p ∷ ps)
prepend p (err x) = err x

abbrev or_else : Option PlaybookError → Loaded → Loaded
or_else none rest = rest
or_else (some x) rest = err x

unfoldable pub load_playbooks : ActionLibrary → List Playbook → List Playbook → Loaded
load_playbooks lib seen [] = ok []
load_playbooks lib seen (p ∷ rest) =
    or_else (check_playbook lib seen p) (prepend p (load_playbooks lib (p ∷ seen) rest))

pub data LoadedTable : Type 0 where
  ok : PlaybookTable → LoadedTable
  err : PlaybookError → LoadedTable

unfoldable pub parse_playbooks : ActionLibrary → ℕ → List Playbook → LoadedTable
parse_playbooks lib version raw = elim (load_playbooks lib [] raw) [
  | ok ps ↦ LoadedTable.ok (record { version = version; playbooks = ps })
  | err x ↦ LoadedTable.err x
]
