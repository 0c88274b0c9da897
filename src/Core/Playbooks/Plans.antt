-- ===== src/Core/Playbooks/Plans.antt =====
-- What a plan from a loaded table guarantees.
use razorpay_buildathon.Base.{
  ℕ, String, ◌≡◌, refl, subst, ◌≢◌, ◌⊎◌, inl, inr, none, some, List, [], ◌∷◌, arith, All,
  find_last?, find_last?-All, Option-cases, is_some,
}
use razorpay_buildathon.Core.Types.{Domain}
use razorpay_buildathon.Core.Actions.{ActionLibrary, ActionDef, ActionError, Found, get}
use razorpay_buildathon.Core.Playbooks.{
  PlanStep, Playbook, Plan, PlaybookTable, PlaybookError, Loaded, LoadedTable, only, across,
  has_key, plan_for, has, check_steps, check_playbook, load_playbooks, parse_playbooks,
}

Found-cases :
    (x : Found) → ((a : ActionDef) × (x ≡ Found.ok a)) ⊎ ((e : ActionError) × (x ≡ Found.err e))
Found-cases (Found.ok a) = inl (a, refl)
Found-cases (Found.err e) = inr (e, refl)

Loaded-cases :
    (x : Loaded)
    → ((l : List Playbook) × (x ≡ Loaded.ok l)) ⊎ ((e : PlaybookError) × (x ≡ Loaded.err e))
Loaded-cases (Loaded.ok l) = inl (l, refl)
Loaded-cases (Loaded.err e) = inr (e, refl)

-- A step that the library resolves.
abbrev pub Resolves : ActionLibrary → PlanStep → Type 0
Resolves lib s = (a : ActionDef) × (get lib s.action_id ≡ Found.ok a)

check_steps-Resolves :
    (lib : ActionLibrary) (ss : List PlanStep) → check_steps lib ss ≡ none → All (Resolves lib) ss
unfolding check_steps
check_steps-Resolves lib [] h = tt
check_steps-Resolves lib (s ∷ rest) h = elim (Found-cases (get lib s.action_id)) [
  | inl (a, e) ↦ ((a, e), check_steps-Resolves lib rest (ground arith))
  | inr (x, e) ↦ absurd (ground arith)
]

-- A playbook that may run: it has a step, and the library resolves each.
abbrev pub IsRunnable : ActionLibrary → Playbook → Type 0
IsRunnable lib p = (p.steps ≢ []) × All (Resolves lib) p.steps

check_playbook-steps :
    (lib : ActionLibrary) (seen : List Playbook) (p : Playbook)
    → check_playbook lib seen p ≡ none
    → (p.steps ≢ []) × (check_steps lib p.steps ≡ none)
unfolding check_playbook
check_playbook-steps lib seen p h = ground arith

load_playbooks-IsRunnable :
    (lib : ActionLibrary) (raw seen l : List Playbook)
    → load_playbooks lib seen raw ≡ Loaded.ok l
    → All (IsRunnable lib) l
unfolding load_playbooks
load_playbooks-IsRunnable lib [] seen l h =
    let e : [] ≡ l = ground arith in subst (All (IsRunnable lib)) e tt
load_playbooks-IsRunnable lib (p ∷ rest) seen l h =
    elim (Loaded-cases (load_playbooks lib (p ∷ seen) rest)) [
      | inl (l', e) ↦
          let q : p ∷ l' ≡ l = ground arith in
          let (some_steps, checked) = check_playbook-steps lib seen p (ground arith) in
          subst (All (IsRunnable lib)) q (
            (some_steps, check_steps-Resolves lib p.steps checked),
            load_playbooks-IsRunnable lib rest (p ∷ seen) l' e,
          )
      | inr (x, e) ↦ absurd (ground arith)
    ]

parse_playbooks-IsRunnable :
    (lib : ActionLibrary) (version : ℕ) (raw : List Playbook) (t : PlaybookTable)
    → parse_playbooks lib version raw ≡ LoadedTable.ok t
    → All (IsRunnable lib) t.playbooks
unfolding parse_playbooks
parse_playbooks-IsRunnable lib version raw t h =
    load_playbooks-IsRunnable lib raw [] t.playbooks (ground arith)

-- Every plan of a table that loads against a library has at least one step, and the library
-- resolves the action of each of its steps: none of them is unknown or forbidden.
pub plan_for-IsRunnable :
    (lib : ActionLibrary) (version : ℕ) (raw : List Playbook) (t : PlaybookTable) (d : Domain)
    (cause : String) (p : Plan)
    → parse_playbooks lib version raw ≡ LoadedTable.ok t
    → plan_for t d cause ≡ some p
    → IsRunnable lib p
unfolding plan_for
plan_for-IsRunnable lib version raw t d cause p h k =
    let w = parse_playbooks-IsRunnable lib version raw t h in
    elim (Option-cases (find_last? (has_key (only d) cause) t.playbooks)) [
      | inl none_own ↦
          find_last?-All (IsRunnable lib) (has_key across cause) t.playbooks p w (ground arith)
      | inr (q, own) ↦
          find_last?-All (IsRunnable lib) (has_key (only d) cause) t.playbooks p w (ground arith)
    ]

-- A table has a plan for a domain and a cause exactly if it says that it has.
pub has-plan_for :
    (t : PlaybookTable) (d : Domain) (cause : String) → has t d cause ≡ is_some (plan_for t d cause)
unfolding has plan_for
has-plan_for t d cause = ground arith
