-- ===== src/Agents/AgentRuntime/Accounting.antt =====
-- Every role of a run is accounted for, and only the roles that may call a provider do.
use razorpay_buildathon.Base.{
  >>=-eq-some, ℕ, ◌+◌, String, Bool, true, false, ◌&&◌, Option, none, some, List, [], ◌∷◌, ◌>>=◌,
  ◌≡◌, refl, sym, ap, ◌∙◌, subst, ◌===◌, arith, count, any, filter, sort, if◌then◌else◌, ===_refl,
}
use razorpay_buildathon.Core.Actions.{selectable_for_rail}
use razorpay_buildathon.Agents.Optimizer.{EconomicsCandidate}
use razorpay_buildathon.Core.Roles.{
  RoleId, payment_diagnosis, customer_context, incident_intelligence, recovery_economics,
  communication, role_contract, same_role,
}
use razorpay_buildathon.Engine.Blackboard.{Board, write_claim, record_run, holds_role}
use razorpay_buildathon.Engine.Blackboard.Claims.{live_after}
use razorpay_buildathon.Agents.Specialists.{
  SpecialistInput, Settlement, fulfilled, rejected, Failure, deterministic, value_each,
  value_actions, best_first, timed_out, correlate_incident,
}
use razorpay_buildathon.Agents.AgentRuntime.{
  Task, Desk, RunResult, settle_task, settle_all, note, new_claim,
}
use razorpay_buildathon.Agents.Invocation.{
  Runtime, World, Claim, invoke, work, claimed, economics_claim,
}

abbrev pub may_use : RoleId → Bool
may_use role = (role_contract role).may_use_provider

abbrev pub with_role : Settlement Claim → RoleId → List RoleId → List RoleId
with_role (fulfilled o) role rest = role ∷ rest
with_role (rejected e) role rest = rest

abbrev pub with_failure :
    Settlement Claim → RoleId → List (RoleId × Failure) → List (RoleId × Failure)
with_failure (fulfilled o) role rest = rest
with_failure (rejected e) role rest = (role, e) ∷ rest

-- The roles of the tasks that are fulfilled, and those that are rejected with what failed.
abbrev pub ran_of : List Task → List RoleId
ran_of [] = []
ran_of (t ∷ ts) = with_role t.settlement t.role (ran_of ts)

abbrev pub failed_of : List Task → List (RoleId × Failure)
failed_of [] = []
failed_of (t ∷ ts) = with_failure t.settlement t.role (failed_of ts)

abbrev pub used : Settlement Claim → Bool
used (fulfilled o) = o.used_provider
used (rejected e) = false

abbrev used_of : Option (Settlement Claim) → Bool
used_of none = false
used_of (some s) = used s

abbrev Unused : Option (Settlement Claim) → Type 0
Unused o = used_of o ≡ false

abbrev board_of : Desk → Option Desk → Board
board_of d none = d.board
board_of d (some e) = e.board

abbrev desk_of : Desk → Option RunResult → Desk
desk_of d none = d
desk_of d (some r) = r.desk

-- The economics are deterministic.
economics-unused :
    (o : Option (List EconomicsCandidate)) (f : List EconomicsCandidate → List EconomicsCandidate)
    (s : Settlement Claim)
    → ((o >>= (λ vs. some (deterministic (f vs))))
        >>= (λ c. some (fulfilled (claimed economics_claim c))))
      ≡ some s
    → used s ≡ false
economics-unused none f s h = absurd (ground arith)
economics-unused (some vs) f s h = subst Unused h refl

work-MayUse :
    (rt : Runtime) (w : World) (input : SpecialistInput) (allowed : List String) (role : RoleId)
    (s : Settlement Claim)
    → work rt w input allowed role ≡ some s
    → used s ≡ true
    → may_use role ≡ true
unfolding role_contract value_actions correlate_incident
work-MayUse rt w input allowed payment_diagnosis s e h = refl
work-MayUse rt w input allowed customer_context s e h = refl
work-MayUse rt w input allowed incident_intelligence s e h =
    absurd (ground (arith, subst Unused e refl))
work-MayUse rt w input allowed recovery_economics s e h =
    let k =
      economics-unused
        (value_each input rt.library input.code (
          filter (λ a. any (λ id. id === a.id) allowed)
            (selectable_for_rail rt.order rt.library input.rail)))
        (sort best_first) s e in
    absurd (ground (arith, sym h ∙ k))
work-MayUse rt w input allowed communication s e h = absurd (ground (arith, subst Unused e refl))

pub invoke-MayUse :
    (rt : Runtime) (w : World) (input : SpecialistInput) (allowed : List String) (role : RoleId)
    (s : Settlement Claim)
    → invoke rt w input allowed role ≡ some s
    → used s ≡ true
    → may_use role ≡ true
unfolding invoke
invoke-MayUse rt w input allowed role s e h =
    let (t, e1, e2) = >>=-eq-some (work rt w input allowed role) _ e in
    by_timer (w.runs_out role) t e1 e2
  where
    by_timer :
        (out : Bool) (t : Settlement Claim)
        → work rt w input allowed role ≡ some t
        → some (if out then rejected (timed_out role (role_contract role).timeout_ms) else t)
          ≡ some s
        → may_use role ≡ true
    by_timer true t p q = absurd (ground arith)
    by_timer false t p q =
        work-MayUse rt w input allowed role t p (subst (λ o. used_of o ≡ true) (sym q) h)

-- What the result says of the tasks.
abbrev pub Accounted : List Task → RunResult → Type 0
Accounted ts r =
    (r.ran ≡ ran_of ts)
    × (r.failed ≡ failed_of ts)
    × (r.provider_calls ≡ count (λ t. used t.settlement) ts)

abbrev AccountedIn : List Task → Option RunResult → Type 0
AccountedIn ts none = Unit {0}
AccountedIn ts (some r) = Accounted ts r

abbrev pub fulfils : Settlement Claim → Bool
fulfils (fulfilled o) = true
fulfils (rejected e) = false

module _ (message : Failure → String) (names_timeout : String → Bool) where
  note-desk :
      (role : RoleId) (s : Settlement Claim) (r : RunResult)
      → (note message names_timeout role s r).desk ≡ r.desk
  note-desk role (fulfilled o) r = refl
  note-desk role (rejected e) r = refl

  settle_task-live :
      (s : Settlement Claim) (now : ℕ) (input : SpecialistInput) (revision : ℕ) (t : Task)
      (d d' : Desk)
      → settle_task message names_timeout s now input revision t d ≡ some d'
      → (x : RoleId)
      → count (holds_role input.case_id x) d'.board.claims ≡ (
          if fulfils s && same_role t.role x
          then 1
          else count (holds_role input.case_id x) d.board.claims)
  settle_task-live (rejected e) now input revision t d d' h x =
      let (runs, e1, e2) = >>=-eq-some (record_run now _ d.runs) _ h in
      ap (λ o. count (holds_role input.case_id x) (board_of d o).claims) (sym e2)
  settle_task-live (fulfilled o) now input revision t d d' h x =
      let (runs, e1, h') = >>=-eq-some (record_run now _ d.runs) _ h in
      let (board, e2, e3) =
        >>=-eq-some (write_claim now (new_claim message names_timeout input revision t) d.board) _
          h' in
      ap (λ b. count (holds_role input.case_id x) (board_of d b).claims) (sym e3)
      ∙ live_after now (new_claim message names_timeout input revision t) d.board board
          input.case_id x e2
      ∙ ap
          (λ same.
            if same && same_role t.role x
            then 1
            else count (holds_role input.case_id x) d.board.claims)
          (===_refl input.case_id)

  abbrev pub carries : RoleId → Task → Bool
  carries x t = fulfils t.settlement && same_role t.role x

  pub settle_all-live :
      (ts : List Task) (now : ℕ) (input : SpecialistInput) (revision : ℕ) (d : Desk) (r : RunResult)
      → settle_all message names_timeout now input revision ts d ≡ some r
      → (x : RoleId)
      → count (holds_role input.case_id x) r.desk.board.claims
        ≡ (if any (carries x) ts then 1 else count (holds_role input.case_id x) d.board.claims)
  unfolding settle_all
  settle_all-live [] now input revision d r h x =
      ap (λ o. count (holds_role input.case_id x) (desk_of d o).board.claims) (sym h)
  settle_all-live (t ∷ ts) now input revision d r h x =
      let (d', e1, h') =
        >>=-eq-some (settle_task message names_timeout t.settlement now input revision t d) _ h in
      let (rest, e2, e3) =
        >>=-eq-some (settle_all message names_timeout now input revision ts d') _ h' in
      let first = settle_task-live t.settlement now input revision t d d' e1 x in
      let later = settle_all-live ts now input revision d' rest e2 x in
      ap (λ o. count (holds_role input.case_id x) (desk_of d o).board.claims) (sym e3)
      ∙ ap (λ k. count (holds_role input.case_id x) k.board.claims)
          (note-desk t.role t.settlement rest)
      ∙ ground (arith, first, later)

  note-Accounted :
      (t : Task) (s : Settlement Claim) (ts : List Task) (r : RunResult)
      → Accounted ts r
      → let r' = note message names_timeout t.role s r in
        (r'.ran ≡ with_role s t.role (ran_of ts))
        × (r'.failed ≡ with_failure s t.role (failed_of ts))
        × (r'.provider_calls ≡ count (λ u. used u.settlement) ts + (if used s then 1 else 0))
  note-Accounted t (fulfilled o) ts r (a, b, c) = (ap (λ l. t.role ∷ l) a, b, ground (arith, c))
  note-Accounted t (rejected e) ts r (a, b, c) = (a, ap (λ l. (t.role, e) ∷ l) b, omega (arith, c))

  pub settle_all-Accounted :
      (ts : List Task) (now : ℕ) (input : SpecialistInput) (revision : ℕ) (d : Desk) (r : RunResult)
      → settle_all message names_timeout now input revision ts d ≡ some r
      → Accounted ts r
  unfolding settle_all
  settle_all-Accounted [] now input revision d r h = subst (AccountedIn []) h (refl, refl, refl)
  settle_all-Accounted (t ∷ ts) now input revision d r h =
      let (d', e1, h') =
        >>=-eq-some (settle_task message names_timeout t.settlement now input revision t d) _ h in
      let (rest, e2, e3) =
        >>=-eq-some (settle_all message names_timeout now input revision ts d') _ h' in
      let (a, b, c) =
        note-Accounted t t.settlement ts rest
          (settle_all-Accounted ts now input revision d' rest e2) in
      subst (AccountedIn (t ∷ ts)) e3 (a, b, ground (arith, c))
