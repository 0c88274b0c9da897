-- ===== src/Agents/AgentRuntime/Starting.antt =====
-- What starting the work of the roles comes to: tasks, or a throw of the economics.
use razorpay_buildathon.Base.{
  suc, ◌≤◌, String, Bool, false, some, List, [], ◌∷◌, ◌>>=◌, ◌≡◌, refl, sym, ap, ◌∙◌, ◌===◌, arith,
  count, any, length, ◌≢◌, Bool-cases, true, none, Option, Option-cases, inl, inr, subst,
  >>=-eq-some,
}
use razorpay_buildathon.Core.Roles.{
  RoleId, payment_diagnosis, customer_context, incident_intelligence, recovery_economics,
  communication, same_role,
}
use razorpay_buildathon.Agents.Specialists.{SpecialistInput, Settlement, Failure, value_actions}
use razorpay_buildathon.Agents.AgentRuntime.{Task, Drawn, task, start_all}
use razorpay_buildathon.Agents.Invocation.{Runtime, World, Claim, work, invoke}
use razorpay_buildathon.Agents.AgentRuntime.Accounting.{may_use, used, invoke-MayUse}

abbrev pub holds : String → List String → Bool
holds id ids = any (λ i. i === id) ids

-- The ids of the tasks are not among the given ones, and no two tasks have one in common.
abbrev pub FreshIds : List Task → List String → List String → Type 0
FreshIds [] runs claims = Unit {0}
FreshIds (t ∷ ts) runs claims =
    (holds t.run_id runs ≡ false)
    × (holds t.claim_id claims ≡ false)
    × FreshIds ts (t.run_id ∷ runs) (t.claim_id ∷ claims)

-- The same of what is drawn for the roles.
abbrev pub FreshDraws : List Drawn → List String → List String → Type 0
FreshDraws [] runs claims = Unit {0}
FreshDraws (x ∷ xs) runs claims =
    (holds x.run_id runs ≡ false)
    × (holds x.claim_id claims ≡ false)
    × FreshDraws xs (x.run_id ∷ runs) (x.claim_id ∷ claims)

-- Valuing the actions throws, for a role among the given ones.
abbrev pub Throws : Runtime → SpecialistInput → List String → List Drawn → Type 0
Throws rt input allowed roles =
    (any (λ x. same_role x.role recovery_economics) roles ≡ true)
    × (value_actions rt.order input rt.library input.code allowed ≡ none)

mapped-none :
    {A B : Type 0} (o : Option A) (f : A → B) → (o >>= (λ a. some (f a))) ≡ none → o ≡ none
mapped-none none f h = refl
mapped-none (some a) f h = absurd (ground arith)

invoke-Throws :
    (rt : Runtime) (w : World) (input : SpecialistInput) (allowed : List String) (role : RoleId)
    → invoke rt w input allowed role ≡ none
    → (same_role role recovery_economics ≡ true)
      × (value_actions rt.order input rt.library input.code allowed ≡ none)
unfolding invoke
invoke-Throws rt w input allowed role h =
    by_role role (mapped-none (work rt w input allowed role) _ h)
  where
    by_role :
        (x : RoleId)
        → work rt w input allowed x ≡ none
        → (same_role x recovery_economics ≡ true)
          × (value_actions rt.order input rt.library input.code allowed ≡ none)
    by_role payment_diagnosis e = absurd (ground arith)
    by_role customer_context e = absurd (ground arith)
    by_role incident_intelligence e = absurd (ground arith)
    by_role recovery_economics e =
        (refl, mapped-none (value_actions rt.order input rt.library input.code allowed) _ e)
    by_role communication e = absurd (ground arith)

invoke-Values :
    (rt : Runtime) (w : World) (input : SpecialistInput) (allowed : List String) (role : RoleId)
    (s : Settlement Claim)
    → invoke rt w input allowed role ≡ some s
    → same_role role recovery_economics ≡ true
    → value_actions rt.order input rt.library input.code allowed ≢ none
unfolding invoke
invoke-Values rt w input allowed role s h =
    let (t, e, q) = >>=-eq-some (work rt w input allowed role) _ h in by_role role t e
  where
    by_role :
        (x : RoleId) (t : Settlement Claim)
        → work rt w input allowed x ≡ some t
        → same_role x recovery_economics ≡ true
        → value_actions rt.order input rt.library input.code allowed ≢ none
    by_role payment_diagnosis t e same threw = absurd (ground arith)
    by_role customer_context t e same threw = absurd (ground arith)
    by_role incident_intelligence t e same threw = absurd (ground arith)
    by_role recovery_economics t e same threw =
        let (o, valued, q) =
          >>=-eq-some (value_actions rt.order input rt.library input.code allowed) _ e in
        absurd (ground arith)
    by_role communication t e same threw = absurd (ground arith)

module _ (message : Failure → String) (names_timeout : String → Bool) where
  -- The tasks of roles that are all started.
  abbrev pub Started :
      Runtime → World → SpecialistInput → List String → List Drawn → List Task → Type 0
  Started rt w input allowed xs ts = start_all message names_timeout rt w input allowed xs ≡ some ts

  start_all-cons :
      (rt : Runtime) (w : World) (input : SpecialistInput) (allowed : List String) (x : Drawn)
      (xs : List Drawn) (ts : List Task)
      → Started rt w input allowed (x ∷ xs) ts
      → (s : Settlement Claim) × (rest : List Task) × (invoke rt w input allowed x.role ≡ some s)
        × Started rt w input allowed xs rest
        × (task message names_timeout x s ∷ rest ≡ ts)
  unfolding start_all
  start_all-cons rt w input allowed x xs ts h =
      let (s, e, h') = >>=-eq-some (invoke rt w input allowed x.role) _ h in
      let (rest, e', q) =
        >>=-eq-some (start_all message names_timeout rt w input allowed xs) _ h' in
      (s, rest, e, e', ground arith)

  start_all-nil :
      (rt : Runtime) (w : World) (input : SpecialistInput) (allowed : List String) (ts : List Task)
      → Started rt w input allowed [] ts
      → [] ≡ ts
  unfolding start_all
  start_all-nil rt w input allowed ts h = ground arith

  pub length-Started :
      (rt : Runtime) (w : World) (input : SpecialistInput) (allowed : List String) (xs : List Drawn)
      (ts : List Task)
      → Started rt w input allowed xs ts
      → length ts ≡ length xs
  length-Started rt w input allowed [] ts h =
      ap length (sym (start_all-nil rt w input allowed ts h))
  length-Started rt w input allowed (x ∷ xs) ts h =
      let (s, rest, e, started, q) = start_all-cons rt w input allowed x xs ts h in
      ap length (sym q) ∙ ap suc (length-Started rt w input allowed xs rest started)

  pub uses_allowed :
      (rt : Runtime) (w : World) (input : SpecialistInput) (allowed : List String) (xs : List Drawn)
      (ts : List Task)
      → Started rt w input allowed xs ts
      → count (λ t. used t.settlement) ts ≤ count (λ x. may_use x.role) xs
  uses_allowed rt w input allowed [] ts h =
      subst (λ l. count (λ t. used t.settlement) l ≤ 0) (start_all-nil rt w input allowed ts h)
        (omega arith)
  uses_allowed rt w input allowed (x ∷ xs) ts h =
      let (s, rest, e, started, q) = start_all-cons rt w input allowed x xs ts h in
      subst (λ l. count (λ t. used t.settlement) l ≤ count (λ y. may_use y.role) (x ∷ xs)) q
        (ground (
          arith,
          invoke-MayUse rt w input allowed x.role s e,
          uses_allowed rt w input allowed xs rest started,
        ))

  pub Started-Values :
      (rt : Runtime) (w : World) (input : SpecialistInput) (allowed : List String) (xs : List Drawn)
      (ts : List Task)
      → Started rt w input allowed xs ts
      → any (λ x. same_role x.role recovery_economics) xs ≡ true
      → value_actions rt.order input rt.library input.code allowed ≢ none
  Started-Values rt w input allowed [] ts h asked = absurd (ground arith)
  Started-Values rt w input allowed (x ∷ xs) ts h asked =
      let (s, rest, e, started, q) = start_all-cons rt w input allowed x xs ts h in
      elim (Bool-cases (same_role x.role recovery_economics)) [
        | inl same ↦ invoke-Values rt w input allowed x.role s e same
        | inr other ↦
            Started-Values rt w input allowed xs rest started (ground (arith, other, asked))
      ]

  pub fresh_tasks :
      (rt : Runtime) (w : World) (input : SpecialistInput) (allowed : List String) (xs : List Drawn)
      (ts : List Task) (runs claims : List String)
      → Started rt w input allowed xs ts
      → FreshDraws xs runs claims
      → FreshIds ts runs claims
  fresh_tasks rt w input allowed [] ts runs claims h fresh =
      subst (λ l. FreshIds l runs claims) (start_all-nil rt w input allowed ts h) tt
  fresh_tasks rt w input allowed (x ∷ xs) ts runs claims h (u, v, fresh) =
      let (s, rest, e, started, q) = start_all-cons rt w input allowed x xs ts h in
      subst (λ l. FreshIds l runs claims) q
        (
          u,
          v,
          fresh_tasks rt w input allowed xs rest (x.run_id ∷ runs) (x.claim_id ∷ claims) started
              fresh,
        )

  pub start_all-Throws :
      (rt : Runtime) (w : World) (input : SpecialistInput) (allowed : List String) (xs : List Drawn)
      → start_all message names_timeout rt w input allowed xs ≡ none
      → Throws rt input allowed xs
  unfolding start_all
  start_all-Throws rt w input allowed [] h = absurd (ground arith)
  start_all-Throws rt w input allowed (x ∷ xs) h =
      elim (Option-cases (invoke rt w input allowed x.role)) [
        | inl e ↦ let (role, q) = invoke-Throws rt w input allowed x.role e in (rw role refl, q)
        | inr (s, e) ↦ elim (Option-cases (start_all message names_timeout rt w input allowed xs)) [
          | inl e' ↦
              let (role, q) = start_all-Throws rt w input allowed xs e' in (ground (arith, role), q)
          | inr (ts, e') ↦ absurd (ground (arith, rw (e, e') at h))
        ]
      ]
