-- ===== src/Agents/AgentRuntime/Returns.antt =====
-- When a run of the specialists with fresh ids returns, and what it then wrote.
use razorpay_buildathon.Base.{
  ℕ, suc, ◌+◌, ◌≤◌, String, Bool, false, ◌&&◌, ◌||◌, some, List, [], ◌∷◌, ◌++◌, ◌>>=◌, ◌≡◌, refl,
  sym, ap, ◌∙◌, ◌===◌, arith, map, update_where, count, any, any-append, any-map, length, ◌≢◌, true,
  none, Option-cases, ◌⊎◌, inl, inr, if◌then◌else◌,
}
use razorpay_buildathon.Core.Roles.{RoleId, recovery_economics, same_role}
use razorpay_buildathon.Engine.Blackboard.{
  Board, WriteClaim, write_claim, AgentRun, RunRow, record_run, holds_role, ClaimRow, fall,
  new_claim as claim_row,
}
use razorpay_buildathon.Engine.Blackboard.Claims.{written, fall-id, write_claim-total}
use razorpay_buildathon.Agents.Specialists.{
  SpecialistInput, Settlement, fulfilled, rejected, Failure, value_actions,
}
use razorpay_buildathon.Agents.AgentRuntime.{
  Task, Desk, RunResult, Drawn, start_all, on_started, settled, not_started, settle_task,
  settle_all, new_claim, note, run, failed_desk, written_desk,
}
use razorpay_buildathon.Agents.Invocation.{Runtime, World, Claim}
use razorpay_buildathon.Agents.AgentRuntime.Accounting.{
  may_use, fulfils, carries, with_role, with_failure, ran_of, failed_of, settle_all-live,
  settle_all-Accounted,
}
use razorpay_buildathon.Agents.AgentRuntime.Starting.{
  holds, FreshIds, FreshDraws, Started, length-Started, uses_allowed, Started-Values, fresh_tasks,
  start_all-Throws,
}

abbrev pub has_run : String → List RunRow → Bool
has_run id rows = any (λ r. r.run.id === id) rows

abbrev pub has_claim : String → List ClaimRow → Bool
has_claim id rows = any (λ c. c.id === id) rows

-- What a run that returns says of its tasks.
record Settles (input : SpecialistInput) (allowed : List String) (roles : List Drawn)
    (tasks : List Task) (d : Desk) (r : RunResult) : Type 0 where
  ran : r.ran ≡ ran_of tasks
  failed : r.failed ≡ failed_of tasks
  all_told : length r.ran + length r.failed ≡ length roles
  calls : r.provider_calls ≤ count (λ x. may_use x.role) roles
  live :
      (x : RoleId)
      → count (holds_role input.case_id x) r.desk.board.claims ≡ (
          if any (λ t. fulfils t.settlement && same_role t.role x) tasks
          then 1
          else count (holds_role input.case_id x) d.board.claims)

-- The ids in the tables of a desk are among the given ones.
abbrev Within : Desk → List String → List String → Type 0
Within d runs claims =
    ((id : String) → holds id runs ≡ false → has_run id d.runs ≡ false)
    × ((id : String) → holds id claims ≡ false → has_claim id d.board.claims ≡ false)

recorded :
    (now : ℕ) (a : AgentRun) (rows : List RunRow)
    → has_run a.id rows ≡ false
    → (rows' : List RunRow) × (record_run now a rows ≡ some rows')
      × ((id : String) → has_run id rows' ≡ (has_run id rows || (a.id === id)))
unfolding record_run
recorded now a rows h =
    let row : RunRow = record { run = a; started_at = now; completed_at = now } in
    (
      rows ++ row ∷ [],
      rw h refl,
      λ id. any-append (λ (r : RunRow). r.run.id === id) rows (row ∷ []) ∙ ground arith,
    )

claim_ids :
    (now : ℕ) (w : WriteClaim) (b b' : Board)
    → write_claim now w b ≡ some b'
    → (id : String) → has_claim id b'.claims ≡ (has_claim id b.claims || (w.id === id))
claim_ids now w b b' h id =
    let older = update_where (holds_role w.case_id w.role) (fall now) b.claims in
    ap (has_claim id) (written now w b b' h)
    ∙ any-append (λ (c : ClaimRow). c.id === id) older (claim_row now w ∷ [])
    ∙ ground (arith, fall-id (holds_role w.case_id w.role) now id b.claims)

module _ (message : Failure → String) (names_timeout : String → Bool) where
  settle_task-total :
      (s : Settlement Claim) (now : ℕ) (input : SpecialistInput) (revision : ℕ) (t : Task)
      (d : Desk)
      → has_run t.run_id d.runs ≡ false
      → has_claim t.claim_id d.board.claims ≡ false
      → (d' : Desk) × (settle_task message names_timeout s now input revision t d ≡ some d')
        × ((id : String) → has_run id d'.runs ≡ (has_run id d.runs || (t.run_id === id)))
        × ((id : String)
            → has_claim id d'.board.claims
              ≡ (has_claim id d.board.claims || (fulfils s && (t.claim_id === id))))
  settle_task-total (rejected e) now input revision t d h k =
      let (runs, e1, ids) = recorded now _ d.runs h in
      (
        failed_desk message names_timeout now input.case_id revision t e d runs,
        ap
            (λ o. o >>= (λ rows.
              some (failed_desk message names_timeout now input.case_id revision t e d rows)))
            e1,
        ids,
        λ id. ground arith,
      )
  settle_task-total (fulfilled o) now input revision t d h k =
      let w = new_claim message names_timeout input revision t in
      let (runs, e1, ids) = recorded now _ d.runs h in
      let (board, e2) = write_claim-total now w d.board k in
      let finish = λ (rows : List RunRow) (b : Board).
        written_desk message names_timeout now input.case_id revision t o d rows b in
      (
        finish runs board,
        ap (λ x. x >>= (λ rows. write_claim now w d.board >>= (λ b. some (finish rows b)))) e1
            ∙ ap (λ x. x >>= (λ b. some (finish runs b))) e2,
        ids,
        claim_ids now w d.board board e2,
      )

  settle_all-total :
      (ts : List Task) (now : ℕ) (input : SpecialistInput) (revision : ℕ) (d : Desk)
      (runs claims : List String)
      → FreshIds ts runs claims
      → Within d runs claims
      → (r : RunResult) × (settle_all message names_timeout now input revision ts d ≡ some r)
  unfolding settle_all
  settle_all-total [] now input revision d runs claims v within = (_, refl)
  settle_all-total (t ∷ ts) now input revision d runs claims (u, v, rest) (p, q) =
      let (d', e1, ids, ids') =
        settle_task-total t.settlement now input revision t d (p t.run_id u) (q t.claim_id v) in
      let (r, e2) =
        settle_all-total ts now input revision d' (t.run_id ∷ runs) (t.claim_id ∷ claims) rest
          ((λ id h. ground (arith, p id, ids id, h)), (λ id h. ground (arith, q id, ids' id, h))) in
      (
        note message names_timeout t.role t.settlement r,
        ap
              (λ x. x >>= (λ y.
                settle_all message names_timeout now input revision ts y
                >>= (λ z. some (note message names_timeout t.role t.settlement z))))
              e1
            ∙ ap (λ x. x >>= (λ z. some (note message names_timeout t.role t.settlement z))) e2,
      )

  with_lengths :
      (s : Settlement Claim) (role : RoleId) (xs : List RoleId) (ys : List (RoleId × Failure))
      → length (with_role s role xs) + length (with_failure s role ys) ≡ suc (length xs + length ys)
  with_lengths (fulfilled o) role xs ys = omega arith
  with_lengths (rejected e) role xs ys = omega arith

  accounted_lengths : (ts : List Task) → length (ran_of ts) + length (failed_of ts) ≡ length ts
  accounted_lengths [] = refl
  accounted_lengths (t ∷ ts) =
      with_lengths t.settlement t.role (ran_of ts) (failed_of ts) ∙ ap suc (accounted_lengths ts)

  settled_run :
      (rt : Runtime) (w : World) (now revision : ℕ) (roles : List Drawn) (input : SpecialistInput)
      (allowed : List String) (d : Desk) (tasks : List Task)
      → FreshDraws roles (map (λ r. r.run.id) d.runs) (map (λ c. c.id) d.board.claims)
      → Started message names_timeout rt w input allowed roles tasks
      → (r : RunResult) × (run message names_timeout rt w now revision roles input allowed d
          ≡ settled (some r))
        × Settles input allowed roles tasks d r
  unfolding run
  settled_run rt w now revision roles input allowed d tasks fresh started =
      let (r, e) =
        settle_all-total tasks now input revision d _ _
          (fresh_tasks message names_timeout rt w input allowed roles tasks _ _ started fresh)
          (
            (λ id h. sym (any-map (λ (x : RunRow). x.run.id) (λ i. i === id) d.runs) ∙ h),
            (λ id h. sym (any-map (λ (c : ClaimRow). c.id) (λ i. i === id) d.board.claims) ∙ h),
          ) in
      let (ran, failed, calls) =
        settle_all-Accounted message names_timeout tasks now input revision d r e in
      (
        r,
        ap (λ o. on_started message names_timeout o now input revision d) started ∙ ap settled e,
        record {
          ran = ran;
          failed = failed;
          all_told =
              ap (λ l. length l + length r.failed) ran
              ∙ ap (λ l. length (ran_of tasks) + length l) failed
              ∙ accounted_lengths tasks
              ∙ length-Started message names_timeout rt w input allowed roles tasks started;
          calls = omega (
            arith,
            calls,
            uses_allowed message names_timeout rt w input allowed roles tasks started,
          );
          live = settle_all-live message names_timeout tasks now input revision d r e;
        },
      )

  -- A run of the specialists with fresh ids does not start, and then writes nothing, if the economics
  -- are among the roles and valuing the actions throws, and otherwise it returns. Then
  -- the roles that ran are those whose work was fulfilled, the others are listed as failed with what
  -- failed, and together they are as many as were asked. Afterwards a role that ran has exactly one
  -- live claim of the case and every other role as many as before. At most as many provider calls
  -- are counted as roles were asked whose contract allows the provider.
  pub run_accounts :
      (rt : Runtime) (w : World) (now revision : ℕ) (roles : List Drawn) (input : SpecialistInput)
      (allowed : List String) (d : Desk)
      → FreshDraws roles (map (λ r. r.run.id) d.runs) (map (λ c. c.id) d.board.claims)
      → ((run message names_timeout rt w now revision roles input allowed d ≡ not_started)
          × (any (λ x. same_role x.role recovery_economics) roles ≡ true)
          × (value_actions rt.order input rt.library input.code allowed ≡ none))
        ⊎ ((tasks : List Task) × (r : RunResult) × (start_all message names_timeout rt w input
                allowed roles
              ≡ some tasks)
            × (run message names_timeout rt w now revision roles input allowed d ≡ settled (some r))
            × (any (λ x. same_role x.role recovery_economics) roles ≡ true
                → value_actions rt.order input rt.library input.code allowed ≢ none)
            × (r.ran ≡ ran_of tasks)
            × (r.failed ≡ failed_of tasks)
            × (length r.ran + length r.failed ≡ length roles)
            × (r.provider_calls ≤ count (λ x. may_use x.role) roles)
            × ((x : RoleId)
                → count (holds_role input.case_id x) r.desk.board.claims ≡ (
                    if any (carries message names_timeout x) tasks
                    then 1
                    else count (holds_role input.case_id x) d.board.claims)))
  unfolding run
  run_accounts rt w now revision roles input allowed d fresh =
      elim (Option-cases (start_all message names_timeout rt w input allowed roles)) [
        | inl e ↦
            let (asked, threw) =
              start_all-Throws message names_timeout rt w input allowed roles e in
            inl (ap (λ o. on_started message names_timeout o now input revision d) e, asked, threw)
        | inr (tasks, e) ↦
            let (r, returned, v) =
              settled_run rt w now revision roles input allowed d tasks fresh e in
            let values = Started-Values message names_timeout rt w input allowed roles tasks e in
            inr (tasks, r, e, returned, values, v.ran, v.failed, v.all_told, v.calls, v.live)
      ]
