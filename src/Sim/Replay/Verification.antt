-- ===== src/Sim/Replay/Verification.antt =====
-- What the replay verifier reports of a store that appends wrote.
use razorpay_buildathon.Base.{
  ℕ, String, Bool, true, false, none, some, List, [], ◌∷◌, ===_refl, ◌≡◌, refl, subst, inl, inr,
  arith, sort, length, All, All-sort, All-imp, All-seen, any, count, count-sort, find?, ◌+◌, ap,
  ◌∙◌, Option-cases, if◌then◌else◌,
}
use razorpay_buildathon.Base.Order.{TextOrder}
use razorpay_buildathon.Core.Events.{CaseEvent, Reduced}
use razorpay_buildathon.Db.Tables.{CaseRow}
use razorpay_buildathon.Db.CaseEvents.{Db, append, is_case, replay}
use razorpay_buildathon.Db.Ledger.{LedgerEntry}
use razorpay_buildathon.Db.CaseEvents.Consistency.{find-same_case}
use razorpay_buildathon.Engine.Tier0.{Tier0Resolver}
use razorpay_buildathon.Sim.Replay.{
  ReplayReport, DeclineRow, RevisionCheck, unchecked, reproduced, differs, Tier0Check, tier1_case,
  skipped, rederived, not_rederived, check_tier0, tally_tier0, tally_revision, verify_cases,
  no_cases, concluded, verify_replay,
}
use razorpay_buildathon.Sim.Replay.Decisions.{on_revision, of_decision, check_tier0-of_decision}
use razorpay_buildathon.Sim.Replay.Reproduction.{Reproducible, stored_db, append-Reproducible}
use razorpay_buildathon.Sim.Replay.Checks.{
  is_reproduced, Reproduces, check_revision-Reproduces, is_difference, has_both,
}

-- A call of the event store.
pub record AppendCall : Type 0 where
  pub case_id : String
  pub event : CaseEvent
  pub source : String
  pub at : ℕ

abbrev pub run : List AppendCall → Db → Db
run [] db = db
run (x ∷ xs) db = run xs (stored_db (append x.case_id x.event x.source x.at db) db)

run-Reproducible : (xs : List AppendCall) (db : Db) → Reproducible db → Reproducible (run xs db)
run-Reproducible [] db v = v
run-Reproducible (x ∷ xs) db v =
    run-Reproducible xs _ (append-Reproducible db x.case_id x.event x.source x.at v)

any-none : (p : CaseRow → Bool) (cs : List CaseRow) → find? p cs ≡ none → any p cs ≡ false
any-none p [] h = refl
any-none p (c ∷ cs) h = ground (arith, any-none p cs)

-- Every row of the cases is found by its id.
row-Reproduces :
    (db : Db)
    → Reproducible db
    → (c : CaseRow) → ((p : CaseRow → Bool) → p c ≡ true → any p db.cases ≡ true)
    → Reproduces db c
row-Reproduces db (v, shows) c seen = elim (Option-cases (find? (is_case c.id) db.cases)) [
  | inl e ↦
      absurd
        (ground (arith, seen (is_case c.id) (===_refl c.id), any-none (is_case c.id) db.cases e))
  | inr (d, e) ↦
      let (r, w, shown) = v c.id d e in
      check_revision-Reproduces db c r
        (subst (λ i. replay i db ≡ Reduced.ok r) (find-same_case c.id db.cases d e) w.replayed)
        shows
]

abbrev Quiet : ReplayReport → Type 0
Quiet r = All (λ m. on_revision m.kind ≡ false) r.mismatches

-- What a check adds to the count of the reproduced revisions.
abbrev one_if : Bool → ℕ
one_if b = if b then 1 else 0

tally_revision-count :
    (id : String) (v : RevisionCheck) (r : ReplayReport)
    → (tally_revision id v r).revisions_reproduced
      ≡ one_if (is_reproduced v) + r.revisions_reproduced
tally_revision-count id unchecked r = omega arith
tally_revision-count id reproduced r = omega arith
tally_revision-count id differs r = omega arith

tally_tier0-count :
    (id : String) (t : Tier0Check) (r : ReplayReport)
    → (tally_tier0 id t r).revisions_reproduced ≡ r.revisions_reproduced
tally_tier0-count id tier1_case r = refl
tally_tier0-count id skipped r = refl
tally_tier0-count id rederived r = refl
tally_tier0-count id (not_rederived kind) r = refl

tally_revision-Quiet :
    (id : String) (v : RevisionCheck) (r : ReplayReport)
    → is_difference v ≡ false
    → Quiet r
    → Quiet (tally_revision id v r)
tally_revision-Quiet id unchecked r h q = q
tally_revision-Quiet id reproduced r h q = q
tally_revision-Quiet id differs r h q = absurd (ground arith)

tally_tier0-Quiet :
    (id : String) (t : Tier0Check) (r : ReplayReport)
    → of_decision t ≡ true
    → Quiet r
    → Quiet (tally_tier0 id t r)
tally_tier0-Quiet id tier1_case r h q = q
tally_tier0-Quiet id skipped r h q = q
tally_tier0-Quiet id rederived r h q = q
tally_tier0-Quiet id (not_rederived kind) r h q = (ground (arith, h), q)

verify_cases-Quiet :
    (r : Tier0Resolver) (db : Db) (ledger : List LedgerEntry) (declines : List DeclineRow)
    (cs : List CaseRow)
    → All (Reproduces db) cs
    → (out : ReplayReport) × (verify_cases r db ledger declines cs ≡ some out)
      × Quiet out
      × (out.revisions_reproduced ≡ count (has_both db) cs)
unfolding verify_cases
verify_cases-Quiet r db ledger declines [] h = (no_cases, refl, tt, refl)
verify_cases-Quiet r db ledger declines (c ∷ cs) ((v, e, d, same), hs) =
    let (rest, e', q, n) = verify_cases-Quiet r db ledger declines cs hs in
    let t = check_tier0 r c ledger declines in
    (
      tally_revision c.id v (tally_tier0 c.id t rest),
      rw (e, e') refl,
      tally_revision-Quiet c.id v (tally_tier0 c.id t rest) d
          (tally_tier0-Quiet c.id t rest (check_tier0-of_decision r c ledger declines) q),
      tally_revision-count c.id v (tally_tier0 c.id t rest)
          ∙ ap (λ k. one_if (is_reproduced v) + k) (tally_tier0-count c.id t rest ∙ n)
          ∙ ap (λ b. one_if b + count (has_both db) cs) same,
    )

-- From a store whose case rows and latest revisions are what the logs reduce to, after any appends
-- of any events, which may be refused, the replay verifier returns a report, and the report holds
-- no mismatch of a revision and counts as reproduced the latest stored revision of exactly the cases
-- that have an event and a revision; it counts every case row as checked.
pub verify_replay_reproduces :
    (order : TextOrder) (r : Tier0Resolver) (db : Db) (calls : List AppendCall)
    (ledger : List LedgerEntry) (declines : List DeclineRow)
    → Reproducible db
    → (out : ReplayReport) × (verify_replay order r (run calls db) ledger declines ≡ some out)
      × All (λ m. on_revision m.kind ≡ false) out.mismatches
      × (out.revisions_reproduced ≡ count (has_both (run calls db)) (run calls db).cases)
      × (out.cases_checked ≡ length (run calls db).cases)
unfolding verify_replay
verify_replay_reproduces order r db calls ledger declines v =
    let now = run calls db in
    let w = run-Reproducible calls db v in
    let cases = sort (λ a b. order.before a.id b.id) now.cases in
    let (out, e, q, n) = verify_cases-Quiet r now ledger declines cases (
      All-sort (Reproduces now) (λ a b. order.before a.id b.id) now.cases
        (All-imp (λ c. (p : CaseRow → Bool) → p c ≡ true → any p now.cases ≡ true) (Reproduces now)
          now.cases (row-Reproduces now w) (All-seen now.cases))) in
    (
      concluded (length now.cases) out,
      rw e refl,
      q,
      n ∙ count-sort (has_both now) (λ a b. order.before a.id b.id) now.cases,
      refl,
    )
