-- ===== src/Engine/CaseManager/Attachment.antt =====
-- The second trigger for one obligation attaches to the case that the first one opened.
use razorpay_buildathon.Base.{
  ℕ, ◌≡◌, refl, subst, ap, ◌∙◌, inl, inr, String, Bool, true, false, none, some, List, [], ◌∷◌,
  ◌++◌, arith, ◌===◌, ===_refl, All, All-imp, find?, sort, any, leb, Option-cases, find?-any,
  find?-append, filter-All-false, filter-updated_last,
}
use razorpay_buildathon.Core.StateMachine.{can_transition}
use razorpay_buildathon.Core.Events.{
  case_opened, initial_revision, reduce_all, reduce_from, next_revision, target_state,
}
use razorpay_buildathon.Db.Tables.{CaseRow}
use razorpay_buildathon.Db.CaseEvents.{Db, is_case, of_case, project, advance, replay, read_all}
use razorpay_buildathon.Db.CaseEvents.Replay.{Projects, stored_event, db_after, append_legal}
use razorpay_buildathon.Engine.Reconciler.{ObligationRow}
use razorpay_buildathon.Engine.Verifier.{open_case, first_case}
use razorpay_buildathon.Engine.CaseManager.{
  OpenCaseRequest, Store, opened, has_key, due_obligation, upsert_obligation, new_case,
  with_new_case, attach_or_open, open_or_attach, after_event, with_obligation,
}
use razorpay_buildathon.Engine.CaseManager.Deduplication.{is_open_for, open_case-none, still_open}

-- The request's case is not in the store, nor is anything that refers to it.
pub record IsUnlogged (req : OpenCaseRequest) (db : Db) : Type 0 where
  pub no_row : any (is_case req.case_id) db.cases ≡ false
  pub no_event : All (λ e. of_case req.case_id e ≡ false) db.case_events
  pub no_revision : All (λ v. (v.case_id === req.case_id) ≡ false) db.case_revisions

-- The ids of the request are not in use.
pub record IsFresh (req : OpenCaseRequest) (s : Store) : Type 0 where
  pub unlogged : IsUnlogged req s.db
  pub no_obligation : any (λ o. o.id === req.obligation_id) s.obligations ≡ false

new_case-Projects :
    (now : ℕ) (ob : String) (req : OpenCaseRequest) (s : Store)
    → IsUnlogged req s.db
    → Projects (with_new_case now ob req s).db (new_case now ob req) (initial_revision req.case_id)
unfolding replay initial_revision reduce_all reduce_from read_all
new_case-Projects now ob req s v = record {
  stored =
      find?-append (is_case req.case_id) s.db.cases (new_case now ob req ∷ [])
        (find?-any (is_case req.case_id) s.db.cases v.no_row)
      ∙ rw (===_refl req.case_id);
  replayed = rw (filter-All-false (of_case req.case_id) s.db.case_events v.no_event);
  numbered = refl;
  seqs = All-imp _ _ s.db.case_events (λ e h t. absurd (ground arith)) v.no_event;
  revisions = All-imp _ _ s.db.case_revisions (λ e h t. absurd (ground arith)) v.no_revision;
  same_state = refl;
  same_reason = refl;
}

-- The store after a case was opened.
abbrev opened_store : ℕ → String → OpenCaseRequest → Store → Store
opened_store now ob req s =
    let c = new_case now ob req in
    let e = stored_event c (case_opened req.domain req.holdout) "case_manager" now in
    record s {
      db =
          db_after (with_new_case now ob req s).db c e
            (next_revision (initial_revision req.case_id) e) now;
    }

can_open :
    (req : OpenCaseRequest) (now : ℕ) (ob : String)
    → let c = new_case now ob req in
      can_transition c.state (target_state (case_opened req.domain req.holdout) c.state) ≡ true
unfolding can_transition target_state
can_open req now ob = refl

opens :
    (now : ℕ) (ob : String) (req : OpenCaseRequest) (s before : Store)
    → IsUnlogged req s.db
    → open_case ob s.db.cases ≡ none
    → attach_or_open (open_case ob s.db.cases) now req ob s before
      ≡ opened (record { case_id = req.case_id; attached = false }) (opened_store now ob req s)
unfolding attach_or_open
opens now ob req s before v e =
    let s' = with_new_case now ob req s in
    rw (e, v.no_row)
      (ap (λ a. after_event a req s')
        (append_legal s'.db (new_case now ob req) (initial_revision req.case_id)
          (case_opened req.domain req.holdout) "case_manager" now (new_case-Projects now ob req s v)
          (can_open req now ob)))

stays_open :
    (now : ℕ) (ob : String) (req : OpenCaseRequest) (s : Store)
    → IsUnlogged req s.db
    → open_case ob s.db.cases ≡ none
    → (c : CaseRow) × (open_case ob (opened_store now ob req s).db.cases ≡ some c)
      × (c.id ≡ req.case_id)
unfolding open_case next_revision initial_revision
stays_open now ob req s v e =
    let c = new_case now ob req in
    let next =
      next_revision (initial_revision req.case_id)
        (stored_event c (case_opened req.domain req.holdout) "case_manager" now) in
    let only =
      filter-updated_last (is_open_for ob) (is_case req.case_id) advance (project next now)
        s.db.cases c (λ a q. q) (still_open ob next now) (open_case-none ob s.db.cases e)
        (===_refl req.case_id) (===_refl req.case_id) (rw (===_refl ob) refl) in
    (
      project next now (advance c),
      ap (λ cs. first_case (sort (λ a b. leb a.opened_at b.opened_at) cs)) only,
      refl,
    )

upserts :
    (req : OpenCaseRequest) (s : Store)
    → IsFresh req s
    → (obligations : List ObligationRow) × (o : ObligationRow) × (upsert_obligation req
          s.obligations
        ≡ some (o.id, obligations))
      × (find? (has_key req.merchant_id req.external_ref) obligations ≡ some o)
unfolding upsert_obligation
upserts req s v =
    elim (Option-cases (find? (has_key req.merchant_id req.external_ref) s.obligations)) [
      | inr (o, e) ↦ (s.obligations, o, rw (e, upsert_obligation) refl, e)
      | inl e ↦ (
        s.obligations ++ due_obligation req ∷ [],
        due_obligation req,
        rw (e, v.no_obligation, upsert_obligation) refl,
        find?-append (has_key req.merchant_id req.external_ref) s.obligations
              (due_obligation req ∷ []) e
            ∙ rw (===_refl req.merchant_id, ===_refl req.external_ref),
      )
    ]

attaches :
    (later : ℕ) (again : OpenCaseRequest) (s : Store) (o : ObligationRow) (c : CaseRow)
    → find? (has_key again.merchant_id again.external_ref) s.obligations ≡ some o
    → open_case o.id s.db.cases ≡ some c
    → open_or_attach later again s ≡ opened (record { case_id = c.id; attached = true }) s
unfolding open_or_attach upsert_obligation attach_or_open
attaches later again s o c found open' =
    ap (λ u. with_obligation u later again s) (upserted found) ∙ rw open' refl
  where
    upserted :
        find? (has_key again.merchant_id again.external_ref) s.obligations ≡ some o
        → upsert_obligation again s.obligations ≡ some (o.id, s.obligations)
    upserted e = rw (e, upsert_obligation) refl

-- What the first trigger left, and the case that the second one finds there.
abbrev pub Absorbed : ℕ → OpenCaseRequest → ℕ → OpenCaseRequest → Store → Type 0
Absorbed now req later again s =
    (s' : Store) × (case_id : String) × (attached : Bool) × (open_or_attach now req s
      ≡ opened (record { case_id = case_id; attached = attached }) s')
    × (open_or_attach later again s' ≡ opened (record { case_id = case_id; attached = true }) s')

-- Where its ids are not in use, a trigger opens a case or attaches to one; and a second trigger at
-- any time, with the same merchant and reference and anything else different, attaches to that same
-- case and changes nothing.
pub open_or_attach_absorbs :
    (now later : ℕ) (req again : OpenCaseRequest) (s : Store)
    → IsFresh req s
    → req.merchant_id ≡ again.merchant_id
    → req.external_ref ≡ again.external_ref
    → Absorbed now req later again s
unfolding open_or_attach
open_or_attach_absorbs now later req again s v merchant reference =
    let (obligations, o, upserted, found) = upserts req s v in
    let s1 : Store = record s { obligations = obligations } in
    let found' : find? (has_key again.merchant_id again.external_ref) obligations ≡ some o =
      subst (λ m. find? (has_key m again.external_ref) obligations ≡ some o) merchant
        (subst (λ x. find? (has_key req.merchant_id x) obligations ≡ some o) reference found) in
    elim (Option-cases (open_case o.id s.db.cases)) [
      | inr (c, e) ↦ (
        s1,
        c.id,
        true,
        ap (λ u. with_obligation u now req s) upserted
            ∙ ap (λ u. attach_or_open u now req o.id s1 s) e,
        attaches later again s1 o c found' e,
      )
      | inl e ↦
          let (c, e', same) = stays_open now o.id req s1 v.unlogged e in
          (
            opened_store now o.id req s1,
            req.case_id,
            false,
            ap (λ u. with_obligation u now req s) upserted ∙ opens now o.id req s1 s v.unlogged e,
            attaches later again (opened_store now o.id req s1) o c found' e'
                ∙ ap
                    (λ i.
                      opened (record { case_id = i; attached = true })
                        (opened_store now o.id req s1))
                    same,
          )
    ]
