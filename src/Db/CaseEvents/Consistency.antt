-- ===== src/Db/CaseEvents/Consistency.antt =====
-- The store as a whole: an append to one case leaves the others as they were.
use razorpay_buildathon.Base.{
  ℕ, ◌≤◌, ◌≡◌, ◌≢◌, refl, sym, ap, ◌∙◌, subst, inl, inr, String, true, false, Option, none, some,
  List, [], ◌∷◌, ◌++◌, arith, ◌===◌, ===_iff, filter, find?, find?-found, sort, update_where,
  All-append, Bool-cases, Option-cases, is_some,
}
use razorpay_buildathon.Base.Int.{pos, eq_ℤ, leb_ℤ}
use razorpay_buildathon.Core.StateMachine.{can_transition}
use razorpay_buildathon.Core.Events.{
  CaseEvent, StoredCaseEvent, CaseRevision, reduce_all, next_revision, next_reason, target_state,
}
use razorpay_buildathon.Db.Tables.{CaseRow}
use razorpay_buildathon.Db.CaseEvents.{
  Db, Appended, no_case, is_case, of_case, read_all, project, advance, append, replay,
}
use razorpay_buildathon.Db.CaseEvents.Replay.{
  Projects, stored_event, row_after, db_after, append_legal, append_illegal, append-Projects,
}

-- The other columns of a case row that shows a revision: its tier and incident are the revision's,
-- and it has a closing time exactly if the revision has a terminal reason.
pub record ShowsRest (c : CaseRow) (r : CaseRevision) : Type 0 where
  pub same_tier : c.tier ≡ r.tier
  pub same_incident : c.incident_id ≡ r.incident_id
  pub same_closing : is_some c.closed_at ≡ is_some r.terminal_reason

next_reason-keeps :
    (e : CaseEvent) (before : Option String)
    → is_some (next_reason e before) ≡ false
    → is_some before ≡ false
next_reason-keeps e before h = ground arith

row_after-ShowsRest :
    (c : CaseRow) (r : CaseRevision) (e : StoredCaseEvent) (at : ℕ)
    → ShowsRest c r
    → ShowsRest (row_after c (next_revision r e) at) (next_revision r e)
unfolding next_revision
row_after-ShowsRest c r e at v = record {
  same_tier = refl;
  same_incident = refl;
  same_closing = ground (arith, v.same_closing, next_reason-keeps e.event r.terminal_reason);
}

-- Every case row shows, in each column that the store projects, what the log of its case reduces to.
abbrev pub Consistent : Db → Type 0
Consistent db =
    (id : String) (c : CaseRow)
    → find? (is_case id) db.cases ≡ some c
    → (r : CaseRevision) × Projects db c r × ShowsRest c r

find-other_case :
    (i j : String) (f : CaseRow → CaseRow) (cases : List CaseRow)
    → ((c : CaseRow) → (f c).id ≡ c.id)
    → i ≢ j
    → find? (is_case j) (update_where (is_case i) f cases) ≡ find? (is_case j) cases
find-other_case i j f [] keeps ne = refl
find-other_case i j f (c ∷ cs) keeps ne =
    ground (arith, ===_iff c.id i, ===_iff c.id j, keeps c, find-other_case i j f cs keeps ne)

pub filter-other :
    (j : String) (es : List StoredCaseEvent) (e : StoredCaseEvent)
    → of_case j e ≡ false
    → filter (of_case j) (es ++ e ∷ []) ≡ filter (of_case j) es
filter-other j [] e h = rw h refl
filter-other j (x ∷ xs) e h = ground (arith, filter-other j xs e h)

-- What an append to the case `c` leaves of another case.
Projects-other :
    (db : Db) (c d : CaseRow) (r s : CaseRevision) (event : CaseEvent) (source : String) (at : ℕ)
    → c.id ≢ d.id
    → Projects db d s
    → Projects (db_after db c (stored_event c event source at) r at) d s
unfolding replay read_all
Projects-other db c d r s event source at ne v =
    let e = stored_event c event source at in
    let elsewhere : of_case d.id e ≡ false = ground (arith, ===_iff c.id d.id) in
    record {
      stored =
          find-other_case c.id d.id (project r at) (update_where (is_case c.id) advance db.cases)
            (λ a. refl) ne
          ∙ find-other_case c.id d.id advance db.cases (λ a. refl) ne
          ∙ v.stored;
      replayed =
          ap (λ es. reduce_all d.id (sort (λ a b. leb_ℤ a.seq b.seq) es))
            (filter-other d.id db.case_events e elsewhere)
          ∙ v.replayed;
      numbered = v.numbered;
      seqs =
          All-append
            (λ x.
              of_case d.id x ≡ true
              → (leb_ℤ x.seq (pos d.next_seq) ≡ true) × (eq_ℤ x.seq (pos d.next_seq) ≡ false))
            db.case_events (e ∷ []) v.seqs ((λ t. absurd (ground arith)), tt);
      revisions =
          All-append (λ w. (w.case_id === d.id) ≡ true → w.revision ≤ s.revision) db.case_revisions
            _ v.revisions ((λ t. absurd (ground arith)), tt);
      same_state = v.same_state;
      same_reason = v.same_reason;
    }

pub find-same_case :
    (id : String) (cases : List CaseRow) (c : CaseRow)
    → find? (is_case id) cases ≡ some c
    → c.id ≡ id
find-same_case id cases c h = (===_iff c.id id).0 (find?-found (is_case id) cases h)

same_row : (c d : CaseRow) {o : Option CaseRow} → o ≡ some c → o ≡ some d → c ≡ d
same_row c d p q = ground (arith)

db_after-Consistent :
    (db : Db) (c : CaseRow) (r : CaseRevision) (event : CaseEvent) (source : String) (at : ℕ)
    → Consistent db
    → Projects db c r
    → ShowsRest c r
    → can_transition c.state (target_state event c.state) ≡ true
    → Consistent (
        db_after db c
          (stored_event c event source at)
          (next_revision r (stored_event c event source at))
          at)
db_after-Consistent db c r event source at all v rest l id d found =
    let e = stored_event c event source at in
    let next = next_revision r e in
    elim (Bool-cases (c.id === id)) [
      | inl same ↦
          let w = append-Projects db c r event source at v l in
          let row = same_row (row_after c next at) d (w.stored) (
            subst (λ j. find? (is_case j) (db_after db c e next at).cases ≡ some d)
              (sym ((===_iff c.id id).0 same)) found) in
          (
            next,
            subst (λ x. Projects (db_after db c e next at) x next) row w,
            subst (λ x. ShowsRest x next) row (row_after-ShowsRest c r e at rest),
          )
      | inr other ↦
          let ne : c.id ≢ id = (λ q. absurd (ground (arith, ===_iff c.id id))) in
          let before : find? (is_case id) db.cases ≡ some d =
            sym (
              find-other_case c.id id (project next at)
                (update_where (is_case c.id) advance db.cases) (λ a. refl) ne
              ∙ find-other_case c.id id advance db.cases (λ a. refl) ne)
            ∙ found in
          let (s, w, kept) = all id d before in
          (
            s,
            Projects-other db c d next s event source at
                (λ q. ne (q ∙ find-same_case id db.cases d before)) w,
            kept,
          )
    ]

-- What the store returned, or that it threw.
abbrev pub Stored : Appended → Type 0
Stored (Appended.ok e r db) = Consistent db
Stored (Appended.err x) = Unit {0}

pub append-missing :
    (db : Db) (id : String) (event : CaseEvent) (source : String) (at : ℕ)
    → find? (is_case id) db.cases ≡ none
    → append id event source at db ≡ Appended.err (no_case id)
unfolding append
append-missing db id event source at h = rw h refl

-- From a store whose case rows all show what their logs reduce to, in state, tier, incident and
-- terminal reason, with a closing time exactly where there is a reason, an append of any event to
-- any case either throws or leaves such a store.
pub append-Consistent :
    (db : Db) (id : String) (event : CaseEvent) (source : String) (at : ℕ)
    → Consistent db
    → Stored (append id event source at db)
append-Consistent db id event source at all = elim (Option-cases (find? (is_case id) db.cases)) [
  | inl e ↦ rw (append-missing db id event source at e) tt
  | inr (c, e) ↦
      let (r, v, rest) = all id c e in
      subst (λ j. Stored (append j event source at db)) (find-same_case id db.cases c e)
        (elim (Bool-cases (can_transition c.state (target_state event c.state))) [
          | inl l ↦
              subst Stored (sym (append_legal db c r event source at v l))
                (db_after-Consistent db c r event source at all v rest l)
          | inr f ↦ subst Stored (sym (append_illegal db c r event source at v f)) tt
        ])
]
