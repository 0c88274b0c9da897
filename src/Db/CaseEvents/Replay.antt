-- ===== src/Db/CaseEvents/Replay.antt =====
-- The stored case is the replay of its log: an append, which reduces the whole log again, takes
-- exactly one step of the state machine from the stored case.
use razorpay_buildathon.Base.{
  ℕ, ◌+◌, ◌≡◌, refl, ap, ◌∙◌, inl, inr, String, true, false, ◌&&◌, some, List, [], ◌∷◌, ◌++◌, arith,
  ◌===◌, ===_refl, ◌==◌, any, All-filter, filter, find?, filter-append, sort, sort-snoc,
  find?-update_where, update_where, if◌then◌else◌,
}
use razorpay_buildathon.Base.Int.{pos, suc_ℤ, eq_ℤ, leb_ℤ}
use razorpay_buildathon.Core.StateMachine.{can_transition, is_terminal}
use razorpay_buildathon.Core.Events.{
  CaseEvent, StoredCaseEvent, CaseRevision, Reduced, reduce, reduce_from, reduce_all, next_revision,
  target_state, initial_revision, illegal_transition,
}
use razorpay_buildathon.Core.Events.Reduction.{Reduced-cases, reduce_from-append}
use razorpay_buildathon.Db.Tables.{CaseRow}
use razorpay_buildathon.Engine.Scheduler.{cancel_for_case}
use razorpay_buildathon.Db.CaseEvents.{
  Db, Appended, refused, is_case, of_case, read_all, project, advance, persist, after_reduce,
  append, replay,
}
use razorpay_buildathon.Db.CaseEvents.Numbering.{
  SeqBelow, RevisionsUpTo, no_duplicate, no_revision, SeqBelow-next, RevisionsUpTo-next,
}

-- A case row that shows the revision `r`, which its log reduces to.
pub record Projects (db : Db) (c : CaseRow) (r : CaseRevision) : Type 0 where
  pub stored : find? (is_case c.id) db.cases ≡ some c
  pub replayed : replay c.id db ≡ Reduced.ok r
  pub numbered : suc_ℤ r.reduced_through_seq ≡ pos c.next_seq
  pub seqs : SeqBelow c.id c.next_seq db.case_events
  pub revisions : RevisionsUpTo c.id r.revision db.case_revisions
  pub same_state : c.state ≡ r.state
  pub same_reason : c.terminal_reason ≡ r.terminal_reason

-- The event that an append stores.
abbrev pub stored_event : CaseRow → CaseEvent → String → ℕ → StoredCaseEvent
stored_event c event source at = record {
  case_id = c.id;
  seq = pos c.next_seq;
  event = event;
  source = source;
  occurred_at = at;
}

read_all-snoc :
    (id : String) (events : List StoredCaseEvent) (e : StoredCaseEvent) (n : ℕ)
    → of_case id e ≡ true
    → e.seq ≡ pos n
    → SeqBelow id n events
    → read_all id (events ++ e ∷ []) ≡ read_all id events ++ e ∷ []
unfolding read_all
read_all-snoc id events e n own q below =
    ap (sort (λ a b. leb_ℤ a.seq b.seq)) {y = filter (of_case id) events ++ e ∷ []}
      (filter-append (of_case id) events (e ∷ []) ∙ rw own)
    ∙ sort-snoc (λ a b. leb_ℤ a.seq b.seq) (filter (of_case id) events) e
        (rw q (
          All-filter
            (λ x. of_case id x ≡ true → (leb_ℤ x.seq (pos n) ≡ true) × (eq_ℤ x.seq (pos n) ≡ false))
            (λ x. leb_ℤ x.seq (pos n) ≡ true) (of_case id) events (λ x k t. (k t).0) below))

reduce_from-one : (r : CaseRevision) (e : StoredCaseEvent) → reduce_from r (e ∷ []) ≡ reduce r e
unfolding reduce_from
reduce_from-one r e = elim (Reduced-cases (reduce r e)) [ inl (x, p) ↦ rw p | inr (x, p) ↦ rw p ]

-- Reducing the log with one more event is one step from the revision that it reduced to.
reduce_all-snoc :
    (id : String) (log : List StoredCaseEvent) (e : StoredCaseEvent) (r : CaseRevision)
    → reduce_all id log ≡ Reduced.ok r
    → reduce_all id (log ++ e ∷ []) ≡ reduce r e
unfolding reduce_all
reduce_all-snoc id log e r h =
    reduce_from-append (initial_revision id) log (e ∷ []) ∙ rw h (reduce_from-one r e)

-- The tables with the event stored and its case's number advanced.
abbrev with_event : Db → CaseRow → StoredCaseEvent → Db
with_event db c e = record db {
  case_events = db.case_events ++ e ∷ [];
  cases = update_where (is_case c.id) advance db.cases;
}

-- An append, as one step of the reducer.
append-reduce :
    (db : Db) (c : CaseRow) (r : CaseRevision) (event : CaseEvent) (source : String) (at : ℕ)
    → Projects db c r
    → let e = stored_event c event source at in
      append c.id event source at db ≡ after_reduce (reduce r e) c.id at e (with_event db c e)
unfolding append replay
append-reduce db c r event source at v =
    let e = stored_event c event source at in
    rw (v.stored, no_duplicate c.id c.next_seq db.case_events v.seqs)
      (rw (read_all-snoc c.id db.case_events e c.next_seq (===_refl c.id) refl v.seqs)
        (rw (reduce_all-snoc c.id (read_all c.id db.case_events) e r v.replayed)))

-- The case row after an append that reaches the revision `r`.
abbrev pub row_after : CaseRow → CaseRevision → ℕ → CaseRow
row_after c r at = project r at (advance c)

-- The tables after an append that reaches the revision `r`.
abbrev pub db_after : Db → CaseRow → StoredCaseEvent → CaseRevision → ℕ → Db
db_after db c e r at = record db {
  case_events = db.case_events ++ e ∷ [];
  case_revisions =
      db.case_revisions
      ++ record { case_id = c.id; revision = r.revision; state_json = r; created_at = at } ∷ [];
  cases = update_where (is_case c.id) (project r at) (update_where (is_case c.id) advance db.cases);
  schedule = if is_terminal r.state then (cancel_for_case at c.id db.schedule).0 else db.schedule;
}

reduce_steps :
    (c : CaseRow) (r : CaseRevision) (event : CaseEvent) (source : String) (at : ℕ)
    → suc_ℤ r.reduced_through_seq ≡ pos c.next_seq
    → c.state ≡ r.state
    → can_transition c.state (target_state event c.state) ≡ true
    → reduce r (stored_event c event source at)
      ≡ Reduced.ok (next_revision r (stored_event c event source at))
unfolding reduce
reduce_steps c r event source at n e l = rw (← e, n) (rw l (ground arith))

reduce_refuses :
    (c : CaseRow) (r : CaseRevision) (event : CaseEvent) (source : String) (at : ℕ)
    → suc_ℤ r.reduced_through_seq ≡ pos c.next_seq
    → c.state ≡ r.state
    → can_transition c.state (target_state event c.state) ≡ false
    → reduce r (stored_event c event source at)
      ≡ Reduced.err (illegal_transition c.state (target_state event c.state))
unfolding reduce
reduce_refuses c r event source at n e l = rw (← e, n) (rw l (ground arith))

persist_stores :
    (at : ℕ) (e : StoredCaseEvent) (next : CaseRevision) (db : Db) (c : CaseRow)
    → any (λ v. (v.case_id === c.id) && (v.revision == next.revision)) db.case_revisions ≡ false
    → persist c.id at e next (with_event db c e) ≡ Appended.ok e next (db_after db c e next at)
unfolding persist
persist_stores at e next db c h = rw h

pub next_revision-revision :
    (r : CaseRevision) (e : StoredCaseEvent) → (next_revision r e).revision ≡ r.revision + 1
unfolding next_revision
next_revision-revision r e = refl

-- From a case row that shows its log's revision, an append of an event whose transition the state
-- machine allows from the row's state returns the next revision, and stores the event, the
-- revision and the row that shows it; if the new state is terminal, it also cancels what the
-- case still had scheduled.
pub append_legal :
    (db : Db) (c : CaseRow) (r : CaseRevision) (event : CaseEvent) (source : String) (at : ℕ)
    → Projects db c r
    → can_transition c.state (target_state event c.state) ≡ true
    → let e = stored_event c event source at in
      let next = next_revision r e in
      append c.id event source at db ≡ Appended.ok e next (db_after db c e next at)
append_legal db c r event source at v l =
    let e = stored_event c event source at in
    let next = next_revision r e in
    append-reduce db c r event source at v
    ∙ rw (reduce_steps c r event source at v.numbered v.same_state l) (
        persist_stores at e next db c (
          no_revision c.id r.revision next.revision db.case_revisions (next_revision-revision r e)
            v.revisions))

-- From a case row that shows its log's revision, an append of an event whose transition the state
-- machine forbids from the row's state throws the illegal transition, and so nothing is stored.
pub append_illegal :
    (db : Db) (c : CaseRow) (r : CaseRevision) (event : CaseEvent) (source : String) (at : ℕ)
    → Projects db c r
    → can_transition c.state (target_state event c.state) ≡ false
    → append c.id event source at db
      ≡ Appended.err (refused (illegal_transition c.state (target_state event c.state)))
append_illegal db c r event source at v l =
    append-reduce db c r event source at v
    ∙ rw (reduce_refuses c r event source at v.numbered v.same_state l)

-- After an append of a permitted event to a case whose row shows its log's revision, the case's
-- row shows the revision that was returned, which is again what its log replays to.
pub append-Projects :
    (db : Db) (c : CaseRow) (r : CaseRevision) (event : CaseEvent) (source : String) (at : ℕ)
    → Projects db c r
    → can_transition c.state (target_state event c.state) ≡ true
    → let e = stored_event c event source at in
      let next = next_revision r e in Projects (db_after db c e next at) (row_after c next at) next
unfolding replay next_revision
append-Projects db c r event source at v l =
    let e = stored_event c event source at in
    let next = next_revision r e in
    record {
      stored =
          find?-update_where (is_case c.id) (project next at)
            (update_where (is_case c.id) advance db.cases) (advance c) (λ a. refl)
            (find?-update_where (is_case c.id) advance db.cases c (λ a. refl) v.stored);
      replayed =
          ap (reduce_all c.id)
            (read_all-snoc c.id db.case_events e c.next_seq (===_refl c.id) refl v.seqs)
          ∙ reduce_all-snoc c.id (read_all c.id db.case_events) e r v.replayed
          ∙ reduce_steps c r event source at v.numbered v.same_state l;
      numbered = refl;
      seqs = SeqBelow-next c.id c.next_seq db.case_events e refl v.seqs;
      revisions =
          RevisionsUpTo-next c.id r.revision next.revision db.case_revisions _ refl (omega arith)
            v.revisions;
      same_state = refl;
      same_reason = refl;
    }
