-- ===== src/Sim/Replay/Reproduction.antt =====
-- The replay verifier reproduces every revision that the event store wrote.
use razorpay_buildathon.Base.{
  ℕ, ◌<◌, String, true, false, Option, some, List, [], ◌∷◌, ◌++◌, ◌===◌, ===_iff, ===_refl, ◌≡◌,
  refl, sym, ap, ◌∙◌, subst, inl, inr, arith, filter, sort, insert, All, find?, Bool-cases,
  Option-cases,
}
use razorpay_buildathon.Base.Int.{leb_ℤ}
use razorpay_buildathon.Core.StateMachine.{can_transition}
use razorpay_buildathon.Core.Events.{
  CaseEvent, CaseRevision, Reduced, reduce_all, target_state, next_revision,
}
use razorpay_buildathon.Db.Tables.{CaseRow, RevisionRow}
use razorpay_buildathon.Db.CaseEvents.{Db, Appended, append, is_case, replay, read_all}
use razorpay_buildathon.Db.CaseEvents.Numbering.{RevisionsUpTo}
use razorpay_buildathon.Db.CaseEvents.Replay.{
  Projects, stored_event, db_after, append_legal, append_illegal, append-Projects,
  next_revision-revision,
}
use razorpay_buildathon.Db.CaseEvents.Consistency.{
  Consistent, append-Consistent, append-missing, filter-other, find-same_case, Stored,
}
use razorpay_buildathon.Sim.Replay.{newest_first, revision_of, latest_revision}

-- The latest revision that is stored of a case is what its log reduces to.
abbrev pub LatestShows : Db → Type 0
LatestShows db =
    (id : String) (r : CaseRevision) (row : RevisionRow)
    → replay id db ≡ Reduced.ok r
    → latest_revision id db.case_revisions ≡ some row
    → row.state_json ≡ r

newest_last :
    (xs : List RevisionRow) (n : RevisionRow)
    → All (λ v. v.revision < n.revision) xs
    → (rest : List RevisionRow) × (sort newest_first (xs ++ n ∷ []) ≡ n ∷ rest)
newest_last [] n h = ([], refl)
newest_last (x ∷ xs) n (h, hs) =
    let (rest, e) = newest_last xs n hs in (insert newest_first x rest, rw e (ground (arith, h)))

below_filtered :
    (id : String) (m n : ℕ) (vs : List RevisionRow)
    → m < n
    → RevisionsUpTo id m vs
    → All (λ v. v.revision < n) (filter (revision_of id) vs)
below_filtered id m n [] l h = tt
below_filtered id m n (v ∷ vs) l (h, hs) = elim (Bool-cases (revision_of id v)) [
  | inl e ↦ rw e ((let k = h e in omega arith), below_filtered id m n vs l hs)
  | inr e ↦ rw e (below_filtered id m n vs l hs)
]

filter_own :
    (id : String) (vs : List RevisionRow) (n : RevisionRow)
    → revision_of id n ≡ true
    → filter (revision_of id) (vs ++ n ∷ []) ≡ filter (revision_of id) vs ++ n ∷ []
filter_own id [] n h = rw h refl
filter_own id (v ∷ vs) n h = ground (arith, filter_own id vs n h)

filter_others :
    (id : String) (vs : List RevisionRow) (n : RevisionRow)
    → revision_of id n ≡ false
    → filter (revision_of id) (vs ++ n ∷ []) ≡ filter (revision_of id) vs
filter_others id [] n h = rw h refl
filter_others id (v ∷ vs) n h = ground (arith, filter_others id vs n h)

latest-own :
    (id : String) (m : ℕ) (vs : List RevisionRow) (n : RevisionRow)
    → revision_of id n ≡ true
    → m < n.revision
    → RevisionsUpTo id m vs
    → latest_revision id (vs ++ n ∷ []) ≡ some n
unfolding latest_revision
latest-own id m vs n own l h =
    let (rest, e) =
      newest_last (filter (revision_of id) vs) n (below_filtered id m n.revision vs l h) in
    rw (filter_own id vs n own) (rw e refl)

latest-other :
    (id : String) (vs : List RevisionRow) (n : RevisionRow)
    → revision_of id n ≡ false
    → latest_revision id (vs ++ n ∷ []) ≡ latest_revision id vs
unfolding latest_revision
latest-other id vs n other = rw (filter_others id vs n other) refl

replay-other :
    (db : Db) (c : CaseRow) (r : CaseRevision) (event : CaseEvent) (source : String) (at : ℕ)
    (j : String)
    → (c.id === j) ≡ false
    → replay j (db_after db c (stored_event c event source at) r at) ≡ replay j db
unfolding replay read_all
replay-other db c r event source at j h =
    ap (λ es. reduce_all j (sort (λ a b. leb_ℤ a.seq b.seq) es))
      (filter-other j db.case_events (stored_event c event source at) h)

same_reduced : (r s : CaseRevision) {o : Reduced} → o ≡ Reduced.ok r → o ≡ Reduced.ok s → r ≡ s
same_reduced r s p q = ground arith

same_row : (v w : RevisionRow) {o : Option RevisionRow} → o ≡ some v → o ≡ some w → v ≡ w
same_row v w p q = ground arith

db_after-LatestShows :
    (db : Db) (c : CaseRow) (r : CaseRevision) (event : CaseEvent) (source : String) (at : ℕ)
    → Projects db c r
    → can_transition c.state (target_state event c.state) ≡ true
    → LatestShows db
    → LatestShows (
        db_after db c
          (stored_event c event source at)
          (next_revision r (stored_event c event source at))
          at)
db_after-LatestShows db c r event source at v l shows j s row replayed latest =
    let e = stored_event c event source at in
    let next = next_revision r e in
    let new : RevisionRow = record {
      case_id = c.id;
      revision = next.revision;
      state_json = next;
      created_at = at;
    } in
    elim (Bool-cases (c.id === j)) [
      | inl same ↦
          let k : c.id ≡ j = (===_iff c.id j).0 same in
          let w = append-Projects db c r event source at v l in
          let own =
            latest-own c.id r.revision db.case_revisions new (===_refl c.id)
              (omega (arith, next_revision-revision r e)) v.revisions in
          let state : next ≡ s =
            same_reduced next s w.replayed
              (subst (λ i. replay i (db_after db c e next at) ≡ Reduced.ok s) (sym k) replayed) in
          let stored : new ≡ row = same_row new row own (
            subst (λ i. latest_revision i (db.case_revisions ++ new ∷ []) ≡ some row) (sym k)
              latest) in
          ap (λ x. x.state_json) (sym stored) ∙ state
      | inr other ↦
          shows j s row (sym (replay-other db c next event source at j other) ∙ replayed)
            (sym (latest-other j db.case_revisions new other) ∙ latest)
    ]

-- The store after a call, which a call that throws leaves alone.
abbrev pub stored_db : Appended → Db → Db
stored_db (Appended.ok e r db) before = db
stored_db (Appended.err x) before = before

-- Both invariants of the store.
abbrev pub Reproducible : Db → Type 0
Reproducible db = Consistent db × LatestShows db

stored_db-Consistent :
    (a : Appended) (db : Db) → Stored a → Consistent db → Consistent (stored_db a db)
stored_db-Consistent (Appended.ok e r db') db s v = s
stored_db-Consistent (Appended.err x) db s v = v

pub append-Reproducible :
    (db : Db) (id : String) (event : CaseEvent) (source : String) (at : ℕ)
    → Reproducible db
    → Reproducible (stored_db (append id event source at db) db)
append-Reproducible db id event source at (v, shows) = (
  stored_db-Consistent (append id event source at db) db (append-Consistent db id event source at v)
      v,
  elim (Option-cases (find? (is_case id) db.cases)) [
    | inl e ↦
        subst (λ a. LatestShows (stored_db a db)) (sym (append-missing db id event source at e))
          shows
    | inr (c, e) ↦
        let (r, w, shown) = v id c e in
        subst (λ j. LatestShows (stored_db (append j event source at db) db))
          (find-same_case id db.cases c e)
          (elim (Bool-cases (can_transition c.state (target_state event c.state))) [
            | inl l ↦
                subst (λ a. LatestShows (stored_db a db))
                  (sym (append_legal db c r event source at w l))
                  (db_after-LatestShows db c r event source at w l shows)
            | inr f ↦
                subst (λ a. LatestShows (stored_db a db))
                  (sym (append_illegal db c r event source at w f)) shows
          ])
  ],
)
