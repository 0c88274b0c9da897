-- ===== src/Sim/Replay/Checks.antt =====
-- What the replay verifier finds of one case whose latest revision is what its log reduces to.
use razorpay_buildathon.Base.{
  String, Bool, true, false, Option, none, some, List, [], ◌∷◌, ===_refl, ◌≡◌, refl, arith, sort,
  any, any-sort, filter, ◌&&◌, ap, ◌∙◌, is_some,
}
use razorpay_buildathon.Base.Int.{leb_ℤ}
use razorpay_buildathon.Core.Events.{StoredCaseEvent, CaseRevision, Reduced, reduce_all}
use razorpay_buildathon.Db.Tables.{CaseRow, RevisionRow}
use razorpay_buildathon.Db.CaseEvents.{Db, of_case, replay, read_all}
use razorpay_buildathon.Sim.Replay.{
  RevisionCheck, unchecked, reproduced, differs, first, newest_first, latest_revision, same_text,
  same_revision, check_log, check_revision, revision_of,
}
use razorpay_buildathon.Sim.Replay.Reproduction.{LatestShows}

same_text_refl : (t : Option String) → same_text t t ≡ true
same_text_refl none = refl
same_text_refl (some t) = ===_refl t

same_revision_refl : (r : CaseRevision) → same_revision r r ≡ true
same_revision_refl r = ground (arith, same_text_refl r.terminal_reason)

abbrev pub is_difference : RevisionCheck → Bool
is_difference unchecked = false
is_difference reproduced = false
is_difference differs = true

abbrev pub is_reproduced : RevisionCheck → Bool
is_reproduced unchecked = false
is_reproduced reproduced = true
is_reproduced differs = false

-- A case has an event in its log and a stored revision.
abbrev pub has_both : Db → CaseRow → Bool
has_both db c = any (of_case c.id) db.case_events && any (revision_of c.id) db.case_revisions

-- A case that the verifier does not find to differ, and finds reproduced if it has a log and a
-- revision.
abbrev pub Reproduces : Db → CaseRow → Type 0
Reproduces db c =
    (v : RevisionCheck) × (check_revision c.id db ≡ some v)
    × (is_difference v ≡ false)
    × (is_reproduced v ≡ has_both db c)

-- A list has an element.
abbrev inhabited {ℓ} : {A : Type ℓ} → List A → Bool
inhabited xs = any (λ x. true) xs

inhabited-filter {ℓ} :
    {A : Type ℓ} (p : A → Bool) (xs : List A) → inhabited (filter p xs) ≡ any p xs
inhabited-filter p [] = refl
inhabited-filter p (x ∷ xs) = ground (arith, inhabited-filter p xs)

inhabited-sorted {ℓ} :
    {A : Type ℓ} (before : A → A → Bool) (p : A → Bool) (xs : List A)
    → inhabited (sort before (filter p xs)) ≡ any p xs
inhabited-sorted before p xs = any-sort (λ x. true) before (filter p xs) ∙ inhabited-filter p xs

check_log-reproduces :
    (id : String) (es : List StoredCaseEvent) (stored : Option RevisionRow) (r : CaseRevision)
    → reduce_all id es ≡ Reduced.ok r
    → ((row : RevisionRow) → stored ≡ some row → row.state_json ≡ r)
    → (v : RevisionCheck) × (check_log id es stored ≡ some v)
      × (is_difference v ≡ false)
      × (is_reproduced v ≡ (inhabited es && is_some stored))
check_log-reproduces id [] stored r h k = (unchecked, refl, refl, refl)
check_log-reproduces id (e ∷ es) none r h k = (unchecked, refl, refl, refl)
check_log-reproduces id (e ∷ es) (some row) r h k =
    (reproduced, rw (h, k row refl, same_revision_refl r) refl, refl, refl)

is_some-first : (rows : List RevisionRow) → is_some (first rows) ≡ inhabited rows
is_some-first [] = refl
is_some-first (r ∷ rows) = refl

latest-inhabited :
    (id : String) (rows : List RevisionRow)
    → is_some (latest_revision id rows) ≡ any (revision_of id) rows
unfolding latest_revision
latest-inhabited id rows =
    is_some-first (sort newest_first (filter (revision_of id) rows))
    ∙ inhabited-sorted newest_first (revision_of id) rows

log-inhabited :
    (id : String) (es : List StoredCaseEvent) → inhabited (read_all id es) ≡ any (of_case id) es
unfolding read_all
log-inhabited id es = inhabited-sorted (λ a b. leb_ℤ a.seq b.seq) (of_case id) es

pub check_revision-Reproduces :
    (db : Db) (c : CaseRow) (r : CaseRevision)
    → replay c.id db ≡ Reduced.ok r
    → LatestShows db
    → Reproduces db c
unfolding check_revision replay
check_revision-Reproduces db c r h shows =
    let (v, e, d, same) =
      check_log-reproduces c.id (read_all c.id db.case_events)
        (latest_revision c.id db.case_revisions) r h (λ row e. shows c.id r row h e) in
    (
      v,
      e,
      d,
      same
          ∙ ap (λ b. b && is_some (latest_revision c.id db.case_revisions))
              (log-inhabited c.id db.case_events)
          ∙ ap (λ b. any (of_case c.id) db.case_events && b)
              (latest-inhabited c.id db.case_revisions),
    )
