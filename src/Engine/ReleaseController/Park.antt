-- ===== src/Engine/ReleaseController/Park.antt =====
-- What a release does to the members of an incident.
use razorpay_buildathon.Base.{
  length-sort, ℕ, ◌≤◌, ◌<◌, ◌≡◌, refl, sym, ◌∙◌, subst, ◌⊎◌, inl, inr, String, Bool, true, false,
  ◌&&◌, ◌||◌, List, [], ◌∷◌, arith, ◌===◌, ===_refl, ===_iff, any, any-sort, any-filter, any-map,
  any-ext, All, All-imp, count, map, filter, length, Bool-cases,
}
use razorpay_buildathon.Base.Order.{TextOrder}
use razorpay_buildathon.Core.Events.{StoredCaseEvent, CaseRevision, incident_released}
use razorpay_buildathon.Db.CaseEvents.{Db, Appended, AppendError, append}
use razorpay_buildathon.Engine.Incident.{
  IncidentRow, MemberRow, World, Outcome, is_parked, is_one_of, mark_released, parked_cases,
  release, resume_each, then_do, live_ids,
}

length-parked :
    (id : String) (members : List MemberRow)
    → length (map (λ m. m.case_id) (filter (is_parked id) members)) ≡ count (is_parked id) members
length-parked id [] = refl
length-parked id (m ∷ ms) = ground (arith, length-parked id ms)

pub parked_cases-length :
    (order : TextOrder) (id : String) (members : List MemberRow)
    → length (parked_cases order id members) ≡ count (is_parked id) members
unfolding parked_cases
parked_cases-length order id members =
    length-sort order.before (map (λ m. m.case_id) (filter (is_parked id) members))
    ∙ length-parked id members

count-marked :
    (now : ℕ) (id : String) (slice : List String) (members : List MemberRow)
    → count (is_parked id) (mark_released now id slice members) ≤ count (is_parked id) members
count-marked now id slice [] = omega arith
count-marked now id slice (m ∷ ms) = ground (arith, count-marked now id slice ms)

pub count-marked_less :
    (now : ℕ) (id : String) (slice : List String) (members : List MemberRow)
    → any (λ m. is_parked id m && is_one_of slice m.case_id) members ≡ true
    → count (is_parked id) (mark_released now id slice members) < count (is_parked id) members
count-marked_less now id slice [] h = absurd (ground arith)
count-marked_less now id slice (m ∷ ms) h =
    ground (arith, count-marked now id slice ms, count-marked_less now id slice ms)

pub count-marked_all :
    (now : ℕ) (id : String) (slice : List String) (members : List MemberRow)
    → All (λ m. is_parked id m ≡ true → is_one_of slice m.case_id ≡ true) members
    → count (is_parked id) (mark_released now id slice members) ≡ 0
count-marked_all now id slice [] h = refl
count-marked_all now id slice (m ∷ ms) (h, hs) = ground (arith, count-marked_all now id slice ms hs)

and_comm : (a b : Bool) → (a && b) ≡ (b && a)
and_comm true true = refl
and_comm true false = refl
and_comm false true = refl
and_comm false false = refl

or-right : (a b : Bool) → b ≡ true → (a || b) ≡ true
or-right true b h = refl
or-right false b h = h

parked_cases-any :
    (order : TextOrder) (id x : String) (members : List MemberRow)
    → is_one_of (parked_cases order id members) x
      ≡ any (λ m. is_parked id m && (m.case_id === x)) members
unfolding parked_cases
parked_cases-any order id x members =
    any-sort (λ i. i === x) order.before (map (λ m. m.case_id) (filter (is_parked id) members))
    ∙ any-map (λ m. m.case_id) (λ i. i === x) (filter (is_parked id) members)
    ∙ any-filter (λ m. m.case_id === x) (is_parked id) members
    ∙ any-ext _ _ members (λ m. and_comm (m.case_id === x) (is_parked id m))

all_seen :
    (id : String) (members : List MemberRow)
    → All
        (λ m.
          is_parked id m ≡ true
          → any (λ n. is_parked id n && (n.case_id === m.case_id)) members ≡ true)
        members
all_seen id [] = tt
all_seen id (m ∷ ms) = (
  (λ p. rw (p, ===_refl m.case_id) refl),
  All-imp
      (λ k.
        is_parked id k ≡ true → any (λ n. is_parked id n && (n.case_id === k.case_id)) ms ≡ true)
      (λ k.
        is_parked id k ≡ true
        → any (λ n. is_parked id n && (n.case_id === k.case_id)) (m ∷ ms) ≡ true)
      ms (λ k h p. or-right (is_parked id m && (m.case_id === k.case_id)) _ (h p)) (all_seen id ms),
)

-- An outcome that leaves the members and the incidents as given.
abbrev pub Keeps : List MemberRow → List IncidentRow → Outcome (Unit {0}) → Type 0
Keeps ms is (Outcome.ok _ w) = (w.members ≡ ms) × (w.incidents ≡ is)
Keeps ms is (Outcome.thrown e w) = (w.members ≡ ms) × (w.incidents ≡ is)

appended-cases :
    (a : Appended)
    → ((e : StoredCaseEvent) × (r : CaseRevision) × (db : Db) × (a ≡ Appended.ok e r db))
      ⊎ ((x : AppendError) × (a ≡ Appended.err x))
appended-cases (Appended.ok e r db) = inl (e, r, db, refl)
appended-cases (Appended.err x) = inr (x, refl)

resume_each-Keeps :
    (now : ℕ) (id : String) (live ids : List String) (w : World)
    → Keeps w.members w.incidents (resume_each now id live ids w)
unfolding resume_each
resume_each-Keeps now id live [] w = (refl, refl)
resume_each-Keeps now id live (x ∷ xs) w = elim (Bool-cases (is_one_of live x)) [
  | inr dead ↦ rw (dead, resume_each) (resume_each-Keeps now id live xs w)
  | inl alive ↦
      elim (appended-cases (append x (incident_released id) "release_controller" now w.db)) [
        | inl (e, r, db, q) ↦
            rw (alive, resume_each, q) (resume_each-Keeps now id live xs (record w { db = db }))
        | inr (y, q) ↦ rw (alive, resume_each, q) (refl, refl)
      ]
]

then-Keeps :
    (ms : List MemberRow) (is : List IncidentRow) (f : World → World) (o : Outcome (Unit {0}))
    → ((w : World) → ((f w).members ≡ w.members) × ((f w).incidents ≡ w.incidents))
    → Keeps ms is o
    → Keeps ms is (then_do o (λ _ w. Outcome.ok tt (f w)))
then-Keeps ms is f (Outcome.ok u w) k (h, j) = ((k w).0 ∙ h, (k w).1 ∙ j)
then-Keeps ms is f (Outcome.thrown e w) k h = h

-- Whether a release returns or throws, the members of its slice are marked.
pub release-Keeps :
    (now : ℕ) (id x : String) (xs : List String) (w : World)
    → Keeps (mark_released now id (x ∷ xs) w.members) w.incidents (release now id (x ∷ xs) w)
unfolding release
release-Keeps now id x xs w =
    then-Keeps (mark_released now id (x ∷ xs) w.members) w.incidents _ _ (λ v. (refl, refl))
      (resume_each-Keeps now id (live_ids (x ∷ xs) w.db.cases) (x ∷ xs)
        (record w { members = mark_released now id (x ∷ xs) w.members }))

any_mono :
    {A : Type 0} (p q : A → Bool) (xs : List A)
    → ((a : A) → p a ≡ true → q a ≡ true)
    → any p xs ≡ true
    → any q xs ≡ true
any_mono p q [] f h = h
any_mono p q (x ∷ xs) f h = ground (arith, f x, any_mono p q xs f)

pub some_in :
    (order : TextOrder) (id x : String) (xs ys : List String) (members : List MemberRow)
    → parked_cases order id members ≡ x ∷ xs
    → any (λ m. is_parked id m && is_one_of (x ∷ ys) m.case_id) members ≡ true
some_in order id x xs ys members e =
    any_mono (λ m. is_parked id m && (m.case_id === x))
      (λ m. is_parked id m && is_one_of (x ∷ ys) m.case_id) members
      (λ m h. ground (arith, ===_iff m.case_id x, ===_iff x m.case_id))
      (sym (parked_cases-any order id x members) ∙ rw (e, ===_refl x) refl)

pub all_in :
    (order : TextOrder) (id : String) (slice : List String) (members : List MemberRow)
    → parked_cases order id members ≡ slice
    → All (λ m. is_parked id m ≡ true → is_one_of slice m.case_id ≡ true) members
all_in order id slice members e =
    All-imp
      (λ m.
        is_parked id m ≡ true
        → any (λ n. is_parked id n && (n.case_id === m.case_id)) members ≡ true)
      (λ m. is_parked id m ≡ true → is_one_of slice m.case_id ≡ true) members
      (λ m h p.
        subst (λ l. is_one_of l m.case_id ≡ true) e
          (parked_cases-any order id m.case_id members ∙ h p))
      (all_seen id members)
