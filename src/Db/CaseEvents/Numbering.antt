-- ===== src/Db/CaseEvents/Numbering.antt =====
-- The numbers of the events and of the revisions of a case.
use razorpay_buildathon.Base.{
  ℕ, suc, ◌≤◌, ◌+◌, ◌≡◌, refl, inl, inr, String, true, false, ◌&&◌, List, [], ◌∷◌, ◌++◌, arith,
  ◌===◌, ◌==◌, any, All, Bool-cases,
}
use razorpay_buildathon.Base.Int.{ℤ, pos, negsuc, eq_ℤ, leb_ℤ}
use razorpay_buildathon.Core.Events.{StoredCaseEvent}
use razorpay_buildathon.Db.Tables.{RevisionRow}
use razorpay_buildathon.Db.CaseEvents.{of_case}

-- The events of a case are below a number.
abbrev pub SeqBelow : String → ℕ → List StoredCaseEvent → Type 0
SeqBelow id n =
    All (λ e. of_case id e ≡ true → (leb_ℤ e.seq (pos n) ≡ true) × (eq_ℤ e.seq (pos n) ≡ false))

abbrev pub RevisionsUpTo : String → ℕ → List RevisionRow → Type 0
RevisionsUpTo id n = All (λ v. (v.case_id === id) ≡ true → v.revision ≤ n)

pub no_duplicate :
    (id : String) (n : ℕ) (events : List StoredCaseEvent)
    → SeqBelow id n events
    → any (λ e. of_case id e && eq_ℤ e.seq (pos n)) events ≡ false
no_duplicate id n [] h = refl
no_duplicate id n (e ∷ es) h = elim (Bool-cases (of_case id e)) [
  | inl t ↦ rw (t, (h.0 t).1) (no_duplicate id n es h.1)
  | inr f ↦ rw f (no_duplicate id n es h.1)
]

pub no_revision :
    (id : String) (n m : ℕ) (vs : List RevisionRow)
    → m ≡ n + 1
    → RevisionsUpTo id n vs
    → any (λ v. (v.case_id === id) && (v.revision == m)) vs ≡ false
no_revision id n m [] q h = refl
no_revision id n m (v ∷ vs) q h = elim (Bool-cases (v.case_id === id)) [
  | inl t ↦ let le = h.0 t in ground (arith, no_revision id n m vs q h.1)
  | inr f ↦ ground (arith, f, no_revision id n m vs q h.1)
]

-- The event after it is numbered for the next one.
pub SeqBelow-next :
    (id : String) (n : ℕ) (events : List StoredCaseEvent) (e : StoredCaseEvent)
    → e.seq ≡ pos n
    → SeqBelow id n events
    → SeqBelow id (suc n) (events ++ e ∷ [])
SeqBelow-next id n [] e q h = ((λ t. ground arith), tt)
SeqBelow-next id n (x ∷ xs) e q h =
    ((λ t. let b = h.0 t in below_next x.seq n b.0 b.1), SeqBelow-next id n xs e q h.1)
  where
    below_next :
        (a : ℤ) (m : ℕ)
        → leb_ℤ a (pos m) ≡ true
        → eq_ℤ a (pos m) ≡ false
        → (leb_ℤ a (pos (suc m)) ≡ true) × (eq_ℤ a (pos (suc m)) ≡ false)
    below_next (pos k) m l f = ground arith
    below_next (negsuc k) m l f = ground arith

pub RevisionsUpTo-next :
    (id : String) (n m : ℕ) (vs : List RevisionRow) (v : RevisionRow)
    → v.revision ≡ m
    → n ≤ m
    → RevisionsUpTo id n vs
    → RevisionsUpTo id m (vs ++ v ∷ [])
RevisionsUpTo-next id n m [] v q l h = ((λ t. omega arith), tt)
RevisionsUpTo-next id n m (x ∷ xs) v q l h =
    ((λ t. let b = h.0 t in omega arith), RevisionsUpTo-next id n m xs v q l h.1)
