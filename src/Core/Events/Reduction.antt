-- ===== src/Core/Events/Reduction.antt =====
-- How the reducer folds a log: its steps, and the replay of a log that was cut in two.
use razorpay_buildathon.Base.{◌≡◌, refl, subst, ◌⊎◌, inl, inr, true, List, [], ◌∷◌, ◌++◌, arith}
use razorpay_buildathon.Base.Int.{suc_ℤ, eq_ℤ}
use razorpay_buildathon.Core.StateMachine.{can_transition}
use razorpay_buildathon.Core.Events.{
  CaseRevision, StoredCaseEvent, ReduceError, Reduced, ok, err, target_state, next_revision, reduce,
  reduce_from, and_then,
}

pub Reduced-cases :
    (x : Reduced) → ((r : CaseRevision) × (x ≡ ok r)) ⊎ ((e : ReduceError) × (x ≡ err e))
Reduced-cases (ok r) = inl (r, refl)
Reduced-cases (err e) = inr (e, refl)

pub reduce-in_order :
    (prev : CaseRevision) (e : StoredCaseEvent) (next : CaseRevision)
    → reduce prev e ≡ ok next
    → eq_ℤ e.seq (suc_ℤ prev.reduced_through_seq) ≡ true
unfolding reduce
reduce-in_order prev e next h = ground arith

pub reduce-legal :
    (prev : CaseRevision) (e : StoredCaseEvent) (next : CaseRevision)
    → reduce prev e ≡ ok next
    → can_transition prev.state (target_state e.event prev.state) ≡ true
unfolding reduce
reduce-legal prev e next h = ground arith

pub reduce-next :
    (prev : CaseRevision) (e : StoredCaseEvent) (next : CaseRevision)
    → reduce prev e ≡ ok next
    → next ≡ next_revision prev e
unfolding reduce
reduce-next prev e next h = ground arith

abbrev pub then_from : Reduced → List StoredCaseEvent → Reduced
then_from x es = and_then x (λ r. reduce_from r es)

-- Replaying a log that was cut anywhere, the second part from the revision that the first one
-- reached, gives the same revision, or the same error, as replaying it whole.
pub reduce_from-append :
    (prev : CaseRevision) (xs ys : List StoredCaseEvent)
    → reduce_from prev (xs ++ ys) ≡ then_from (reduce_from prev xs) ys
unfolding reduce_from
reduce_from-append prev [] ys = refl
reduce_from-append prev (x ∷ xs) ys = elim (Reduced-cases (reduce prev x)) [
  | inl (r, e) ↦ rw e (reduce_from-append r xs ys)
  | inr (x', e) ↦ rw e
]

-- A fold that succeeds has a first step that succeeds.
pub reduce_from-cons :
    (prev : CaseRevision) (e : StoredCaseEvent) (es : List StoredCaseEvent) (r : CaseRevision)
    → reduce_from prev (e ∷ es) ≡ ok r
    → (next : CaseRevision) × (reduce prev e ≡ ok next) × (reduce_from next es ≡ ok r)
unfolding reduce_from
reduce_from-cons prev e es r h = elim (Reduced-cases (reduce prev e)) [
  | inl (next, p) ↦ (next, p, rw p at h)
  | inr (x, p) ↦ absurd (ground arith)
]

-- A property that each step keeps holds at the end of the fold.
pub reduce_from-keeps {ℓ} :
    (P : CaseRevision → Type ℓ)
    → ((prev : CaseRevision) (e : StoredCaseEvent) (next : CaseRevision)
        → reduce prev e ≡ ok next
        → P prev
        → P next)
    → (es : List StoredCaseEvent) (prev r : CaseRevision) → reduce_from prev es ≡ ok r
    → P prev
    → P r
unfolding reduce_from
reduce_from-keeps P step [] prev r h p = subst P (cc) p
reduce_from-keeps P step (e ∷ es) prev r h p =
    let (next, q, rest) = reduce_from-cons prev e es r h in
    reduce_from-keeps P step es next r rest (step prev e next q p)
