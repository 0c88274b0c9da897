-- ===== src/Core/Events/Counters.antt =====
-- What a revision counts of the log that it was reduced from.
use razorpay_buildathon.Base.{
  ℕ, zero, suc, ◌+◌, ◌≡◌, refl, Bool, true, false, ◌||◌, some, List, [], ◌∷◌, ◌++◌, arith, length,
  count, get_elem?, any, String, if◌then◌else◌, Bool-cases, inl, inr,
}
use razorpay_buildathon.Base.Int.{ℤ, pos, negsuc, suc_ℤ, eq_ℤ_iff}
use razorpay_buildathon.Core.Types.{EvidenceKind, same_kind, same_kind_iff}
use razorpay_buildathon.Core.Events.{
  CaseEvent, evidence_added, action_executed, CaseRevision, StoredCaseEvent, ok, initial_revision,
  next_revision, next_kinds, includes_kind, reduce, reduce_from, reduce_all,
}
use razorpay_buildathon.Core.Events.Reduction.{reduce_from-cons, reduce_from-keeps}

abbrev pub plus_ℤ : ℤ → ℕ → ℤ
plus_ℤ a zero = a
plus_ℤ a (suc n) = plus_ℤ (suc_ℤ a) n

abbrev pub is_execution : StoredCaseEvent → Bool
is_execution e = elim e.event [ action_executed a n ↦ true | _ ↦ false ]

-- A log that adds evidence of a kind.
abbrev pub added : EvidenceKind → CaseEvent → Bool
added k (evidence_added j i) = same_kind k j
added k _ = false

abbrev pub adds : EvidenceKind → StoredCaseEvent → Bool
adds k e = added k e.event

step_counts :
    (prev : CaseRevision) (e : StoredCaseEvent) (next : CaseRevision)
    → reduce prev e ≡ ok next
    → (next.revision ≡ prev.revision + 1)
      × (next.attempt_count ≡ prev.attempt_count + (if is_execution e then 1 else 0))
      × (next.reduced_through_seq ≡ suc_ℤ prev.reduced_through_seq)
      × (e.seq ≡ suc_ℤ prev.reduced_through_seq)
unfolding reduce next_revision
step_counts prev e next h = ground (arith, eq_ℤ_iff e.seq (suc_ℤ prev.reduced_through_seq))

counts_from :
    (es : List StoredCaseEvent) (prev r : CaseRevision)
    → reduce_from prev es ≡ ok r
    → (r.revision ≡ prev.revision + length es)
      × (r.attempt_count ≡ prev.attempt_count + count is_execution es)
      × (r.reduced_through_seq ≡ plus_ℤ prev.reduced_through_seq (length es))
unfolding reduce_from
counts_from [] prev r h = ground arith
counts_from (e ∷ es) prev r h =
    let (next, q, rest) = reduce_from-cons prev e es r h in
    let (v, a, s) = counts_from es next r rest in
    let (v', a', s', _) = step_counts prev e next q in (omega arith, omega arith, rw s' at s)

-- A log that is reduced without error gives a revision whose number is the log's length, whose
-- attempt count is the number of executed actions in it, and which is reduced through the last
-- sequence number, counted from -1.
pub reduce_all-counts :
    (case_id : String) (es : List StoredCaseEvent) (r : CaseRevision)
    → reduce_all case_id es ≡ ok r
    → (r.revision ≡ length es)
      × (r.attempt_count ≡ count is_execution es)
      × (r.reduced_through_seq ≡ plus_ℤ (negsuc 0) (length es))
unfolding reduce_all
reduce_all-counts case_id es r h = ground (arith, counts_from es (initial_revision case_id) r)

numbered_from :
    (es : List StoredCaseEvent) (prev r : CaseRevision) (i : ℕ) (e : StoredCaseEvent)
    → reduce_from prev es ≡ ok r
    → get_elem? es i ≡ some e
    → e.seq ≡ plus_ℤ prev.reduced_through_seq (suc i)
unfolding reduce_from
numbered_from [] prev r i e h k = cc
numbered_from (x ∷ xs) prev r zero e h k =
    let (next, q, rest) = reduce_from-cons prev x xs r h in
    let (_, _, _, n) = step_counts prev x next q in ground arith
numbered_from (x ∷ xs) prev r (suc i) e h k =
    let (next, q, rest) = reduce_from-cons prev x xs r h in
    let (_, _, s, _) = step_counts prev x next q in rw s at (numbered_from xs next r i e rest k)

plus_ℤ-pos : (n i : ℕ) → plus_ℤ (pos n) i ≡ pos (n + i)
plus_ℤ-pos n zero = ground arith
plus_ℤ-pos n (suc i) = ground (arith, plus_ℤ-pos (suc n) i)

-- The events of a log that is reduced without error are numbered 0, 1, 2, … in their order: no
-- number is missing, repeated or out of place.
pub reduce_all_numbered :
    (case_id : String) (es : List StoredCaseEvent) (r : CaseRevision) (i : ℕ) (e : StoredCaseEvent)
    → reduce_all case_id es ≡ ok r
    → get_elem? es i ≡ some e
    → e.seq ≡ pos i
unfolding reduce_all
reduce_all_numbered case_id es r i e h k =
    ground (arith, numbered_from es (initial_revision case_id) r i e, plus_ℤ-pos 0 i)

step_kinds :
    (prev : CaseRevision) (e : StoredCaseEvent) (next : CaseRevision)
    → reduce prev e ≡ ok next
    → next.evidence_kinds ≡ next_kinds e.event prev.evidence_kinds
unfolding reduce next_revision
step_kinds prev e next h = ground arith

any-append :
    (p : EvidenceKind → Bool) (xs : List EvidenceKind) (y : EvidenceKind)
    → any p (xs ++ y ∷ []) ≡ (any p xs || p y)
any-append p [] y = ground arith
any-append p (x ∷ xs) y = ground (arith, any-append p xs y)

any-replace :
    (k j : EvidenceKind) (ks : List EvidenceKind)
    → same_kind k j ≡ true
    → any (same_kind k) ks ≡ any (same_kind j) ks
any-replace k j ks h = rw ((same_kind_iff k j).0 h)

includes-next_kinds :
    (k : EvidenceKind) (e : CaseEvent) (ks : List EvidenceKind)
    → includes_kind (next_kinds e ks) k ≡ (includes_kind ks k || added k e)
unfolding next_kinds
includes-next_kinds k (evidence_added j i) ks =
    ground (arith, any-replace k j ks, any-append (same_kind k) ks j)
includes-next_kinds k _ ks = ground arith

kinds_from :
    (k : EvidenceKind) (es : List StoredCaseEvent) (prev r : CaseRevision)
    → reduce_from prev es ≡ ok r
    → includes_kind r.evidence_kinds k ≡ (includes_kind prev.evidence_kinds k || any (adds k) es)
unfolding reduce_from
kinds_from k [] prev r h = ground arith
kinds_from k (e ∷ es) prev r h =
    let (next, q, rest) = reduce_from-cons prev e es r h in
    ground (
      arith,
      kinds_from k es next r rest,
      step_kinds prev e next q,
      includes-next_kinds k e.event prev.evidence_kinds,
    )

-- No kind stands twice.
abbrev pub Distinct : List EvidenceKind → Type 0
Distinct [] = Unit {0}
Distinct (k ∷ ks) = (includes_kind ks k ≡ false) × Distinct ks

Distinct-append :
    (ks : List EvidenceKind) (j : EvidenceKind)
    → Distinct ks
    → includes_kind ks j ≡ false
    → Distinct (ks ++ j ∷ [])
Distinct-append [] j d h = (refl, tt)
Distinct-append (k ∷ ks) j d h =
    (ground (arith, any-append (same_kind k) ks j), Distinct-append ks j d.1 (ground arith))

Distinct-next_kinds :
    (e : CaseEvent) (ks : List EvidenceKind) → Distinct ks → Distinct (next_kinds e ks)
unfolding next_kinds
Distinct-next_kinds (evidence_added j i) ks d = elim (Bool-cases (includes_kind ks j)) [
  | inl old ↦ rw old d
  | inr new ↦ rw new (Distinct-append ks j d new)
]
Distinct-next_kinds _ ks d = d

-- The evidence kinds of a revision are, without repetition, the kinds of evidence that the log
-- added and no others.
pub reduce_all-evidence :
    (case_id : String) (es : List StoredCaseEvent) (r : CaseRevision)
    → reduce_all case_id es ≡ ok r
    → Distinct r.evidence_kinds
      × ((k : EvidenceKind) → includes_kind r.evidence_kinds k ≡ any (adds k) es)
unfolding reduce_all
reduce_all-evidence case_id es r h = (
  reduce_from-keeps (λ x. Distinct x.evidence_kinds)
      (λ prev e next q d.
        rw (step_kinds prev e next q) (Distinct-next_kinds e.event prev.evidence_kinds d))
      es (initial_revision case_id) r h tt,
  λ k. kinds_from k es (initial_revision case_id) r h,
)
