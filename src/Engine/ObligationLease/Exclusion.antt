-- ===== src/Engine/ObligationLease/Exclusion.antt =====
-- While a lease is live nobody else gets the obligation.
use razorpay_buildathon.Base.{
  ℕ, ◌+◌, ◌≤◌, ◌<◌, ◌≡◌, ◌≢◌, refl, sym, ◌∙◌, subst, ◌↔◌, ◌⊎◌, inl, inr, String, Bool, true, false,
  not, ◌&&◌, Option, none, some, List, [], ◌∷◌, ◌++◌, arith, ◌===◌, ===_iff, ===_refl, find?,
  filter, update_where, find?-append, Option-cases, Bool-cases, All,
}
use razorpay_buildathon.Engine.ObligationLease.{
  LockRow, Locks, locks_obligation, can_take, try_acquire, release,
}

-- The holder of a live lease at a time.
abbrev pub Holds : String → String → ℕ → Locks → Type 0
Holds id holder now locks =
    (l : LockRow) × (find? (locks_obligation id) locks ≡ some l)
    × (l.holder ≡ holder)
    × (now < l.expiry)

find-replaced :
    (id : String) (row : LockRow) (locks : Locks) {l : LockRow}
    → row.obligation_id ≡ id
    → find? (locks_obligation id) locks ≡ some l
    → find? (locks_obligation id) (update_where (locks_obligation id) (λ _. row) locks) ≡ some row
find-replaced id row [] q h = absurd (ground arith)
find-replaced id row (x ∷ xs) {l} q h =
    ground (arith, ===_iff row.obligation_id id, find-replaced id row xs {l = l} q)

find-other :
    (id j : String) (row : LockRow) (locks : Locks)
    → row.obligation_id ≡ id
    → (id === j) ≡ false
    → find? (locks_obligation j) (update_where (locks_obligation id) (λ _. row) locks)
      ≡ find? (locks_obligation j) locks
find-other id j row [] q h = refl
find-other id j row (x ∷ xs) q h = ground (
  arith,
  ===_iff x.obligation_id id,
  ===_iff x.obligation_id j,
  ===_iff id j,
  find-other id j row xs q,
)

find-appended :
    (j : String) (row : LockRow) (locks : Locks) (l : LockRow)
    → find? (locks_obligation j) locks ≡ some l
    → find? (locks_obligation j) (locks ++ row ∷ []) ≡ some l
find-appended j row [] l h = absurd (ground arith)
find-appended j row (x ∷ xs) l h = ground (arith, find-appended j row xs l)

find-kept :
    (j : String) (q : LockRow → Bool) (locks : Locks) (l : LockRow)
    → find? (locks_obligation j) locks ≡ some l
    → q l ≡ true
    → find? (locks_obligation j) (filter q locks) ≡ some l
find-kept j q [] l h k = absurd (ground arith)
find-kept j q (x ∷ xs) l h k = ground (arith, find-kept j q xs l)

can_take_iff :
    (holder : String) (now : ℕ) (l : LockRow)
    → (can_take holder now l ≡ true) ↔ ((l.expiry ≤ now) ⊎ (l.holder ≡ holder))
can_take_iff holder now l = ground (arith, ===_iff l.holder holder)

-- When a lock may be taken: there is none, it has run out, or the holder has it already.
abbrev pub IsFree : String → ℕ → Option LockRow → Type 0
IsFree holder now none = Unit {0}
IsFree holder now (some l) = (l.expiry ≤ now) ⊎ (l.holder ≡ holder)

-- An attempt succeeds exactly if the obligation has no lock, its lock has run out, or the holder
-- has it already. It then gives the holder the lease for the whole time to live, and otherwise it
-- changes nothing.
pub try_acquire_iff :
    (ttl_ms now : ℕ) (id holder : String) (locks : Locks)
    → let (taken, locks') = try_acquire ttl_ms now id holder locks in
      ((taken ≡ true) ↔ IsFree holder now (find? (locks_obligation id) locks))
      × (taken ≡ true → (t : ℕ) → t < now + ttl_ms → Holds id holder t locks')
      × (taken ≡ false → locks' ≡ locks)
unfolding try_acquire
try_acquire_iff ttl_ms now id holder locks =
    let row : LockRow = record {
      obligation_id = id;
      holder = holder;
      acquired_at = now;
      expiry = now + ttl_ms;
    } in
    elim (Option-cases (find? (locks_obligation id) locks)) [
      | inl e ↦
          rw (e, try_acquire)
            (
              ((λ _. tt), (λ _. refl)),
              (λ _ t h. (
                row,
                find?-append (locks_obligation id) locks (row ∷ []) e ∙ rw (===_refl id),
                refl,
                h,
              )),
              (λ f. absurd (ground arith)),
            )
      | inr (l, e) ↦ elim (Bool-cases (can_take holder now l)) [
        | inl take ↦
            rw (e, try_acquire)
              (rw take (
                ((λ _. (can_take_iff holder now l).0 take), (λ _. refl)),
                (λ _ t h. (row, find-replaced id row locks refl e, refl, h)),
                (λ f. absurd (ground arith)),
              ))
        | inr refuse ↦
            rw (e, try_acquire)
              (rw refuse (
                (
                  (λ t. absurd (ground arith)),
                  (λ k. let t = (can_take_iff holder now l).1 k in absurd (ground arith)),
                ),
                (λ t. absurd (ground arith)),
                (λ _. refl),
              ))
      ]
    ]

-- What the other holders do meanwhile.
pub data Op : Type 0 where
  acquires : ℕ → ℕ → String → String → Op
  releases : String → String → Op

unfoldable pub step : Locks → Op → Locks
step locks (acquires ttl_ms now id holder) = (try_acquire ttl_ms now id holder locks).1
step locks (releases id holder) = release id holder locks

unfoldable pub run : Locks → List Op → Locks
run locks [] = locks
run locks (o ∷ os) = run (step locks o) os

-- A call of another holder, no later than `t`.
abbrev pub ByOther : String → ℕ → Op → Type 0
ByOther holder t (acquires ttl_ms now id h) = (h ≢ holder) × (now ≤ t)
ByOther holder t (releases id h) = h ≢ holder

taken_while_live :
    (now t : ℕ) (j id holder other : String) (locks : Locks) (l m : LockRow)
    → j ≡ id
    → find? (locks_obligation id) locks ≡ some l
    → find? (locks_obligation j) locks ≡ some m
    → l.holder ≡ holder
    → t < l.expiry
    → now ≤ t
    → other ≢ holder
    → (m.expiry ≤ now) ⊎ (m.holder ≡ other)
    → ⊥
taken_while_live now t j id holder other locks l m same f e h x le ne free =
    let both : some l ≡ some m =
      sym f ∙ subst (λ k. find? (locks_obligation k) locks ≡ some m) same e in
    ground (arith)

acquire_keeps :
    (ttl_ms now t : ℕ) (id j holder other : String) (locks : Locks)
    → other ≢ holder
    → now ≤ t
    → Holds id holder t locks
    → Holds id holder t (try_acquire ttl_ms now j other locks).1
unfolding try_acquire
acquire_keeps ttl_ms now t id j holder other locks ne le (l, f, h, x) =
    let row : LockRow = record {
      obligation_id = j;
      holder = other;
      acquired_at = now;
      expiry = now + ttl_ms;
    } in
    elim (Option-cases (find? (locks_obligation j) locks)) [
      | inl e ↦ rw (e, try_acquire) (l, find-appended id row locks l f, h, x)
      | inr (m, e) ↦ elim (Bool-cases (can_take other now m)) [
        | inl take ↦ elim (Bool-cases (j === id)) [
          | inl same ↦ absurd (
              taken_while_live now t j id holder other locks l m ((===_iff j id).0 same) f e h x le
                ne ((can_take_iff other now m).0 take))
          | inr apart ↦
              rw (e, try_acquire) (rw take (l, find-other j id row locks refl apart ∙ f, h, x))
        ]
        | inr refuse ↦ rw (e, try_acquire) (rw refuse (l, f, h, x))
      ]
    ]

release_keeps :
    (t : ℕ) (id j holder other : String) (locks : Locks)
    → other ≢ holder
    → Holds id holder t locks
    → Holds id holder t (release j other locks)
unfolding release
release_keeps t id j holder other locks ne (l, f, h, x) = (
  l,
  find-kept id (λ k. not (k.obligation_id === j && k.holder === other)) locks l f
      (ground (arith, ===_iff l.holder other)),
  h,
  x,
)

step-Holds :
    (t : ℕ) (id holder : String) (locks : Locks) (o : Op)
    → ByOther holder t o
    → Holds id holder t locks
    → Holds id holder t (step locks o)
unfolding step
step-Holds t id holder locks (acquires ttl_ms now j other) (ne, le) held =
    acquire_keeps ttl_ms now t id j holder other locks ne le held
step-Holds t id holder locks (releases j other) ne held =
    release_keeps t id j holder other locks ne held

run-Holds :
    (t : ℕ) (id holder : String) (os : List Op) (locks : Locks)
    → All (ByOther holder t) os
    → Holds id holder t locks
    → Holds id holder t (run locks os)
unfolding run
run-Holds t id holder [] locks others held = held
run-Holds t id holder (o ∷ os) locks (b, others) held =
    run-Holds t id holder os (step locks o) others (step-Holds t id holder locks o b held)

refused :
    (ttl' now' t : ℕ) (id holder other : String) (locks : Locks)
    → other ≢ holder
    → now' ≤ t
    → Holds id holder t locks
    → (try_acquire ttl' now' id other locks).0 ≡ false
refused ttl' now' t id holder other locks ne le (l, f, h, x) =
    elim (Bool-cases (try_acquire ttl' now' id other locks).0) [
      | inl taken ↦
          let free =
            subst (IsFree other now') f ((try_acquire_iff ttl' now' id other locks).0.0 taken) in
          absurd (ground arith)
      | inr refusal ↦ refusal
    ]

-- A holder that takes the lease of an obligation keeps it for its time to live: whatever the
-- other holders do until then, acquiring and releasing any obligation, the lease is still held,
-- and no attempt of another on the obligation succeeds.
pub lease_excludes :
    (ttl_ms now t : ℕ) (id holder : String) (locks : Locks) (os : List Op)
    → (try_acquire ttl_ms now id holder locks).0 ≡ true
    → t < now + ttl_ms
    → All (ByOther holder t) os
    → let locks' = run (try_acquire ttl_ms now id holder locks).1 os in
      Holds id holder t locks'
      × ((ttl' now' : ℕ) (other : String)
          → other ≢ holder
          → now' ≤ t
          → (try_acquire ttl' now' id other locks').0 ≡ false)
lease_excludes ttl_ms now t id holder locks os taken live others =
    let held =
      run-Holds t id holder os (try_acquire ttl_ms now id holder locks).1 others
        ((try_acquire_iff ttl_ms now id holder locks).1 taken t live) in
    (
      held,
      (λ ttl' now' other ne le.
          refused ttl' now' t id holder other (run (try_acquire ttl_ms now id holder locks).1 os) ne
            le held),
    )
