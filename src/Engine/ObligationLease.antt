-- ===== src/Engine/ObligationLease.antt =====
-- packages/engine/src/obligation-lease.ts: one live holder for each obligation.
pub mod Exclusion
use razorpay_buildathon.Base.{
  ℕ, ◌+◌, String, Bool, true, false, not, ◌&&◌, ◌||◌, Option, none, some, List, [], ◌∷◌, ◌++◌,
  ◌===◌, leb, if◌then◌else◌, filter, find?, update_where, map,
}

pub record LockRow : Type 0 where
  pub obligation_id : String
  pub holder : String
  pub acquired_at : ℕ
  pub expiry : ℕ

abbrev pub Locks : Type 0
Locks = List LockRow

abbrev pub locks_obligation : String → LockRow → Bool
locks_obligation id l = l.obligation_id === id

-- `WHERE obligation_locks.expiry <= $3 OR obligation_locks.holder = $2`.
abbrev pub can_take : String → ℕ → LockRow → Bool
can_take holder now l = leb l.expiry now || l.holder === holder

-- The insert, with its update on a conflict of the primary key: whether a row was written.
unfoldable pub try_acquire : ℕ → ℕ → String → String → Locks → Bool × Locks
try_acquire ttl_ms now id holder locks =
    let row : LockRow = record {
      obligation_id = id;
      holder = holder;
      acquired_at = now;
      expiry = now + ttl_ms;
    } in
    elim (find? (locks_obligation id) locks) [
      | none ↦ (true, locks ++ row ∷ [])
      | some l ↦
          if can_take holder now l
          then (true, update_where (locks_obligation id) (λ _. row) locks)
          else (false, locks)
    ]

pub data LeaseError : Type 0 where
  lease_unavailable : String → String → LeaseError

pub data Outcome {ℓ} (A : Type ℓ) : Type ℓ where
  ok : A → Outcome A
  err : LeaseError → Outcome A

abbrev holder_or_unknown : Option LockRow → String
holder_or_unknown none = "unknown"
holder_or_unknown (some l) = l.holder

unfoldable pub acquire : ℕ → ℕ → String → String → Locks → Outcome (Unit {0}) × Locks
unfolding try_acquire
acquire ttl_ms now id holder locks =
    let (taken, locks') = try_acquire ttl_ms now id holder locks in
    if taken then (ok tt, locks') else (
      err (lease_unavailable id (holder_or_unknown (find? (locks_obligation id) locks'))),
      locks',
    )

unfoldable pub release : String → String → Locks → Locks
release id holder locks = filter (λ l. not (l.obligation_id === id && l.holder === holder)) locks

-- `fn` runs over the locks and returns a value or throws, as a result type of the caller; the lease is released
-- on both ways out.
unfoldable pub with_lease {ℓ} :
    {A : Type ℓ} → ℕ → ℕ → String → String → (Locks → A × Locks) → Locks → Outcome A × Locks
unfolding acquire release
with_lease ttl_ms now id holder fn locks =
    let (got, locks') = acquire ttl_ms now id holder locks in
    elim got [
      | ok _ ↦ let (a, locks'') = fn locks' in (ok a, release id holder locks'')
      | err e ↦ (err e, locks')
    ]
