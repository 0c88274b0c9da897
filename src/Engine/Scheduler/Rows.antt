-- ===== src/Engine/Scheduler/Rows.antt =====
-- The rows keep distinct ids, in the order of their insertion, and consistent leases.
use razorpay_buildathon.Base.{
  ℕ, suc, ◌≤◌, ◌≡◌, refl, inl, inr, String, Bool, true, not, List, [], ◌∷◌, ◌++◌, arith, All,
  All-append, update_where, is_some, Bool-cases,
}
use razorpay_buildathon.Base.Order.{TextOrder}
use razorpay_buildathon.Db.Tables.{pending, ScheduledRow, Schedule}
use razorpay_buildathon.Engine.Scheduler.{
  is_open, is_leased, ScheduleRequest, schedule, tick, complete, release, reclaim_expired_leases,
  cancel_for_case, has_id_in, lease_row,
}

-- The ids rise from `lo` and stay below `hi`.
abbrev pub Rising : ℕ → ℕ → List ScheduledRow → Type 0
Rising lo hi [] = lo ≤ hi
Rising lo hi (r ∷ rs) = (lo ≤ r.id) × Rising (suc r.id) hi rs

-- A row holds a lease exactly while it is leased, and has a settling time exactly once it is done
-- or cancelled.
abbrev pub RowOk : ScheduledRow → Type 0
RowOk r =
    (is_some r.lease_owner ≡ is_leased r.state)
    × (is_some r.lease_expiry ≡ is_leased r.state)
    × (is_some r.settled_at ≡ not (is_open r.state))

pub record Inv (s : Schedule) : Type 0 where
  pub rising : Rising 0 s.next_id s.rows
  pub rows_ok : All RowOk s.rows

Rising-append :
    (lo hi : ℕ) (rs : List ScheduledRow) (r : ScheduledRow)
    → Rising lo hi rs
    → r.id ≡ hi
    → Rising lo (suc hi) (rs ++ r ∷ [])
Rising-append lo hi [] r h e = (omega arith, omega arith)
Rising-append lo hi (x ∷ rs) r h e = (h.0, Rising-append (suc x.id) hi rs r h.1 e)

pub Rising-update :
    (p : ScheduledRow → Bool) (f : ScheduledRow → ScheduledRow) (lo hi : ℕ) (rs : List ScheduledRow)
    → ((r : ScheduledRow) → (f r).id ≡ r.id)
    → Rising lo hi rs
    → Rising lo hi (update_where p f rs)
Rising-update p f lo hi [] keep h = h
Rising-update p f lo hi (r ∷ rs) keep h = elim (Bool-cases (p r)) [
  | inl yes' ↦ rw yes' (rw (keep r) h.0, rw (keep r) (Rising-update p f (suc r.id) hi rs keep h.1))
  | inr no' ↦ rw no' (h.0, Rising-update p f (suc r.id) hi rs keep h.1)
]

pub All-update {ℓ} :
    (P : ScheduledRow → Type ℓ) (p : ScheduledRow → Bool) (f : ScheduledRow → ScheduledRow)
    (rs : List ScheduledRow)
    → ((r : ScheduledRow) → p r ≡ true → P r → P (f r))
    → All P rs
    → All P (update_where p f rs)
All-update P p f [] keep h = tt
All-update P p f (r ∷ rs) keep h = elim (Bool-cases (p r)) [
  | inl yes' ↦ rw yes' (keep r yes' h.0, All-update P p f rs keep h.1)
  | inr no' ↦ rw no' (h.0, All-update P p f rs keep h.1)
]

-- An update that keeps the ids and leaves consistent rows keeps the invariant.
update-Inv :
    (p : ScheduledRow → Bool) (f : ScheduledRow → ScheduledRow) (s : Schedule)
    → ((r : ScheduledRow) → (f r).id ≡ r.id)
    → ((r : ScheduledRow) → p r ≡ true → RowOk r → RowOk (f r))
    → Inv s
    → Inv (record s { rows = update_where p f s.rows })
update-Inv p f s keep ok v = record {
  rising = Rising-update p f 0 s.next_id s.rows keep v.rising;
  rows_ok = All-update RowOk p f s.rows ok v.rows_ok;
}

-- The operations, with the time and the other arguments of each call.
pub data Op : Type 0 where
  schedules : ℕ → ScheduleRequest → Op
  ticks : ℕ → ℕ → List ℕ → String → ℕ → Op
  completes : ℕ → ℕ → Op
  releases : ℕ → Op
  reclaims : ℕ → Op
  cancels : ℕ → String → Op

unfoldable pub step : TextOrder → Schedule → Op → Schedule
step order s (schedules now req) = (schedule now req s).0
step order s (ticks lease_ms now locked owner limit) =
    (tick order lease_ms now locked owner limit s).0
step order s (completes now id) = complete now id s
step order s (releases id) = release id s
step order s (reclaims now) = (reclaim_expired_leases now s).0
step order s (cancels now case_id) = (cancel_for_case now case_id s).0

unfoldable pub run : TextOrder → Schedule → List Op → Schedule
run order s [] = s
run order s (o ∷ os) = run order (step order s o) os

-- A tick leases the rows that it picks; all that it picks are pending, by the lemma given.
abbrev pub Picks : List ScheduledRow → Schedule → Type 0
Picks picked s = All (λ r. has_id_in picked r ≡ true → r.state ≡ pending) s.rows

pub lease_row-ok :
    (owner : String) (expiry : ℕ) (r : ScheduledRow)
    → r.state ≡ pending
    → RowOk r
    → RowOk (lease_row owner expiry r)
lease_row-ok owner expiry r e v = ground arith

All-update_known {ℓ κ} :
    (Q : ScheduledRow → Type κ) (P : ScheduledRow → Type ℓ) (p : ScheduledRow → Bool)
    (f : ScheduledRow → ScheduledRow) (rs : List ScheduledRow)
    → ((r : ScheduledRow) → p r ≡ true → Q r → P r → P (f r))
    → All Q rs
    → All P rs
    → All P (update_where p f rs)
All-update_known Q P p f [] keep k h = tt
All-update_known Q P p f (r ∷ rs) keep k h = elim (Bool-cases (p r)) [
  | inl yes' ↦ rw yes' (keep r yes' k.0 h.0, All-update_known Q P p f rs keep k.1 h.1)
  | inr no' ↦ rw no' (h.0, All-update_known Q P p f rs keep k.1 h.1)
]

pub lease-Inv :
    (picked : List ScheduledRow) (owner : String) (expiry : ℕ) (s : Schedule)
    → Picks picked s
    → Inv s
    → Inv (record s { rows = update_where (has_id_in picked) (lease_row owner expiry) s.rows })
lease-Inv picked owner expiry s k v = record {
  rising =
      Rising-update (has_id_in picked) (lease_row owner expiry) 0 s.next_id s.rows (λ r. refl)
        v.rising;
  rows_ok =
      All-update_known (λ r. has_id_in picked r ≡ true → r.state ≡ pending) RowOk (has_id_in picked)
        (lease_row owner expiry) s.rows (λ r t q ok. lease_row-ok owner expiry r (q t) ok) k
        v.rows_ok;
}

pub schedule-Inv :
    (now : ℕ) (req : ScheduleRequest) (s : Schedule) → Inv s → Inv (schedule now req s).0
unfolding schedule
schedule-Inv now req s v = record {
  rising = Rising-append 0 s.next_id s.rows _ v.rising refl;
  rows_ok = All-append RowOk s.rows _ v.rows_ok ((refl, refl, refl), tt);
}

pub complete-Inv : (now id : ℕ) (s : Schedule) → Inv s → Inv (complete now id s)
unfolding complete
complete-Inv now id s v = update-Inv _ _ s (λ r. refl) (λ r t ok. ground arith) v

pub release-Inv : (id : ℕ) (s : Schedule) → Inv s → Inv (release id s)
unfolding release
release-Inv id s v = update-Inv _ _ s (λ r. refl) (λ r t ok. ground arith) v

pub reclaim-Inv : (now : ℕ) (s : Schedule) → Inv s → Inv (reclaim_expired_leases now s).0
unfolding reclaim_expired_leases
reclaim-Inv now s v = update-Inv _ _ s (λ r. refl) (λ r t ok. ground arith) v

pub cancel-Inv :
    (now : ℕ) (case_id : String) (s : Schedule) → Inv s → Inv (cancel_for_case now case_id s).0
unfolding cancel_for_case
cancel-Inv now case_id s v = update-Inv _ _ s (λ r. refl) (λ r t ok. ground arith) v
