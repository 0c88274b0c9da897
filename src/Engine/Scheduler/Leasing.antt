-- ===== src/Engine/Scheduler/Leasing.antt =====
-- What a tick leases, and that two workers never lease one row.
use razorpay_buildathon.Base.{
  ℕ, suc, ◌+◌, ◌≤◌, ◌<◌, ◌≡◌, refl, sym, ◌∙◌, inl, inr, String, Bool, true, false, ◌&&◌, List, [],
  ◌∷◌, arith, ◌==◌, any, All, filter, sort, take, length, map, update_where, Bool-cases, any-map,
  any-sort, any-filter, any-take, All-take, All-sort, All-filter, All-both, All-unit, All-map,
  length-take, length-map,
}
use razorpay_buildathon.Base.Order.{TextOrder}
use razorpay_buildathon.Db.Tables.{pending, leased, ScheduledRow, Schedule}
use razorpay_buildathon.Engine.Scheduler.{
  is_due, row_before, due_rows, tick, has_id_in, lease_row, to_action, ScheduledAction,
}
use razorpay_buildathon.Engine.Scheduler.Rows.{Rising, Inv, Picks, lease-Inv}

-- In rows with rising ids no row has an id below them.
absent_below :
    (p : ScheduledRow → Bool) (x lo hi : ℕ) (rs : List ScheduledRow)
    → Rising lo hi rs
    → x < lo
    → any (λ r. (r.id == x) && p r) rs ≡ false
absent_below p x lo hi [] h l = refl
absent_below p x lo hi (r ∷ rs) h l = ground (arith, absent_below p x (suc r.id) hi rs h.1)

above : (lo k hi : ℕ) (rs : List ScheduledRow) → k ≤ lo → Rising lo hi rs → All (λ r. k ≤ r.id) rs
above lo k hi [] l h = tt
above lo k hi (r ∷ rs) l h = (omega arith, above (suc r.id) k hi rs (omega arith) h.1)

-- So a row whose id some row with a property has, has that property.
found_unique :
    (p : ScheduledRow → Bool) (lo hi : ℕ) (rs : List ScheduledRow)
    → Rising lo hi rs
    → All (λ r. any (λ q. (q.id == r.id) && p q) rs ≡ true → p r ≡ true) rs
found_unique p lo hi [] h = tt
found_unique p lo hi (r ∷ rs) h = (
  λ e. ground (arith, absent_below p r.id (suc r.id) hi rs h.1),
  All-both (λ q. suc r.id ≤ q.id) (λ q. any (λ x. (x.id == q.id) && p x) rs ≡ true → p q ≡ true)
      (λ q. any (λ x. (x.id == q.id) && p x) (r ∷ rs) ≡ true → p q ≡ true) rs
      (λ q l k e. k (ground arith)) (above (suc r.id) (suc r.id) hi rs (omega arith) h.1)
      (found_unique p (suc r.id) hi rs h.1),
)

due_rows-due :
    (order : TextOrder) (now : ℕ) (locked : List ℕ) (limit : ℕ) (s : Schedule) (r : ScheduledRow)
    → has_id_in (due_rows order now locked limit s) r ≡ true
    → any (λ q. (q.id == r.id) && is_due now locked q) s.rows ≡ true
unfolding due_rows
due_rows-due order now locked limit s r h =
    sym (any-filter (λ q. q.id == r.id) (is_due now locked) s.rows)
    ∙ sym (any-sort (λ q. q.id == r.id) (row_before order) (filter (is_due now locked) s.rows))
    ∙ any-take (λ q. q.id == r.id) limit
        (sort (row_before order) (filter (is_due now locked) s.rows)) h

-- The rows that a tick picks are due rows of the table: pending, not in the future, not locked.
pub picked-due :
    (order : TextOrder) (now : ℕ) (locked : List ℕ) (limit : ℕ) (s : Schedule)
    → Inv s
    → All
        (λ r. has_id_in (due_rows order now locked limit s) r ≡ true → is_due now locked r ≡ true)
        s.rows
picked-due order now locked limit s v =
    All-both (λ _. Unit {0})
      (λ r.
        any (λ q. (q.id == r.id) && is_due now locked q) s.rows ≡ true → is_due now locked r ≡ true)
      (λ r. has_id_in (due_rows order now locked limit s) r ≡ true → is_due now locked r ≡ true)
      s.rows (λ r _ k e. k (due_rows-due order now locked limit s r e)) (All-unit s.rows)
      (found_unique (is_due now locked) 0 s.next_id s.rows v.rising)

is_due-pending :
    (now : ℕ) (locked : List ℕ) (r : ScheduledRow) → is_due now locked r ≡ true → r.state ≡ pending
is_due-pending now locked r h = ground arith

pub due_rows-Picks :
    (order : TextOrder) (now : ℕ) (locked : List ℕ) (limit : ℕ) (s : Schedule)
    → Inv s
    → Picks (due_rows order now locked limit s) s
due_rows-Picks order now locked limit s v =
    All-both (λ _. Unit {0}) _ _ s.rows (λ r _ k e. is_due-pending now locked r (k e))
      (All-unit s.rows) (picked-due order now locked limit s v)

pub tick-Inv :
    (order : TextOrder) (lease_ms now : ℕ) (locked : List ℕ) (owner : String) (limit : ℕ)
    (s : Schedule)
    → Inv s
    → Inv (tick order lease_ms now locked owner limit s).0
unfolding tick
tick-Inv order lease_ms now locked owner limit s v =
    lease-Inv (due_rows order now locked limit s) owner (now + lease_ms) s
      (due_rows-Picks order now locked limit s v) v

-- A tick hands out no more rows than its limit, and none before its time.
pub tick_due :
    (order : TextOrder) (lease_ms now : ℕ) (locked : List ℕ) (owner : String) (limit : ℕ)
    (s : Schedule)
    → let actions = (tick order lease_ms now locked owner limit s).1 in
      (length actions ≤ limit) × All (λ a. a.fire_at ≤ now) actions
unfolding tick due_rows
tick_due order lease_ms now locked owner limit s =
    let sorted = sort (row_before order) (filter (is_due now locked) s.rows) in
    (
      omega (arith, length-map to_action (take limit sorted), length-take limit sorted),
      All-map (λ (a : ScheduledAction). a.fire_at ≤ now) to_action (take limit sorted)
          (All-take (λ (r : ScheduledRow). r.fire_at ≤ now) limit sorted
            (All-sort (λ (r : ScheduledRow). r.fire_at ≤ now) (row_before order)
              (filter (is_due now locked) s.rows)
              (All-filter (λ _. Unit {0}) (λ (r : ScheduledRow). r.fire_at ≤ now)
                (is_due now locked) s.rows (λ r _ t. ground arith) (All-unit s.rows)))),
    )

-- After the update the picked rows are leased.
leased_after :
    (picked : List ScheduledRow) (owner : String) (expiry : ℕ) (rs : List ScheduledRow)
    → All
        (λ r. has_id_in picked r ≡ true → r.state ≡ leased)
        (update_where (has_id_in picked) (lease_row owner expiry) rs)
leased_after picked owner expiry [] = tt
leased_after picked owner expiry (r ∷ rs) = elim (Bool-cases (has_id_in picked r)) [
  | inl t ↦ rw t ((λ _. refl), leased_after picked owner expiry rs)
  | inr f ↦ rw f ((λ t. absurd (ground arith)), leased_after picked owner expiry rs)
]

due_not_picked :
    (picked : List ScheduledRow) (now : ℕ) (locked : List ℕ) (r : ScheduledRow)
    → (has_id_in picked r ≡ true → r.state ≡ leased)
    → is_due now locked r ≡ true
    → has_id_in picked r ≡ false
due_not_picked picked now locked r k d = elim (Bool-cases (has_id_in picked r)) [
  | inl t ↦ let e = k t in absurd (ground arith)
  | inr f ↦ f
]

-- A second tick, by any worker and at any time, hands out no row that the first one did, as long
-- as nothing has freed it: two workers that tick in turn split the due rows.
pub tick_disjoint :
    (order : TextOrder) (lease_ms now now' : ℕ) (locked locked' : List ℕ) (owner owner' : String)
    (limit limit' : ℕ) (s : Schedule)
    → let (s', first) = tick order lease_ms now locked owner limit s in
      let (_, second) = tick order lease_ms now' locked' owner' limit' s' in
      All (λ a. any (λ b. b.id == a.id) first ≡ false) second
unfolding tick due_rows
tick_disjoint order lease_ms now now' locked locked' owner owner' limit limit' s =
    let picked = take limit (sort (row_before order) (filter (is_due now locked) s.rows)) in
    let rows = update_where (has_id_in picked) (lease_row owner (now + lease_ms)) s.rows in
    let due = filter (is_due now' locked') rows in
    All-map (λ (a : ScheduledAction). any (λ b. b.id == a.id) (map to_action picked) ≡ false)
      to_action (take limit' (sort (row_before order) due))
      (All-take (λ (r : ScheduledRow). any (λ b. b.id == r.id) (map to_action picked) ≡ false)
        limit' (sort (row_before order) due)
        (All-sort (λ (r : ScheduledRow). any (λ b. b.id == r.id) (map to_action picked) ≡ false)
          (row_before order) due
          (All-filter (λ r. has_id_in picked r ≡ true → r.state ≡ leased)
            (λ (r : ScheduledRow). any (λ b. b.id == r.id) (map to_action picked) ≡ false)
            (is_due now' locked') rows
            (λ r k d.
              any-map to_action (λ b. b.id == r.id) picked
              ∙ due_not_picked picked now' locked' r k d)
            (leased_after picked owner (now + lease_ms) s.rows))))
