-- ===== src/Engine/IntentRouter/Promises.antt =====
-- What a reconciliation of the promises leaves.
use razorpay_buildathon.Base.{
  ℕ, ◌+◌, ◌≤◌, ◌≡◌, refl, ap, sym, subst, ◌∙◌, Bool, true, false, not, ◌&&◌, List, [], ◌∷◌, arith,
  ◌===◌, ===_refl, All-imp, All-seen, any, count, filter, any-filter, count-filter, count-All-false,
  count-update_where-imp, count-imp, ===_iff, if◌then◌else◌, Bool-cases, inl, inr,
}
use razorpay_buildathon.Engine.IntentRouter.{
  Desk, PromiseRow, Reconciled, is_due, was_kept, settle_promise, reconcile_one, reconcile_rows,
  reconcile_promises, tally,
}

tally-counts :
    (k : Bool) (rest : Reconciled)
    → ((tally k rest).kept_count ≡ (if k then 1 else 0) + rest.kept_count)
      × ((tally k rest).broken_count ≡ (if not k then 1 else 0) + rest.broken_count)
      × ((tally k rest).desk ≡ rest.desk)
tally-counts true rest = (omega arith, omega arith, refl)
tally-counts false rest = (omega arith, omega arith, refl)

-- The loop touches only the promises and the ledger.
abbrev pub SameMoney : Desk → Desk → Type 0
SameMoney d d' =
    (d'.books.settlements ≡ d.books.settlements)
    × (d'.books.obligations ≡ d.books.obligations)
    × (d'.books.db ≡ d.books.db)

-- How many rows the loop counts as kept and as broken.
reconcile_rows-counts :
    (now : ℕ) (ps : List PromiseRow) (d : Desk)
    → let out = reconcile_rows now ps d in
      let settled = was_kept d.books.settlements in
      (out.kept_count ≡ count settled ps)
      × (out.broken_count ≡ count (λ p. not (settled p)) ps)
      × SameMoney d out.desk
unfolding reconcile_rows
reconcile_rows-counts now [] d = (refl, refl, (refl, refl, refl))
reconcile_rows-counts now (p ∷ ps) d =
    let rest = reconcile_rows now ps (reconcile_one now p d) in
    let ih = reconcile_rows-counts now ps (reconcile_one now p d) in
    let t = tally-counts (was_kept d.books.settlements p) rest in
    (
      t.0 ∙ ap (λ n. (if was_kept d.books.settlements p then 1 else 0) + n) ih.0,
      t.1 ∙ ap (λ n. (if not (was_kept d.books.settlements p) then 1 else 0) + n) ih.1,
      subst (SameMoney d) (sym t.2) ih.2,
    )

abbrev listed : List PromiseRow → PromiseRow → Bool
listed ps q = any (λ p. p.id === q.id) ps

settled_not_due :
    (now : ℕ) (k : Bool) (p : PromiseRow) (ps : List PromiseRow) (q : PromiseRow)
    → let q' = (if q.id === p.id then settle_promise now k q else q) in
      (is_due now q' && not (listed ps q')) ≡ true
      → (is_due now q && not (listed (p ∷ ps) q)) ≡ true
settled_not_due now k p ps q h = elim (Bool-cases (q.id === p.id)) [
  | inl t ↦ elim (Bool-cases k) [
    | inl yes_kept ↦ absurd (ground (arith))
    | inr no_kept ↦ absurd (ground (arith))
  ]
  | inr f ↦ ground (arith, ===_iff q.id p.id, ===_iff p.id q.id)
]

-- A promise that is due after the loop was due before it and is not one of the loop's rows.
reconcile_rows-due :
    (now : ℕ) (ps : List PromiseRow) (d : Desk)
    → count (is_due now) (reconcile_rows now ps d).desk.promises
      ≤ count (λ q. is_due now q && not (listed ps q)) d.promises
unfolding reconcile_rows
reconcile_rows-due now [] d =
    count-imp (is_due now) (λ q. is_due now q && not (listed [] q)) d.promises
      (λ q h. ground (arith))
reconcile_rows-due now (p ∷ ps) d =
    let k = was_kept d.books.settlements p in
    let ih = reconcile_rows-due now ps (reconcile_one now p d) in
    let rest = reconcile_rows now ps (reconcile_one now p d) in
    let same = (tally-counts k rest).2 in
    let step =
      count-update_where-imp (λ q. is_due now q && not (listed ps q))
        (λ q. is_due now q && not (listed (p ∷ ps) q)) (λ q. q.id === p.id) (settle_promise now k)
        d.promises (settled_not_due now k p ps) in
    omega (arith, ih, step, ap (λ x. count (is_due now) x.promises) same)

no_due_left :
    (now : ℕ) (promises : List PromiseRow)
    → count (λ q. is_due now q && not (listed (filter (is_due now) promises) q)) promises ≡ 0
no_due_left now promises = count-All-false _ promises (
    All-imp _ (λ q. (is_due now q && not (listed (filter (is_due now) promises) q)) ≡ false)
      promises
      (λ q seen. covered q (λ t. any-filter (λ p. p.id === q.id) (is_due now) promises ∙ seen _ t))
      (All-seen promises))
  where
    covered :
        (q : PromiseRow)
        → (((q.id === q.id) && is_due now q) ≡ true
            → listed (filter (is_due now) promises) q ≡ true)
        → (is_due now q && not (listed (filter (is_due now) promises) q)) ≡ false
    covered q h = ground (arith, ===_refl q.id, h)

-- A reconciliation leaves no open promise whose date has passed. It counts as kept those of the
-- promises due for whose obligation a settlement has arrived, and as broken the others; it leaves
-- settlements, obligations and cases as they were.
pub reconcile_promises-none_due :
    (now : ℕ) (d : Desk)
    → let out = reconcile_promises now d in
      let settled = was_kept d.books.settlements in
      (count (is_due now) out.desk.promises ≡ 0)
      × (out.kept_count ≡ count (λ p. is_due now p && settled p) d.promises)
      × (out.broken_count ≡ count (λ p. is_due now p && not (settled p)) d.promises)
      × SameMoney d out.desk
unfolding reconcile_promises
reconcile_promises-none_due now d =
    let due = filter (is_due now) d.promises in
    let counts = reconcile_rows-counts now due d in
    (
      omega (arith, reconcile_rows-due now due d, no_due_left now d.promises),
      counts.0 ∙ count-filter (was_kept d.books.settlements) (is_due now) d.promises,
      counts.1 ∙ count-filter (λ p. not (was_kept d.books.settlements p)) (is_due now) d.promises,
      counts.2,
    )
