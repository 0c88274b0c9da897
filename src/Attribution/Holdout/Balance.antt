-- ===== src/Attribution/Holdout/Balance.antt =====
-- The balance counts the assignments of each stratum.
use razorpay_buildathon.Base.{
  ℕ, ◌+◌, ◌≡◌, refl, ap, ◌∙◌, String, Bool, true, not, ◌&&◌, Option, none, some, List, [], ◌∷◌,
  arith, ◌===◌, ===_iff, ===_refl, All, All-map, All-sort, All-imp, any, any-sort, any-map, count,
  count-none, subst, get_or, is_some, map, if◌then◌else◌, Bool-cases, inl, inr,
}
use razorpay_buildathon.Base.Assoc.{lookup, set_key, lookup-set_key}
use razorpay_buildathon.Base.Order.{TextOrder}
use razorpay_buildathon.Core.Floats.{Floats}
use razorpay_buildathon.Attribution.Holdout.{
  Assignment, Arms, no_arms, add_to, by_stratum, balance_row, balance,
}

abbrev of_stratum : String → Assignment → Bool
of_stratum k a = a.stratum === k

abbrev pub count_treated : String → List Assignment → ℕ
count_treated k assignments = count (λ a. (a.stratum === k) && not a.holdout) assignments

abbrev pub count_holdout : String → List Assignment → ℕ
count_holdout k assignments = count (λ a. (a.stratum === k) && a.holdout) assignments

-- What the loop adds to the row of a stratum.
abbrev grown : String → List Assignment → Option Arms → Option Arms
grown k assignments row =
    if any (of_stratum k) assignments
    then some (record {
      treated = (get_or no_arms row).treated + count_treated k assignments;
      holdout = (get_or no_arms row).holdout + count_holdout k assignments;
    })
    else row

grown-add :
    (k : String) (a : Assignment) (rest : List Assignment) (row : Option Arms)
    → (a.stratum === k) ≡ true
    → grown k rest (some (add_to a.holdout (get_or no_arms row))) ≡ grown k (a ∷ rest) row
grown-add k a rest row t = elim (Bool-cases a.holdout) [
  | inl h ↦ ground (
    arith,
    count-none (of_stratum k) (λ x. not x.holdout) rest,
    count-none (of_stratum k) (λ x. x.holdout) rest,
  )
  | inr n ↦ ground (
    arith,
    count-none (of_stratum k) (λ x. not x.holdout) rest,
    count-none (of_stratum k) (λ x. x.holdout) rest,
  )
]

grown-cons :
    (k : String) (a : Assignment) (rest : List Assignment) (rows : List (String × Arms))
    → grown k rest (
        if a.stratum === k
        then some (add_to a.holdout (get_or no_arms (lookup a.stratum rows)))
        else lookup k rows)
      ≡ grown k (a ∷ rest) (lookup k rows)
grown-cons k a rest rows = elim (Bool-cases (a.stratum === k)) [
  | inl t ↦
      let found = ap (λ s. lookup s rows) ((===_iff a.stratum k).0 t) in
      ap (grown k rest) (row_of found t) ∙ grown-add k a rest (lookup k rows) t
  | inr other ↦ ground (arith, other)
]
  where
    row_of :
        lookup a.stratum rows ≡ lookup k rows
        → (a.stratum === k) ≡ true
        → (if a.stratum === k
            then some (add_to a.holdout (get_or no_arms (lookup a.stratum rows)))
            else lookup k rows)
          ≡ some (add_to a.holdout (get_or no_arms (lookup k rows)))
    row_of found t = rw (t, found) refl

lookup-by_stratum :
    (k : String) (assignments : List Assignment) (rows : List (String × Arms))
    → lookup k (by_stratum assignments rows) ≡ grown k assignments (lookup k rows)
unfolding by_stratum
lookup-by_stratum k [] rows = refl
lookup-by_stratum k (a ∷ rest) rows =
    let row = add_to a.holdout (get_or no_arms (lookup a.stratum rows)) in
    lookup-by_stratum k rest (set_key a.stratum row rows)
    ∙ ap (grown k rest) (lookup-set_key a.stratum k row rows)
    ∙ grown-cons k a rest rows

-- No key stands twice.
abbrev DistinctKeys : List (String × Arms) → Type 0
DistinctKeys [] = Unit {0}
DistinctKeys ((k, v) ∷ rest) = (lookup k rest ≡ none) × DistinctKeys rest

set_key-DistinctKeys :
    (k : String) (v : Arms) (rows : List (String × Arms))
    → DistinctKeys rows
    → DistinctKeys (set_key k v rows)
set_key-DistinctKeys k v [] d = (refl, tt)
set_key-DistinctKeys k v ((j, w) ∷ rest) d = elim (Bool-cases (j === k)) [
  | inl t ↦ rw t d
  | inr n ↦ rw n (
    ground (arith, lookup-set_key k j v rest, ===_iff k j, ===_iff j k, d.0),
    set_key-DistinctKeys k v rest d.1,
  )
]

by_stratum-DistinctKeys :
    (assignments : List Assignment) (rows : List (String × Arms))
    → DistinctKeys rows
    → DistinctKeys (by_stratum assignments rows)
unfolding by_stratum
by_stratum-DistinctKeys [] rows d = d
by_stratum-DistinctKeys (a ∷ rest) rows d =
    by_stratum-DistinctKeys rest _ (set_key-DistinctKeys a.stratum _ rows d)

-- Every entry is what a lookup of its key finds.
entries_found :
    (rows : List (String × Arms)) → DistinctKeys rows → All (λ e. lookup e.0 rows ≡ some e.1) rows
entries_found [] d = tt
entries_found ((k, v) ∷ rest) d = (
  rw (===_refl k) refl,
  All-imp (λ e. lookup e.0 rest ≡ some e.1) (λ e. lookup e.0 ((k, v) ∷ rest) ≡ some e.1) rest
      (λ e h. elim (Bool-cases (k === e.0)) [
        | inl t ↦
            let hit = subst (λ i. lookup i rest ≡ none) ((===_iff k e.0).0 t) d.0 in
            absurd (ground arith)
        | inr other ↦ rw other h
      ])
      (entries_found rest d.1),
)

lookup-any :
    (k : String) (rows : List (String × Arms)) → any (λ e. e.0 === k) rows ≡ is_some (lookup k rows)
lookup-any k [] = refl
lookup-any k ((j, v) ∷ rest) = ground (arith, lookup-any k rest)

-- What the loop finds of a stratum from the start.
counts_of :
    (assignments : List Assignment) (e : String × Arms)
    → lookup e.0 (by_stratum assignments []) ≡ some e.1
    → (e.1.treated ≡ count_treated e.0 assignments) × (e.1.holdout ≡ count_holdout e.0 assignments)
counts_of assignments e h =
    let found = lookup-by_stratum e.0 assignments [] in ground (arith, found)

module _ (f : Floats) (order : TextOrder) (assignments : List Assignment) where
  -- Each row of the balance counts the treated and the held out cases of its stratum among the
  -- assignments.
  pub balance-counts :
      All
        (λ b.
          (b.treated ≡ count_treated b.stratum assignments)
          × (b.holdout ≡ count_holdout b.stratum assignments))
        (balance f order assignments)
  unfolding balance
  balance-counts = All-sort _ _ _ (
      All-map _ (balance_row f) (by_stratum assignments []) (
        All-imp (λ e. lookup e.0 (by_stratum assignments []) ≡ some e.1) _
          (by_stratum assignments []) (counts_of assignments)
          (entries_found (by_stratum assignments []) (by_stratum-DistinctKeys assignments [] tt))))

  -- A stratum has a row exactly when a case is assigned in it.
  pub balance-strata :
      (k : String)
      → any (λ b. b.stratum === k) (balance f order assignments)
        ≡ any (λ a. a.stratum === k) assignments
  unfolding balance
  balance-strata k =
      any-sort (λ b. b.stratum === k) _ (map (balance_row f) (by_stratum assignments []))
      ∙ any-map (balance_row f) (λ b. b.stratum === k) (by_stratum assignments [])
      ∙ lookup-any k (by_stratum assignments [])
      ∙ ap is_some (lookup-by_stratum k assignments [])
      ∙ ground (arith)
