-- ===== src/Agents/Optimizer/Choice.antt =====
-- What the optimizer selects.
use razorpay_buildathon.Base.{
  ℕ, suc, ◌≡◌, refl, subst, ◌⊎◌, inl, inr, Bool, true, false, none, some, List, [], ◌∷◌, arith,
  ◌===◌, any, filter, sort, map, All, All-sort, if◌then◌else◌, Bool-cases, ◌*◌, ◌+◌, ◌↔◌, length,
  length-append, length-sort, length-map, count,
}
use razorpay_buildathon.Base.Int.{
  eq_ℤ_iff, leb_ℤ_total, leb_ℤ_trans, leb_ℤ_antisymm, minus, is_positive-up,
}
use razorpay_buildathon.Base.Order.{TextOrder}
use razorpay_buildathon.Base.Sorting.{Sorted, sort-Sorted}
use razorpay_buildathon.Core.Actions.{ActionDef, ActionLibrary, Found, get}
use razorpay_buildathon.Core.Actions.Lookup.{found-cases}
use razorpay_buildathon.Agents.Optimizer.{
  EconomicsCandidate, ScoredAction, Turn, scored, dropped, OptimizerConstraints, score_of, consider,
  scored_of, better, dropped_of, worthless_of, number_from, worth, first, rank,
}

better_total :
    (order : TextOrder) (a b : ScoredAction) → (better order a b ≡ true) ⊎ (better order b a ≡ true)
better_total order a b = ground (
  arith,
  leb_ℤ_total a.score b.score,
  eq_ℤ_iff a.score b.score,
  eq_ℤ_iff b.score a.score,
  order.before_total a.action_id b.action_id,
)

better_trans :
    (order : TextOrder) (a b c : ScoredAction)
    → better order a b ≡ true
    → better order b c ≡ true
    → better order a c ≡ true
better_trans order a b c h j = ground (
  arith,
  leb_ℤ_trans c.score b.score a.score,
  leb_ℤ_antisymm a.score b.score,
  eq_ℤ_iff a.score b.score,
  eq_ℤ_iff b.score c.score,
  eq_ℤ_iff a.score c.score,
  leb_ℤ_antisymm b.score c.score,
  order.before_trans a.action_id b.action_id c.action_id,
)

-- What a scored action owes to the candidates, the library and the constraints.
abbrev pub Owes : ActionLibrary → ℕ → OptimizerConstraints → ScoredAction → Type 0
Owes lib fatigue c s =
    (action : ActionDef) × (any (λ p. p === s.action_id) c.permitted ≡ true)
    × (get lib s.action_id ≡ Found.ok action)
    × (s.score
        ≡ minus (minus s.expected_value_paise c.model_spend_paise)
            (if action.consumes_contact_budget then c.prior_contacts * fatigue else 0))

abbrev OwesTurn : ActionLibrary → ℕ → OptimizerConstraints → Turn → Type 0
OwesTurn lib fatigue c (scored s) = Owes lib fatigue c s
OwesTurn lib fatigue c (dropped r) = Unit {0}

consider-Owes :
    (lib : ActionLibrary) (fatigue : ℕ) (c : OptimizerConstraints) (cand : EconomicsCandidate)
    → OwesTurn lib fatigue c (consider lib fatigue c cand)
unfolding consider score_of
consider-Owes lib fatigue c cand = elim (Bool-cases (any (λ p. p === cand.action_id) c.permitted)) [
  | inr f ↦ rw (f, consider) tt
  | inl t ↦ elim (found-cases (get lib cand.action_id)) [
    | inl (a, e) ↦ rw (t, consider, e) (a, t, e, refl)
    | inr (x, e) ↦ rw (t, consider, e) tt
  ]
]

turn-Owes :
    (lib : ActionLibrary) (fatigue : ℕ) (c : OptimizerConstraints) (t : Turn) (ts : List Turn)
    → OwesTurn lib fatigue c t
    → All (Owes lib fatigue c) (scored_of ts)
    → All (Owes lib fatigue c) (scored_of (t ∷ ts))
turn-Owes lib fatigue c (scored s) ts h hs = (h, hs)
turn-Owes lib fatigue c (dropped r) ts h hs = hs

all-Owes :
    (lib : ActionLibrary) (fatigue : ℕ) (c : OptimizerConstraints) (cands : List EconomicsCandidate)
    → All (Owes lib fatigue c) (scored_of (map (consider lib fatigue c) cands))
all-Owes lib fatigue c [] = tt
all-Owes lib fatigue c (x ∷ xs) =
    turn-Owes lib fatigue c (consider lib fatigue c x) (map (consider lib fatigue c) xs)
      (consider-Owes lib fatigue c x) (all-Owes lib fatigue c xs)

numbered_better :
    (order : TextOrder) (s : ScoredAction) (n : ℕ) (xs : List ScoredAction)
    → All (λ t. better order s t ≡ true) xs
    → All (λ t. better order s t ≡ true) (number_from n xs)
numbered_better order s n [] h = tt
numbered_better order s n (x ∷ xs) (h, hs) = (h, numbered_better order s (suc n) xs hs)

better-worth :
    (order : TextOrder) (s t : ScoredAction)
    → better order s t ≡ true
    → worth s ≡ false
    → worth t ≡ false
better-worth order s t h f =
    ground (arith, is_positive-up t.score s.score, eq_ℤ_iff s.score t.score)

none-worth :
    (order : TextOrder) (s : ScoredAction) (xs : List ScoredAction)
    → All (λ t. better order s t ≡ true) xs
    → worth s ≡ false
    → first (filter worth xs) ≡ none
none-worth order s [] h f = refl
none-worth order s (x ∷ xs) (h, hs) f =
    ground (arith, better-worth order s x h f, none-worth order s xs hs f)

better_refl : (order : TextOrder) (s : ScoredAction) → better order s s ≡ true
better_refl order s = ground (arith, eq_ℤ_iff s.score s.score, order.before_refl s.action_id)

first-none :
    (p : ScoredAction → Bool) (xs : List ScoredAction)
    → (first (filter p xs) ≡ none) ↔ (count p xs ≡ 0)
first-none p [] = ((λ _. refl), (λ _. refl))
first-none p (x ∷ xs) = ground (arith, first-none p xs)

-- The head of a ranking, and that a selection is the head.
selected-head :
    (order : TextOrder) (lib : ActionLibrary) (fatigue : ℕ) (c : OptimizerConstraints)
    (sorted : List ScoredAction) (s : ScoredAction)
    → Sorted (better order) sorted
    → All (Owes lib fatigue c) sorted
    → first (filter worth (number_from 1 sorted)) ≡ some s
    → Owes lib fatigue c s
      × (worth s ≡ true)
      × (s.rank ≡ 1)
      × All (λ t. better order s t ≡ true) (number_from 1 sorted)
selected-head order lib fatigue c [] s h o e = absurd (ground arith)
selected-head order lib fatigue c (x ∷ xs) s (h, hs) (o, os) e = elim (Bool-cases (worth x)) [
  | inl w ↦
      let top : ScoredAction = record x { rank = 1 } in
      let same : top ≡ s = ground (arith) in
      subst
        (λ s'.
          Owes lib fatigue c s'
          × (worth s' ≡ true)
          × (s'.rank ≡ 1)
          × All (λ t. better order s' t ≡ true) (number_from 1 (x ∷ xs)))
        same (o, w, refl, (better_refl order x, numbered_better order x 2 xs h))
  | inr f ↦
      let gone = none-worth order x (number_from 2 xs) (numbered_better order x 2 xs h) f in
      absurd (ground (arith))
]

-- The selected action is permitted and in the library, its score is its expected value less what
-- the model and the contacts cost, and positive; it is ranked first, so no ranked action has a
-- higher score, and one with the same score does not have an earlier id.
pub rank-selected :
    (order : TextOrder) (lib : ActionLibrary) (fatigue : ℕ) (cands : List EconomicsCandidate)
    (c : OptimizerConstraints) (s : ScoredAction)
    → (rank order lib fatigue cands c).selected ≡ some s
    → Owes lib fatigue c s
      × (worth s ≡ true)
      × (s.rank ≡ 1)
      × All (λ t. better order s t ≡ true) (rank order lib fatigue cands c).ranked
unfolding rank
rank-selected order lib fatigue cands c s e =
    let all = scored_of (map (consider lib fatigue c) cands) in
    selected-head order lib fatigue c (sort (better order) all) s
      (sort-Sorted (better order) (better_total order) (better_trans order) all)
      (All-sort (Owes lib fatigue c) (better order) all (all-Owes lib fatigue c cands)) e

length-turns : (ts : List Turn) → length (scored_of ts) + length (dropped_of ts) ≡ length ts
length-turns [] = refl
length-turns (scored s ∷ ts) = ground (arith, length-turns ts)
length-turns (dropped r ∷ ts) = ground (arith, length-turns ts)

length-number_from : (n : ℕ) (xs : List ScoredAction) → length (number_from n xs) ≡ length xs
length-number_from n [] = refl
length-number_from n (x ∷ xs) = ground (arith, length-number_from (suc n) xs)

length-worthless_of :
    (xs : List ScoredAction) → length (worthless_of xs) + count worth xs ≡ length xs
length-worthless_of [] = refl
length-worthless_of (x ∷ xs) = ground (arith, length-worthless_of xs)

-- No candidate is lost: each is either rejected with a reason or ranked with a positive score. If
-- one is ranked so, then one is selected, and otherwise none.
pub rank_accounts :
    (order : TextOrder) (lib : ActionLibrary) (fatigue : ℕ) (cands : List EconomicsCandidate)
    (c : OptimizerConstraints)
    → let r = rank order lib fatigue cands c in
      (length r.rejected + count worth r.ranked ≡ length cands)
      × ((r.selected ≡ none) ↔ (count worth r.ranked ≡ 0))
unfolding rank
rank_accounts order lib fatigue cands c =
    let turns = map (consider lib fatigue c) cands in
    let ranked = number_from 1 (sort (better order) (scored_of turns)) in
    let a = length-append (dropped_of turns) (worthless_of ranked) in
    let b = length-worthless_of ranked in
    let d = length-number_from 1 (sort (better order) (scored_of turns)) in
    let e = length-sort (better order) (scored_of turns) in
    let f = length-turns turns in
    let g = length-map (consider lib fatigue c) cands in (ground (arith), first-none worth ranked)
