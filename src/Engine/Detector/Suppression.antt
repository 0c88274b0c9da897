-- ===== src/Engine/Detector/Suppression.antt =====
-- Child suppression: of a parent and a child that both fail, one opens an incident.
use razorpay_buildathon.Base.{
  ◌≡◌, Bool, false, not, ◌&&◌, List, arith, All, All-filter, All-imp, All-both, All-swap, All-unit,
  All-any-false, any, filter,
}
use razorpay_buildathon.Core.Floats.{Floats, IsOrdered}
use razorpay_buildathon.Engine.Detector.{
  SegmentKey, SegmentObservation, Hysteresis, Candidate, DetectorConfig, is_ancestor, explained_by,
  superseded_by, suppress, evaluate, drop_of, parent_explains_ratio,
}

-- A segment is not strictly coarser than itself.
pub is_ancestor_irrefl : (k : SegmentKey) → is_ancestor k k ≡ false
unfolding is_ancestor
is_ancestor_irrefl k = ground arith

module _ (f : Floats) (ordered : IsOrdered f) where
  abbrev pub Unrelated : Candidate f → Candidate f → Type 0
  Unrelated c d = is_ancestor c.segment d.segment ≡ false

  unrelated :
      (c d : Candidate f) → superseded_by f c d ≡ false → explained_by f d c ≡ false → Unrelated c d
  unrelated c d not_superseded not_explained =
      ground
        (arith, ordered.lt_not_le (drop_of f c) (f.mul (drop_of f d) (parent_explains_ratio f)))

  -- What a candidate that stays is not.
  Kept : List (Candidate f) → Candidate f → Type 0
  Kept dwelled c =
      (any (explained_by f c) dwelled ≡ false) × (any (superseded_by f c) dwelled ≡ false)

  abbrev stays : List (Candidate f) → Candidate f → Bool
  stays dwelled c = not (any (explained_by f c) dwelled) && not (any (superseded_by f c) dwelled)

  kept : (dwelled : List (Candidate f)) → All (Kept dwelled) (filter (stays dwelled) dwelled)
  unfolding Kept
  kept dwelled =
      All-filter (λ _. Unit {0}) (Kept dwelled) (stays dwelled) dwelled (λ c u t. ground arith)
        (All-unit dwelled)

  among :
      (Q : Candidate f → Type 0) (dwelled : List (Candidate f))
      → All Q dwelled
      → All Q (filter (stays dwelled) dwelled)
  among Q dwelled h = All-filter Q Q (stays dwelled) dwelled (λ c q t. q) h

  suppress-Unrelated :
      (dwelled : List (Candidate f))
      → All (λ c. All (Unrelated c) (suppress f dwelled)) (suppress f dwelled)
  unfolding suppress Kept
  suppress-Unrelated dwelled =
      let left = filter (stays dwelled) dwelled in
      let none_supersedes =
        All-imp (Kept dwelled) (λ c. All (λ d. superseded_by f c d ≡ false) left) left
          (λ c k.
            among (λ d. superseded_by f c d ≡ false) dwelled
              (All-any-false (superseded_by f c) dwelled k.1))
          (kept dwelled) in
      let none_explains =
        All-imp (Kept dwelled) (λ d. All (λ c. explained_by f d c ≡ false) left) left
          (λ d k.
            among (λ c. explained_by f d c ≡ false) dwelled
              (All-any-false (explained_by f d) dwelled k.0))
          (kept dwelled) in
      All-both (λ c. All (λ d. superseded_by f c d ≡ false) left)
        (λ c. All (λ d. explained_by f d c ≡ false) left) (λ c. All (Unrelated c) left) left
        (λ c p q.
          All-both (λ d. superseded_by f c d ≡ false) (λ d. explained_by f d c ≡ false)
            (Unrelated c) left (λ d. unrelated c d) p q)
        none_supersedes (All-swap (λ d c. explained_by f d c ≡ false) left left none_explains)

  -- Where no rate is NaN, of the segments for which a tick opens incidents none is strictly coarser
  -- than another and contains it.
  pub evaluate-Unrelated :
      (config : DetectorConfig f) (observations : List SegmentObservation) (h : Hysteresis)
      → let opened = (evaluate f config observations h).1 in
        All (λ c. All (Unrelated c) opened) opened
  unfolding evaluate
  evaluate-Unrelated config observations h = suppress-Unrelated _
