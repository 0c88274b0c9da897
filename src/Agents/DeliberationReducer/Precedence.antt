-- ===== src/Agents/DeliberationReducer/Precedence.antt =====
-- Which claim decides, and when the provider is asked.
use razorpay_buildathon.Base.{
  ◌≡◌, ◌≢◌, refl, subst, ◌↔◌, ◌⊎◌, inl, inr, Bool, true, false, Option, none, some, List, [], ◌∷◌,
  arith, not, sort, All, any, any-sort, Bool-cases,
}
use razorpay_buildathon.Base.Sorting.{Sorted, sort-Sorted}
use razorpay_buildathon.Core.Floats.{Floats, IsOrdered, KeepsOrder, double_of}
use razorpay_buildathon.Agents.DeliberationReducer.{
  opt_out, dispute, Alternative, DiagnosisClaim, ContextClaim, ReducerInput, customer_opted_out,
  disputed, escalate_to_human, Strategy, Reply, answer, fails, clears, falling, by_margin, reduce,
  adjudicate, opts_out, disputes,
}

-- The customer has opted out, or says so.
abbrev pub OptsOut : ContextClaim → Type 0
OptsOut c = (c.opted_out ≡ true) ⊎ (c.intent ≡ opt_out)

-- A strategy that stops for nothing but an escalation, and suppresses nothing.
Quiet : Strategy → Type 0
Quiet s = (s.suppress ≡ false) × ((s.stop_reason ≡ none) ⊎ (s.stop_reason ≡ some escalate_to_human))

adjudicate-Quiet : (p : Option Reply) (d : DiagnosisClaim) → Quiet (adjudicate p d)
unfolding Quiet
adjudicate-Quiet none d = (refl, inr refl)
adjudicate-Quiet (some fails) d = (refl, inr refl)
adjudicate-Quiet (some (answer c n r)) d = (refl, inl refl)

alternative-cases :
    (l : List Alternative)
    → (l ≡ []) ⊎ ((a : Alternative) × (as' : List Alternative) × (l ≡ a ∷ as'))
alternative-cases [] = inl refl
alternative-cases (a ∷ as') = inr (a, as', refl)

by_margin-Quiet : (f : Floats) (p : Option Reply) (d : DiagnosisClaim) → Quiet (by_margin f p d)
unfolding by_margin Quiet
by_margin-Quiet f p d = elim (alternative-cases d.alternatives) [
  | inl e ↦ rw (by_margin, e) (refl, inl refl)
  | inr (a, rest, e) ↦ elim (Bool-cases (clears f d (sort (falling f) (a ∷ rest)))) [
    | inl t ↦ rw (by_margin, e, t) (refl, inl refl)
    | inr below ↦ rw (by_margin, e, below) (adjudicate-Quiet p d)
  ]
]

-- The customer's word comes first: whatever the diagnosis, the incident and the provider say, the
-- strategy stops for an opt-out exactly if there is one, stops for a dispute exactly if there is
-- one and no opt-out, and suppresses exactly if the incident asks for it and there is neither.
pub reduce_precedence :
    (f : Floats) (p : Option Reply) (input : ReducerInput)
    → (((reduce f p input).stop_reason ≡ some customer_opted_out) ↔ OptsOut input.context)
      × (((reduce f p input).stop_reason ≡ some disputed)
          ↔ ((input.context.intent ≡ dispute) × (input.context.opted_out ≡ false)))
      × (((reduce f p input).suppress ≡ true) ↔ (
          (input.incident.suppress ≡ true)
          × (input.context.opted_out ≡ false)
          × (input.context.intent ≢ opt_out)
          × (input.context.intent ≢ dispute)))
unfolding reduce Quiet
reduce_precedence f p input =
    let quiet = by_margin-Quiet f p input.diagnosis in
    (ground (arith), ground (arith), ground (arith))

-- An alternative is too close to the primary hypothesis: its confidence taken from the primary's, as
-- the runtime subtracts, is below 0.15.
abbrev pub is_close : Floats → DiagnosisClaim → Alternative → Bool
is_close f d a =
    not (f.le (f.ratio 15 100) (f.sub (double_of f d.confidence) (double_of f a.confidence)))

module _ (f : Floats) (ordered : IsOrdered f) (rounded : KeepsOrder f) where
  close_below :
      (d : DiagnosisClaim) (a b : Alternative)
      → falling f a b ≡ true
      → is_close f d a ≡ false
      → is_close f d b ≡ false
  close_below d a b h far =
      let p = double_of f d.confidence in
      let x = double_of f a.confidence in
      let y = double_of f b.confidence in
      let apart : f.le (f.ratio 15 100) (f.sub p x) ≡ true = ground arith in
      let apart' =
        ordered.le_trans (f.ratio 15 100) (f.sub p x) (f.sub p y) apart
          (rounded.sub_antitone p y x h) in
      rw apart' refl

  far_below :
      (d : DiagnosisClaim) (a : Alternative) (rest : List Alternative)
      → is_close f d a ≡ false
      → All (λ b. falling f a b ≡ true) rest
      → any (is_close f d) rest ≡ false
  far_below d a [] far h = refl
  far_below d a (b ∷ bs) far (h, hs) = rw (close_below d a b h far) (far_below d a bs far hs)

  clears-Sorted :
      (d : DiagnosisClaim) (l : List Alternative)
      → Sorted (falling f) l
      → (clears f d l ≡ false) ↔ (any (is_close f d) l ≡ true)
  clears-Sorted d [] h = ground (arith)
  clears-Sorted d (a ∷ rest) (h, hs) = ground (arith, far_below d a rest)

  clears-any :
      (d : DiagnosisClaim) (l : List Alternative)
      → (clears f d (sort (falling f) l) ≡ false) ↔ (any (is_close f d) l ≡ true)
  clears-any d l =
      subst (λ b. (clears f d (sort (falling f) l) ≡ false) ↔ (b ≡ true))
        (any-sort (is_close f d) (falling f) l)
        (clears-Sorted d (sort (falling f) l) (
          sort-Sorted (falling f)
            (λ a b. ordered.le_total (double_of f b.confidence) (double_of f a.confidence))
            (λ a b c h j.
              ordered.le_trans (double_of f c.confidence) (double_of f b.confidence)
                (double_of f a.confidence) j h)
            l))

-- The provider gave no answer.
abbrev pub Unanswered : Option Reply → Type 0
Unanswered none = Unit {0}
Unanswered (some fails) = Unit {0}
Unanswered (some (answer c n r)) = ⊥

adjudicate-escalates :
    (p : Option Reply) (d : DiagnosisClaim)
    → ((adjudicate p d).stop_reason ≡ some escalate_to_human) ↔ Unanswered p
adjudicate-escalates none d = ((λ _. tt), (λ _. refl))
adjudicate-escalates (some fails) d = ((λ _. tt), (λ _. refl))
adjudicate-escalates (some (answer c n r)) d = ((λ h. absurd (ground arith)), (λ h. absurd h))

module _ (f : Floats) (ordered : IsOrdered f) (rounded : KeepsOrder f) where
  by_margin-escalates :
      (p : Option Reply) (d : DiagnosisClaim)
      → ((by_margin f p d).stop_reason ≡ some escalate_to_human)
        ↔ ((any (is_close f d) d.alternatives ≡ true) × Unanswered p)
  unfolding by_margin
  by_margin-escalates p d = elim (alternative-cases d.alternatives) [
    | inl e ↦ rw (by_margin, e) (ground (arith))
    | inr (a, rest, e) ↦
        let close = clears-any f ordered rounded d (a ∷ rest) in
        elim (Bool-cases (clears f d (sort (falling f) (a ∷ rest)))) [
          | inl t ↦
              rw (by_margin, e, t)
                (
                  (λ h. absurd (ground arith)),
                  (λ (h, u). let q = close.1 h in absurd (ground arith)),
                )
          | inr below ↦
              let asked = adjudicate-escalates p d in
              rw (by_margin, e, below) ((λ h. (close.0 below, asked.0 h)), (λ (h, u). asked.1 u))
        ]
  ]

  -- The reducer escalates to a human exactly if the customer says nothing that stops the case, no
  -- incident suppresses it, some alternative's confidence, taken from the primary hypothesis's as the
  -- runtime subtracts, leaves less than 0.15, and no provider answers; where the comparison of the
  -- runtime's numbers is total and transitive, and its subtraction keeps the order.
  pub reduce_escalates_iff :
      (p : Option Reply) (input : ReducerInput)
      → (((reduce f p input).stop_reason ≡ some escalate_to_human) ↔ (
          (opts_out input.context ≡ false)
          × (disputes input.context.intent ≡ false)
          × (input.incident.suppress ≡ false)
          × (any (is_close f input.diagnosis) input.diagnosis.alternatives ≡ true)
          × Unanswered p))
  unfolding reduce
  reduce_escalates_iff p input = ground (arith, by_margin-escalates p input.diagnosis)
