-- ===== src/Engine/ReleaseController/Ramp.antt =====
-- The ramp: every healthy step takes cases out of the park, and the fourth empties it.
use razorpay_buildathon.Base.{
  ℕ, zero, suc, ◌+◌, ◌≤◌, ◌<◌, ◌≡◌, refl, sym, ap, ◌∙◌, subst, ◌⊎◌, inl, inr, String, true, ◌&&◌,
  Option, some, List, [], ◌∷◌, arith, any, All, count, find?, find?-update_where, length, take,
}
use razorpay_buildathon.Base.Order.{TextOrder}
use razorpay_buildathon.Engine.Incident.{
  IncidentState, releasing, closed, IncidentRow, World, Outcome, is_parked, is_one_of,
  mark_released, parked_cases, release, in_state, is_incident, set_state, get,
}
use razorpay_buildathon.Engine.ReleaseController.{
  HealthReading, Controller, Stepped, released, completed, is_healthy, target_of, slice_of, advance,
  advance_in, complete, step, ramp_stages, unknown_incident,
}
use razorpay_buildathon.Engine.ReleaseController.Park.{
  parked_cases-length, count-marked_less, count-marked_all, Keeps, release-Keeps, some_in, all_in,
}

-- What is left of the park after a step from a stage.
abbrev pub Shrunk : String → ℕ → World → World → Type 0
Shrunk id stage w w' =
    (count (is_parked id) w'.members < count (is_parked id) w.members)
    × (3 ≤ stage → count (is_parked id) w'.members ≡ 0)

-- What a healthy step does to the park of an incident. It may throw what the event store throws.
abbrev pub Ramped : ℕ → String → IncidentRow → World → Stepped → Type 0
Ramped now id i w (unknown_incident x) = ⊥
Ramped now id i w (Stepped.thrown e k w') = Shrunk id i.release_stage w w'
Ramped now id i w (Stepped.ok s k w') =
    ((s.action ≡ completed)
      × (count (is_parked id) w.members ≡ 0)
      × (get id w' ≡ some (in_state now closed (some ramp_stages) i)))
    ⊎ ((s.action ≡ released)
        × Shrunk id i.release_stage w w'
        × (get id w' ≡ some (in_state now releasing (some (i.release_stage + 1)) i)))

set_state-get :
    (now : ℕ) (id : String) (state : IncidentState) (stage : Option ℕ) (i : IncidentRow) (w : World)
    → get id w ≡ some i
    → get id (set_state now id state stage w) ≡ some (in_state now state stage i)
unfolding get set_state
set_state-get now id state stage i w h =
    find?-update_where (is_incident id) (in_state now state stage) w.incidents i (λ a. refl) h

marked-Shrunk :
    (now : ℕ) (id : String) (stage : ℕ) (slice : List String) (w w' : World)
    → w'.members ≡ mark_released now id slice w.members
    → any (λ m. is_parked id m && is_one_of slice m.case_id) w.members ≡ true
    → (3 ≤ stage → All (λ m. is_parked id m ≡ true → is_one_of slice m.case_id ≡ true) w.members)
    → Shrunk id stage w w'
marked-Shrunk now id stage slice w w' e some' every = rw e (
  count-marked_less now id slice w.members some',
  (λ le. count-marked_all now id slice w.members (every le)),
)

take_all : {A : Type 0} (n : ℕ) (xs : List A) → length xs ≤ n → take n xs ≡ xs
take_all zero [] h = refl
take_all (suc n) [] h = refl
take_all zero (x ∷ xs) h = absurd (ground arith)
take_all (suc n) (x ∷ xs) h = ap (◌∷◌ x) (take_all n xs (omega arith))

take_cons :
    {A : Type 0} (n : ℕ) (x : A) (xs : List A) → 1 ≤ n → (ys : List A) × (take n (x ∷ xs) ≡ x ∷ ys)
take_cons zero x xs h = absurd (ground arith)
take_cons (suc n) x xs h = (take n xs, refl)

-- A slice of a park that is not empty begins with its first case, and is all of it from stage 3.
slice_of-cons :
    (stage rounded : ℕ) (x : String) (xs : List String)
    → ((ys : List String) × (slice_of stage rounded (x ∷ xs) ≡ x ∷ ys))
      × (3 ≤ stage → slice_of stage rounded (x ∷ xs) ≡ x ∷ xs)
unfolding slice_of target_of
slice_of-cons zero rounded x xs =
    ((take_cons _ x xs (ground (arith))), (λ h. absurd (ground arith)))
slice_of-cons (suc zero) rounded x xs =
    ((take_cons _ x xs (ground (arith))), (λ h. absurd (ground arith)))
slice_of-cons (suc (suc zero)) rounded x xs =
    ((take_cons _ x xs (ground (arith))), (λ h. absurd (ground arith)))
slice_of-cons (suc (suc (suc n))) rounded x xs =
    ((take_cons _ x xs (ground (arith))), (λ h. take_all _ (x ∷ xs) (ground (arith))))

same_incident :
    (id : String) (i : IncidentRow) (w v : World)
    → v.incidents ≡ w.incidents
    → get id w ≡ some i
    → get id v ≡ some i
unfolding get
same_incident id i w v e h = subst (λ is. find? (is_incident id) is ≡ some i) (sym e) h

advance_in-Ramped :
    (now : ℕ) (id : String) (slice : List String) (n : ℕ) (i : IncidentRow) (k : Controller)
    (w : World) (o : Outcome (Unit {0}))
    → get id w ≡ some i
    → any (λ m. is_parked id m && is_one_of slice m.case_id) w.members ≡ true
    → (3 ≤ i.release_stage
        → All (λ m. is_parked id m ≡ true → is_one_of slice m.case_id ≡ true) w.members)
    → Keeps (mark_released now id slice w.members) w.incidents o
    → Ramped now id i w (advance_in o now id i.release_stage slice n k)
unfolding set_state get
advance_in-Ramped now id slice n i k w (Outcome.thrown e v) found some' every (m, is) =
    marked-Shrunk now id i.release_stage slice w v m some' every
advance_in-Ramped now id slice n i k w (Outcome.ok u v) found some' every (m, is) = inr (
  refl,
  marked-Shrunk now id i.release_stage slice w
      (set_state now id releasing (some (i.release_stage + 1)) v) m some' every,
  set_state-get now id releasing (some (i.release_stage + 1)) i v (same_incident id i w v is found),
)

advance-Ramped :
    (order : TextOrder) (now : ℕ) (id x : String) (xs ys : List String) (i : IncidentRow)
    (k : Controller) (w : World)
    → get id w ≡ some i
    → parked_cases order id w.members ≡ x ∷ xs
    → (3 ≤ i.release_stage → x ∷ ys ≡ x ∷ xs)
    → Ramped now id i w (advance now id i.release_stage (x ∷ ys) (x ∷ xs) k w)
unfolding advance
advance-Ramped order now id x xs ys i k w found e whole =
    advance_in-Ramped now id (x ∷ ys) (length (x ∷ xs)) i k w (release now id (x ∷ ys) w) found
      (some_in order id x xs ys w.members e)
      (λ le. all_in order id (x ∷ ys) w.members (e ∙ sym (whole le))) (release-Keeps now id x ys w)

complete-Ramped :
    (order : TextOrder) (now : ℕ) (id : String) (i : IncidentRow) (k : Controller) (w : World)
    → get id w ≡ some i
    → parked_cases order id w.members ≡ []
    → Ramped now id i w (complete now id k w)
unfolding complete set_state get
complete-Ramped order now id i k w found e = inl (
  refl,
  sym (parked_cases-length order id w.members) ∙ rw e refl,
  set_state-get now id closed (some ramp_stages) i w found,
)

list-cases : (l : List String) → (l ≡ []) ⊎ ((x : String) × (xs : List String) × (l ≡ x ∷ xs))
list-cases [] = inl refl
list-cases (x ∷ xs) = inr (x, xs, refl)

-- A healthy step of the ramp closes an incident with an empty park. Otherwise it takes at least
-- one case out of the park, all of them if the incident is at stage 3 or later, and moves it to
-- the next stage. This holds for every rounding of the slice. If the event store throws on a case
-- of the slice, only what is said of the park holds.
pub step-Ramped :
    (order : TextOrder) (now rounded : ℕ) (id : String) (health : HealthReading) (i : IncidentRow)
    (k : Controller) (w : World)
    → get id w ≡ some i
    → is_healthy k.health_threshold health ≡ true
    → Ramped now id i w (step order now rounded id health k w)
unfolding step
step-Ramped order now rounded id health i k w found good =
    elim (list-cases (parked_cases order id w.members)) [
      | inl e ↦ rw (found, good, e, step) (complete-Ramped order now id i k w found e)
      | inr (x, xs, e) ↦
          let ((ys, s), whole) = slice_of-cons i.release_stage rounded x xs in
          rw (found, good, e, step)
            (rw s (advance-Ramped order now id x xs ys i k w found e (λ le. sym s ∙ whole le)))
    ]
