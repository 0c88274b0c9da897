-- ===== src/Engine/Executor/SingleUse.antt =====
-- A token and an idempotency key drive one call at most.
use razorpay_buildathon.Base.{
  ℕ, ◌+◌, ◌≤◌, ◌≡◌, refl, sym, subst, inl, inr, String, Bool, true, false, ◌&&◌, Option, none, some,
  List, [], ◌∷◌, ◌++◌, arith, ◌===◌, ===_iff, any, count, update_where, Bool-cases, get_or,
}
use razorpay_buildathon.Core.Platform.{Platform}
use razorpay_buildathon.Core.Actions.{ActionLibrary}
use razorpay_buildathon.Core.Capability.{Minter}
use razorpay_buildathon.Engine.ObligationLease.{Locks}
use razorpay_buildathon.Engine.Executor.{
  ExecuteRequest, AttemptState, AttemptRow, SentCall, Tables, has_idem_key, settle_row, settle,
  settled, send, attempt, under_lease, execute, reconcile, idempotency_key, in_flight, reconciled,
  is_in_flight,
}
use razorpay_buildathon.Engine.TokenBurner.{BurnRow, has_nonce, burn}
use razorpay_buildathon.Connectors.Adapter.{Adapter, CallResult}
use razorpay_buildathon.Engine.Executor.Admission.{execute-cases}

abbrev pub sent_with_nonce : String → SentCall → Bool
sent_with_nonce n c = c.nonce === n

abbrev pub sent_with_key : String → SentCall → Bool
sent_with_key k c = c.call.idem_key === k

-- A nonce is burned once at most, and the calls sent with it were burned; likewise the keys.
abbrev pub OneEach : Tables → Type 0
OneEach t =
    ((n : String)
      → (count (sent_with_nonce n) t.sent ≤ count (has_nonce n) t.burns)
        × (count (has_nonce n) t.burns ≤ 1))
    × ((k : String)
        → (count (sent_with_key k) t.sent ≤ count (has_idem_key k) t.attempts)
          × (count (has_idem_key k) t.attempts ≤ 1))

count-append :
    {A : Type 0} (p : A → Bool) (xs : List A) (a : A)
    → count p (xs ++ a ∷ []) ≡ count p xs + count p (a ∷ [])
count-append p [] a = ground (arith)
count-append p (x ∷ xs) a = ground (arith, count-append p xs a)

count-absent : {A : Type 0} (p : A → Bool) (xs : List A) → any p xs ≡ false → count p xs ≡ 0
count-absent p [] h = refl
count-absent p (x ∷ xs) h = ground (arith, count-absent p xs)

count-settled :
    (k : String) (p : AttemptRow → Bool) (state : AttemptState) (now : ℕ) (xs : List AttemptRow)
    → count (has_idem_key k) (update_where p (settle_row state now) xs) ≡ count (has_idem_key k) xs
count-settled k p state now [] = refl
count-settled k p state now (x ∷ xs) = ground (arith, count-settled k p state now xs)

settled-OneEach :
    (r : Option CallResult) (adapter : Adapter) (now : ℕ) (key : String) (t : Tables)
    → OneEach t
    → OneEach (settled r adapter now key t).1
unfolding settle
settled-OneEach none adapter now key t h = h
settled-OneEach (some r) adapter now key t (n, k) =
    (n, (λ j. rw (count-settled j (has_idem_key key) _ now t.attempts) (k j)))

-- Each text keys one of `ys` at most, and then at most one of `xs`.
Covers : {A B : Type 0} → (A → String) → (B → String) → List A → List B → Type 0
Covers f g xs ys =
    (n : String)
    → (count (λ x. f x === n) xs ≤ count (λ y. g y === n) ys) × (count (λ y. g y === n) ys ≤ 1)

count-other :
    {B : Type 0} (g : B → String) (ys : List B) (b : B) (n : String)
    → any (λ y. g y === g b) ys ≡ false
    → (g b === n) ≡ true
    → count (λ y. g y === n) ys ≡ 0
count-other g ys b n h same =
    subst (λ m. count (λ y. g y === m) ys ≡ 0) ((===_iff (g b) n).0 same)
      (count-absent (λ y. g y === g b) ys h)

Covers-recorded :
    {A B : Type 0} (f : A → String) (g : B → String) (xs : List A) (ys : List B) (b : B)
    → any (λ y. g y === g b) ys ≡ false
    → Covers f g xs ys
    → Covers f g xs (ys ++ b ∷ [])
unfolding Covers
Covers-recorded f g xs ys b new h n =
    let (le, one) = h n in
    let more = count-append (λ y. g y === n) ys b in
    elim (Bool-cases (g b === n)) [
      | inl same ↦ let none' = count-other g ys b n new same in ground (arith)
      | inr other ↦ ground (arith)
    ]

Covers-both :
    {A B : Type 0} (f : A → String) (g : B → String) (xs : List A) (ys : List B) (a : A) (b : B)
    → f a ≡ g b
    → any (λ y. g y === g b) ys ≡ false
    → Covers f g xs ys
    → Covers f g (xs ++ a ∷ []) (ys ++ b ∷ [])
unfolding Covers
Covers-both f g xs ys a b e new h n =
    let (le, one) = h n in
    let more = count-append (λ y. g y === n) ys b in
    let also = count-append (λ x. f x === n) xs a in
    elim (Bool-cases (g b === n)) [
      | inl same ↦ let none' = count-other g ys b n new same in ground (arith)
      | inr other ↦ ground (arith)
    ]

under_lease-OneEach :
    (adapter : Adapter) (now : ℕ) (capability : String) (req : ExecuteRequest) (key : String)
    (t : Tables)
    → OneEach t
    → OneEach (under_lease adapter now capability req key t).1
unfolding under_lease burn attempt send Covers
under_lease-OneEach adapter now capability req key t (n, k) =
    let nonce_of : BurnRow → String = (λ b. b.nonce) in
    let burned : BurnRow = record {
      nonce = req.token.nonce;
      case_id = req.token.case_id;
      action_id = req.token.action_id;
      burned_at = now;
    } in
    let tried : AttemptRow = record {
      idem_key = key;
      case_id = req.case_id;
      obligation_id = req.obligation_id;
      action_id = req.action_id;
      attempt_no = req.attempt_no;
      surface = adapter.surface;
      state = in_flight;
      request = req.params;
      sent_at = now;
      settled_at = none;
    } in
    elim (Bool-cases (any (has_nonce req.token.nonce) t.burns)) [
      | inl replay ↦ rw (under_lease, replay) (n, k)
      | inr fresh ↦
          let n' = Covers-recorded (λ c. c.nonce) nonce_of t.sent t.burns burned fresh n in
          elim (Bool-cases (any (has_idem_key key) t.attempts)) [
            | inl again ↦ rw (under_lease, fresh, again) (n', k)
            | inr new ↦
                let k' =
                  Covers-recorded (λ c. c.call.idem_key) (λ a. a.idem_key) t.sent t.attempts tried
                    new k in
                elim (Bool-cases (capability === "fetchPaymentStatus")) [
                  | inl probe ↦ rw (under_lease, fresh, new, probe) (n', k')
                  | inr call ↦
                      rw (under_lease, fresh, new, call)
                        (settled-OneEach _ adapter now key _ (
                          Covers-both (λ c. c.nonce) nonce_of t.sent t.burns _ burned refl fresh n,
                          Covers-both (λ c. c.call.idem_key) (λ a. a.idem_key) t.sent t.attempts _
                              tried refl new k,
                        ))
                ]
          ]
    ]

execute-OneEach :
    (pf : Platform) (adapter : Adapter) (lib : ActionLibrary) (m : Minter) (ttl_ms now : ℕ)
    (req : ExecuteRequest) (t : Tables) (locks : Locks)
    → OneEach t
    → OneEach (execute pf adapter lib m ttl_ms now req t locks).1.0
execute-OneEach pf adapter lib m ttl_ms now req t locks h =
    elim (execute-cases pf adapter lib m ttl_ms now req t locks) [
      | inl same ↦ subst OneEach (sym same) h
      | inr (a, w, done) ↦ subst OneEach (sym done) (
          under_lease-OneEach adapter now (get_or "" a.capability) req
            (idempotency_key pf req.case_id req.action_id req.attempt_no req.params) t h)
    ]

-- What happens to an executor, with the adapter's behaviour of the moment: the provider may answer
-- one call and throw on the next.
pub data Op : Type 0 where
  executes : Adapter → ℕ → ExecuteRequest → Op
  reconciles : Adapter → ℕ → Op

unfoldable pub step : Platform → ActionLibrary → Minter → ℕ → Tables × Locks → Op → Tables × Locks
step pf lib m ttl_ms (t, locks) (executes adapter now req) =
    (execute pf adapter lib m ttl_ms now req t locks).1
step pf lib m ttl_ms (t, locks) (reconciles adapter now) = (reconcile adapter now t, locks)

unfoldable pub run :
    Platform → ActionLibrary → Minter → ℕ → Tables × Locks → List Op → Tables × Locks
unfolding step
run pf lib m ttl_ms s [] = s
run pf lib m ttl_ms s (o ∷ os) = run pf lib m ttl_ms (step pf lib m ttl_ms s o) os

step-OneEach :
    (pf : Platform) (lib : ActionLibrary) (m : Minter) (ttl_ms : ℕ) (s : Tables × Locks) (o : Op)
    → OneEach s.0
    → OneEach (step pf lib m ttl_ms s o).0
unfolding step reconcile
step-OneEach pf lib m ttl_ms (t, locks) (executes adapter now req) h =
    execute-OneEach pf adapter lib m ttl_ms now req t locks h
step-OneEach pf lib m ttl_ms (t, locks) (reconciles adapter now) (n, k) = (
  n,
  (λ j.
      rw
        (count-settled j (λ a. is_in_flight a && adapter.finds a.idem_key) reconciled now
          t.attempts)
        (k j)),
)

run-OneEach :
    (pf : Platform) (lib : ActionLibrary) (m : Minter) (ttl_ms : ℕ) (os : List Op)
    (s : Tables × Locks)
    → OneEach s.0
    → OneEach (run pf lib m ttl_ms s os).0
unfolding run
run-OneEach pf lib m ttl_ms [] s h = h
run-OneEach pf lib m ttl_ms (o ∷ os) s h =
    run-OneEach pf lib m ttl_ms os (step pf lib m ttl_ms s o) (step-OneEach pf lib m ttl_ms s o h)

at_most_one : (a b : ℕ) → (a ≤ b) × (b ≤ 1) → a ≤ 1
at_most_one a b (h, j) = omega arith

-- Whatever is executed and reconciled from empty tables, in whatever order and however the provider
-- behaves, no token and no idempotency key has driven two calls to the provider.
pub run_single_use :
    (pf : Platform) (lib : ActionLibrary) (m : Minter) (ttl_ms : ℕ) (locks : Locks) (os : List Op)
    → let t = (run pf lib m ttl_ms (record { burns = []; attempts = []; sent = [] }, locks) os).0 in
      ((nonce : String) → count (sent_with_nonce nonce) t.sent ≤ 1)
      × ((key : String) → count (sent_with_key key) t.sent ≤ 1)
run_single_use pf lib m ttl_ms locks os =
    let (n, k) =
      run-OneEach pf lib m ttl_ms os (record { burns = []; attempts = []; sent = [] }, locks)
        ((λ i. ground (arith)), (λ j. ground (arith))) in
    ((λ i. at_most_one _ _ (n i)), (λ j. at_most_one _ _ (k j)))
