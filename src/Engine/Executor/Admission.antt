-- ===== src/Engine/Executor/Admission.antt =====
-- What an execution needs before anything is written or sent.
use razorpay_buildathon.Base.{
  ℕ, ◌≡◌, refl, ◌⊎◌, inl, inr, String, true, false, none, [], ◌∷◌, arith, ◌===◌, any, Bool-cases,
  Option-cases, get_or,
}
use razorpay_buildathon.Core.Platform.{Platform}
use razorpay_buildathon.Core.Json.{join}
use razorpay_buildathon.Core.Actions.{ActionDef, ActionLibrary, Found, get}
use razorpay_buildathon.Core.Actions.Lookup.{found-cases}
use razorpay_buildathon.Core.Capability.{Minter, verify}
use razorpay_buildathon.Engine.ObligationLease.{
  Locks, LeaseError, Outcome, with_lease, acquire, try_acquire,
}
use razorpay_buildathon.Engine.Executor.{
  ExecuteRequest, Tables, Executed, under_lease, leased, admit, execute, idempotency_key, schedules,
  call_of,
}
use razorpay_buildathon.Connectors.Adapter.{Adapter}

acquired-cases :
    (o : Outcome (Unit {0})) → (o ≡ Outcome.ok tt) ⊎ ((e : LeaseError) × (o ≡ Outcome.err e))
acquired-cases (Outcome.ok tt) = inl refl
acquired-cases (Outcome.err e) = inr (e, refl)

acquire-taken :
    (ttl_ms now : ℕ) (id holder : String) (locks : Locks)
    → (acquire ttl_ms now id holder locks).0 ≡ Outcome.ok tt
    → (try_acquire ttl_ms now id holder locks).0 ≡ true
unfolding acquire
acquire-taken ttl_ms now id holder locks h =
    elim (Bool-cases (try_acquire ttl_ms now id holder locks).0) [
      | inl t ↦ t
      | inr f ↦ absurd (ground (arith))
    ]

leased-cases :
    (ttl_ms now : ℕ) (id holder : String) (r : Executed) (t' t : Tables) (locks : Locks)
    → let t'' = (leased (with_lease ttl_ms now id holder (λ held. ((r, t'), held)) locks) t).1.0 in
      (t'' ≡ t) ⊎ (((try_acquire ttl_ms now id holder locks).0 ≡ true) × (t'' ≡ t'))
unfolding with_lease
leased-cases ttl_ms now id holder r t' t locks =
    elim (acquired-cases (acquire ttl_ms now id holder locks).0) [
      | inl e ↦ rw (with_lease, e) (inr (acquire-taken ttl_ms now id holder locks e, refl))
      | inr (x, e) ↦ rw (with_lease, e) (inl refl)
    ]

-- What an execution needs to get past its admission.
pub record Admitted (pf : Platform) (adapter : Adapter) (lib : ActionLibrary) (m : Minter)
    (ttl_ms now : ℕ) (req : ExecuteRequest) (locks : Locks) (action : ActionDef) : Type 0 where
  pub known : get lib req.action_id ≡ Found.ok action
  pub callable : schedules action.kind ≡ false
  pub supported : any (λ c. c === get_or "" action.capability) adapter.capabilities ≡ true
  pub verified : verify pf m now req.token (call_of req) ≡ none
  pub leased_ :
      (try_acquire ttl_ms now req.obligation_id (join "" ("executor:" ∷ req.case_id ∷ [])) locks).0
      ≡ true

-- An execution leaves the tables and the provider alone, unless the action is known and calls a
-- capability that the adapter has, the token verifies for the call, and the obligation's lease is
-- taken. In that case it leaves what the steps under the lease leave: the burned nonce, the
-- attempt and the call.
pub execute-cases :
    (pf : Platform) (adapter : Adapter) (lib : ActionLibrary) (m : Minter) (ttl_ms now : ℕ)
    (req : ExecuteRequest) (t : Tables) (locks : Locks)
    → let t' = (execute pf adapter lib m ttl_ms now req t locks).1.0 in
      (t' ≡ t)
      ⊎ ((action : ActionDef) × Admitted pf adapter lib m ttl_ms now req locks action
          × (t'
              ≡ (under_lease adapter now
                  (get_or "" action.capability)
                  req
                  (idempotency_key pf req.case_id req.action_id req.attempt_no req.params)
                  t).1))
unfolding execute admit
execute-cases pf adapter lib m ttl_ms now req t locks = elim (found-cases (get lib req.action_id)) [
  | inr (x, e) ↦ rw (e, execute) (inl refl)
  | inl (a, e) ↦ elim (Bool-cases (schedules a.kind)) [
    | inl s ↦ rw (e, execute, s) (inl refl)
    | inr c ↦ elim (Bool-cases (any (λ k. k === get_or "" a.capability) adapter.capabilities)) [
      | inr u ↦ rw (e, execute, c, u) (inl refl)
      | inl has ↦ elim (Option-cases (verify pf m now req.token (call_of req))) [
        | inr (x, v) ↦ rw (e, execute, c, has, v) (inl refl)
        | inl v ↦
            let key = idempotency_key pf req.case_id req.action_id req.attempt_no req.params in
            let (r, t') = under_lease adapter now (get_or "" a.capability) req key t in
            elim (leased-cases ttl_ms now req.obligation_id
              (join "" ("executor:" ∷ req.case_id ∷ [])) r t' t locks) [
                | inl same ↦ rw (e, execute, c, has, v) (inl same)
                | inr (taken, done) ↦
                    rw (e, execute, c, has, v)
                      (inr (
                        a,
                        record {
                          known = e;
                          callable = c;
                          supported = has;
                          verified = v;
                          leased_ = taken;
                        },
                        done,
                      ))
              ]
      ]
    ]
  ]
]
