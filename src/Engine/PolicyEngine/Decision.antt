-- ===== src/Engine/PolicyEngine/Decision.antt =====
-- What an authorization means, what it writes, and that its token admits the call it was given for.
use razorpay_buildathon.Base.{
  ℕ, ◌+◌, ◌≤◌, ◌≡◌, ◌≢◌, refl, ap, subst, ◌↔◌, ◌⊎◌, inl, inr, String, Bool, true, false, Option,
  none, some, List, [], ◌∷◌, ◌++◌, arith, get_or, if◌then◌else◌,
}
use razorpay_buildathon.Core.Platform.{Platform}
use razorpay_buildathon.Core.Actions.{ActionDef, ActionLibrary, ActionError, Found, get}
use razorpay_buildathon.Core.Actions.Lookup.{found-cases}
use razorpay_buildathon.Core.Capability.{CapabilityToken, Minter, Call, mint, verify, exceeds}
use razorpay_buildathon.Core.Capability.Admission.{verify-mint}
use razorpay_buildathon.Core.Policy.{
  Policy, DecisionOutcome, PolicyDecision, allow, block, require_approval,
}
use razorpay_buildathon.Engine.PolicyEngine.{
  EvaluationContext, DecisionRow, TokenRow, Store, Authorization, decided, thrown, evaluate,
  record_decision, persist_token, mint_input, conclude, authorize,
}
use razorpay_buildathon.Engine.PolicyEngine.Evaluation.{Permits, evaluate_iff}

-- The token of an authorization.
abbrev pub token_of : Authorization → Option CapabilityToken
token_of (decided d t) = t
token_of (thrown e) = none

conclude_mints_iff :
    (pf : Platform) (p : Policy) (m : Minter) (now : ℕ) (nonce : String) (ctx : EvaluationContext)
    (action : ActionDef) (d : PolicyDecision) (store : Store)
    → (token_of (conclude pf p m now nonce ctx action d store).0 ≢ none) ↔ (d.outcome ≡ allow)
unfolding conclude
conclude_mints_iff pf p m now nonce ctx action d store = ground (arith)

authorize-known :
    (pf : Platform) (p : Policy) (lib : ActionLibrary) (m : Minter) (now : ℕ) (nonce : String)
    (ctx : EvaluationContext) (store : Store) {a : ActionDef}
    → get lib ctx.action_id ≡ Found.ok a
    → authorize pf p lib m now nonce ctx store
      ≡ conclude pf p m now nonce ctx a (evaluate pf p now store.budgets ctx a) store
unfolding authorize
authorize-known pf p lib m now nonce ctx store e = rw (e, authorize) refl

authorize-unknown :
    (pf : Platform) (p : Policy) (lib : ActionLibrary) (m : Minter) (now : ℕ) (nonce : String)
    (ctx : EvaluationContext) (store : Store) {x : ActionError}
    → get lib ctx.action_id ≡ Found.err x
    → authorize pf p lib m now nonce ctx store ≡ (thrown x, store)
unfolding authorize
authorize-unknown pf p lib m now nonce ctx store e = rw (e, authorize) refl

outcome-cases : (o : DecisionOutcome) → (o ≡ allow) ⊎ (o ≡ block) ⊎ (o ≡ require_approval)
outcome-cases allow = inl refl
outcome-cases block = inr (inl refl)
outcome-cases require_approval = inr (inr refl)

same_action : {a b : ActionDef} {f : Found} → f ≡ Found.ok a → f ≡ Found.ok b → a ≡ b
same_action g h = ground (arith)

other_found : {x : ActionError} {b : ActionDef} {f : Found} → f ≡ Found.err x → f ≡ Found.ok b → ⊥
other_found g h = ground (arith)

-- A token is minted for a known action that the policy permits, and for no other: an action that
-- the library forbids or does not know, and every one that is blocked or needs approval, gets none.
pub authorize_mints_iff :
    (pf : Platform) (p : Policy) (lib : ActionLibrary) (m : Minter) (now : ℕ) (nonce : String)
    (ctx : EvaluationContext) (store : Store)
    → (token_of (authorize pf p lib m now nonce ctx store).0 ≢ none) ↔ (
        (action : ActionDef) × (get lib ctx.action_id ≡ Found.ok action)
        × Permits pf p now store.budgets ctx action)
authorize_mints_iff pf p lib m now nonce ctx store = elim (found-cases (get lib ctx.action_id)) [
  | inl (a, e) ↦
      let (mints, minted) =
        conclude_mints_iff pf p m now nonce ctx a (evaluate pf p now store.budgets ctx a) store in
      let (permits, permitted) = evaluate_iff pf p now store.budgets ctx a in
      rw (authorize-known pf p lib m now nonce ctx store e) (
        (λ t. (a, e, permits (mints t))),
        (λ (b, g, q).
            minted (permitted (subst (Permits pf p now store.budgets ctx) (same_action g e) q))),
      )
  | inr (x, e) ↦
      rw (authorize-unknown pf p lib m now nonce ctx store e)
        ((λ t. absurd (t refl)), (λ (b, g, q). absurd (other_found e g)))
]

-- The rows that an authorization adds to the decisions and to the tokens.
abbrev pub decision_rows : ℕ → EvaluationContext → Authorization → List DecisionRow
decision_rows now ctx (decided d t) =
    record { case_id = ctx.case_id; action_id = ctx.action_id; decision = d; decided_at = now } ∷ []
decision_rows now ctx (thrown e) = []

abbrev pub token_rows : ℕ → EvaluationContext → Option CapabilityToken → List TokenRow
token_rows now ctx none = []
token_rows now ctx (some t) =
    record { case_id = ctx.case_id; obligation_id = ctx.obligation_id; token = t; minted_at = now }
    ∷ []

-- What an authorization leaves in the tables.
abbrev pub Recorded : ℕ → EvaluationContext → Store → Authorization → Store → Type 0
Recorded now ctx store answer store' =
    (store'.budgets ≡ store.budgets)
    × (store'.decisions ≡ store.decisions ++ decision_rows now ctx answer)
    × (store'.tokens ≡ store.tokens ++ token_rows now ctx (token_of answer))

append_nil : {A : Type 0} (xs : List A) → xs ≡ xs ++ []
append_nil [] = refl
append_nil (x ∷ xs) = ap (◌∷◌ x) (append_nil xs)

conclude-Recorded :
    (pf : Platform) (p : Policy) (m : Minter) (now : ℕ) (nonce : String) (ctx : EvaluationContext)
    (action : ActionDef) (d : PolicyDecision) (store : Store)
    → let (answer, store') = conclude pf p m now nonce ctx action d store in
      Recorded now ctx store answer store'
unfolding conclude record_decision persist_token
conclude-Recorded pf p m now nonce ctx action d store = elim (outcome-cases d.outcome) [
  | inl e ↦ rw (e, conclude) (refl, refl, refl)
  | inr (inl e) ↦ rw (e, conclude) (refl, refl, append_nil store.tokens)
  | inr (inr e) ↦ rw (e, conclude) (refl, refl, append_nil store.tokens)
]

-- Every authorization that does not throw leaves one decision in the ledger, whatever its outcome,
-- and its token, if there is one. One that throws leaves nothing, and none of them spends a budget.
pub authorize-Recorded :
    (pf : Platform) (p : Policy) (lib : ActionLibrary) (m : Minter) (now : ℕ) (nonce : String)
    (ctx : EvaluationContext) (store : Store)
    → let (answer, store') = authorize pf p lib m now nonce ctx store in
      Recorded now ctx store answer store'
authorize-Recorded pf p lib m now nonce ctx store = elim (found-cases (get lib ctx.action_id)) [
  | inl (a, e) ↦
      rw (authorize-known pf p lib m now nonce ctx store e)
        (conclude-Recorded pf p m now nonce ctx a (evaluate pf p now store.budgets ctx a) store)
  | inr (x, e) ↦
      rw (authorize-unknown pf p lib m now nonce ctx store e)
        (refl, append_nil store.decisions, append_nil store.tokens)
]

-- The call that an authorization is asked for.
abbrev pub call_of : EvaluationContext → Call
call_of ctx = record {
  action_id = ctx.action_id;
  params = ctx.params;
  amount_paise = ctx.amount_paise;
}

capped_by_own_amount :
    (capped : Bool) (amount : Option ℕ)
    → exceeds (if capped then some (get_or 0 amount) else none) amount ≡ false
capped_by_own_amount true none = refl
capped_by_own_amount true (some n) = ground (arith)
capped_by_own_amount false amount = refl

conclude_token :
    (pf : Platform) (p : Policy) (m : Minter) (now : ℕ) (nonce : String) (ctx : EvaluationContext)
    (action : ActionDef) (d : PolicyDecision) (store : Store) (t : CapabilityToken)
    → token_of (conclude pf p m now nonce ctx action d store).0 ≡ some t
    → mint pf m now nonce (mint_input pf p ctx action d.rule_id) ≡ t
unfolding conclude
conclude_token pf p m now nonce ctx action d store t h = ground (arith)

conclude-verify :
    (pf : Platform) (p : Policy) (m : Minter) (now later : ℕ) (nonce : String)
    (ctx : EvaluationContext) (action : ActionDef) (d : PolicyDecision) (store : Store)
    (t : CapabilityToken)
    → later ≤ now + m.ttl_ms
    → token_of (conclude pf p m now nonce ctx action d store).0 ≡ some t
    → verify pf m later t (call_of ctx) ≡ none
unfolding mint_input
conclude-verify pf p m now later nonce ctx action d store t le h =
    subst (λ u. verify pf m later u (call_of ctx) ≡ none)
      (conclude_token pf p m now nonce ctx action d store t h)
      (verify-mint pf m now later nonce (mint_input pf p ctx action d.rule_id) (call_of ctx) le refl
        refl (capped_by_own_amount action.amount_capped ctx.amount_paise))

-- A token that an authorization gives passes the verification of the call it was asked for, with
-- its action, its parameters and its amount, as long as the token lives.
pub authorize-verify :
    (pf : Platform) (p : Policy) (lib : ActionLibrary) (m : Minter) (now later : ℕ) (nonce : String)
    (ctx : EvaluationContext) (store : Store) (t : CapabilityToken)
    → later ≤ now + m.ttl_ms
    → token_of (authorize pf p lib m now nonce ctx store).0 ≡ some t
    → verify pf m later t (call_of ctx) ≡ none
authorize-verify pf p lib m now later nonce ctx store t le h =
    elim (found-cases (get lib ctx.action_id)) [
      | inl (a, e) ↦
          conclude-verify pf p m now later nonce ctx a (evaluate pf p now store.budgets ctx a) store
            t le
            (subst (λ r. token_of r.0 ≡ some t) (authorize-known pf p lib m now nonce ctx store e)
              h)
      | inr (x, e) ↦
          let none' : none ≡ some t =
            subst (λ r. token_of r.0 ≡ some t) (authorize-unknown pf p lib m now nonce ctx store e)
              h in
          absurd (ground arith)
    ]
