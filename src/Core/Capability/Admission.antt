-- ===== src/Core/Capability/Admission.antt =====
-- Which calls a token admits.
use Prim.Native.String.{◌++◌ as ◌+++◌}
use razorpay_buildathon.Base.{
  ℕ, ◌+◌, ◌≤◌, String, ◌≡◌, refl, sym, ap, ◌∙◌, sort, ◌↔◌, true, false, Option, none, some, List,
  [], ◌∷◌, ◌===◌, ===_iff, arith,
}
use razorpay_buildathon.Core.Platform.{Platform}
use razorpay_buildathon.Core.Json.{Params, object, keys, stringify}
use razorpay_buildathon.Core.Capability.{
  Unsigned, CapabilityToken, Minter, MintInput, Call, cap_text, canonical, sign, mint, same_bytes,
  exceeds, hash_params, verify,
}

same_bytes_refl : (xs : List ℕ) → same_bytes xs xs ≡ true
same_bytes_refl [] = refl
same_bytes_refl (x ∷ xs) = ground (arith, same_bytes_refl xs)

same_bytes-eq : (xs ys : List ℕ) → same_bytes xs ys ≡ true → xs ≡ ys
same_bytes-eq [] [] h = refl
same_bytes-eq [] (y ∷ ys) h = cc
same_bytes-eq (x ∷ xs) [] h = cc
same_bytes-eq (x ∷ xs) (y ∷ ys) h = ground (arith, same_bytes-eq xs ys)

-- A cap as it is signed.
abbrev pub CapText : Platform → Option ℕ → String → Type 0
CapText pf none s = s ≡ "null"
CapText pf (some n) s = s ≡ pf.show_number n

-- The text that a token's signature is over, where `cap` is its cap's text: the ten fields and the
-- currency, with a bar between any two.
abbrev pub signed_text : Platform → Unsigned → String → String
signed_text pf t cap =
    t.case_id
    +++ ("|"
        +++ (t.obligation_id
            +++ ("|"
                +++ (t.action_id
                    +++ ("|"
                        +++ (t.params_hash
                            +++ ("|"
                                +++ (pf.show_number t.attempt_no
                                    +++ ("|"
                                        +++ (cap
                                            +++ ("|"
                                                +++ ("INR"
                                                    +++ ("|"
                                                        +++ (t.policy_version
                                                            +++ ("|"
                                                            +++ (t.rule_id
                                                            +++ ("|"
                                                            +++ (pf.iso t.not_after
                                                            +++ ("|" +++ t.nonce)))))))))))))))))))

-- The text that a hash of parameters is over, with the keys of the outermost object in order.
abbrev pub hashed_text : Platform → Params → String
hashed_text pf params = stringify pf (sort pf.key_before (keys params)) (object params)

cap_text-CapText : (pf : Platform) (cap : Option ℕ) → CapText pf cap (cap_text pf cap)
cap_text-CapText pf none = refl
cap_text-CapText pf (some n) = refl

CapText-cap_text :
    (pf : Platform) (cap : Option ℕ) (s : String) → CapText pf cap s → s ≡ cap_text pf cap
CapText-cap_text pf none s h = h
CapText-cap_text pf (some n) s h = h

sign-signed_text :
    (pf : Platform) (m : Minter) (t : Unsigned) (cap : String)
    → CapText pf t.amount_cap_paise cap
    → pf.hmac m.key (signed_text pf t cap) ≡ sign pf m t
unfolding sign canonical
sign-signed_text pf m t cap h =
    ap (λ c. pf.hmac m.key (signed_text pf t c)) (CapText-cap_text pf t.amount_cap_paise cap h)

pub hash_params-hashed_text :
    (pf : Platform) (params : Params)
    → hash_params pf params ≡ pf.hmac "params" (hashed_text pf params)
unfolding hash_params
hash_params-hashed_text pf params = refl

-- What a call must meet to be admitted with a token.
pub record Admits (pf : Platform) (m : Minter) (now : ℕ) (t : CapabilityToken) (c : Call)
    : Type 0 where
  pub signed :
      (cap : String)
      → CapText pf t.amount_cap_paise cap
      → pf.from_hex (pf.hmac m.key (signed_text pf t.unsigned cap)) ≡ pf.from_hex t.hmac
  pub in_time : now ≤ t.not_after
  pub same_action : t.action_id ≡ c.action_id
  pub same_params : t.params_hash ≡ pf.hmac "params" (hashed_text pf c.params)
  pub in_cap :
      (cap amount : ℕ) → t.amount_cap_paise ≡ some cap → c.amount_paise ≡ some amount → amount ≤ cap

exceeds_iff :
    (cap amount : Option ℕ)
    → (exceeds cap amount ≡ false) ↔ ((k n : ℕ) → cap ≡ some k → amount ≡ some n → n ≤ k)
exceeds_iff none amount = (λ h k n e f. absurd (ground arith), λ h. refl)
exceeds_iff (some k) none = (λ h j n e f. absurd (ground arith), λ h. refl)
exceeds_iff (some k) (some n) = (λ h j i e f. ground arith, λ h. ground (arith, h k n refl refl))

verify-checks :
    (pf : Platform) (m : Minter) (now : ℕ) (t : CapabilityToken) (c : Call)
    → verify pf m now t c ≡ none
    → (same_bytes (pf.from_hex (sign pf m t.unsigned)) (pf.from_hex t.hmac) ≡ true)
      × (now ≤ t.not_after)
      × ((t.action_id === c.action_id) ≡ true)
      × ((t.params_hash === hash_params pf c.params) ≡ true)
      × (exceeds t.amount_cap_paise c.amount_paise ≡ false)
unfolding verify
verify-checks pf m now t c h = ground arith

checks-verify :
    (pf : Platform) (m : Minter) (now : ℕ) (t : CapabilityToken) (c : Call)
    → same_bytes (pf.from_hex (sign pf m t.unsigned)) (pf.from_hex t.hmac) ≡ true
    → now ≤ t.not_after
    → (t.action_id === c.action_id) ≡ true
    → (t.params_hash === hash_params pf c.params) ≡ true
    → exceeds t.amount_cap_paise c.amount_paise ≡ false
    → verify pf m now t c ≡ none
unfolding verify
checks-verify pf m now t c a b d e f = ground arith

-- A token admits a call exactly if its signature is, as bytes, the keyed hash of the text of all its
-- fields, the cap's among them, with bars between them; it has not expired; it is for that action;
-- its parameters' hash is the hash of the call's parameters as they print with the outermost keys in
-- order; and the call's amount, if both carry one, does not exceed the cap.
pub verify_iff :
    (pf : Platform) (m : Minter) (now : ℕ) (t : CapabilityToken) (c : Call)
    → (verify pf m now t c ≡ none) ↔ Admits pf m now t c
verify_iff pf m now t c = (
  λ h.
      let (s, i, a, p, x) = verify-checks pf m now t c h in
      record {
        signed =
            λ cap q. ap pf.from_hex (sign-signed_text pf m t.unsigned cap q) ∙ same_bytes-eq _ _ s;
        in_time = i;
        same_action = (===_iff _ _).0 a;
        same_params = (===_iff _ _).0 p ∙ hash_params-hashed_text pf c.params;
        in_cap = (exceeds_iff _ _).0 x;
      },
  λ v.
      let cap = cap_text pf t.amount_cap_paise in
      let shows = cap_text-CapText pf t.amount_cap_paise in
      let signed : pf.from_hex (sign pf m t.unsigned) ≡ pf.from_hex t.hmac =
        ap pf.from_hex (sym (sign-signed_text pf m t.unsigned cap shows)) ∙ v.signed cap shows in
      checks-verify pf m now t c (rw signed (same_bytes_refl (pf.from_hex t.hmac))) v.in_time
        ((===_iff _ _).1 v.same_action)
        ((===_iff _ _).1 (v.same_params ∙ sym (hash_params-hashed_text pf c.params)))
        ((exceeds_iff _ _).1 v.in_cap),
)

-- A minted token admits, until its time is over, the call of its own action with parameters of its
-- own hash and an amount within its cap.
pub verify-mint :
    (pf : Platform) (m : Minter) (minted now : ℕ) (nonce : String) (i : MintInput) (c : Call)
    → now ≤ minted + m.ttl_ms
    → i.action_id ≡ c.action_id
    → i.params_hash ≡ hash_params pf c.params
    → exceeds i.amount_cap_paise c.amount_paise ≡ false
    → verify pf m now (mint pf m minted nonce i) c ≡ none
unfolding mint
verify-mint pf m minted now nonce i c h a p x =
    checks-verify pf m now (mint pf m minted nonce i) c
      (same_bytes_refl (pf.from_hex (sign pf m (mint pf m minted nonce i).unsigned))) h
      ((===_iff _ _).1 a) ((===_iff _ _).1 p) x
