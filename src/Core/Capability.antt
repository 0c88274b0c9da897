-- ===== src/Core/Capability.antt =====
-- packages/core/src/capability.ts: the capability token, its minter and its verification.
pub mod Admission
pub mod Blindness
use Prim.Native.String.{◌++◌}
use razorpay_buildathon.Base.{
  ℕ, String, ◌+◌, Bool, true, false, not, ◌&&◌, Option, none, some, List, [], ◌∷◌, ◌===◌, ◌==◌, ltb,
  if◌then◌else◌, sort,
}
use razorpay_buildathon.Core.Platform.{Platform}
use razorpay_buildathon.Core.Json.{Params, object, keys, stringify, join}

-- The token without its signature; `currency` is always "INR". A time is in milliseconds.
pub record Unsigned : Type 0 where
  pub case_id : String
  pub obligation_id : String
  pub action_id : String
  pub params_hash : String
  pub attempt_no : ℕ
  pub amount_cap_paise : Option ℕ
  pub policy_version : String
  pub rule_id : String
  pub not_after : ℕ
  pub nonce : String

pub record CapabilityToken : Type 0 where
  pub unsigned : Unsigned
  pub open unsigned use *
  pub hmac : String

pub data TokenRejection : Type 0 where
  bad_signature expired action_mismatch params_mismatch amount_exceeds_cap : TokenRejection

abbrev pub cap_text : Platform → Option ℕ → String
cap_text pf none = "null"
cap_text pf (some n) = pf.show_number n

unfoldable pub canonical : Platform → Unsigned → String
canonical pf t = join "|" (
    t.case_id
    ∷ t.obligation_id
    ∷ t.action_id
    ∷ t.params_hash
    ∷ pf.show_number t.attempt_no
    ∷ cap_text pf t.amount_cap_paise
    ∷ "INR"
    ∷ t.policy_version
    ∷ t.rule_id
    ∷ pf.iso t.not_after
    ∷ t.nonce
    ∷ [])

unfoldable pub hash_params : Platform → Params → String
hash_params pf params =
    pf.hmac "params" (stringify pf (sort pf.key_before (keys params)) (object params))

-- The minter's key, and how long a token lives: two minutes where the constructor is given no time.
pub record Minter : Type 0 where
  pub key : String
  pub ttl_ms : ℕ

unfoldable pub sign : Platform → Minter → Unsigned → String
sign pf m t = pf.hmac m.key (canonical pf t)

-- What the caller gives of a token.
pub record MintInput : Type 0 where
  pub case_id : String
  pub obligation_id : String
  pub action_id : String
  pub params_hash : String
  pub attempt_no : ℕ
  pub amount_cap_paise : Option ℕ
  pub policy_version : String
  pub rule_id : String

-- `nonce` is what `randomBytes` gave.
unfoldable pub mint : Platform → Minter → ℕ → String → MintInput → CapabilityToken
mint pf m now nonce i =
    let t : Unsigned = record {
      case_id = i.case_id;
      obligation_id = i.obligation_id;
      action_id = i.action_id;
      params_hash = i.params_hash;
      attempt_no = i.attempt_no;
      amount_cap_paise = i.amount_cap_paise;
      policy_version = i.policy_version;
      rule_id = i.rule_id;
      not_after = now + m.ttl_ms;
      nonce = nonce;
    } in
    record { unsigned = t; hmac = sign pf m t }

pub record Call : Type 0 where
  pub action_id : String
  pub params : Params
  pub amount_paise : Option ℕ

-- `timingSafeEqual`, with the test of the lengths before it.
abbrev pub same_bytes : List ℕ → List ℕ → Bool
same_bytes [] [] = true
same_bytes (a ∷ as') (b ∷ bs) = (a == b) && same_bytes as' bs
same_bytes _ _ = false

abbrev pub exceeds : Option ℕ → Option ℕ → Bool
exceeds none amount = false
exceeds (some cap) none = false
exceeds (some cap) (some amount) = ltb cap amount

-- What `verify` throws, or `none` where it returns.
unfoldable pub verify : Platform → Minter → ℕ → CapabilityToken → Call → Option TokenRejection
unfolding sign
verify pf m now token call =
    if not (same_bytes (pf.from_hex (sign pf m token.unsigned)) (pf.from_hex token.hmac))
    then some bad_signature
    else if ltb token.not_after now
    then some expired
    else if not (token.action_id === call.action_id)
    then some action_mismatch
    else if not (token.params_hash === hash_params pf call.params)
    then some params_mismatch
    else if exceeds token.amount_cap_paise call.amount_paise
    then some amount_exceeds_cap
    else none
