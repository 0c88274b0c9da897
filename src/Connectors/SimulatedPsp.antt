-- ===== src/Connectors/SimulatedPsp.antt =====
-- packages/connectors/src/simulated-psp.ts: the provider of the simulation, with its own customers.
-- `mulberry32` there is the generator of Attribution.Rng. `to_number` is `Number` of a parameter. Of
-- a result's detail, the fields that two of the methods copy from the parameters are left out.
pub mod Recall
use Prim.Native.String.{◌++◌, slice}
use razorpay_buildathon.Base.{
  ℕ, String, Bool, true, false, not, ◌&&◌, ◌||◌, Option, none, some, List, [], ◌∷◌, ◌===◌, leb,
  get_or, if◌then◌else◌,
}
use razorpay_buildathon.Base.Assoc.{lookup, set_key}
use razorpay_buildathon.Core.Floats.{Floats}
use razorpay_buildathon.Core.Json.{
  Value, null, flag, number, text, array, object, Params, get_field,
}
use razorpay_buildathon.Core.Actions.{simulated}
use razorpay_buildathon.Connectors.Adapter.{AdapterCall, Adapter, CallResult}
use razorpay_buildathon.Attribution.Rng.{draw}

pub data LatentMandate : Type 0 where
  active paused revoked : LatentMandate

abbrev is_revoked : LatentMandate → Bool
is_revoked active = false
is_revoked paused = false
is_revoked revoked = true

pub record PaymentStatus : Type 0 where
  pub found : Bool
  pub captured : Bool
  pub amount_paise : Option ℕ
  pub reference : Option String

pub record PspResult : Type 0 where
  pub ok : Bool
  pub reference : String
  pub paid : Bool
  pub funds_available : Bool
  pub capability : String

-- What the provider keeps: the outcome of each idempotency key, and the generator's state.
pub record Psp : Type 0 where
  pub settled : List (String × PaymentStatus)
  pub rand : ℕ

abbrev pub capabilities : List String
capabilities =
    "createPaymentLink" ∷ "resumeCheckout" ∷ "requestPaymentMethodUpdate" ∷ "sendApprovedTemplate"
    ∷ "createOpsEscalation" ∷ "fetchPaymentStatus" ∷ []

-- `value ?? 0`.
abbrev or_zero : Option Value → Value
or_zero none = number 0
or_zero (some null) = number 0
or_zero (some (flag b)) = flag b
or_zero (some (number n)) = number n
or_zero (some (text t)) = text t
or_zero (some (array xs)) = array xs
or_zero (some (object fs)) = object fs

unfoldable pub fetch_payment_status : String → Psp → PaymentStatus
fetch_payment_status idem_key p =
    get_or (record { found = false; captured = false; amount_paise = none; reference = none })
      (lookup idem_key p.settled)

unfoldable pub seed_settled : String → PaymentStatus → Psp → Psp
seed_settled idem_key status p = record p { settled = set_key idem_key status p.settled }

module _ (f : Floats) (to_number : Value → Option ℕ) where
  pub record LatentCustomer : Type 0 where
    pub has_funds_after_ms : ℕ
    pub card_expired : Bool
    pub mandate_state : LatentMandate
    pub responds_to_link : f.Float
    pub will_pay_regardless : Bool

  abbrev pub default_latent : LatentCustomer
  default_latent = record {
    has_funds_after_ms = 0;
    card_expired = false;
    mandate_state = active;
    responds_to_link = f.ratio 35 100;
    will_pay_regardless = false;
  }

  unfoldable pub latent_for : List (String × LatentCustomer) → String → LatentCustomer
  latent_for latent customer_id = get_or default_latent (lookup customer_id latent)

  abbrev pub dead_instrument : LatentCustomer → Bool
  dead_instrument l = l.card_expired || is_revoked l.mandate_state

  -- Not `!fundsAvailable || cardExpired || mandateState === "revoked"`.
  abbrev pub can_pay : LatentCustomer → Bool → Bool
  can_pay l funds_available = funds_available && not (dead_instrument l)

  -- The switch of `#convert`, for a customer, whether the funds are there, and the draw.
  unfoldable pub converts : LatentCustomer → Bool → f.Float → String → Bool
  converts l funds_available drawn capability =
      if capability === "createPaymentLink"
      then can_pay l funds_available && f.lt drawn l.responds_to_link
      else if capability === "requestPaymentMethodUpdate"
      then f.lt drawn (f.ratio (if dead_instrument l then 42 else 12) 100)
      else if capability === "sendApprovedTemplate"
      then can_pay l funds_available && f.lt drawn (f.ratio 16 100)
      else if capability === "resumeCheckout"
      then funds_available && f.lt drawn (f.ratio 24 100)
      else if capability === "createOpsEscalation"
      then f.lt drawn (f.ratio 27 100)
      else false

  abbrev pub funds_available : ℕ → LatentCustomer → Bool
  funds_available now l = leb l.has_funds_after_ms now

  -- `#record`, with the draw that `#convert` takes from the generator.
  unfoldable pub record_call :
      List (String × LatentCustomer) → ℕ → AdapterCall → String → String → Psp → PspResult × Psp
  unfolding latent_for converts
  record_call latent now call capability prefix p =
      let l = latent_for latent call.customer_id in
      let d = draw p.rand in
      let paid = converts l (funds_available now l) (f.ratio d.parts 4294967296) capability in
      let reference = prefix ++ ("_" ++ slice call.idem_key 0 10) in
      (
        record {
          ok = true;
          reference = reference;
          paid = paid;
          funds_available = funds_available now l;
          capability = capability;
        },
        record {
          settled =
              set_key call.idem_key
                (record {
                  found = true;
                  captured = paid;
                  amount_paise = to_number (or_zero (get_field call.params "amount"));
                  reference = some reference;
                })
                p.settled;
          rand = d.state;
        },
      )

  -- The prefix of a reference, by the method that a capability names.
  abbrev pub prefix_of : String → Option String
  prefix_of capability =
      if capability === "createPaymentLink"
      then some "sim_link"
      else if capability === "resumeCheckout"
      then some "sim_checkout"
      else if capability === "requestPaymentMethodUpdate"
      then some "sim_update"
      else if capability === "sendApprovedTemplate"
      then some "sim_msg"
      else if capability === "createOpsEscalation"
      then some "sim_esc"
      else none

  abbrev pub with_prefix :
      Option String
      → List (String × LatentCustomer)
      → ℕ
      → AdapterCall
      → String
      → Psp
      → Option (PspResult × Psp)
  with_prefix none latent now call capability p = none
  with_prefix (some prefix) latent now call capability p =
      some (record_call latent now call capability prefix p)

  -- `invoke` on this provider; `none` where no method has the capability's name.
  unfoldable pub invoke :
      List (String × LatentCustomer) → ℕ → String → AdapterCall → Psp → Option (PspResult × Psp)
  unfolding record_call
  invoke latent now capability call p =
      with_prefix (prefix_of capability) latent now call capability p

  abbrev pub result_of : Option (PspResult × Psp) → Option CallResult
  result_of none = none
  result_of (some (r, p)) = some (record { ok = r.ok })

  abbrev pub psp_after : Option (PspResult × Psp) → Psp → Psp
  psp_after none p = p
  psp_after (some (r, p')) p = p'

  -- The provider as the engine sees it in one of its states.
  unfoldable pub adapter : List (String × LatentCustomer) → ℕ → Psp → Adapter
  unfolding invoke fetch_payment_status
  adapter latent now p = record {
    name = "SimulatedPSP";
    surface = simulated;
    capabilities = capabilities;
    answer = λ capability call token. result_of (invoke latent now capability call p);
    finds = λ idem_key. (fetch_payment_status idem_key p).found;
  }
