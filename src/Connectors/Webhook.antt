-- ===== src/Connectors/Webhook.antt =====
-- packages/connectors/src/webhook.ts: a delivery of the provider is verified, then normalised. The
-- time `occurredAt`, which nothing reads, is left out.
use Prim.Native.String.{◌++◌}
use razorpay_buildathon.Base.{
  ℕ, String, Bool, false, ◌||◌, Option, none, some, List, [], ◌∷◌, ◌===◌, get_or, if◌then◌else◌,
}
use razorpay_buildathon.Base.Assoc.{lookup}
use razorpay_buildathon.Core.Platform.{Platform}
use razorpay_buildathon.Core.Json.{
  Value, null, flag, number, text, array, object, Items, end, get_field,
}
use razorpay_buildathon.Core.Capability.{same_bytes}

unfoldable pub verify_webhook_signature : Platform → String → String → String → Bool
verify_webhook_signature pf raw_body signature secret =
    if (signature === "") || (secret === "")
    then false
    else same_bytes (pf.from_hex (pf.hmac secret raw_body)) (pf.from_hex signature)

-- `event_type` is what the body gives, which the code does not check.
pub record NormalizedEvent : Type 0 where
  pub event_id : String
  pub event_type : Option Value
  pub merchant_id : String
  pub external_ref : Option String
  pub amount_paise : Option ℕ
  pub rail : Option String
  pub error_code : Option String
  pub notes : Value
  pub raw : Value

-- What the call returns or throws.
pub data Ingested : Type 0 where
  event : NormalizedEvent → Ingested
  unverified malformed : Ingested

abbrev pub method_to_rail : List (String × String)
method_to_rail =
    ("card", "card")
    ∷ ("upi", "upi_collect")
    ∷ ("netbanking", "netbanking")
    ∷ ("wallet", "wallet")
    ∷ ("emandate", "enach")
    ∷ ("nach", "enach")
    ∷ []

-- `value?.[key]`, for a key that no text, number or array has, and `??`.
abbrev pub member : Option Value → String → Option Value
member (some (object fs)) key = get_field fs key
member _ key = none

abbrev pub or_else : Option Value → Option Value → Option Value
or_else none rest = rest
or_else (some null) rest = rest
or_else (some v) rest = some v

abbrev pub as_text : Option Value → Option String
as_text (some (text t)) = some t
as_text _ = none

abbrev pub as_number : Option Value → Option ℕ
as_number (some (number n)) = some n
as_number _ = none

abbrev pub or_text : Option String → Option String → Option String
or_text none rest = rest
or_text (some t) rest = some t

abbrev pub rail_of : Option String → Option String
rail_of none = none
rail_of (some method) =
    if method === "" then none else some (get_or method (lookup method method_to_rail))

-- `parse` is `JSON.parse`, and `items_text` is `String` of an array.
module _ (parse : String → Option Value) (items_text : Items → String) where
  abbrev pub value_text : Platform → Value → String
  value_text pf null = "null"
  value_text pf (flag b) = if b then "true" else "false"
  value_text pf (number n) = pf.show_number n
  value_text pf (text t) = t
  value_text pf (array xs) = items_text xs
  value_text pf (object fs) = "[object Object]"

  -- `String` of a value or of `undefined`.
  abbrev pub string_of : Platform → Option Value → String
  string_of pf none = "undefined"
  string_of pf (some v) = value_text pf v

  abbrev pub entity_of : Value → Value
  entity_of body =
      let payload = member (some body) "payload" in
      get_or (object end) (
        or_else (member (member payload "payment") "entity") (
          or_else (member (member payload "payment_link") "entity")
            (or_else (member (member payload "subscription") "entity") none)))

  abbrev pub event_id_of : Platform → Value → Value → String
  event_id_of pf body entity = string_of pf (
      or_else (member (some entity) "id") (
        some (
          text (
            string_of pf (member (some body) "event")
            ++ (":"
                ++ string_of pf (or_else (member (some body) "created_at") (some (number 0))))))))

  abbrev pub normalize : Platform → String → Value → NormalizedEvent
  normalize pf merchant_id body =
      let entity = entity_of body in
      let notes = get_or (object end) (or_else (member (some entity) "notes") none) in
      record {
        event_id = event_id_of pf body entity;
        event_type = member (some body) "event";
        merchant_id = merchant_id;
        external_ref =
            or_text (as_text (member (some notes) "external_ref"))
              (as_text (member (some entity) "reference_id"));
        amount_paise = as_number (member (some entity) "amount");
        rail = rail_of (as_text (member (some entity) "method"));
        error_code =
            or_text (as_text (member (some entity) "error_reason"))
              (as_text (member (some entity) "error_code"));
        notes = notes;
        raw = entity;
      }

  -- A body that is `null` throws at the first access.
  abbrev pub parsed : Platform → String → Option Value → Ingested
  parsed pf merchant_id none = malformed
  parsed pf merchant_id (some null) = malformed
  parsed pf merchant_id (some body) = event (normalize pf merchant_id body)

  unfoldable pub ingest_webhook : Platform → String → String → String → String → Ingested
  unfolding verify_webhook_signature
  ingest_webhook pf raw_body signature secret merchant_id =
      if verify_webhook_signature pf raw_body signature secret
      then parsed pf merchant_id (parse raw_body)
      else unverified
