-- ===== src/Core/Platform.antt =====
-- What the code calls of the runtime: JSON's form of texts and numbers, dates, HMAC, time zones.
use razorpay_buildathon.Base.{ℕ, String, Bool, List}

pub record Platform : Type 0 where
  -- `JSON.stringify` of a text, and `String` of a number.
  pub quote : String → String
  pub show_number : ℕ → String
  -- `Date.prototype.toISOString`.
  pub iso : ℕ → String
  -- `createHmac("sha256", key).update(text).digest("hex")`, and `Buffer.from(text, "hex")`.
  pub hmac : String → String → String
  pub from_hex : String → List ℕ
  -- `createHash("sha256").update(text).digest("hex")`.
  pub sha256 : String → String
  -- The order of `Array.prototype.sort` on texts: no later than.
  pub key_before : String → String → Bool
  -- The hour and minute that `Intl.DateTimeFormat` gives in a time zone.
  pub zone_hour : ℕ → String → ℕ
  pub zone_minute : ℕ → String → ℕ
