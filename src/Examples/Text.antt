-- ===== src/Examples/Text.antt =====
-- An order of texts and a platform to run the examples on.
use Prim.Native.Char.{code}
use Prim.Native.String.{◌++◌}
use text.Mathlib.TextEquality.{Char-path}
use razorpay_buildathon.Base.{
  ℕ, String, ◌≡◌, refl, ◌⊎◌, inl, inr, Bool, true, false, List, [], ◌∷◌, arith, ltb, if◌then◌else◌,
  ◌==◌, ◌===◌, ===_iff, ◌≢◌,
}
use razorpay_buildathon.Base.Order.{TextOrder}
use razorpay_buildathon.Core.Platform.{Platform}

-- Lexicographically, by the numbers of the characters.
abbrev pub sorts_before : String → String → Bool
sorts_before String.[] t = true
sorts_before (String.◌∷◌ c s) String.[] = false
sorts_before (String.◌∷◌ c s) (String.◌∷◌ d t) =
    let rest = sorts_before s t in
    if ltb (code c) (code d) then true else if ltb (code d) (code c) then false else rest

pub sorts_before_refl : (a : String) → sorts_before a a ≡ true
sorts_before_refl String.[] = refl
sorts_before_refl (String.◌∷◌ c s) = ground (arith, sorts_before_refl s)

pub sorts_before_total : (a b : String) → (sorts_before a b ≡ true) ⊎ (sorts_before b a ≡ true)
sorts_before_total String.[] b = inl refl
sorts_before_total (String.◌∷◌ c s) String.[] = inr refl
sorts_before_total (String.◌∷◌ c s) (String.◌∷◌ d t) = ground (arith, sorts_before_total s t)

pub sorts_before_trans :
    (a b c : String) → sorts_before a b ≡ true → sorts_before b c ≡ true → sorts_before a c ≡ true
sorts_before_trans String.[] b c h j = refl
sorts_before_trans (String.◌∷◌ x s) String.[] c h j = absurd (ground arith)
sorts_before_trans (String.◌∷◌ x s) (String.◌∷◌ y t) String.[] h j = absurd (ground arith)
sorts_before_trans (String.◌∷◌ x s) (String.◌∷◌ y t) (String.◌∷◌ z u) h j =
    ground (arith, sorts_before_trans s t u)

pub sorts_before_antisymm :
    (a b : String) → sorts_before a b ≡ true → sorts_before b a ≡ true → a ≡ b
sorts_before_antisymm String.[] String.[] h j = refl
sorts_before_antisymm String.[] (String.◌∷◌ d t) h j = absurd (ground arith)
sorts_before_antisymm (String.◌∷◌ c s) String.[] h j = absurd (ground arith)
sorts_before_antisymm (String.◌∷◌ c s) (String.◌∷◌ d t) h j =
    let same : code c ≡ code d = ground (arith) in
    let rest : s ≡ t = sorts_before_antisymm s t (ground (arith)) (ground (arith)) in
    let letter = Char-path c d same in ground (arith)

abbrev pub text_order : TextOrder
text_order = record {
  before = sorts_before;
  before_refl = sorts_before_refl;
  before_total = sorts_before_total;
  before_trans = sorts_before_trans;
  before_antisymm = sorts_before_antisymm;
}

pub texts_apart : (a b : String) → (a === b) ≡ false → a ≢ b
texts_apart a b f e = ground (arith, ===_iff a b)

abbrev pub bytes : String → List ℕ
bytes String.[] = []
bytes (String.◌∷◌ c s) = code c ∷ bytes s

abbrev pub digit : ℕ → String
digit n = if n == 0 then "0" else if n == 1 then "1" else if n == 2 then "2" else "many"

-- A platform whose hashes keep their texts, and whose clock stands at nine.
abbrev pub platform : Platform
platform = record {
  quote = (λ s. "'" ++ (s ++ "'"));
  show_number = digit;
  iso = digit;
  hmac = (λ key s. key ++ s);
  from_hex = bytes;
  sha256 = (λ s. s);
  key_before = sorts_before;
  zone_hour = (λ at zone. 9);
  zone_minute = (λ at zone. 0);
}
