-- ===== src/Core/Floats.antt =====
-- The fractional numbers of the runtime, as a parameter: a type with the operations that the code
-- calls. A literal such as 0.05 is `ratio 5 100`.
use razorpay_buildathon.Base.Int.{ℤ}
use razorpay_buildathon.Base.{ℕ, Bool, true, not, ◌≡◌, ◌⊎◌}

pub record Floats : Type 1 where
  pub Float : Type 0
  pub ratio : ℕ → ℕ → Float
  pub add : Float → Float → Float
  pub sub : Float → Float → Float
  pub mul : Float → Float → Float
  pub div : Float → Float → Float
  pub sqrt : Float → Float
  pub exp : Float → Float
  pub abs : Float → Float
  pub sign : Float → Float
  pub larger : Float → Float → Float
  pub smaller : Float → Float → Float
  pub lt : Float → Float → Bool
  pub le : Float → Float → Bool
  pub eq : Float → Float → Bool
  -- `Math.round`, and `Math.floor` of a number that is not negative.
  pub round : Float → ℤ
  pub floor : Float → ℕ

abbrev pub of_nat : (f : Floats) → ℕ → f.Float
of_nat f n = f.ratio n 1

-- The order of the numbers that are not NaN.
pub record IsOrdered (f : Floats) : Type 0 where
  pub le_total : (a b : f.Float) → (f.le a b ≡ true) ⊎ (f.le b a ≡ true)
  pub le_trans : (a b c : f.Float) → f.le a b ≡ true → f.le b c ≡ true → f.le a c ≡ true
  pub lt_not_le : (a b : f.Float) → f.lt a b ≡ not (f.le b a)

-- Rounding keeps the order: what subtracts more leaves no more.
pub record KeepsOrder (f : Floats) : Type 0 where
  pub sub_antitone : (a b c : f.Float) → f.le b c ≡ true → f.le (f.sub a c) (f.sub a b) ≡ true

-- A number as it is written down: a fraction, of which the runtime holds the nearest double. Every
-- finite double that is not negative is held of such a fraction.
pub record Literal : Type 0 where
  pub numerator : ℕ
  pub denominator : ℕ

abbrev pub double_of : (f : Floats) → Literal → f.Float
double_of f l = f.ratio l.numerator l.denominator

abbrev pub hundredths : ℕ → Literal
hundredths n = record { numerator = n; denominator = 100 }
