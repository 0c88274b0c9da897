-- ===== src/Base/Order.antt =====
-- The lexicographic comparison of texts, a parameter where the source asks the locale for it.
use razorpay_buildathon.Base.{String, Bool, true, ◌≡◌, ◌⊎◌}

-- `localeCompare`, as a total order: `before a b` is "`a` sorts no later than `b`".
pub record TextOrder : Type 0 where
  pub before : String → String → Bool
  pub before_refl : (a : String) → before a a ≡ true
  pub before_total : (a b : String) → (before a b ≡ true) ⊎ (before b a ≡ true)
  pub before_trans : (a b c : String) → before a b ≡ true → before b c ≡ true → before a c ≡ true
  pub before_antisymm : (a b : String) → before a b ≡ true → before b a ≡ true → a ≡ b
