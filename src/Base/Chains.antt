-- ===== src/Base/Chains.antt =====
-- Chains of optional results.
use mathlib.Core.Path.{◌≡◌, refl}
use mathlib.Core.Option.{Option, none, some}
use razorpay_buildathon.Base.Lists.{◌>>=◌}

module _ {ℓ κ} {A : Type ℓ} {B : Type κ} where
  -- A step that gives something.
  pub >>=-some :
      {o : Option A} {a : A} (f : A → Option B) (b : B)
      → o ≡ some a
      → f a ≡ some b
      → (o >>= f) ≡ some b
  >>=-some f b e h = rw e h

  -- A chain that gives something, taken apart.
  pub >>=-eq-some :
      (o : Option A) (f : A → Option B) {b : B}
      → (o >>= f) ≡ some b
      → (a : A) × (o ≡ some a) × (f a ≡ some b)
  >>=-eq-some none f h = cc
  >>=-eq-some (some a) f h = (a, refl, h)
