-- ===== src/Base/Int.antt =====
-- Integers over the native numbers: a sequence number starts at -1.
use razorpay_buildathon.Base.{
  ℕ, zero, suc, ◌+◌, ◌-◌, ◌≡◌, refl, ◌↔◌, ◌⊎◌, inl, inr, Bool, true, false, arith, ◌==◌, leb,
  if◌then◌else◌,
}

-- `negsuc n` is -(n + 1).
pub data ℤ : Type 0 where
  pos : ℕ → ℤ
  negsuc : ℕ → ℤ

abbrev pub suc_ℤ : ℤ → ℤ
suc_ℤ (pos n) = pos (suc n)
suc_ℤ (negsuc zero) = pos 0
suc_ℤ (negsuc (suc n)) = negsuc n

abbrev pub eq_ℤ : ℤ → ℤ → Bool
eq_ℤ (pos m) (pos n) = m == n
eq_ℤ (negsuc m) (negsuc n) = m == n
eq_ℤ _ _ = false

pub eq_ℤ_iff : (a b : ℤ) → (eq_ℤ a b ≡ true) ↔ (a ≡ b)
eq_ℤ_iff (pos m) (pos n) = ground arith
eq_ℤ_iff (pos m) (negsuc n) = ground arith
eq_ℤ_iff (negsuc m) (pos n) = ground arith
eq_ℤ_iff (negsuc m) (negsuc n) = ground arith

abbrev pub leb_ℤ : ℤ → ℤ → Bool
leb_ℤ (pos m) (pos n) = leb m n
leb_ℤ (pos m) (negsuc n) = false
leb_ℤ (negsuc m) (pos n) = true
leb_ℤ (negsuc m) (negsuc n) = leb n m

-- A natural number taken from an integer.
abbrev pub minus : ℤ → ℕ → ℤ
minus (pos m) n = if leb n m then pos (m - n) else negsuc (n - m - 1)
minus (negsuc m) n = negsuc (m + n)

abbrev pub add_ℤ : ℤ → ℤ → ℤ
add_ℤ (pos m) (pos n) = pos (m + n)
add_ℤ (pos m) (negsuc n) = minus (pos m) (suc n)
add_ℤ (negsuc m) (pos n) = minus (pos n) (suc m)
add_ℤ (negsuc m) (negsuc n) = negsuc (m + n + 1)

abbrev pub is_positive : ℤ → Bool
is_positive (pos zero) = false
is_positive (pos (suc n)) = true
is_positive (negsuc n) = false

pub leb_ℤ_total : (a b : ℤ) → (leb_ℤ a b ≡ true) ⊎ (leb_ℤ b a ≡ true)
leb_ℤ_total (pos m) (pos n) = ground (arith)
leb_ℤ_total (pos m) (negsuc n) = inr refl
leb_ℤ_total (negsuc m) (pos n) = inl refl
leb_ℤ_total (negsuc m) (negsuc n) = ground (arith)

pub leb_ℤ_trans : (a b c : ℤ) → leb_ℤ a b ≡ true → leb_ℤ b c ≡ true → leb_ℤ a c ≡ true
leb_ℤ_trans (pos m) (pos n) (pos k) h j = ground (arith)
leb_ℤ_trans (pos m) (pos n) (negsuc k) h j = ground (arith)
leb_ℤ_trans (pos m) (negsuc n) (pos k) h j = ground (arith)
leb_ℤ_trans (pos m) (negsuc n) (negsuc k) h j = ground (arith)
leb_ℤ_trans (negsuc m) (pos n) (pos k) h j = ground (arith)
leb_ℤ_trans (negsuc m) (pos n) (negsuc k) h j = ground (arith)
leb_ℤ_trans (negsuc m) (negsuc n) (pos k) h j = ground (arith)
leb_ℤ_trans (negsuc m) (negsuc n) (negsuc k) h j = ground (arith)

pub leb_ℤ_antisymm : (a b : ℤ) → leb_ℤ a b ≡ true → leb_ℤ b a ≡ true → a ≡ b
leb_ℤ_antisymm (pos m) (pos n) h j = ground (arith)
leb_ℤ_antisymm (pos m) (negsuc n) h j = ground (arith)
leb_ℤ_antisymm (negsuc m) (pos n) h j = ground (arith)
leb_ℤ_antisymm (negsuc m) (negsuc n) h j = ground (arith)

pub is_positive-up : (a b : ℤ) → leb_ℤ a b ≡ true → is_positive a ≡ true → is_positive b ≡ true
is_positive-up (pos zero) b h j = absurd (ground arith)
is_positive-up (negsuc m) b h j = absurd (ground arith)
is_positive-up (pos (suc m)) (pos zero) h j = absurd (ground arith)
is_positive-up (pos (suc m)) (pos (suc n)) h j = refl
is_positive-up (pos (suc m)) (negsuc n) h j = absurd (ground arith)
