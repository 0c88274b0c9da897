-- ===== src/Examples/Numbers.antt =====
-- Numbers in thousandths, and texts: the runtime's parts at concrete values.

use razorpay_buildathon.Base.{ℕ, suc, ◌≡◌, true, arith, ◌*◌, ◌/◌, refl, not, if◌then◌else◌, ◌==◌}
use razorpay_buildathon.Base.Int.{ℤ, pos, negsuc, add_ℤ, eq_ℤ, leb_ℤ, leb_ℤ_total, leb_ℤ_trans}
use razorpay_buildathon.Core.Floats.{Floats, IsOrdered, KeepsOrder}

abbrev opposite : ℤ → ℤ
opposite (pos n) = if n == 0 then pos 0 else add_ℤ (negsuc n) (pos 1)
opposite (negsuc n) = pos (suc n)

abbrev times : ℤ → ℤ → ℤ
times (pos m) (pos n) = pos (m * n / 1000)
times (pos m) (negsuc n) = opposite (pos (m * suc n / 1000))
times (negsuc m) (pos n) = opposite (pos (suc m * n / 1000))
times (negsuc m) (negsuc n) = pos (suc m * suc n / 1000)

abbrev over : ℤ → ℤ → ℤ
over (pos m) (pos n) = pos (m * 1000 / n)
over (pos m) (negsuc n) = opposite (pos (m * 1000 / suc n))
over (negsuc m) (pos n) = opposite (pos (suc m * 1000 / n))
over (negsuc m) (negsuc n) = pos (suc m * 1000 / suc n)

abbrev size : ℤ → ℕ
size (pos n) = n
size (negsuc n) = suc n

-- The square root and the exponential are rough; nothing below depends on their values.
abbrev pub thousandths : Floats
thousandths = record {
  Float = ℤ;
  ratio = λ p q. pos (p * 1000 / q);
  add = add_ℤ;
  sub = λ a b. add_ℤ a (opposite b);
  mul = times;
  div = over;
  sqrt = λ a. a;
  exp = λ a. if leb_ℤ a (pos 0) then pos 500 else pos 2000;
  abs = λ a. pos (size a);
  sign = λ a. if leb_ℤ (pos 0) a then pos 1000 else negsuc 999;
  larger = λ a b. if leb_ℤ a b then b else a;
  smaller = λ a b. if leb_ℤ a b then a else b;
  lt = λ a b. not (leb_ℤ b a);
  le = leb_ℤ;
  eq = eq_ℤ;
  round = λ a. pos (size a / 1000);
  floor = λ a. size a / 1000;
}

pub thousandths-IsOrdered : IsOrdered thousandths
thousandths-IsOrdered = record {
  le_total = leb_ℤ_total;
  le_trans = leb_ℤ_trans;
  lt_not_le = λ a b. refl;
}

-- A difference, as a comparison of sums.
leb-opposite :
    (a b c : ℤ) → leb_ℤ b c ≡ true → leb_ℤ (add_ℤ a (opposite c)) (add_ℤ a (opposite b)) ≡ true
leb-opposite (pos m) (pos n) (pos k) h = ground arith
leb-opposite (pos m) (pos n) (negsuc k) h = ground arith
leb-opposite (pos m) (negsuc n) (pos k) h = ground arith
leb-opposite (pos m) (negsuc n) (negsuc k) h = ground arith
leb-opposite (negsuc m) (pos n) (pos k) h = ground arith
leb-opposite (negsuc m) (pos n) (negsuc k) h = ground arith
leb-opposite (negsuc m) (negsuc n) (pos k) h = ground arith
leb-opposite (negsuc m) (negsuc n) (negsuc k) h = ground arith

pub thousandths-KeepsOrder : KeepsOrder thousandths
thousandths-KeepsOrder = record { sub_antitone = leb-opposite }
