-- ===== src/Core/Policy/Window.antt =====
-- The quiet window, also across midnight.
use razorpay_buildathon.Base.{ℕ, ◌≤◌, ◌<◌, ◌≡◌, refl, ◌↔◌, true, false, arith, some}
use razorpay_buildathon.Core.Policy.{in_window, to_minutes}

-- A window that ends later in the day than it starts holds the minutes between; one that ends
-- earlier wraps midnight and holds all but the minutes from its end up to its start.
pub in_window_iff :
    (now start end : ℕ)
    → (start ≤ end → (in_window now start end ≡ true) ↔ ((start ≤ now) × (now < end)))
      × (end < start → (in_window now start end ≡ false) ↔ ((end ≤ now) × (now < start)))
unfolding in_window
in_window_iff now start end = (λ h. ground arith, λ h. ground arith)

to_minutes_nine : to_minutes "21:05" ≡ some 1265
unfolding to_minutes
to_minutes_nine = refl
