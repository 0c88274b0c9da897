-- ===== src/Attribution/Rng.antt =====
-- packages/attribution/src/rng.ts: the seeded generator, on 32-bit words. A word is the number below
-- 2 ^ 32 with its bits; a sum or a product is cut to 32 bits where the source does it.
use Prim.Native.Nat.{◌^◌, bit_or, bit_xor}
use razorpay_buildathon.Base.{ℕ, zero, suc, ◌+◌, ◌*◌, ◌/◌, ◌%◌, ◌<◌, ◌≡◌, ◌≢◌, arith}

-- `x >>> 0`.
abbrev pub u32 : ℕ → ℕ
u32 x = x % 4294967296

-- `Math.imul`.
abbrev pub imul : ℕ → ℕ → ℕ
imul a b = u32 (a * b)

abbrev pub shr : ℕ → ℕ → ℕ
shr x k = x / 2 ^ k

-- The state after a draw.
unfoldable pub next : ℕ → ℕ
next a = u32 (a + 0x6d2b79f5)

-- The draw at a state, as a number of 2 ^ 32 parts.
unfoldable pub output : ℕ → ℕ
output a =
    let t = imul (bit_xor a (shr a 15)) (bit_or 1 a) in
    let t' = bit_xor (u32 (t + imul (bit_xor t (shr t 7)) (bit_or 61 t))) t in
    u32 (bit_xor t' (shr t' 14))

pub record Draw : Type 0 where
  pub parts : ℕ
  pub state : ℕ

unfoldable pub draw : ℕ → Draw
unfolding next output
draw a = record { parts = output (next a); state = next a }

-- The state after `n` draws from a seed.
abbrev pub state_after : ℕ → ℕ → ℕ
state_after seed zero = u32 seed
state_after seed (suc n) = next (state_after seed n)

pub draw-lt : (a : ℕ) → (draw a).parts < 4294967296
unfolding draw output
draw-lt a = omega arith

state_after_closed : (seed n : ℕ) → state_after seed n ≡ (seed + n * 0x6d2b79f5) % 4294967296
unfolding next
state_after_closed seed zero = omega arith
state_after_closed seed (suc n) = omega (arith, state_after_closed seed n)

-- The generator does not come back to a state within 2 ^ 32 draws: its period is full.
pub state_after-distinct :
    (seed m n : ℕ) → m < n → n < m + 4294967296 → state_after seed m ≢ state_after seed n
state_after-distinct seed m n h k e =
    omega (arith, state_after_closed seed m, state_after_closed seed n, e)
