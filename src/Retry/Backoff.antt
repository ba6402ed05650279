-- ===== src/Retry/Backoff.antt =====
-- The delay is the documented one, and in its bounds.
use native.Mathlib.Nat.{pow-le-pow_right, two-pow-succ, mul-add}
use capivara_rs.Prelude.{
  Bool, ℕ, zero, suc, ◌+◌, ◌-◌, ◌*◌, ◌/◌, ◌^◌, ◌≤◌, ◌<◌, ◌≡◌, ◌≢◌, ◌⊎◌, inl, true, false, min,
  arith,
}
use capivara_rs.Time.{u64_max, duration_max}
use capivara_rs.Retry.{RetryPolicy, saturating_mul_pow2, raw_delay, delay_for_attempt}

-- The bound of a draw: `gen_range(0..=n)` returns at most `n`.
abbrev pub InRange : (ℕ → ℕ) → Type 0
InRange draw = (n : ℕ) → draw n ≤ n

mul-pow_large : (b e : ℕ) → 0 < b → 128 ≤ e → u64_max < b * 2 ^ e
mul-pow_large b e pos h =
    let big : 2 ^ 128 ≤ 2 ^ e = pow-le-pow_right {n = 2} (omega arith) h in grind (arith, big)

-- Doubling saturates only past 64 bits of nanoseconds.
saturating_mul_pow2_cases :
    (b e : ℕ)
    → (saturating_mul_pow2 b e ≡ b * 2 ^ e)
      ⊎ ((u64_max < b * 2 ^ e) × (saturating_mul_pow2 b e ≡ duration_max))
unfolding saturating_mul_pow2
saturating_mul_pow2_cases b zero = inl (ground arith)
saturating_mul_pow2_cases b (suc e) = ground (arith, mul-pow_large b (suc e))

saturating_mul_pow2_large :
    (b e : ℕ) → 0 < e → u64_max < b * 2 ^ e → saturating_mul_pow2 b e ≡ duration_max
unfolding saturating_mul_pow2
saturating_mul_pow2_large b e pos h = ground arith

saturating_mul_pow2-le : (b e : ℕ) → b ≤ duration_max → saturating_mul_pow2 b e ≤ duration_max
unfolding saturating_mul_pow2
saturating_mul_pow2-le b e h = ground arith

saturating_mul_pow2_mono :
    (b e : ℕ) → b ≤ duration_max → saturating_mul_pow2 b e ≤ saturating_mul_pow2 b (suc e)
saturating_mul_pow2_mono b e h =
    let doubled : b * 2 ^ suc e ≡ b * 2 ^ e + b * 2 ^ e =
      rw two-pow-succ (mul-add b (2 ^ e) (2 ^ e)) in
    ground (
      arith,
      doubled,
      saturating_mul_pow2_cases b e,
      saturating_mul_pow2_cases b (suc e),
      saturating_mul_pow2_large b (suc e),
      saturating_mul_pow2-le b e h,
    )

raw_delay-le : (p : RetryPolicy) (attempt : ℕ) → raw_delay p attempt ≤ p.max_delay
unfolding raw_delay
raw_delay-le p attempt = omega arith

-- With jitter a delay is at most twice the half of the raw one, and without it the raw one.
abbrev pub Jitters : Bool → ℕ → ℕ → Type 0
Jitters true raw delay = delay ≤ 2 * (raw / 2)
Jitters false raw delay = delay ≡ raw

-- For a draw within its range, the delay with jitter lies between half the raw delay, rounded down,
-- and twice that, which is at most the raw delay and so the cap; without jitter it is the raw
-- delay.
pub delay_bounds :
    (draw : ℕ → ℕ) (p : RetryPolicy) (attempt : ℕ)
    → InRange draw
    → (raw_delay p attempt / 2 ≤ delay_for_attempt draw p attempt)
      × (delay_for_attempt draw p attempt ≤ raw_delay p attempt)
      × (raw_delay p attempt ≤ p.max_delay)
      × Jitters p.jitter (raw_delay p attempt) (delay_for_attempt draw p attempt)
unfolding delay_for_attempt
delay_bounds draw p attempt h =
    ground (arith, h (min (raw_delay p attempt / 2) u64_max), raw_delay-le p attempt)

-- The raw delay is the base delay doubled for each attempt after the first, capped at `max_delay`,
-- if the cap fits in 64 bits of nanoseconds.
pub raw_delay-eq_min :
    (p : RetryPolicy) (attempt : ℕ)
    → p.max_delay ≤ u64_max
    → raw_delay p attempt ≡ min (p.base_delay * 2 ^ (attempt - 1)) p.max_delay
unfolding raw_delay
raw_delay-eq_min p attempt h = ground (arith, saturating_mul_pow2_cases p.base_delay (attempt - 1))

-- A product past 64 bits of nanoseconds counts as the longest duration: from the second attempt on,
-- where the cap is longer than the product and is a duration, the raw delay is the cap and not the
-- product.
pub raw_delay_overshoots :
    (p : RetryPolicy) (attempt : ℕ)
    → 1 < attempt
    → u64_max < p.base_delay * 2 ^ (attempt - 1)
    → p.base_delay * 2 ^ (attempt - 1) < p.max_delay
    → p.max_delay ≤ duration_max
    → (raw_delay p attempt ≡ p.max_delay)
      × (raw_delay p attempt ≢ min (p.base_delay * 2 ^ (attempt - 1)) p.max_delay)
unfolding raw_delay
raw_delay_overshoots p attempt late over short fits =
    ground (arith, saturating_mul_pow2_large p.base_delay (attempt - 1) (omega arith) over)

-- With a base delay that is a duration, later attempts never wait less, before jitter.
raw_delay_mono :
    (p : RetryPolicy) (attempt : ℕ)
    → p.base_delay ≤ duration_max
    → raw_delay p attempt ≤ raw_delay p (attempt + 1)
unfolding raw_delay
raw_delay_mono p zero h = omega arith
raw_delay_mono p (suc n) h = ground (arith, saturating_mul_pow2_mono p.base_delay n h)
