-- ===== src/Retry.antt =====
-- retry.rs: exponential backoff with optional equal jitter. `rand`'s `gen_range(0..=n)` is a parameter,
-- `draw n`; durations are nanoseconds.
pub mod Backoff
use capivara_rs.Prelude.{
  ℕ, ◌+◌, ◌-◌, ◌*◌, ◌/◌, ◌^◌, ◌||◌, Bool, true, not, Option, none, some, min, leb, ◌==◌,
  if◌then◌else◌,
}
use capivara_rs.Time.{Duration, from_secs, is_zero, u64_max, u128_max, duration_max}

abbrev pub default_max_attempts : ℕ
default_max_attempts = 3

abbrev pub default_base_delay : Duration
default_base_delay = from_secs 1

abbrev pub default_max_delay : Duration
default_max_delay = from_secs (15 * 60)

pub record RetryPolicy : Type 0 where
  pub max_attempts : ℕ
  pub base_delay : Duration
  pub max_delay : Duration
  pub jitter : Bool

abbrev pub default_policy : RetryPolicy
default_policy = record {
  max_attempts = default_max_attempts;
  base_delay = default_base_delay;
  max_delay = default_max_delay;
  jitter = true;
}

-- u128::checked_mul
unfoldable pub checked_mul : ℕ → ℕ → Option ℕ
checked_mul a b = if leb (a * b) u128_max then some (a * b) else none

unfoldable pub saturating_mul_pow2 : Duration → ℕ → Duration
unfolding checked_mul
saturating_mul_pow2 base exp =
    if exp == 0 || is_zero base
    then base
    else if leb 128 exp
    then duration_max
    else elim (checked_mul base (2 ^ exp)) [
      | some n ↦ if leb n u64_max then n else duration_max
      | none ↦ duration_max
    ]

unfoldable pub duration_as_nanos_u64 : Duration → ℕ
duration_as_nanos_u64 d = min d u64_max

-- The delay before jitter: the binding `raw` of `delay_for_attempt`.
unfoldable pub raw_delay : RetryPolicy → ℕ → Duration
unfolding saturating_mul_pow2
raw_delay p attempt = min (saturating_mul_pow2 p.base_delay (attempt - 1)) p.max_delay

unfoldable pub delay_for_attempt : (ℕ → ℕ) → RetryPolicy → ℕ → Duration
unfolding duration_as_nanos_u64
delay_for_attempt draw p attempt =
    let raw = raw_delay p attempt in
    if not p.jitter || is_zero raw
    then raw
    else let half = raw / 2 in
      let half_nanos = duration_as_nanos_u64 half in
      let extra = if half_nanos == 0 then 0 else draw half_nanos in half + extra
