-- ===== src/Tests/Backoff.antt =====
-- Delays of the retry policy at concrete inputs.
use capivara_rs.Prelude.{ℕ, ◌-◌, ◌*◌, ◌/◌, ◌^◌, ◌≤◌, ◌≡◌, ◌≢◌, refl, false, min, arith}
use capivara_rs.Time.{from_secs}
use capivara_rs.Retry.{RetryPolicy, default_policy, raw_delay, delay_for_attempt}
use capivara_rs.Retry.Backoff.{Jitters, delay_bounds, raw_delay-eq_min, raw_delay_overshoots}

third_attempt : raw_delay default_policy 3 ≡ from_secs 4
unfolding raw_delay
third_attempt = refl

late_attempt : raw_delay default_policy 20 ≡ from_secs 900
unfolding raw_delay
late_attempt = refl

abbrev highest : ℕ → ℕ
highest n = n

delay_bounds_example :
    (raw_delay default_policy 3 / 2 ≤ delay_for_attempt highest default_policy 3)
    × (delay_for_attempt highest default_policy 3 ≤ raw_delay default_policy 3)
    × (raw_delay default_policy 3 ≤ default_policy.max_delay)
    × Jitters default_policy.jitter
        (raw_delay default_policy 3)
        (delay_for_attempt highest default_policy 3)
delay_bounds_example = delay_bounds highest default_policy 3 (λ n. omega arith)

raw_delay-eq_min_example :
    raw_delay default_policy 5
    ≡ min (default_policy.base_delay * 2 ^ (5 - 1)) default_policy.max_delay
raw_delay-eq_min_example = raw_delay-eq_min default_policy 5 (omega arith)

-- A base delay of one second and a cap of 10 ^ 19 seconds: 2 ^ 35 seconds are past 64 bits.
abbrev patient : RetryPolicy
patient = record {
  max_attempts = 100;
  base_delay = from_secs 1;
  max_delay = from_secs (10 ^ 19);
  jitter = false;
}

raw_delay_overshoots_example :
    (raw_delay patient 36 ≡ patient.max_delay)
    × (raw_delay patient 36 ≢ min (patient.base_delay * 2 ^ (36 - 1)) patient.max_delay)
raw_delay_overshoots_example =
    raw_delay_overshoots patient 36 (omega arith) (omega arith) (omega arith) (omega arith)
