-- ===== src/Time.antt =====
-- std::time: `Duration` and `Instant` in nanoseconds, with the limits of their representations.
-- A `Duration` has 64 bits of seconds and its nanoseconds, an `Instant` (on Linux) a signed 64-bit
-- count of seconds and its nanoseconds. `Instant + Duration` panics past the limit.
use capivara_rs.Prelude.{ℕ, ◌+◌, ◌-◌, ◌*◌, ◌^◌, Option, none, some, Bool, leb, ◌==◌, if◌then◌else◌}

abbrev pub Duration : Type 0
Duration = ℕ

abbrev pub Instant : Type 0
Instant = ℕ

abbrev pub nanos_per_sec : ℕ
nanos_per_sec = 1_000_000_000

abbrev pub from_secs : ℕ → Duration
from_secs s = s * nanos_per_sec

abbrev pub from_millis : ℕ → Duration
from_millis ms = ms * 1_000_000

abbrev pub u32_max : ℕ
u32_max = 2 ^ 32 - 1

abbrev pub u64_max : ℕ
u64_max = 2 ^ 64 - 1

abbrev pub u128_max : ℕ
u128_max = 2 ^ 128 - 1

abbrev pub duration_max : Duration
duration_max = u64_max * nanos_per_sec + (nanos_per_sec - 1)

abbrev pub instant_max : Instant
instant_max = (2 ^ 63 - 1) * nanos_per_sec + (nanos_per_sec - 1)

abbrev pub is_zero : Duration → Bool
is_zero d = d == 0

-- `none` is the panic "overflow when adding duration to instant".
unfoldable pub add_duration : Instant → Duration → Option Instant
add_duration now d = if leb (now + d) instant_max then some (now + d) else none
