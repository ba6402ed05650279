-- ===== src/Memory/Wait.antt =====
-- The waiting `claim`: with a clock that goes forward and sleeps that last, it returns.
use capivara_rs.Prelude.{
  ◌+◌, ◌/◌, ◌*◌, ◌≤◌, ◌<◌, ℕ, ◌≢◌, none, arith, List, [], ◌∷◌, String, length, max, ◌++◌,
}
use capivara_rs.Time.{Instant, Duration, add_duration, from_millis}
use capivara_rs.Job.{QueueName}
use capivara_rs.Memory.{Inner}
use capivara_rs.Memory.Claim.{Round, claim_pass, claim_loop, claim, sleep_slice}

-- The rounds that a call meets. The last one reads its clock when the deadline is over.
pub record Waits : Type 0 where
  pub earlier : List Round
  pub last : Round

abbrev pub rounds_of : Instant → Waits → List Round
rounds_of deadline w = w.earlier ++ (record w.last { at_check = max deadline w.last.at_check }) ∷ []

abbrev InOrder : Round → Type 0
InOrder r =
    (r.at_recover ≤ r.at_promote)
    × (r.at_promote ≤ r.at_lease)
    × (r.at_lease ≤ r.at_check)
    × (r.at_check ≤ r.at_remaining)

module _ (order : List String → List String) (queues : List QueueName) (lease : Duration) where
  -- The readings go forward from `now`, and each sleep lasts its slice at least.
  abbrev pub Paced : Instant → Instant → List Round → Type 0
  Paced deadline now [] = Unit
  Paced deadline now (r ∷ rs) =
      (now ≤ r.at_recover)
      × InOrder r
      × Paced deadline (r.at_remaining + sleep_slice order queues lease deadline r) rs

  claim_loop_returns :
      (block_for deadline now : ℕ) (rs : List Round) (s : Inner)
      → Paced deadline now rs
      → 0 < length rs
      → deadline + from_millis 20 ≤ now + length rs * from_millis 20
      → claim_loop order queues lease block_for deadline rs s ≢ none
  unfolding claim_loop sleep_slice
  claim_loop_returns block_for deadline now [] s p pos h = absurd (omega arith)
  claim_loop_returns block_for deadline now (r ∷ rs) s p pos h = ground (
    arith,
    claim_loop_returns block_for deadline
        (r.at_remaining + sleep_slice order queues lease deadline r) rs
        (r.others (claim_pass order queues lease r s).1) p.2,
  )

  claim_loop_ends :
      (block_for deadline : ℕ) (rs : List Round) (r : Round) (s : Inner)
      → deadline ≤ r.at_check
      → claim_loop order queues lease block_for deadline (rs ++ r ∷ []) s ≢ none
  unfolding claim_loop
  claim_loop_ends block_for deadline [] r s h = ground arith
  claim_loop_ends block_for deadline (x ∷ rs) r s h = ground (
    arith,
    claim_loop_ends block_for deadline rs r (x.others (claim_pass order queues lease x s).1) h,
  )

  pub claim_ends :
      (start : Instant) (block_for : Duration) (w : Waits) (s : Inner)
      → claim order queues lease start block_for (rounds_of (start + block_for) w) s ≢ none
  unfolding claim add_duration
  claim_ends start block_for w s = ground (
    arith,
    claim_loop_ends block_for (start + block_for) w.earlier
        (record w.last { at_check = max (start + block_for) w.last.at_check }) s (omega arith),
  )

  -- A `claim` that may wait for `block_for` returns within one pass for each 20 milliseconds of it
  -- and two more, whatever other tasks do meanwhile, if the clock goes forward and no sleep is
  -- shorter than asked.
  pub claim_returns :
      (start : Instant) (block_for : Duration) (rs : List Round) (s : Inner)
      → Paced (start + block_for) start rs
      → block_for / from_millis 20 + 2 ≤ length rs
      → claim order queues lease start block_for rs s ≢ none
  unfolding claim add_duration
  claim_returns start block_for rs s p h = ground (
    arith,
    claim_loop_returns block_for (start + block_for) start rs s p (omega arith) (omega arith),
  )
