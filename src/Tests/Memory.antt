-- ===== src/Tests/Memory.antt =====
-- Passes of `claim`, recovery and promotion of the in-process broker at concrete inputs.
use capivara_rs.Prelude.{◌≡◌, ◌≢◌, refl, ◌++◌, none, some, [], ◌∷◌, arith, string_discrete}
use capivara_rs.Prelude.HashMap
use capivara_rs.Time.{instant_max, from_millis, add_duration}
use capivara_rs.Error.{ok, panic}
use capivara_rs.Job.{QueueName, ClaimedJob}
use capivara_rs.Memory
use capivara_rs.Memory.{recover_expired, promote_delayed}
use capivara_rs.Memory.Claim.{claim, claim_pass, queue_names, overflow_panic}
use capivara_rs.Memory.Census
use capivara_rs.Memory.Conserve.{Conserves, claim_pass-Conserves}
use capivara_rs.Memory.Exclusive.{claim_pass-exclusive}
use capivara_rs.Memory.Delivery.{waiting, first_ready, Delivers, claim_pass-first_ready}
use capivara_rs.Memory.Recovery.{not_due, due, promote_delayed_lem, recover_expired_requeues}
use capivara_rs.Memory.Wait.{claim_returns}
use capivara_rs.Tests.Data.{
  add_job, flight, leased, queued, postponed, round_at, as_listed, leased-WellFormed,
  queued-WellFormed,
}

-- One pass hands out the queued job, with its first attempt.
claims_queued :
    (claim_pass as_listed [] 30 (round_at 10 "t") queued).0
    ≡ ok (some (record { job = record add_job { attempts = 1 }; claim_token = "t" }))
unfolding claim_pass HashMap.pop_front promote_delayed recover_expired string_discrete add_duration
claims_queued = refl

-- The lease of the claim in `leased` runs out at 30.
recovers_at_end :
    (recover_expired as_listed 30 leased).pending
    ≡ ("default", record add_job { attempts = 1 } ∷ []) ∷ []
unfolding recover_expired HashMap.get string_discrete Memory.recover_one HashMap.push_back
recovers_at_end = refl

keeps_before_end : recover_expired as_listed 29 leased ≡ leased
unfolding recover_expired HashMap.get string_discrete
keeps_before_end = refl

-- `Instant::now() + block_for` panics past the last instant.
claim_overflows :
    claim as_listed [] 30 instant_max 1 [] queued ≡ some (panic overflow_panic, queued)
unfolding claim add_duration
claim_overflows = refl

claim_pass-exclusive_example :
    (HashMap.get "a" (claim_pass as_listed [] 30 (round_at 10 "u") leased).1.in_flight
      ≡ some flight)
    × ((c : ClaimedJob)
        → (claim_pass as_listed [] 30 (round_at 10 "u") leased).0 ≡ ok (some c)
        → c.job.id ≢ "a")
unfolding HashMap.get string_discrete
claim_pass-exclusive_example =
    claim_pass-exclusive as_listed [] 30 (round_at 10 "u") leased "a" flight leased-WellFormed refl
      (omega arith)

claim_pass-Conserves_example :
    Conserves queued (claim_pass as_listed [] 30 (round_at 10 "t") queued).1
claim_pass-Conserves_example =
    claim_pass-Conserves as_listed [] 30 (round_at 10 "t") queued queued-WellFormed (omega arith)

claim_pass-first_ready_example :
    Delivers
      (first_ready (queue_names []) (promote_delayed 10 (recover_expired as_listed 10 queued)))
      30
      10
      "t"
      (promote_delayed 10 (recover_expired as_listed 10 queued))
      (claim_pass as_listed [] 30 (round_at 10 "t") queued)
claim_pass-first_ready_example =
    claim_pass-first_ready as_listed [] 30 (round_at 10 "t") queued (omega arith)

promote_delayed_lem_example :
    ((q : QueueName)
      → waiting q (promote_delayed 10 postponed)
        ≡ waiting q postponed ++ due 10 q postponed.delayed)
    × ((promote_delayed 10 postponed).delayed ≡ not_due 10 postponed.delayed)
    × ((promote_delayed 10 postponed).in_flight ≡ postponed.in_flight)
promote_delayed_lem_example = promote_delayed_lem 10 postponed

recover_expired_requeues_example :
    (HashMap.get "a" (recover_expired as_listed 40 leased).in_flight ≡ none)
    × (Census.pending "a" (recover_expired as_listed 40 leased) ≡ 1)
unfolding HashMap.get string_discrete
recover_expired_requeues_example =
    recover_expired_requeues as_listed 40 leased "a" flight (λ x xs l. l) leased-WellFormed refl
      (omega arith)

-- A `claim` that may wait for 20 milliseconds, from the instant 0, in three passes.
claim_returns_example :
    claim as_listed [] 30 0
      (from_millis 20)
      (round_at 0 "t" ∷ round_at (from_millis 20) "u" ∷ round_at (from_millis 40) "v" ∷ [])
      Memory.new
    ≢ none
claim_returns_example =
    claim_returns as_listed [] 30 0 (from_millis 20)
      (round_at 0 "t" ∷ round_at (from_millis 20) "u" ∷ round_at (from_millis 40) "v" ∷ [])
      Memory.new (unfold Memory.Claim.sleep_slice in ground arith) (omega arith)
