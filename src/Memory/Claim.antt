-- ===== src/Memory/Claim.antt =====
-- `claim` of broker/memory.rs. One round of the loop is what happens between two sleeps: a pass
-- under the mutex, and the test whether to wait on. A round comes with its readings of the clock,
-- its fresh token and what the other tasks do to the broker while this one sleeps.
use capivara_rs.Prelude.{
  ◌+◌, ◌-◌, min, String, ◌||◌, Option, none, some, List, [], ◌∷◌, leb, if◌then◌else◌,
}
use capivara_rs.Prelude.HashMap
use capivara_rs.Time.{Duration, Instant, is_zero, from_millis, u32_max, add_duration}
use capivara_rs.Error.{Result, ok, err, panic}
use capivara_rs.Job.{QueueName, ClaimToken, default_queue_name, Job, ClaimedJob}
use capivara_rs.Memory.{Inner, recover_expired, promote_delayed}

pub record Round : Type 0 where
  pub at_recover : Instant
  pub at_promote : Instant
  pub at_lease : Instant
  pub at_check : Instant
  pub at_remaining : Instant
  pub token : ClaimToken
  pub others : Inner → Inner

unfoldable pub queue_names : List QueueName → List String
queue_names [] = default_queue_name ∷ []
queue_names (q ∷ qs) = q ∷ qs

abbrev pub overflow_panic : String
overflow_panic = "overflow when adding duration to instant"

-- The job is out of its queue before the end of the lease is computed.
unfoldable pub lease_job :
    Duration → Instant → ClaimToken → Job → Inner → Result (Option ClaimedJob) × Inner
lease_job lease now token popped s =
    let job : Job = record popped { attempts = min (popped.attempts + 1) u32_max } in
    elim (add_duration now lease) [
      | none ↦ (panic overflow_panic, s)
      | some lease_until ↦ (
        ok (some (record { job = job; claim_token = token })),
        record s {
          in_flight =
              HashMap.insert job.id (record { job = job; lease_until = lease_until; token = token })
                s.in_flight;
        },
      )
    ]

unfoldable pub try_queues :
    Duration → Instant → ClaimToken → List String → Inner → Result (Option ClaimedJob) × Inner
unfolding lease_job
try_queues lease now token [] s = (ok none, s)
try_queues lease now token (q ∷ qs) s =
    let rest = try_queues lease now token qs s in
    elim (HashMap.pop_front q s.pending) [
      | none ↦ rest
      | some (job, pending) ↦ lease_job lease now token job (record s { pending = pending })
    ]

module _ (order : List String → List String) (queues : List QueueName) (lease : Duration) where
  unfoldable pub claim_pass : Round → Inner → Result (Option ClaimedJob) × Inner
  unfolding try_queues queue_names
  claim_pass r s =
      try_queues lease r.at_lease r.token (queue_names queues)
        (promote_delayed r.at_promote (recover_expired order r.at_recover s))

  -- `remaining.min(Duration::from_millis(20))`
  unfoldable pub sleep_slice : Instant → Round → Duration
  sleep_slice deadline r = min (deadline - r.at_remaining) (from_millis 20)

  -- `none` is a call that is still running when the rounds are used up.
  unfoldable pub claim_loop :
      Duration → Instant → List Round → Inner → Option (Result (Option ClaimedJob) × Inner)
  claim_loop block_for deadline [] s = none
  claim_loop block_for deadline (r ∷ rs) s =
      let (result, s') = claim_pass r s in
      let waited = claim_loop block_for deadline rs (r.others s') in
      elim result [
        | ok none ↦
            if is_zero block_for || leb deadline r.at_check then some (ok none, s') else waited
        | ok (some c) ↦ some (ok (some c), s')
        | err e ↦ some (err e, s')
        | panic p ↦ some (panic p, s')
      ]

  unfoldable pub claim :
      Instant → Duration → List Round → Inner → Option (Result (Option ClaimedJob) × Inner)
  claim start block_for rounds s = elim (add_duration start block_for) [
    | none ↦ some (panic overflow_panic, s)
    | some deadline ↦ claim_loop block_for deadline rounds s
  ]
