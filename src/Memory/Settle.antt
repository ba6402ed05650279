-- ===== src/Memory/Settle.antt =====
-- `ack`, `nack`, `dead_letter` and `list_dead` of broker/memory.rs. `owned` is the test of the claim's
-- token, `take_in_flight` the `remove` that returns the entry.
use capivara_rs.Prelude.{
  String, Bool, true, false, Option, none, some, List, [], ◌∷◌, ◌++◌, if◌then◌else◌, ite,
  string_discrete,
}
use capivara_rs.Prelude.HashMap
use capivara_rs.Time.{Instant, is_zero, add_duration}
use capivara_rs.Error.{job_not_found, ok, err, panic, Exec}
use capivara_rs.Job.{JobId, QueueName, ClaimToken, Job, NackAction, requeue_after, DeadLetter}
use capivara_rs.Memory.{InFlight, Inner, push_pending}
use capivara_rs.Memory.Claim.{overflow_panic}

unfoldable pub owned : JobId → ClaimToken → Inner → Bool
owned id token s = elim (HashMap.get id s.in_flight) [
  | none ↦ false
  | some f ↦ ite (string_discrete f.token token) true false
]

unfoldable pub take_in_flight : JobId → Inner → Option (InFlight × Inner)
take_in_flight id s = elim (HashMap.get id s.in_flight) [
  | none ↦ none
  | some f ↦ some (f, record s { in_flight = HashMap.remove id s.in_flight })
]

unfoldable pub ack : JobId → ClaimToken → Exec Inner (Unit {0})
unfolding owned
ack id token s =
    if owned id token s
    then (ok tt, record s { in_flight = HashMap.remove id s.in_flight })
    else (err (job_not_found id), s)

-- The end of the delay is computed after the job has left the in-flight map.
unfoldable pub requeue : Instant → NackAction → Job → Exec Inner (Unit {0})
unfolding push_pending
requeue now (requeue_after delay) job s =
    if is_zero delay then (ok tt, push_pending job s) else elim (add_duration now delay) [
      | none ↦ (panic overflow_panic, s)
      | some when ↦ (ok tt, record s { delayed = s.delayed ++ (when, job) ∷ [] })
    ]

unfoldable pub nack : Instant → JobId → ClaimToken → NackAction → Exec Inner (Unit {0})
unfolding owned take_in_flight requeue
nack now id token action s =
    if owned id token s
    then elim (take_in_flight id s) [
      | none ↦ (err (job_not_found id), s)
      | some (f, s') ↦ requeue now action f.job s'
    ]
    else (err (job_not_found id), s)

unfoldable pub bury : Job → String → Inner → Inner
bury job reason s = record s {
  dead = HashMap.push_back job.queue (record { job = job; reason = reason }) s.dead;
}

unfoldable pub dead_letter : JobId → ClaimToken → String → Exec Inner (Unit {0})
unfolding owned take_in_flight bury
dead_letter id token reason s =
    if owned id token s
    then elim (take_in_flight id s) [
      | none ↦ (err (job_not_found id), s)
      | some (f, s') ↦ (ok tt, bury f.job reason s')
    ]
    else (err (job_not_found id), s)

unfoldable pub list_dead : QueueName → Exec Inner (List DeadLetter)
list_dead queue s = (ok (HashMap.get_or_default queue s.dead), s)
