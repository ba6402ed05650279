-- ===== src/Memory/History.antt =====
-- Any sequence of calls on one in-process broker, by any number of tasks. `claim` is a sequence of
-- passes: between two of them the mutex is free, and other calls run.
pub mod Permanence
pub mod Tokens
pub mod Places
pub mod Handing
pub mod Lifecycle
use capivara_rs.Prelude.{◌+◌, ◌≤◌, ◌≡◌, arith, List, [], ◌∷◌, String}
use capivara_rs.Prelude.HashMap
use capivara_rs.Time.{Instant, Duration, instant_max}
use capivara_rs.Job.{JobId, QueueName, ClaimToken, requeue_after, Job}
use capivara_rs.Memory.{Inner, enqueue}
use capivara_rs.Memory.Claim.{Round, claim_pass}
use capivara_rs.Memory.Settle.{ack, nack, dead_letter}
use capivara_rs.Memory.Census
use capivara_rs.Memory.Census.{copies}
use capivara_rs.Memory.Conserve.{
  WellFormed, Conserves-WellFormed, claim_pass-Conserves, enqueue-copies,
}
use capivara_rs.Memory.Settlement.{ack-WellFormed, nack-Conserves, dead_letter-Conserves}

pub data Call : Type 0 where
  enqueues : Job → Call
  claims : (List String → List String) → List QueueName → Duration → Round → Call
  acks : JobId → ClaimToken → Call
  nacks : Instant → JobId → ClaimToken → Duration → Call
  dead_letters : JobId → ClaimToken → String → Call

unfoldable pub apply : Call → Inner → Inner
apply (enqueues job) s = (enqueue job s).1
apply (claims order queues lease r) s = (claim_pass order queues lease r s).1
apply (acks id t) s = (ack id t s).1
apply (nacks now id t delay) s = (nack now id t (requeue_after delay) s).1
apply (dead_letters id t reason) s = (dead_letter id t reason s).1

unfoldable pub run : List Call → Inner → Inner
run [] s = s
run (c ∷ cs) s = run cs (apply c s)

-- What a call must respect for the broker to stay well formed: a new job has a fresh id, and no
-- instant runs over.
abbrev pub Allowed : Call → Inner → Type 0
Allowed (enqueues job) s = copies job.id s ≡ 0
Allowed (claims order queues lease r) s = r.at_lease + lease ≤ instant_max
Allowed (acks id t) s = Unit
Allowed (nacks now id t delay) s = now + delay ≤ instant_max
Allowed (dead_letters id t reason) s = Unit

abbrev pub AllAllowed : List Call → Inner → Type 0
AllAllowed [] s = Unit
AllAllowed (c ∷ cs) s = Allowed c s × AllAllowed cs (apply c s)

pub in_flight-enqueue : (job : Job) (s : Inner) → (enqueue job s).1.in_flight ≡ s.in_flight
unfolding enqueue
in_flight-enqueue job s = ground arith

pub apply-WellFormed : (c : Call) (s : Inner) → Allowed c s → WellFormed s → WellFormed (apply c s)
unfolding apply
apply-WellFormed (enqueues job) s h w = record {
  keyed = rw in_flight-enqueue w.keyed;
  single = λ i. grind (arith, enqueue-copies i job s, w.single i);
}
apply-WellFormed (claims order queues lease r) s h w =
    Conserves-WellFormed w (claim_pass-Conserves order queues lease r s w h)
apply-WellFormed (acks id t) s h w = ack-WellFormed id t s w
apply-WellFormed (nacks now id t delay) s h w =
    Conserves-WellFormed w (nack-Conserves now id t delay s w h)
apply-WellFormed (dead_letters id t reason) s h w =
    Conserves-WellFormed w (dead_letter-Conserves id t reason s w)

-- Whatever calls are made on a well-formed broker, if each new job has a fresh id and no instant
-- runs over, the broker stays well formed: every job is in one place at most, in its queue, in
-- flight, delayed or dead.
pub run-WellFormed :
    (cs : List Call) (s : Inner) → AllAllowed cs s → WellFormed s → WellFormed (run cs s)
unfolding run
run-WellFormed [] s h w = w
run-WellFormed (c ∷ cs) s h w = run-WellFormed cs (apply c s) h.1 (apply-WellFormed c s h.0 w)
