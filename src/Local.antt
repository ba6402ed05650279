-- ===== src/Local.antt =====
-- MemoryBroker and MemoryResultBackend as the traits' implementations, in one process. Beside their
-- data stand the process's clock, the order of its maps, and the rounds that its calls of `claim`
-- will meet, by the number of the call: each has tokens of its own.
pub mod Completion
use capivara_rs.Prelude.{ℕ, suc, ◌+◌, String, Option, none, some, List, ◌≢◌, refl}
use capivara_rs.Time.{Instant}
use capivara_rs.Error.{Result, Exec}
use capivara_rs.Job.{ClaimedJob}
use capivara_rs.Broker.{Broker}
use capivara_rs.Results
use capivara_rs.Results.{ResultBackend, Stored}
use capivara_rs.Memory.{Inner, enqueue}
use capivara_rs.Memory.Claim.{claim}
use capivara_rs.Memory.Wait.{Waits, rounds_of, claim_ends}
use capivara_rs.Memory.Settle.{ack, nack, dead_letter, list_dead}

pub record Local : Type 0 where
  pub inner : Inner
  pub stored : Stored
  pub clock : Instant
  pub rounds : ℕ → Waits
  pub called : ℕ
  pub order : List String → List String

-- An operation of the broker, or of the backend, as one of the process.
abbrev pub on_inner : {A : Type 0} → Exec Inner A → Exec Local A
on_inner m s = let (r, inner) = m s.inner in (r, record s { inner = inner })

abbrev pub on_stored : {A : Type 0} → Exec Stored A → Exec Local A
on_stored m s = let (r, stored) = m s.stored in (r, record s { stored = stored })

-- A call ends within its rounds, since the last one is past the deadline.
abbrev claim_result :
    Local
    → (r : Option (Result (Option ClaimedJob) × Inner)) → r ≢ none
    → Result (Option ClaimedJob) × Local
claim_result s none ends = absurd (ends refl)
claim_result s (some (r, inner)) ends = (r, record s { inner = inner })

abbrev pub memory_broker : Broker Local
memory_broker = record {
  enqueue = λ job. on_inner (enqueue job);
  claim = λ queues lease block_for s.
      claim_result (record s { called = suc s.called })
        (claim s.order queues lease s.clock block_for
          (rounds_of (s.clock + block_for) (s.rounds s.called)) s.inner)
        (claim_ends s.order queues lease s.clock block_for (s.rounds s.called) s.inner);
  ack = λ id token. on_inner (ack id token);
  nack = λ id token action s. on_inner (nack s.clock id token action) s;
  dead_letter = λ id token reason. on_inner (dead_letter id token reason);
  list_dead = λ queue. on_inner (list_dead queue);
}

abbrev pub memory_results : ResultBackend Local
memory_results = record {
  store = λ id result. on_stored (Results.store id result);
  get = λ id. on_stored (Results.get id);
}
