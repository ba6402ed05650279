-- ===== src/Redis/Host.antt =====
-- RedisBroker and RedisResultBackend as the traits' implementations, in a process with a clock. Beside
-- the keyspace stand the process's instant, its reading of the wall clock in milliseconds, and the
-- rounds that its calls of `claim` will meet, by the number of the call.
use capivara_rs.Prelude.{ℕ, suc, ◌+◌, String, Option, none, some, ◌≢◌, refl}
use capivara_rs.Time.{Duration, Instant}
use capivara_rs.Error.{Result, Exec}
use capivara_rs.Job.{ClaimedJob}
use capivara_rs.Broker.{Broker}
use capivara_rs.Results.{ResultBackend}
use capivara_rs.Redis.{Redis, Codec}
use capivara_rs.Redis.Claim.{enqueue, claim}
use capivara_rs.Redis.Wait.{Waits, rounds_of, claim_ends}
use capivara_rs.Redis.Settle.{ack, nack, dead_letter, list_dead}
use capivara_rs.Redis.Results
use capivara_rs.Redis.Results.{ResultCodec}

pub record Host (K : Type 0) : Type 0 where
  pub keyspace : K
  pub clock : Instant
  pub now_ms : ℕ
  pub rounds : ℕ → Waits
  pub called : ℕ

module _ {K : Type 0} where
  -- An operation on the server, as one of the process.
  abbrev pub on_server : {A : Type 0} → Exec K A → Exec (Host K) A
  on_server m s = let (r, keyspace) = m s.keyspace in (r, record s { keyspace = keyspace })

  -- A call ends within its rounds, since the last one is past the deadline.
  abbrev claim_result :
      Host K
      → (r : Option (Result (Option ClaimedJob) × K)) → r ≢ none
      → Result (Option ClaimedJob) × Host K
  claim_result s none ends = absurd (ends refl)
  claim_result s (some (r, keyspace)) ends = (r, record s { keyspace = keyspace })

  module _ (R : Redis K) (codec : Codec) (prefix : String) where
    abbrev pub redis_broker : Broker (Host K)
    redis_broker = record {
      enqueue = λ job. on_server (enqueue R codec prefix job);
      claim = λ queues lease block_for s.
          claim_result (record s { called = suc s.called })
            (claim R codec prefix queues lease s.clock block_for
              (rounds_of (s.clock + block_for) (s.rounds s.called)) s.keyspace)
            (claim_ends R codec prefix queues lease s.clock block_for (s.rounds s.called)
              s.keyspace);
      ack = λ id token. on_server (ack R codec prefix id token);
      nack = λ id token action s. on_server (nack R codec prefix s.now_ms id token action) s;
      dead_letter = λ id token reason. on_server (dead_letter R codec prefix id token reason);
      list_dead = λ queue. on_server (list_dead R codec prefix queue);
    }

  abbrev pub redis_results : Redis K → ResultCodec → String → Duration → ResultBackend (Host K)
  redis_results R codec prefix ttl = record {
    store = λ id result. on_server (Results.store R codec prefix ttl id result);
    get = λ id. on_server (Results.get R codec prefix ttl id);
  }
