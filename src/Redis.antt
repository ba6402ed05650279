-- ===== src/Redis.antt =====
-- broker/redis_broker.rs: the broker on a Redis server. The server is a parameter: its commands, over
-- its keyspace `K`, and `invoke`, which runs a command, a transaction or a script and may fail. What
-- other clients do between two invocations is part of the next one.
pub mod Keys
pub mod Scripts
pub mod Claim
pub mod Settle
pub mod Laws
pub mod Ownership
pub mod Structures
pub mod Apart
pub mod Popping
pub mod Returning
pub mod Recovery
pub mod Redelivery
pub mod Keeps
pub mod History
pub mod Safety
pub mod Delivery
pub mod Listing
pub mod DeadLetters
pub mod Orphans
pub mod Sending
pub mod Members
pub mod Wait
pub mod Producer
pub mod Results
pub mod Connect
pub mod Host
pub mod Settling
pub mod Outcomes
pub mod Completion
pub mod Processing
pub mod LateWrites
use capivara_rs.Prelude.{ℕ, String, Bool, Option, List, ◌%◌, ◌^◌}
use capivara_rs.Error.{CapivaraError, broker, Result, ok, err, Exec}
use capivara_rs.Job.{Uuid, Job}
use capivara_rs.Registry.{Serde, value, malformed}

-- An integer reply.
pub data ℤ : Type 0 where
  pos : ℕ → ℤ
  negsuc : ℕ → ℤ

pub record Redis (K : Type 0) : Type 1 where
  pub get : String → K → Option String
  pub set : String → String → K → K
  -- `SET key value EX seconds`
  pub set_ex : String → String → ℕ → K → K
  -- `SET key value NX`: whether it was set.
  pub set_nx : String → String → K → Bool × K
  pub del : String → K → K
  pub incr : String → K → ℤ × K
  pub lpush : String → String → K → K
  pub rpop : String → K → Option String × K
  -- `LRANGE key 0 -1`
  pub lrange : String → K → List String
  pub zadd : String → ℕ → String → K → K
  -- `ZREM key member`: whether it was there.
  pub zrem : String → String → K → Bool × K
  -- `ZRANGEBYSCORE key -inf max`
  pub zrangebyscore : String → ℕ → K → List String
  -- The client's error for a nil where it expects a text.
  pub nil_error : String
  -- A reply, or the text of an error.
  pub invoke : {A : Type 0} → (K → A × K) → K → Serde A × K

-- serde_json's conversions of a job, and `Uuid::parse_str`.
pub record Codec : Type 0 where
  pub job_to_string : Job → Serde String
  pub job_from_str : String → Serde Job
  pub parse_str : String → Serde Uuid

-- `attempts as u32`, from 0 up.
unfoldable pub attempts_of : ℤ → ℕ
attempts_of (pos n) = n % 2 ^ 32
attempts_of (negsuc n) = 0

-- `.map_err(…)?`
abbrev pub or_err : {A : Type 0} → (String → CapivaraError) → Serde A → Result A
or_err e (value a) = ok a
or_err e (malformed message) = err (e message)

-- `.invoke_async(…).await.map_err(|e| CapivaraError::Broker(…))?`
unfoldable pub call : {K A : Type 0} → Redis K → (K → A × K) → Exec K A
call R f s = let (r, s') = R.invoke f s in (or_err broker r, s')
