-- ===== src/Job.antt =====
-- job.rs and the value types of broker/mod.rs. A UUID stands as its text, which `Display` writes and
-- which two UUIDs share only if they are equal; the newtypes JobId, ClaimToken and QueueName are
-- their contents. Payload bytes are numbers.
use capivara_rs.Prelude.{ℕ, String, Option, none, List}
use capivara_rs.Time.{Duration}

abbrev pub Uuid : Type 0
Uuid = String

abbrev pub JobId : Type 0
JobId = Uuid

abbrev pub QueueName : Type 0
QueueName = String

abbrev pub ClaimToken : Type 0
ClaimToken = Uuid

abbrev pub Bytes : Type 0
Bytes = List ℕ

abbrev pub default_queue_name : QueueName
default_queue_name = "default"

pub record Job : Type 0 where
  pub id : JobId
  pub queue : QueueName
  pub task_name : String
  pub payload : Bytes
  pub attempts : ℕ
  pub idempotency_key : Option String

-- `Job::new`, at the id that `JobId::new()` draws.
unfoldable pub new_job : JobId → String → Bytes → Job
new_job id task_name payload = record {
  id = id;
  queue = default_queue_name;
  task_name = task_name;
  payload = payload;
  attempts = 0;
  idempotency_key = none;
}

pub record ClaimedJob : Type 0 where
  pub job : Job
  pub claim_token : ClaimToken

pub data NackAction : Type 0 where
  requeue_after : Duration → NackAction

pub record DeadLetter : Type 0 where
  pub job : Job
  pub reason : String
