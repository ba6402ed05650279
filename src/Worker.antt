-- ===== src/Worker.antt =====
-- worker/mod.rs: `process_one` and the settling of a claim, over any broker, result backend and
-- handlers that share a state. `draw` is the random draw of the retry policy.
pub mod Protocol
pub mod JoinSet
pub mod Drain
use Prim.Native.String.{◌++◌}
use capivara_rs.Prelude.{ℕ, String, Bool, true, false, Option, none, some, ltb, if◌then◌else◌}
use capivara_rs.Time.{Duration, from_secs}
use capivara_rs.Error.{
  job_not_found, task_failed, to_string, Result, ok, err, panic, Exec, pure, ◌>>=◌, ◌>>◌,
}
use capivara_rs.Job.{JobId, ClaimToken, Bytes, ClaimedJob, NackAction, requeue_after}
use capivara_rs.Retry.{RetryPolicy, delay_for_attempt}
use capivara_rs.Broker.{Broker}
use capivara_rs.Results.{JobResult, success, failure, ResultBackend}
use capivara_rs.Registry
use capivara_rs.Registry.{Registry, ErasedHandler}

abbrev pub default_lease : Duration
default_lease = from_secs 30

abbrev pub default_block : Duration
default_block = 0

abbrev pub default_concurrency : ℕ
default_concurrency = 4

-- The `match` of `settle_ack` and `settle_nack`: a claim that was lost is no error.
unfoldable pub tolerate_lost : Result (Unit {0}) → Result (Unit {0})
tolerate_lost (err (job_not_found id)) = ok tt
tolerate_lost r = r

-- The `match` of `settle_dead_letter`: whether the claim was still owned.
unfoldable pub confirm_owned : Result (Unit {0}) → Result Bool
confirm_owned (ok u) = ok true
confirm_owned (err (job_not_found id)) = ok false
confirm_owned (err e) = err e
confirm_owned (panic p) = panic p

-- What the join of the handler's task comes to.
unfoldable pub outcome_of : Result Bytes → JobResult
outcome_of (ok bytes) = success bytes
outcome_of (err (task_failed message)) = failure message
outcome_of (err e) = failure (to_string e)
outcome_of (panic p) = failure ("task panicked: " ++ p)

abbrev pub map_result {ℓ} : {S A B : Type ℓ} → (Result A → Result B) → Exec S A → Exec S B
map_result f m s = let (r, s') = m s in (f r, s')

module _ {S : Type 0} (broker : Broker S) (id : JobId) (token : ClaimToken) where
  unfoldable pub settle_ack : Exec S (Unit {0})
  unfolding tolerate_lost
  settle_ack = map_result tolerate_lost (broker.ack id token)

  unfoldable pub settle_nack : NackAction → Exec S (Unit {0})
  unfolding tolerate_lost
  settle_nack action = map_result tolerate_lost (broker.nack id token action)

  unfoldable pub settle_dead_letter : String → Exec S Bool
  unfolding confirm_owned
  settle_dead_letter reason = map_result confirm_owned (broker.dead_letter id token reason)

-- `if let Some(backend) = &results { backend.store(…).await? }`
unfoldable pub store_result :
    {S : Type 0} → Option (ResultBackend S) → JobId → JobResult → Exec S (Unit {0})
store_result none id result = pure tt
store_result (some backend) id result = backend.store id result

-- A handler's panic is caught at the join of its task.
unfoldable pub run_handler : {S : Type 0} → ErasedHandler S → Bytes → Exec S JobResult
unfolding outcome_of
run_handler handler payload s = let (r, s') = handler payload s in (ok (outcome_of r), s')

module _ {S : Type 0} (draw : ℕ → ℕ) (broker : Broker S) (results : Option (ResultBackend S))
    (registry : Registry S) (policy : RetryPolicy) (claimed : ClaimedJob) where
  abbrev id : JobId
  id = claimed.job.id

  abbrev token : ClaimToken
  token = claimed.claim_token

  -- `dead_letter` first, and the failure is stored only if the claim was still owned.
  unfoldable pub finish_terminal : String → String → Exec S (Unit {0})
  unfolding settle_dead_letter store_result
  finish_terminal reason message = do
    owned ← settle_dead_letter broker id token reason
    if owned then store_result results id (failure message) else pure tt

  unfoldable pub finish : JobResult → Exec S (Unit {0})
  unfolding settle_ack settle_nack finish_terminal
  finish (success payload) = do
    store_result results id (success payload)
    settle_ack broker id token
  finish (failure message) =
      if ltb claimed.job.attempts policy.max_attempts
      then settle_nack broker id token
          (requeue_after (delay_for_attempt draw policy claimed.job.attempts))
      else finish_terminal message message

  unfoldable pub process_found : Result (ErasedHandler S) → Exec S (Unit {0})
  unfolding run_handler finish
  process_found (ok handler) = do outcome ← run_handler handler claimed.job.payload; finish outcome
  process_found (err e) = finish_terminal ("unknown task: " ++ claimed.job.task_name) (to_string e)
  process_found (panic p) = λ s. (panic p, s)

  unfoldable pub process_one : Exec S (Unit {0})
  unfolding process_found
  process_one = process_found (Registry.get claimed.job.task_name registry)
