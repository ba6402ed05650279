-- ===== src/App.antt =====
-- app.rs: the facade. The registry stands behind a mutex: `register` returns the app with its new
-- contents. `JobId::new()` is drawn before a `send` and comes as an argument.
pub mod Settings
pub mod Producer
use capivara_rs.Prelude.{
  ℕ, String, Option, none, some, [], ◌∷◌, max, not, trim_is_empty, if◌then◌else◌,
}
use capivara_rs.Time.{Duration}
use capivara_rs.Error.{
  empty_idempotency_key, task_not_registered, serialize, no_result_backend, result_not_found, ok,
  err, Exec, fail, ◌>>=◌,
}
use capivara_rs.Job.{JobId, QueueName, Bytes, default_queue_name, new_job}
use capivara_rs.Retry.{RetryPolicy, default_policy}
use capivara_rs.Broker.{Broker}
use capivara_rs.Results.{JobResult, ResultBackend}
use capivara_rs.Registry
use capivara_rs.Registry.{Registry, Task, Serde, value, malformed}
use capivara_rs.Worker.{default_lease, default_concurrency}
use capivara_rs.Worker.Drain.{Worker}

pub record App (S : Type 0) : Type 0 where
  pub registry : Registry S
  pub broker : Broker S
  pub results : Option (ResultBackend S)
  pub default_queue : QueueName
  pub lease : Duration
  pub retry_policy : RetryPolicy
  pub concurrency : ℕ

module _ {S : Type 0} where
  unfoldable pub new : Broker S → App S
  new broker = record {
    registry = [];
    broker = broker;
    results = none;
    default_queue = default_queue_name;
    lease = default_lease;
    retry_policy = default_policy;
    concurrency = default_concurrency;
  }

  unfoldable pub with_result_backend : ResultBackend S → App S → App S
  with_result_backend backend app = record app { results = some backend }

  unfoldable pub with_default_queue : QueueName → App S → App S
  with_default_queue queue app = record app { default_queue = queue }

  unfoldable pub with_lease : Duration → App S → App S
  with_lease lease app = record app { lease = lease }

  unfoldable pub with_retry_policy : RetryPolicy → App S → App S
  with_retry_policy policy app = record app {
    retry_policy = record policy { max_attempts = max policy.max_attempts 1 };
  }

  unfoldable pub with_max_attempts : ℕ → App S → App S
  with_max_attempts max_attempts app = record app {
    retry_policy = record (app.retry_policy) { max_attempts = max max_attempts 1 };
  }

  unfoldable pub with_nack_delay : Duration → App S → App S
  with_nack_delay nack_delay app = record app {
    retry_policy = record (app.retry_policy) { base_delay = nack_delay };
  }

  unfoldable pub with_concurrency : ℕ → App S → App S
  with_concurrency concurrency app = record app { concurrency = max concurrency 1 }

  unfoldable pub register : Task S → Exec (App S) (Unit {0})
  register T app =
      let (r, registry) = Registry.register T app.registry in
      (r, record app { registry = registry })

  unfoldable pub send_payload : App S → String → Option String → JobId → Serde Bytes → Exec S JobId
  send_payload app name key id (malformed e) = fail (serialize e)
  send_payload app name key id (value payload) =
      app.broker.enqueue
        (record (new_job id name payload) { queue = app.default_queue; idempotency_key = key })

  unfoldable pub send_inner : App S → (T : Task S) → T.Args → Option String → JobId → Exec S JobId
  unfolding send_payload new_job
  send_inner app T args key id =
      if not (Registry.contains T.name app.registry)
      then fail (task_not_registered T.name)
      else send_payload app T.name key id (T.args_to_vec args)

  unfoldable pub send : App S → (T : Task S) → T.Args → JobId → Exec S JobId
  unfolding send_inner
  send app T args id = send_inner app T args none id

  unfoldable pub send_with_idempotency_key :
      App S → (T : Task S) → T.Args → String → JobId → Exec S JobId
  unfolding send_inner
  send_with_idempotency_key app T args key id =
      if trim_is_empty key then fail empty_idempotency_key else send_inner app T args (some key) id

  found_result : JobId → Option JobResult → Exec S JobResult
  found_result id (some r) s = (ok r, s)
  found_result id none s = (err (result_not_found id), s)

  unfoldable pub get_result : App S → JobId → Exec S JobResult
  unfolding found_result
  get_result app id = elim app.results [
    | none ↦ fail no_result_backend
    | some backend ↦ backend.get id >>= found_result id
  ]

  -- The worker that `run_worker` runs, on a copy of the registry.
  unfoldable pub worker_of : App S → Worker S
  worker_of app = record {
    registry = app.registry;
    broker = app.broker;
    results = app.results;
    queues = app.default_queue ∷ [];
    lease = app.lease;
    retry_policy = app.retry_policy;
    concurrency = app.concurrency;
  }
