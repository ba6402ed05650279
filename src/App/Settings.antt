-- ===== src/App/Settings.antt =====
-- What every configured app keeps to.
use capivara_rs.Prelude.{ℕ, ◌≤◌, List, [], ◌∷◌, arith}
use capivara_rs.Time.{Duration}
use capivara_rs.Job.{QueueName}
use capivara_rs.Retry.{RetryPolicy}
use capivara_rs.Broker.{Broker}
use capivara_rs.Results.{ResultBackend}
use capivara_rs.Registry.{Task}
use capivara_rs.App.{
  App, new, with_result_backend, with_default_queue, with_lease, with_retry_policy,
  with_max_attempts, with_nack_delay, with_concurrency, register, worker_of,
}

-- The calls that make an app from another one.
pub data Setting (S : Type 0) : Type 1 where
  result_backend : ResultBackend S → Setting S
  default_queue : QueueName → Setting S
  lease : Duration → Setting S
  retry_policy : RetryPolicy → Setting S
  max_attempts : ℕ → Setting S
  nack_delay : Duration → Setting S
  concurrency : ℕ → Setting S
  registers : Task S → Setting S

module _ {S : Type 0} where
  unfoldable pub configure : List (Setting S) → App S → App S
  configure [] app = app
  configure (result_backend b ∷ l) app = configure l (with_result_backend b app)
  configure (default_queue q ∷ l) app = configure l (with_default_queue q app)
  configure (lease d ∷ l) app = configure l (with_lease d app)
  configure (retry_policy p ∷ l) app = configure l (with_retry_policy p app)
  configure (max_attempts n ∷ l) app = configure l (with_max_attempts n app)
  configure (nack_delay d ∷ l) app = configure l (with_nack_delay d app)
  configure (concurrency n ∷ l) app = configure l (with_concurrency n app)
  configure (registers T ∷ l) app = configure l (register T app).1

  -- A job has one attempt at least, and a worker runs one job at least.
  abbrev pub IsUsable : App S → Type 0
  IsUsable app = (1 ≤ app.retry_policy.max_attempts) × (1 ≤ app.concurrency)

  configure-IsUsable :
      (settings : List (Setting S)) (app : App S) → IsUsable app → IsUsable (configure settings app)
  unfolding configure with_result_backend with_default_queue with_lease with_retry_policy
      with_max_attempts with_nack_delay with_concurrency register
  configure-IsUsable [] app h = h
  configure-IsUsable (result_backend b ∷ l) app h =
      configure-IsUsable l (with_result_backend b app) h
  configure-IsUsable (default_queue q ∷ l) app h = configure-IsUsable l (with_default_queue q app) h
  configure-IsUsable (lease d ∷ l) app h = configure-IsUsable l (with_lease d app) h
  configure-IsUsable (retry_policy p ∷ l) app h =
      configure-IsUsable l (with_retry_policy p app) (omega arith, h.1)
  configure-IsUsable (max_attempts n ∷ l) app h =
      configure-IsUsable l (with_max_attempts n app) (omega arith, h.1)
  configure-IsUsable (nack_delay d ∷ l) app h = configure-IsUsable l (with_nack_delay d app) h
  configure-IsUsable (concurrency n ∷ l) app h =
      configure-IsUsable l (with_concurrency n app) (h.0, omega arith)
  configure-IsUsable (registers T ∷ l) app h = configure-IsUsable l (register T app).1 h

  -- However an app was configured, from any broker and with any values, its worker lets a job be
  -- attempted once at least and runs one job at least.
  pub worker_usable :
      (broker : Broker S) (settings : List (Setting S))
      → (1 ≤ (worker_of (configure settings (new broker))).retry_policy.max_attempts)
        × (1 ≤ (worker_of (configure settings (new broker))).concurrency)
  unfolding worker_of new
  worker_usable broker settings =
      configure-IsUsable settings (new broker) (omega arith, omega arith)
