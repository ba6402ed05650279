-- ===== src/Redis/Keeps/Writes.antt =====
-- The writes of the operations of broker/redis_broker.rs that leave a job where it is.
use capivara_rs.Prelude.{ℕ, String, false, ◌≢◌, sym, ◌∙◌, if_neg, string_discrete}
use capivara_rs.Job.{JobId, ClaimToken}
use capivara_rs.Redis.{Redis}
use capivara_rs.Redis.Keys.{
  pending_key, dead_key, job_key, attempts_key, idempotency_key, lease_key, delayed_key,
  lease_member, delayed_member,
}
use capivara_rs.Redis.Structures.{Structures}
use capivara_rs.Redis.Apart
use capivara_rs.Redis.Keeps.{Keeps, IsForeign, Only-Keeps, lpush-Keeps, zadd-Keeps}

module _ {K : Type 0} (R : Redis K) (prefix : String) (q : String) (id : JobId) where
  IsForeign-job : (other : JobId) → other ≢ id → IsForeign R prefix q id (job_key prefix other)
  IsForeign-job other ne = (
    λ e. ne (Apart.job_key_inj prefix other id e),
    λ e. Apart.pending-ne-job prefix q other (sym e),
    Apart.job-ne-lease prefix other,
    Apart.job-ne-delayed prefix other,
    λ e. Apart.dead-ne-job prefix q other (sym e),
  )

  IsForeign-attempts : (other : JobId) → IsForeign R prefix q id (attempts_key prefix other)
  IsForeign-attempts other = (
    Apart.attempts-ne-job prefix other id,
    Apart.attempts-ne-pending prefix other q,
    Apart.attempts-ne-lease prefix other,
    Apart.attempts-ne-delayed prefix other,
    Apart.attempts-ne-dead prefix other q,
  )

  IsForeign-idempotency : (key : String) → IsForeign R prefix q id (idempotency_key prefix key)
  IsForeign-idempotency key = (
    λ e. Apart.job-ne-idempotency prefix id key (sym e),
    λ e. Apart.pending-ne-idempotency prefix q key (sym e),
    Apart.idempotency-ne-lease prefix key,
    Apart.idempotency-ne-delayed prefix key,
    Apart.idempotency-ne-dead prefix key q,
  )

  -- The writes of the operations.
  module _ (structures : Structures R) where
    pub set_job-Keeps :
        (other : JobId) (v : String) (s : K)
        → other ≢ id
        → Keeps R prefix q id s (R.set (job_key prefix other) v s)
    set_job-Keeps other v s ne =
        Only-Keeps R prefix q id (job_key prefix other) s (R.set (job_key prefix other) v s)
          (IsForeign-job other ne) (structures.set-Only (job_key prefix other) v s)

    pub del_job-Keeps :
        (other : JobId) (s : K)
        → other ≢ id
        → Keeps R prefix q id s (R.del (job_key prefix other) s)
    del_job-Keeps other s ne =
        Only-Keeps R prefix q id (job_key prefix other) s (R.del (job_key prefix other) s)
          (IsForeign-job other ne) (structures.del-Only (job_key prefix other) s)

    pub set_idempotency-Keeps :
        (key v : String) (s : K) → Keeps R prefix q id s (R.set (idempotency_key prefix key) v s)
    set_idempotency-Keeps key v s =
        Only-Keeps R prefix q id (idempotency_key prefix key) s
          (R.set (idempotency_key prefix key) v s) (IsForeign-idempotency key)
          (structures.set-Only (idempotency_key prefix key) v s)

    pub del_attempts-Keeps :
        (other : JobId) (s : K) → Keeps R prefix q id s (R.del (attempts_key prefix other) s)
    del_attempts-Keeps other s =
        Only-Keeps R prefix q id (attempts_key prefix other) s (R.del (attempts_key prefix other) s)
          (IsForeign-attempts other) (structures.del-Only (attempts_key prefix other) s)

    pub incr_attempts-Keeps :
        (other : JobId) (s : K) → Keeps R prefix q id s (R.incr (attempts_key prefix other) s).1
    incr_attempts-Keeps other s =
        Only-Keeps R prefix q id (attempts_key prefix other) s
          (R.incr (attempts_key prefix other) s).1 (IsForeign-attempts other)
          (structures.incr-Only (attempts_key prefix other) s)

    pub push_pending-Keeps :
        (queue : String) (v : String) (s : K)
        → Keeps R prefix q id s (R.lpush (pending_key prefix queue) v s)
    push_pending-Keeps queue v s =
        lpush-Keeps R prefix q id structures (pending_key prefix queue) v s
          (Apart.pending-ne-job prefix queue id) (Apart.pending-ne-lease prefix queue)
          (Apart.pending-ne-delayed prefix queue)

    pub push_dead-Keeps :
        (queue : String) (v : String) (s : K)
        → Keeps R prefix q id s (R.lpush (dead_key prefix queue) v s)
    push_dead-Keeps queue v s =
        lpush-Keeps R prefix q id structures (dead_key prefix queue) v s
          (Apart.dead-ne-job prefix queue id) (Apart.dead-ne-lease prefix queue)
          (Apart.dead-ne-delayed prefix queue)

    pub delay-Keeps :
        (m : String) (n : ℕ) (s : K) → Keeps R prefix q id s (R.zadd (delayed_key prefix) n m s)
    delay-Keeps m n s =
        zadd-Keeps R prefix q id structures (delayed_key prefix) m n s
          (λ e. Apart.job-ne-delayed prefix id (sym e))
          (λ e. Apart.pending-ne-delayed prefix q (sym e))
          (λ e. Apart.dead-ne-delayed prefix q (sym e))

    pub lease-Keeps :
        (m : String) (n : ℕ) (s : K) → Keeps R prefix q id s (R.zadd (lease_key prefix) n m s)
    lease-Keeps m n s =
        zadd-Keeps R prefix q id structures (lease_key prefix) m n s
          (λ e. Apart.job-ne-lease prefix id (sym e)) (λ e. Apart.pending-ne-lease prefix q (sym e))
          (λ e. Apart.dead-ne-lease prefix q (sym e))

    -- A claim that is not of the job ends.
    pub unlease-Keeps :
        (m : String) (s : K)
        → ((token : ClaimToken) → m ≢ lease_member q id token)
        → Keeps R prefix q id s (R.zrem (lease_key prefix) m s).1
    unlease-Keeps m s other =
        let only = structures.zrem-Only (lease_key prefix) m s in
        record {
          body = (only (job_key prefix id) (λ e. Apart.job-ne-lease prefix id (sym e))).text;
          waiting = λ l.
              rw (only (pending_key prefix q) (λ e. Apart.pending-ne-lease prefix q (sym e))).items
                l;
          held = λ token h.
              structures.has-zrem (lease_key prefix) m (lease_member q id token) s
              ∙ if_neg (string_discrete m (lease_member q id token)) (other token) false
                  (R.zrem (lease_key prefix) (lease_member q id token) s).0
              ∙ h;
          delayed = λ h.
              (only (delayed_key prefix) (Apart.lease-ne-delayed prefix)).members
                (delayed_member q id)
              ∙ h;
          dead = λ l.
              rw (only (dead_key prefix q) (λ e. Apart.dead-ne-lease prefix q (sym e))).items l;
        }
