-- ===== src/Redis/Claim.antt =====
-- `enqueue` and `claim` of broker/redis_broker.rs. Times are milliseconds of the system clock, which a
-- `u64` holds: their sums wrap. A round of the loop comes with its readings and its fresh tokens.
use Prim.Native.String.{◌++◌}
use capivara_rs.Prelude.{
  Bool, true, false, ℕ, suc, ◌+◌, ◌-◌, ◌/◌, ◌%◌, ◌^◌, min, String, ◌||◌, Option, none, some, List,
  [], ◌∷◌, leb, if◌then◌else◌, trim_is_empty,
}
use capivara_rs.Time.{Duration, Instant, is_zero, from_millis, add_duration}
use capivara_rs.Error.{
  empty_idempotency_key, serialize, broker, Result, ok, err, panic, Exec, pure, fail, ◌>>=◌, ◌>>◌,
}
use capivara_rs.Job.{JobId, QueueName, ClaimToken, Job, ClaimedJob}
use capivara_rs.Registry.{Serde, value, malformed}
use capivara_rs.Memory.Claim.{queue_names, overflow_panic}
use capivara_rs.Redis.{Redis, Codec, ℤ, attempts_of, call, or_err}
use capivara_rs.Redis.Keys.{
  pending_key, pending_key_prefix, job_key, job_key_prefix, attempts_key_prefix, lease_key,
  delayed_key, idempotency_key,
}
use capivara_rs.Redis.Scripts.{
  claim_script, promote_script, recover_script, enqueue_idempotent_script,
}

abbrev pub wrap : ℕ → ℕ
wrap n = n % 2 ^ 64

-- `as_millis() as u64`
abbrev pub millis : Duration → ℕ
millis d = wrap (d / 1_000_000)

pub record Round : Type 0 where
  pub recover_ms : ℕ
  pub promote_ms : ℕ
  -- The reading and the token of the call of `try_claim_one` for the queue at the position.
  pub claim_ms : ℕ → ℕ
  pub token : ℕ → ClaimToken
  pub at_check : Instant
  pub at_remaining : Instant

module _ {K : Type 0} (R : Redis K) (codec : Codec) (prefix : String) where
  open codec use {job_to_string, job_from_str, parse_str}

  -- The reply of the script, and the id parsed from it.
  unfoldable pub returned_id : Option String → Exec K JobId
  returned_id none s = (err (broker R.nil_error), s)
  returned_id (some returned) s = (
    or_err (λ e. broker ("invalid idempotency job id " ++ (returned ++ (": " ++ e))))
        (parse_str returned),
    s,
  )

  unfoldable pub push_keyed : Job → String → String → Bool → Exec K JobId
  unfolding call returned_id
  push_keyed job body key true = fail empty_idempotency_key
  push_keyed job body key false = do
    returned ← call R (
        enqueue_idempotent_script R (idempotency_key prefix key) (job_key prefix job.id)
          (pending_key prefix job.queue) job.id body)
    returned_id returned

  unfoldable pub push_body : Job → String → Option String → Exec K JobId
  unfolding push_keyed
  push_body job body none = do
    call R (λ s. (
      tt {0},
      R.lpush (pending_key prefix job.queue) job.id (R.set (job_key prefix job.id) body s),
    ))
    pure job.id
  push_body job body (some key) = push_keyed job body key (trim_is_empty key)

  unfoldable pub push_job : Job → Serde String → Exec K JobId
  unfolding push_body
  push_job job (malformed e) = fail (serialize e)
  push_job job (value body) = push_body job body job.idempotency_key

  unfoldable pub enqueue : Job → Exec K JobId
  unfolding push_job
  enqueue job = push_job job (job_to_string job)

  -- The script's count is not read, here and in `promote_delayed`.
  unfoldable pub recover_expired_leases : ℕ → Exec K (Unit {0})
  unfolding call
  recover_expired_leases now = do
    call R (
        recover_script R (lease_key prefix) now (pending_key_prefix prefix) (job_key_prefix prefix)
          (attempts_key_prefix prefix))
    pure tt

  unfoldable pub promote_delayed : ℕ → Exec K (Unit {0})
  unfolding call
  promote_delayed now = do
    call R (
        promote_script R (delayed_key prefix) now (pending_key_prefix prefix)
          (job_key_prefix prefix) (attempts_key_prefix prefix))
    pure tt

  -- The write of the attempts into the body: its failure is ignored.
  unfoldable pub mirror : Job → Serde String → K → K
  mirror job (malformed e) s = s
  mirror job (value updated) s =
      (R.invoke (λ t. (tt {0}, R.set (job_key prefix job.id) updated t)) s).1

  unfoldable pub claimed_body : ClaimToken → ℤ → Serde Job → Exec K (Option ClaimedJob)
  unfolding mirror attempts_of
  claimed_body token attempts (malformed e) s = fail (serialize e) s
  claimed_body token attempts (value decoded) s =
      let job : Job = record decoded { attempts = attempts_of attempts } in
      (ok (some (record { job = job; claim_token = token })), mirror job (job_to_string job) s)

  unfoldable pub claimed_reply : ClaimToken → Option (String × ℤ) → Exec K (Option ClaimedJob)
  unfolding claimed_body
  claimed_reply token none = pure none
  claimed_reply token (some (body, attempts)) = claimed_body token attempts (job_from_str body)

  unfoldable pub try_claim_one : QueueName → Duration → ℕ → ClaimToken → Exec K (Option ClaimedJob)
  unfolding claimed_reply call
  try_claim_one queue lease now token = do
    reply ← call R (
        claim_script R (pending_key prefix queue) (lease_key prefix) (job_key_prefix prefix)
          (wrap (now + millis lease)) queue token (attempts_key_prefix prefix))
    claimed_reply token reply

  abbrev or_next : Option ClaimedJob → Exec K (Option ClaimedJob) → Exec K (Option ClaimedJob)
  or_next none next = next
  or_next (some claimed) next = pure (some claimed)

  unfoldable pub try_queues : Duration → Round → ℕ → List QueueName → Exec K (Option ClaimedJob)
  unfolding try_claim_one
  try_queues lease r i [] = pure none
  try_queues lease r i (q ∷ qs) =
      let rest = try_queues lease r (suc i) qs in
      do found ← try_claim_one q lease (r.claim_ms i) (r.token i); or_next found rest

  unfoldable pub claim_pass : List QueueName → Duration → Round → Exec K (Option ClaimedJob)
  unfolding recover_expired_leases promote_delayed try_queues queue_names
  claim_pass queues lease r = do
    recover_expired_leases r.recover_ms
    promote_delayed r.promote_ms
    try_queues lease r 0 (queue_names queues)

  -- `remaining.min(Duration::from_millis(50))`
  unfoldable pub sleep_slice : Instant → Round → Duration
  sleep_slice deadline r = min (deadline - r.at_remaining) (from_millis 50)

  -- `none` is a call that is still running when the rounds are used up.
  unfoldable pub claim_loop :
      List QueueName
      → Duration
      → Duration
      → Instant
      → List Round
      → K
      → Option (Result (Option ClaimedJob) × K)
  unfolding claim_pass
  claim_loop queues lease block_for deadline [] s = none
  claim_loop queues lease block_for deadline (r ∷ rs) s =
      let (result, s') = claim_pass queues lease r s in
      let waited = claim_loop queues lease block_for deadline rs s' in
      elim result [
        | ok none ↦
            if is_zero block_for || leb deadline r.at_check then some (ok none, s') else waited
        | ok (some c) ↦ some (ok (some c), s')
        | err e ↦ some (err e, s')
        | panic p ↦ some (panic p, s')
      ]

  unfoldable pub claim :
      List QueueName
      → Duration
      → Instant
      → Duration
      → List Round
      → K
      → Option (Result (Option ClaimedJob) × K)
  unfolding claim_loop
  claim queues lease start block_for rounds s = elim (add_duration start block_for) [
    | none ↦ some (panic overflow_panic, s)
    | some deadline ↦ claim_loop queues lease block_for deadline rounds s
  ]
