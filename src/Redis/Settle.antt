-- ===== src/Redis/Settle.antt =====
-- `ack`, `nack`, `dead_letter` and `list_dead` of broker/redis_broker.rs.
use Prim.Native.String.{◌++◌}
use mathlib.Core.List.{reverse}
use capivara_rs.Prelude.{
  ℕ, ◌+◌, String, Bool, true, false, Option, none, some, List, [], ◌∷◌, if◌then◌else◌,
}
use capivara_rs.Time.{is_zero}
use capivara_rs.Error.{job_not_found, serialize, broker, Result, Exec, pure, fail, ◌>>=◌}
use capivara_rs.Job.{JobId, QueueName, ClaimToken, Job, NackAction, requeue_after, DeadLetter}
use capivara_rs.Redis.{Redis, Codec, call, or_err}
use capivara_rs.Redis.Keys.{
  pending_key, dead_key, job_key, dead_reason_key, attempts_key, lease_key, delayed_key,
  lease_member, delayed_member,
}
use capivara_rs.Redis.Scripts.{
  ack_script, nack_script, dead_letter_script, Requeue, to_pending, to_delayed,
}
use capivara_rs.Redis.Claim.{wrap, millis}

-- `if removed == 0 { return Err(JobNotFound) }`
abbrev pub settled : {K : Type 0} → JobId → Bool → Exec K (Unit {0})
settled id true = pure tt
settled id false = fail (job_not_found id)

module _ {K : Type 0} (R : Redis K) (codec : Codec) (prefix : String) where
  open codec use {job_from_str, parse_str}

  -- `GET key`
  abbrev pub read : String → Exec K (Option String)
  read key = call R (λ s. (R.get key s, s))

  abbrev pub decoded : JobId → Option String → Exec K Job
  decoded id none s = fail (job_not_found id) s
  decoded id (some body) s = (or_err serialize (job_from_str body), s)

  unfoldable pub get_job : JobId → Exec K Job
  unfolding call
  get_job id = do body ← read (job_key prefix id); decoded id body

  unfoldable pub ack : JobId → ClaimToken → Exec K (Unit {0})
  unfolding get_job
  ack id token = do
    job ← get_job id
    removed ← call R (
        ack_script R (lease_key prefix) (job_key prefix id) (lease_member job.queue id token)
          (attempts_key prefix id))
    settled id removed

  -- Where the action sends the job, at the reading `now`.
  unfoldable pub requeue_target : ℕ → NackAction → Job → JobId → Requeue
  requeue_target now (requeue_after delay) job id =
      if is_zero delay
      then to_pending (pending_key prefix job.queue) id
      else to_delayed (delayed_key prefix) (wrap (now + millis delay)) (delayed_member job.queue id)

  unfoldable pub nack : ℕ → JobId → ClaimToken → NackAction → Exec K (Unit {0})
  unfolding get_job requeue_target
  nack now id token action = do
    job ← get_job id
    removed ← call R (
        nack_script R (lease_key prefix) (job_key prefix id) (lease_member job.queue id token)
          (requeue_target now action job id))
    settled id removed

  unfoldable pub dead_letter : JobId → ClaimToken → String → Exec K (Unit {0})
  unfolding get_job
  dead_letter id token reason = do
    job ← get_job id
    removed ← call R (
        dead_letter_script R (lease_key prefix) (dead_key prefix job.queue) (job_key prefix id)
          (lease_member job.queue id token) id (dead_reason_key prefix id) reason
          (attempts_key prefix id))
    settled id removed

  -- `unwrap_or_default()`
  abbrev pub or_empty : Option String → String
  or_empty none = ""
  or_empty (some reason) = reason

  abbrev pub parsed_id : String → Result JobId
  parsed_id text =
      or_err (λ e. broker ("invalid dead-letter job id " ++ (text ++ (": " ++ e)))) (parse_str text)

  -- The letter of an id whose body was read, in front of the later ones.
  unfoldable pub letter_then :
      JobId → Option String → Exec K (List DeadLetter) → Exec K (List DeadLetter)
  letter_then id none rest = rest
  letter_then id (some body) rest = do
    job ← decoded id (some body)
    reason ← read (dead_reason_key prefix id)
    letters ← rest
    pure (record { job = job; reason = or_empty reason } ∷ letters)

  unfoldable pub letters_of : List String → Exec K (List DeadLetter)
  unfolding letter_then
  letters_of [] = pure []
  letters_of (text ∷ texts) =
      let rest = letters_of texts in
      do id ← (λ s. (parsed_id text, s)); body ← read (job_key prefix id); letter_then id body rest

  unfoldable pub list_dead : QueueName → Exec K (List DeadLetter)
  unfolding letters_of call
  list_dead queue = do
    ids ← call R (λ s. (R.lrange (dead_key prefix queue) s, s))
    letters_of (reverse ids)
