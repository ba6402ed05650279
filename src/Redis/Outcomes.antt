-- ===== src/Redis/Outcomes.antt =====
-- How the outcome of a job shows on Redis after `process_one`.
use Prim.Native.String.{◌++◌}
use capivara_rs.Prelude.{ℕ, String, Bool, true, false, none, some, ◌∷◌, ◌≡◌}
use capivara_rs.Time.{Duration}
use capivara_rs.Error.{Result, ok}
use capivara_rs.Job.{JobId, ClaimToken, Job, ClaimedJob}
use capivara_rs.Retry.{RetryPolicy, delay_for_attempt}
use capivara_rs.Results.{JobResult, success, failure}
use capivara_rs.Registry.{value}
use capivara_rs.Redis.{Redis, Codec}
use capivara_rs.Redis.Keys.{dead_key, job_key, dead_reason_key}
use capivara_rs.Redis.Results
use capivara_rs.Redis.Results.{ResultCodec}
use capivara_rs.Redis.Host.{Host}
use capivara_rs.Redis.Settling.{Over, Requeued}

module _ (results : ResultCodec) where
  -- The result is written as a text that reads back as the result.
  abbrev pub Reads : JobResult → String → Type 0
  Reads o text =
      (results.result_to_string o ≡ value text) × (results.result_from_str text ≡ value o)

module _ {K : Type 0} (R : Redis K) (codec : Codec) (results : ResultCodec) (prefix : String)
    (ttl : Duration) (draw : ℕ → ℕ) (policy : RetryPolicy) (c : ClaimedJob) where
  abbrev id : JobId
  id = c.job.id

  abbrev token : ClaimToken
  token = c.claim_token

  abbrev delay : Duration
  delay = delay_for_attempt draw policy c.job.attempts

  abbrev pub IsStored : JobResult → K → Type 0
  IsStored o t = (Results.get R results prefix ttl id t).0 ≡ ok (some o)

  -- How the outcome of the job `j` of the claim, held in `s` at the reading `now`, shows in `t`.
  abbrev pub Shows : Bool → JobResult → String → Job → ℕ → K → K → Type 0
  Shows retry (success p) body j now s t =
      (R.get (job_key prefix id) t ≡ none) × IsStored (success p) t
  Shows true (failure m) body j now s t =
      (R.get (job_key prefix id) t ≡ some body)
      × Requeued R codec prefix now delay id j s t
      × (R.get (prefix ++ ("result:" ++ id)) t ≡ R.get (prefix ++ ("result:" ++ id)) s)
  Shows false (failure m) body j now s t =
      (R.get (job_key prefix id) t ≡ some body)
      × (R.get (dead_reason_key prefix id) t ≡ some m)
      × (R.lrange (dead_key prefix j.queue) t ≡ id ∷ R.lrange (dead_key prefix j.queue) s)
      × IsStored (failure m) t

  -- The call ended well, the claim is over, and the outcome shows.
  abbrev pub Completes :
      Bool → JobResult → String → Job → Host K → Result (Unit {0}) × Host K → Type 0
  Completes retry o body j s r =
      (r.0 ≡ ok tt)
      × Over R codec prefix id token j r.1.keyspace
      × Shows retry o body j s.now_ms s.keyspace r.1.keyspace
