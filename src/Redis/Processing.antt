-- ===== src/Redis/Processing.antt =====
-- From `enqueue` to the end of `process_one` on a Redis server that answers.
use capivara_rs.Prelude.{ℕ, String, none, some, [], ◌∷◌, ◌≡◌, sym, ◌∙◌, ap, ltb}
use mathlib.Core.Path.{subst}
use capivara_rs.Time.{Duration}
use capivara_rs.Error.{ok}
use capivara_rs.Job.{ClaimToken, Job, ClaimedJob}
use capivara_rs.Retry.{RetryPolicy}
use capivara_rs.Registry
use capivara_rs.Registry.{Registry, ErasedHandler, value}
use capivara_rs.Worker.{outcome_of}
use capivara_rs.Redis.{Redis, Codec}
use capivara_rs.Redis.Keys.{pending_key, job_key}
use capivara_rs.Redis.Claim.{enqueue, try_claim_one}
use capivara_rs.Redis.Laws.{Laws, Reachable}
use capivara_rs.Redis.Structures.{Structures}
use capivara_rs.Redis.Popping.{attempted}
use capivara_rs.Redis.Delivery.{Delivered, body-Delivered, written}
use capivara_rs.Redis.Sending.{enqueue_plain, pushed-queue, pushed-body}
use capivara_rs.Redis.Results.{ResultCodec}
use capivara_rs.Redis.Host.{Host}
use capivara_rs.Redis.Settling.{Held}
use capivara_rs.Redis.Completion.{processed, processed-Completes}
use capivara_rs.Redis.Outcomes.{Reads, Completes}

module _ {K : Type 0} (R : Redis K) (codec : Codec) (prefix : String) where
  -- The claim that a worker gets of a job that was sent, and the keyspace then.
  abbrev pub claim_of : Job → ClaimToken → K → ClaimedJob
  claim_of job token s = record {
    job = attempted R prefix job.id job job.queue (enqueue R codec prefix job s).1;
    claim_token = token;
  }

  abbrev pub claimed_from : Job → Duration → ℕ → ClaimToken → K → K
  claimed_from job lease now token s =
      (try_claim_one R codec prefix job.queue lease now token (enqueue R codec prefix job s).1).1

module _ {K : Type 0} (R : Redis K) (codec : Codec) (results : ResultCodec) (prefix : String)
    (ttl : Duration) (draw : ℕ → ℕ) (registry : Registry (Host K)) (policy : RetryPolicy)
    (laws : Laws R) (structures : Structures R) (reachable : Reachable R) where
  claimed-Held :
      (job : Job) (lease : Duration) (now : ℕ) (token : ClaimToken) (body text : String) (s : K)
      → job.idempotency_key ≡ none
      → codec.job_to_string job ≡ value body
      → codec.job_from_str body ≡ value job
      → codec.job_to_string (claim_of R codec prefix job token s).job ≡ value text
      → codec.job_from_str text ≡ value (claim_of R codec prefix job token s).job
      → R.lrange (pending_key prefix job.queue) s ≡ []
      → ((try_claim_one R codec prefix job.queue lease now token (enqueue R codec prefix job s).1).0
          ≡ ok (some (claim_of R codec prefix job token s)))
        × Held R codec prefix job.id token text
            (claim_of R codec prefix job token s).job
            (claimed_from R codec prefix job lease now token s)
  claimed-Held job lease now token body text s plain put read rewritten reread empty =
      let t = (enqueue R codec prefix job s).1 in
      let sent =
        ap (λ r. r.1)
          (enqueue_plain R codec prefix laws structures reachable job body s plain put) in
      let next : R.lrange (pending_key prefix job.queue) t ≡ job.id ∷ [] =
        ap (R.lrange (pending_key prefix job.queue)) sent
        ∙ pushed-queue R codec prefix laws structures reachable job body s
        ∙ ap (λ l. job.id ∷ l) empty in
      let there : R.get (job_key prefix job.id) t ≡ some body =
        ap (R.get (job_key prefix job.id)) sent
        ∙ pushed-body R codec prefix laws structures reachable job body s in
      let d : Delivered R codec prefix job.queue [] job.id job token t
          (try_claim_one R codec prefix job.queue lease now token t) =
        body-Delivered R codec prefix laws structures reachable job.queue [] lease now token job.id
          job body t next there read in
      (
        d.result,
        (
          d.mirrored ∙ ap (λ r. written r (R.get (job_key prefix job.id) t)) rewritten,
          reread,
          d.held,
        ),
      )

  -- On a Redis server that answers, for a job without an idempotency key whose text reads back as
  -- the job, before and after the attempts are counted, and whose queue is empty: once it is
  -- enqueued, `try_claim_one` returns it with its attempts, and a worker whose handler for its task
  -- leaves the keyspace alone then completes it, if the text of its result reads back as the
  -- result. The call ends well, the claim is over, and the outcome shows: a success has deleted the
  -- body, and `get` returns it; a failure with attempts left has the id in front of its queue,
  -- where the delay is zero, or in the range of the delayed set that reaches to the end of the
  -- delay, its milliseconds wrapped at 64 bits, and its result as it was; any other failure has the
  -- id in front of the dead letters, with its message as the reason, and `get` returns it. After a
  -- failure the body is there.
  pub sent_job-Completes :
      (job : Job) (lease : Duration) (now : ℕ) (token : ClaimToken) (body text written_as : String)
      (s : K) (h : Host K) (handler : ErasedHandler (Host K))
      → job.idempotency_key ≡ none
      → codec.job_to_string job ≡ value body
      → codec.job_from_str body ≡ value job
      → codec.job_to_string (claim_of R codec prefix job token s).job ≡ value text
      → codec.job_from_str text ≡ value (claim_of R codec prefix job token s).job
      → R.lrange (pending_key prefix job.queue) s ≡ []
      → Registry.get job.task_name registry ≡ ok handler
      → h.keyspace ≡ claimed_from R codec prefix job lease now token s
      → (handler job.payload h).1.keyspace ≡ h.keyspace
      → let c = claim_of R codec prefix job token s in
        let r = handler job.payload h in
        Reads results (outcome_of r.0) written_as
        → ((try_claim_one R codec prefix job.queue lease now token
              (enqueue R codec prefix job s).1).0
            ≡ ok (some c))
          × Completes R codec results prefix ttl draw policy c
              (ltb c.job.attempts policy.max_attempts)
              (outcome_of r.0)
              text
              c.job
              r.1
              (processed R codec results prefix ttl draw registry policy c h)
  sent_job-Completes job lease now token body text written_as s h handler plain put read rewritten
        reread empty found there kept reads =
      let (claimed, held) =
        claimed-Held job lease now token body text s plain put read rewritten reread empty in
      let c = claim_of R codec prefix job token s in
      (
        claimed,
        processed-Completes R codec results prefix ttl draw registry policy c laws structures
            reachable handler h text written_as c.job found
            (subst (Held R codec prefix job.id token text c.job) (sym (kept ∙ there)) held) reads,
      )
