-- ===== src/Redis/Completion.antt =====
-- `process_one` with the Redis broker and results, on a server that answers: how a job ends.
use Prim.Native.String.{◌++◌}
use capivara_rs.Prelude.{
  ℕ, ◌/◌, max, String, true, false, some, ltb, ◌≡◌, ◌≢◌, refl, ◌∙◌, inl, inr, if_pos,
  string_discrete, Bool-cases, arith,
}
use capivara_rs.Time.{Duration, nanos_per_sec}
use capivara_rs.Error.{Result, ok}
use capivara_rs.Job.{Bytes, JobId, ClaimToken, Job, ClaimedJob, requeue_after}
use capivara_rs.Retry.{RetryPolicy, delay_for_attempt}
use capivara_rs.Results.{JobResult, success, failure}
use capivara_rs.Registry
use capivara_rs.Registry.{Registry, ErasedHandler, value}
use capivara_rs.Worker.{
  process_one, process_found, finish, finish_terminal, outcome_of, settle_ack, settle_nack,
  settle_dead_letter, store_result,
}
use capivara_rs.Redis.{Redis, Codec}
use capivara_rs.Redis.Keys.{dead_key, job_key, dead_reason_key, lease_key, lease_member}
use capivara_rs.Redis.Settle.{ack, nack, dead_letter}
use capivara_rs.Redis.Laws.{Laws, Reachable}
use capivara_rs.Redis.Structures.{Structures, Same}
use capivara_rs.Redis.Apart
use capivara_rs.Redis.Apart.{reason_id}
use capivara_rs.Redis.Results.{ResultCodec, get_read, store_lem}
use capivara_rs.Redis.Host.{Host, redis_broker, redis_results}
use capivara_rs.Redis.Settling.{Held, ack_lem, nack_lem, dead_letter_lem}
use capivara_rs.Redis.Outcomes.{Reads, IsStored, Completes}

module _ {K : Type 0} (R : Redis K) (codec : Codec) (results : ResultCodec) (prefix : String)
    (ttl : Duration) (draw : ℕ → ℕ) (registry : Registry (Host K)) (policy : RetryPolicy)
    (c : ClaimedJob) where
  abbrev id : JobId
  id = c.job.id

  abbrev token : ClaimToken
  token = c.claim_token

  abbrev delay : Duration
  delay = delay_for_attempt draw policy c.job.attempts

  -- The worker's call, with the broker and the results under the same prefix.
  abbrev finished : JobResult → Host K → Result (Unit {0}) × Host K
  finished =
      finish draw (redis_broker R codec prefix) (some (redis_results R results prefix ttl)) registry
        policy c

  abbrev pub processed : Host K → Result (Unit {0}) × Host K
  processed =
      process_one draw (redis_broker R codec prefix) (some (redis_results R results prefix ttl))
        registry policy c

  module _ (laws : Laws R) (structures : Structures R) (reachable : Reachable R) (body : String)
      (j : Job) (s : Host K) (held : Held R codec prefix id token body j s.keyspace) where
    abbrev stored : String → K → K
    stored text u = R.set_ex (prefix ++ ("result:" ++ id)) text (max (ttl / nanos_per_sec) 1) u

    stored-Same :
        (text k : String) (u : K) → prefix ++ ("result:" ++ id) ≢ k → Same R k u (stored text u)
    stored-Same text k u ne =
        structures.set_ex-Only (prefix ++ ("result:" ++ id)) text (max (ttl / nanos_per_sec) 1) u k
          ne

    IsStored-text :
        (o : JobResult) (text : String) (t : K)
        → results.result_from_str text ≡ value o
        → R.get (prefix ++ ("result:" ++ id)) t ≡ some text
        → IsStored R codec results prefix ttl draw policy c o t
    IsStored-text o text t e h = get_read R results prefix ttl laws reachable id o text t h e

    stored-text :
        (text : String) (u : K) → R.get (prefix ++ ("result:" ++ id)) (stored text u) ≡ some text
    stored-text text u =
        let key = prefix ++ ("result:" ++ id) in
        laws.get-set_ex key key text (max (ttl / nanos_per_sec) 1) u
        ∙ if_pos (string_discrete key key) refl (some text) (R.get key u)

    stored-Held : (text : String) → Held R codec prefix id token body j (stored text s.keyspace)
    stored-Held text =
        let (h, e, z) = held in
        (
          (stored-Same text (job_key prefix id) s.keyspace (Apart.result-ne-job prefix id id)).text
              ∙ h,
          e,
          (stored-Same text (lease_key prefix) s.keyspace (Apart.result-ne-lease prefix id)).members
                (lease_member j.queue id token)
              ∙ z,
        )

    finish_success :
        (p : Bytes) (text : String)
        → Reads results (success p) text
        → finished (success p) s ≡ (
          ok tt,
          record s { keyspace = (ack R codec prefix id token (stored text s.keyspace)).1 },
        )
    unfolding finish settle_ack store_result
    finish_success p text (put, e) = ground (
      arith,
      store_lem R results prefix ttl laws reachable id (success p) text s.keyspace put,
      (ack_lem R codec prefix laws structures reachable id token body j (stored text s.keyspace)
          (stored-Held text)).0,
    )

    finish_retry :
        (m : String)
        → ltb c.job.attempts policy.max_attempts ≡ true
        → finished (failure m) s ≡ (
          ok tt,
          record s {
            keyspace = (nack R codec prefix s.now_ms id token (requeue_after delay) s.keyspace).1;
          },
        )
    unfolding finish settle_nack
    finish_retry m e = ground (
      arith,
      e,
      (nack_lem R codec prefix laws structures reachable id token body j s.keyspace held s.now_ms
          delay).0,
    )

    finish_dead :
        (m text : String)
        → Reads results (failure m) text
        → ltb c.job.attempts policy.max_attempts ≡ false
        → finished (failure m) s ≡ (
          ok tt,
          record s { keyspace = stored text (dead_letter R codec prefix id token m s.keyspace).1 },
        )
    unfolding finish finish_terminal settle_dead_letter store_result
    finish_dead m text (put, e) z = ground (
      arith,
      z,
      (dead_letter_lem R codec prefix laws structures reachable id token body j s.keyspace held
          m).0,
      store_lem R results prefix ttl laws reachable id (failure m) text
          (dead_letter R codec prefix id token m s.keyspace).1 put,
    )

    dead-Completes :
        (m text : String)
        → results.result_from_str text ≡ value (failure m)
        → Completes R codec results prefix ttl draw policy c false (failure m) body j s (
          ok tt,
          record s { keyspace = stored text (dead_letter R codec prefix id token m s.keyspace).1 },
        )
    dead-Completes m text e =
        let t = (dead_letter R codec prefix id token m s.keyspace).1 in
        let (r, over, kept, reason, dead) =
          dead_letter_lem R codec prefix laws structures reachable id token body j s.keyspace held
            m in
        let same = stored-Same text in
        (
          refl,
          (same (lease_key prefix) t (Apart.result-ne-lease prefix id)).members
                (lease_member j.queue id token)
              ∙ over,
          (
            (same (job_key prefix id) t (Apart.result-ne-job prefix id id)).text ∙ kept,
            (same (dead_reason_key prefix id) t (Apart.result-ne-job prefix id (reason_id id))).text
                ∙ reason,
            (same (dead_key prefix j.queue) t (Apart.result-ne-dead prefix id j.queue)).items
                ∙ dead,
            IsStored-text (failure m) text (stored text t) e (stored-text text t),
          ),
        )

    finish-Completes :
        (o : JobResult) (text : String)
        → Reads results o text
        → Completes R codec results prefix ttl draw policy c
            (ltb c.job.attempts policy.max_attempts)
            o
            body
            j
            s
            (finished o s)
    finish-Completes (success p) text (put, e) =
        let t = stored text s.keyspace in
        let (r, over, gone, other) =
          ack_lem R codec prefix laws structures reachable id token body j t (stored-Held text) in
        rw (finish_success p text (put, e)) (
          refl,
          over,
          (
            gone,
            IsStored-text (success p) text (ack R codec prefix id token t).1 e
                (other id ∙ stored-text text s.keyspace),
          ),
        )
    finish-Completes (failure m) text (put, e) =
        elim (Bool-cases (ltb c.job.attempts policy.max_attempts)) [
          | inl z ↦
              let (r, over, kept, requeued, same) =
                nack_lem R codec prefix laws structures reachable id token body j s.keyspace held
                  s.now_ms delay in
              rw (finish_retry m z, z) (refl, over, (kept, requeued, same id))
          | inr z ↦ rw (finish_dead m text (put, e) z, z) (dead-Completes m text e)
        ]

  -- On a Redis server that answers, a worker that has a handler for the job's task and still holds
  -- the claim when the handler ends (the body is there and decodes, and the lease set has its
  -- member) completes the job, with results under the same prefix, if the text of the result reads
  -- back as the result: the call ends well, the claim is over, and the outcome shows. A success has
  -- deleted the body, and `get` returns it. A failure with attempts left has the id in front of its
  -- queue, where the delay is zero, or in the range of the delayed set that reaches to the end of
  -- the delay, its milliseconds wrapped at 64 bits, and its result as it was. Any other failure has
  -- the id in front of the dead letters, with its message as the reason, and `get` returns it.
  -- After a failure the body is there.
  pub processed-Completes :
      (laws : Laws R) (structures : Structures R) (reachable : Reachable R)
      (handler : ErasedHandler (Host K)) (s : Host K) (body text : String) (j : Job)
      → Registry.get c.job.task_name registry ≡ ok handler
      → Held R codec prefix id token body j (handler c.job.payload s).1.keyspace
      → Reads results (outcome_of (handler c.job.payload s).0) text
      → Completes R codec results prefix ttl draw policy c
          (ltb c.job.attempts policy.max_attempts)
          (outcome_of (handler c.job.payload s).0)
          body
          j
          (handler c.job.payload s).1
          (processed s)
  unfolding process_one process_found
  processed-Completes laws structures reachable handler s body text j found held reads =
      rw (found, process_found)
        (finish-Completes laws structures reachable body j (handler c.job.payload s).1 held
          (outcome_of (handler c.job.payload s).0) text reads)
