-- ===== src/Redis/Sending.antt =====
-- From `enqueue` to `ack` on a Redis server that answers.
use capivara_rs.Prelude.{
  ℕ, String, true, none, some, [], ◌∷◌, ◌≡◌, refl, sym, ◌∙◌, ap, if_pos, string_discrete,
}
use mathlib.Core.Path.{subst}
use capivara_rs.Time.{Duration}
use capivara_rs.Error.{ok, pure}
use capivara_rs.Job.{JobId, ClaimToken, Job}
use capivara_rs.Registry.{value}
use capivara_rs.Redis.{Redis, Codec}
use capivara_rs.Redis.Keys.{pending_key, job_key, attempts_key, lease_key, lease_member}
use capivara_rs.Redis.Claim.{enqueue, push_job, push_body, try_claim_one}
use capivara_rs.Redis.Settle.{ack}
use capivara_rs.Redis.Laws.{Laws, Reachable}
use capivara_rs.Redis.Structures.{Structures}
use capivara_rs.Redis.Apart
use capivara_rs.Redis.Popping.{attempted}
use capivara_rs.Redis.Delivery.{body-Delivered, Delivered, written}
use capivara_rs.Redis.Ownership.{call-then, acked, ack_final}

-- The job is written as a text that reads back as the job.
abbrev Reads : Codec → Job → Type 0
Reads codec job =
    (text : String) × (codec.job_to_string job ≡ value text) × (codec.job_from_str text ≡ value job)

module _ {K : Type 0} (R : Redis K) (codec : Codec) (prefix : String) (laws : Laws R)
    (structures : Structures R) (reachable : Reachable R) where
  abbrev pub pushed : Job → String → K → K
  pushed job body s =
      R.lpush (pending_key prefix job.queue) job.id (R.set (job_key prefix job.id) body s)

  pub enqueue_plain :
      (job : Job) (body : String) (s : K)
      → job.idempotency_key ≡ none
      → codec.job_to_string job ≡ value body
      → enqueue R codec prefix job s ≡ (ok job.id, pushed job body s)
  unfolding enqueue push_job push_body
  enqueue_plain job body s e c =
      ap (λ r. push_job R codec prefix job r s) c
      ∙ ap (λ o. push_body R codec prefix job body o s) e
      ∙ call-then R codec prefix laws reachable (λ t. (tt {0}, pushed job body t))
          (λ _. pure job.id) s

  pub pushed-queue :
      (job : Job) (body : String) (s : K)
      → R.lrange (pending_key prefix job.queue) (pushed job body s)
        ≡ job.id ∷ R.lrange (pending_key prefix job.queue) s
  pushed-queue job body s =
      structures.lrange-lpush (pending_key prefix job.queue) job.id
        (R.set (job_key prefix job.id) body s)
      ∙ ap (λ l. job.id ∷ l)
          (structures.set-Only (job_key prefix job.id) body s (pending_key prefix job.queue)
            (λ e. Apart.pending-ne-job prefix job.queue job.id (sym e))).items

  pub pushed-body :
      (job : Job) (body : String) (s : K)
      → R.get (job_key prefix job.id) (pushed job body s) ≡ some body
  pushed-body job body s =
      laws.get-lpush (pending_key prefix job.queue) (job_key prefix job.id) job.id
        (R.set (job_key prefix job.id) body s) (Apart.pending-ne-job prefix job.queue job.id)
      ∙ laws.get-set (job_key prefix job.id) (job_key prefix job.id) body s
      ∙ if_pos (string_discrete (job_key prefix job.id) (job_key prefix job.id)) refl (some body)
          (R.get (job_key prefix job.id) s)

  -- The list of the queue after an `ack`.
  acked-queue :
      (id : JobId) (token : ClaimToken) (body : String) (job : Job) (q : String) (s : K)
      → R.get (job_key prefix id) s ≡ some body
      → codec.job_from_str body ≡ value job
      → (R.zrem (lease_key prefix) (lease_member job.queue id token) s).0 ≡ true
      → R.lrange (pending_key prefix q) (ack R codec prefix id token s).1
        ≡ R.lrange (pending_key prefix q) s
  acked-queue id token body job q s h e z =
      let u = (R.zrem (lease_key prefix) (lease_member job.queue id token) s).1 in
      rw (acked R codec prefix laws reachable id token body job s h e z) (
        (structures.del-Only (attempts_key prefix id) (R.del (job_key prefix id) u)
          (pending_key prefix q) (Apart.attempts-ne-pending prefix id q)).items
        ∙ (structures.del-Only (job_key prefix id) u (pending_key prefix q)
            (λ p. Apart.pending-ne-job prefix q id (sym p))).items
        ∙ (structures.zrem-Only (lease_key prefix) (lease_member job.queue id token) s
            (pending_key prefix q) (λ p. Apart.pending-ne-lease prefix q (sym p))).items)

  -- On a Redis server that answers, for a job without an idempotency key whose text reads back as
  -- the job, before and after the attempts are counted, and whose queue is empty: `enqueue` returns
  -- its id, `try_claim_one` then returns the job with its attempts, an `ack` with the token of this
  -- claim succeeds, and after it the job has no body and the queue is empty again.
  pub sent_claimed_acked :
      (job : Job) (lease : Duration) (now : ℕ) (token : ClaimToken) (s : K)
      → Reads codec job
      → Reads codec (attempted R prefix job.id job job.queue (enqueue R codec prefix job s).1)
      → job.idempotency_key ≡ none
      → R.lrange (pending_key prefix job.queue) s ≡ []
      → let t = (enqueue R codec prefix job s).1 in
        let u = (try_claim_one R codec prefix job.queue lease now token t).1 in
        let v = (ack R codec prefix job.id token u).1 in
        ((enqueue R codec prefix job s).0 ≡ ok job.id)
        × ((try_claim_one R codec prefix job.queue lease now token t).0
            ≡ ok (
                some (record {
                  job = attempted R prefix job.id job job.queue t;
                  claim_token = token;
                })))
        × ((ack R codec prefix job.id token u).0 ≡ ok tt)
        × (R.get (job_key prefix job.id) v ≡ none)
        × (R.lrange (pending_key prefix job.queue) v ≡ [])
  sent_claimed_acked job lease now token s (body, put, read) again plain empty =
      let t = pushed job body s in
      let sent = enqueue_plain job body s plain put in
      let d : Delivered R codec prefix job.queue [] job.id job token t
          (try_claim_one R codec prefix job.queue lease now token t) =
        body-Delivered R codec prefix laws structures reachable job.queue [] lease now token job.id
          job body t (pushed-queue job body s ∙ ap (λ l. job.id ∷ l) empty) (pushed-body job body s)
          read in
      let claimed = attempted R prefix job.id job job.queue t in
      let (text, rewritten, reread) : Reads codec claimed =
        subst (λ r. Reads codec (attempted R prefix job.id job job.queue r.1)) sent again in
      let u = (try_claim_one R codec prefix job.queue lease now token t).1 in
      let there = d.mirrored ∙ ap (λ r. written r (R.get (job_key prefix job.id) t)) rewritten in
      let final =
        ack_final R codec prefix laws reachable job.id token token text claimed u there reread
          d.held in
      rw sent (
        refl,
        d.result,
        final.0,
        final.1,
        acked-queue job.id token text claimed job.queue u there reread d.held ∙ d.queue,
      )
