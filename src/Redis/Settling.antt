-- ===== src/Redis/Settling.antt =====
-- What `ack`, `nack` and `dead_letter` by the holder of a claim leave on a Redis server that answers.
use Prim.Native.String.{◌++◌}
use capivara_rs.Prelude.{
  ℕ, ◌+◌, ◌≤◌, String, true, false, none, some, ◌∷◌, ◌≡◌, ◌≢◌, refl, sym, ◌∙◌, ap, ◌⊎◌, inl, inr,
  if_pos, string_discrete, Bool-cases, arith,
}
use mathlib.Core.Path.{subst}
use capivara_rs.Time.{Duration, is_zero}
use capivara_rs.Error.{ok, ◌>>=◌, then_lem}
use capivara_rs.Job.{JobId, ClaimToken, Job, requeue_after}
use capivara_rs.Registry.{value}
use capivara_rs.Redis.{Redis, Codec, call}
use capivara_rs.Redis.Keys.{
  pending_key, dead_key, job_key, dead_reason_key, attempts_key, lease_key, delayed_key,
  lease_member, delayed_member,
}
use capivara_rs.Redis.Scripts.{nack_script, push_requeue}
use capivara_rs.Redis.Claim.{wrap, millis}
use capivara_rs.Redis.Settle.{ack, nack, dead_letter, get_job, settled, requeue_target}
use capivara_rs.Redis.Laws.{Laws, Reachable}
use capivara_rs.Redis.Structures.{Structures, Same, Same-trans, Listed}
use capivara_rs.Redis.Apart
use capivara_rs.Redis.Apart.{reason_id}
use capivara_rs.Redis.Ownership.{call-then, get_job-some, acked, ack_final}
use capivara_rs.Redis.DeadLetters.{dead_lettered, buried-ids, buried-text, buried-reason}

module _ {K : Type 0} (R : Redis K) (codec : Codec) (prefix : String) where
  -- The job's body decodes, and the lease set has the member of its queue, the id and the token.
  abbrev pub Held : JobId → ClaimToken → String → Job → K → Type 0
  Held id token body job s =
      (R.get (job_key prefix id) s ≡ some body)
      × (codec.job_from_str body ≡ value job)
      × ((R.zrem (lease_key prefix) (lease_member job.queue id token) s).0 ≡ true)

  -- The lease set has no such member.
  abbrev pub Over : JobId → ClaimToken → Job → K → Type 0
  Over id token job s = (R.zrem (lease_key prefix) (lease_member job.queue id token) s).0 ≡ false

  -- The job is back in its queue, or among the delayed from the end of the delay on.
  abbrev pub Requeued : ℕ → Duration → JobId → Job → K → K → Type 0
  Requeued now delay id job s t =
      ((delay ≡ 0)
        × (R.lrange (pending_key prefix job.queue) t
            ≡ id ∷ R.lrange (pending_key prefix job.queue) s))
      ⊎ ((max : ℕ)
          → wrap (now + millis delay) ≤ max
          → Listed (delayed_member job.queue id) (R.zrangebyscore (delayed_key prefix) max t))

module _ {K : Type 0} (R : Redis K) (codec : Codec) (prefix : String) (laws : Laws R)
    (structures : Structures R) (reachable : Reachable R) (id : JobId) (token : ClaimToken)
    (body : String) (job : Job) (s : K) (held : Held R codec prefix id token body job s) where
  abbrev member : String
  member = lease_member job.queue id token

  abbrev unleased : K
  unleased = (R.zrem (lease_key prefix) member s).1

  unleased-Over : Over R codec prefix id token job unleased
  unleased-Over =
      structures.has-zrem (lease_key prefix) member member s
      ∙ if_pos (string_discrete member member) refl false (R.zrem (lease_key prefix) member s).0

  unleased-Same : (k : String) → k ≢ lease_key prefix → Same R k s unleased
  unleased-Same k ne = structures.zrem-Only (lease_key prefix) member s k (λ e. ne (sym e))

  abbrev ended : K
  ended = R.del (attempts_key prefix id) (R.del (job_key prefix id) unleased)

  ended-Same :
      (k : String) → attempts_key prefix id ≢ k → job_key prefix id ≢ k → Same R k unleased ended
  ended-Same k na nj =
      Same-trans R k unleased (R.del (job_key prefix id) unleased) ended
        (structures.del-Only (job_key prefix id) unleased k nj)
        (structures.del-Only (attempts_key prefix id) (R.del (job_key prefix id) unleased) k na)

  pub ack_lem :
      let t = (ack R codec prefix id token s).1 in
      ((ack R codec prefix id token s).0 ≡ ok tt)
      × Over R codec prefix id token job t
      × (R.get (job_key prefix id) t ≡ none)
      × ((other : JobId)
          → R.get (prefix ++ ("result:" ++ other)) t ≡ R.get (prefix ++ ("result:" ++ other)) s)
  ack_lem =
      let lease = lease_key prefix in
      let gone =
        ack_final R codec prefix laws reachable id token token body job s held.0 held.1 held.2 in
      let over : Over R codec prefix id token job ended =
        (ended-Same lease (Apart.attempts-ne-lease prefix id)
            (Apart.job-ne-lease prefix id)).members
          member
        ∙ unleased-Over in
      rw (acked R codec prefix laws reachable id token body job s held.0 held.1 held.2) (
        refl,
        over,
        subst (λ r. R.get (job_key prefix id) r.1 ≡ none)
            (acked R codec prefix laws reachable id token body job s held.0 held.1 held.2) gone.1,
        λ other.
            (ended-Same (prefix ++ ("result:" ++ other))
              (λ e. Apart.result-ne-attempts prefix other id (sym e))
              (λ e. Apart.result-ne-job prefix other id (sym e))).text
            ∙ (unleased-Same (prefix ++ ("result:" ++ other))
                (Apart.result-ne-lease prefix other)).text,
      )

  -- No member comes back.
  pub ack-without :
      (m : String)
      → (R.zrem (lease_key prefix) m s).0 ≡ false
      → (R.zrem (lease_key prefix) m (ack R codec prefix id token s).1).0 ≡ false
  ack-without m h =
      let lease = lease_key prefix in
      let there =
        (ended-Same lease (Apart.attempts-ne-lease prefix id)
            (Apart.job-ne-lease prefix id)).members
          m in
      let left = structures.has-zrem lease member m s in
      rw (acked R codec prefix laws reachable id token body job s held.0 held.1 held.2)
        (there ∙ ground (arith, left, h))

  abbrev returned : ℕ → Duration → K
  returned now delay =
      push_requeue R (requeue_target R codec prefix now (requeue_after delay) job id) unleased

  nacked :
      (now : ℕ) (delay : Duration)
      → nack R codec prefix now id token (requeue_after delay) s ≡ (ok tt, returned now delay)
  unfolding nack nack_script
  nacked now delay =
      let script = λ (j : Job).
        nack_script R (lease_key prefix) (job_key prefix id) (lease_member j.queue id token)
          (requeue_target R codec prefix now (requeue_after delay) j id) in
      let (h, e, z) = held in
      let kept : R.get (job_key prefix id) unleased ≡ some body =
        (unleased-Same (job_key prefix id) (Apart.job-ne-lease prefix id)).text ∙ h in
      then_lem (get_job R codec prefix id) (λ j. call R (script j) >>= settled id) job s s
        (get_job-some R codec prefix laws reachable id body job s h e)
      ∙ call-then R codec prefix laws reachable (script job) (settled id) s
      ∙ ground (arith, z, kept)

  returned-Only :
      (now : ℕ) (delay : Duration) (k : String)
      → pending_key prefix job.queue ≢ k
      → delayed_key prefix ≢ k
      → Same R k unleased (returned now delay)
  unfolding requeue_target push_requeue
  returned-Only now delay k np nd = elim (Bool-cases (is_zero delay)) [
    | inl z ↦ rw z (structures.lpush-Only (pending_key prefix job.queue) id unleased k np)
    | inr z ↦ rw z (
        structures.zadd-Only (delayed_key prefix) (wrap (now + millis delay))
          (delayed_member job.queue id) unleased k nd)
  ]

  returned-Requeued :
      (now : ℕ) (delay : Duration) → Requeued R codec prefix now delay id job s (returned now delay)
  unfolding requeue_target push_requeue
  returned-Requeued now delay = elim (Bool-cases (is_zero delay)) [
    | inl z ↦ rw z (
        inl (
          ground (arith, z),
          structures.lrange-lpush (pending_key prefix job.queue) id unleased
              ∙ ap (λ l. id ∷ l)
                  (unleased-Same (pending_key prefix job.queue)
                    (Apart.pending-ne-lease prefix job.queue)).items,
        ))
    | inr z ↦ rw z (
        inr (λ max h.
          structures.zrangebyscore-zadd (delayed_key prefix) (wrap (now + millis delay)) max
            (delayed_member job.queue id) unleased h))
  ]

  pub nack_lem :
      (now : ℕ) (delay : Duration)
      → let t = (nack R codec prefix now id token (requeue_after delay) s).1 in
        ((nack R codec prefix now id token (requeue_after delay) s).0 ≡ ok tt)
        × Over R codec prefix id token job t
        × (R.get (job_key prefix id) t ≡ some body)
        × Requeued R codec prefix now delay id job s t
        × ((other : JobId)
            → R.get (prefix ++ ("result:" ++ other)) t ≡ R.get (prefix ++ ("result:" ++ other)) s)
  nack_lem now delay =
      let lease = lease_key prefix in
      let key = job_key prefix id in
      let over : Over R codec prefix id token job (returned now delay) =
        (returned-Only now delay lease (Apart.pending-ne-lease prefix job.queue)
            (λ e. Apart.lease-ne-delayed prefix (sym e))).members
          member
        ∙ unleased-Over in
      rw (nacked now delay) (
        refl,
        over,
        (returned-Only now delay key (Apart.pending-ne-job prefix job.queue id)
              (λ e. Apart.job-ne-delayed prefix id (sym e))).text
            ∙ (unleased-Same key (Apart.job-ne-lease prefix id)).text
            ∙ held.0,
        returned-Requeued now delay,
        λ other.
            (returned-Only now delay (prefix ++ ("result:" ++ other))
              (λ e. Apart.result-ne-pending prefix other job.queue (sym e))
              (λ e. Apart.result-ne-delayed prefix other (sym e))).text
            ∙ (unleased-Same (prefix ++ ("result:" ++ other))
                (Apart.result-ne-lease prefix other)).text,
      )

  pub dead_letter_lem :
      (reason : String)
      → let t = (dead_letter R codec prefix id token reason s).1 in
        ((dead_letter R codec prefix id token reason s).0 ≡ ok tt)
        × Over R codec prefix id token job t
        × (R.get (job_key prefix id) t ≡ some body)
        × (R.get (dead_reason_key prefix id) t ≡ some reason)
        × (R.lrange (dead_key prefix job.queue) t ≡ id ∷ R.lrange (dead_key prefix job.queue) s)
  dead_letter_lem reason =
      let lease = lease_key prefix in
      let listed = R.lpush (dead_key prefix job.queue) id unleased in
      let reasoned = R.set (dead_reason_key prefix id) reason listed in
      let over : Over R codec prefix id token job (R.del (attempts_key prefix id) reasoned) =
        (structures.del-Only (attempts_key prefix id) reasoned lease
            (Apart.attempts-ne-lease prefix id)).members
          member
        ∙ (structures.set-Only (dead_reason_key prefix id) reason listed lease
              (Apart.job-ne-lease prefix (reason_id id))).members
            member
        ∙ (structures.lpush-Only (dead_key prefix job.queue) id unleased lease
              (Apart.dead-ne-lease prefix job.queue)).members
            member
        ∙ unleased-Over in
      rw (dead_lettered R codec prefix laws structures reachable id token reason body job s held) (
        refl,
        over,
        buried-text R codec prefix laws structures reachable id token reason body job s id
              (Apart.reason-ne-own prefix id)
            ∙ held.0,
        buried-reason R codec prefix laws structures reachable id token reason body job s,
        buried-ids R codec prefix laws structures reachable id token reason body job s,
      )
