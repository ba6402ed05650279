-- ===== src/Redis/Keeps/Own.antt =====
-- `nack` and `dead_letter` on a Redis server that answers leave their own job somewhere.
use capivara_rs.Prelude.{
  ℕ, ◌+◌, String, Bool, true, false, some, ◌≡◌, ◌≢◌, refl, sym, ◌∙◌, ap, inl, inr, if◌then◌else◌,
  if_pos, string_discrete, Bool-cases, arith,
}
use mathlib.Core.Path.{subst}
use capivara_rs.Time.{is_zero}
use capivara_rs.Job.{JobId, ClaimToken, Job, NackAction, requeue_after}
use capivara_rs.Registry.{value}
use capivara_rs.Redis.{Redis, Codec}
use capivara_rs.Redis.Keys.{
  pending_key, dead_key, job_key, dead_reason_key, attempts_key, lease_key, delayed_key,
  lease_member, delayed_member,
}
use capivara_rs.Redis.Scripts.{nack_script, dead_letter_script, push_requeue, with_body}
use capivara_rs.Redis.Claim.{wrap, millis}
use capivara_rs.Redis.Settle.{nack, dead_letter, requeue_target}
use capivara_rs.Redis.Laws.{Laws, Reachable}
use capivara_rs.Redis.Structures.{Structures}
use capivara_rs.Redis.Apart
use capivara_rs.Redis.Apart.{reason_id}
use capivara_rs.Redis.Keeps.{Somewhere, Keeps, Keeps-trans, Somewhere-Keeps}
use capivara_rs.Redis.Keeps.Writes.{
  set_job-Keeps, del_attempts-Keeps, push_pending-Keeps, push_dead-Keeps, delay-Keeps,
}
use capivara_rs.Redis.Keeps.Settling.{settled_then}

module _ {K : Type 0} (R : Redis K) (codec : Codec) (prefix : String) (laws : Laws R)
    (structures : Structures R) (reachable : Reachable R) where
  by_removal :
      (P : K → Type 0) (b : Bool) (x y : Bool × K)
      → (b ≡ true → P x.1)
      → (b ≡ false → P y.1)
      → P (if b then x else y).1
  by_removal P true x y f g = f refl
  by_removal P false x y f g = g refl

  module _ (q : String) (id : JobId) (t : ClaimToken) (s : K) (first : String) (own : Job)
      (there : R.get (job_key prefix id) s ≡ some first)
      (read : codec.job_from_str first ≡ value own) (queue : own.queue ≡ q)
      (somewhere : Somewhere R prefix q id s) where
    -- The body is as in `s`, and the job is somewhere.
    abbrev Stays : K → Type 0
    Stays u =
        (R.get (job_key prefix id) u ≡ R.get (job_key prefix id) s) × Somewhere R prefix q id u

    same_queue :
        (j : Job) (body : String)
        → R.get (job_key prefix id) s ≡ some body
        → codec.job_from_str body ≡ value j
        → j.queue ≡ q
    same_queue j body h e = ground (arith, there, read, queue, h, e)

    abbrev unleased : Job → K
    unleased j = (R.zrem (lease_key prefix) (lease_member j.queue id t) s).1

    unleased-body : (j : Job) → R.get (job_key prefix id) (unleased j) ≡ R.get (job_key prefix id) s
    unleased-body j =
        (structures.zrem-Only (lease_key prefix) (lease_member j.queue id t) s (job_key prefix id)
          (λ e. Apart.job-ne-lease prefix id (sym e))).text

    Stays-Keeps : (u v : K) → Keeps R prefix q id u v → Stays u → Stays v
    Stays-Keeps u v k (b, w) = (k.body ∙ b, Somewhere-Keeps R prefix q id u v k w)

    requeued-Stays :
        (now : ℕ) (a : NackAction) (j : Job) (u : K)
        → j.queue ≡ q
        → R.get (job_key prefix id) u ≡ R.get (job_key prefix id) s
        → Stays (push_requeue R (requeue_target R codec prefix now a j id) u)
    unfolding push_requeue requeue_target
    requeued-Stays now (requeue_after delay) j u e b = elim (Bool-cases (is_zero delay)) [
      | inl z ↦
          rw (z, e)
            (
              (push_pending-Keeps R prefix q id structures q id u).body ∙ b,
              inl (rw (structures.lrange-lpush (pending_key prefix q) id u) (inl refl)),
            )
      | inr z ↦
          let score = wrap (now + millis delay) in
          let m = delayed_member q id in
          rw (z, e)
            (
              (delay-Keeps R prefix q id structures m score u).body ∙ b,
              inr (
                  inr (
                    inl (
                      structures.has-zadd (delayed_key prefix) score m m u
                      ∙ if_pos (string_discrete m m) refl true
                          (R.zrem (delayed_key prefix) m u).0))),
            )
    ]

    pub nack-Stays : (now : ℕ) (a : NackAction) → Stays (nack R codec prefix now id t a s).1
    unfolding nack nack_script with_body
    nack-Stays now a =
        settled_then R codec prefix laws structures reachable Stays id
          (λ j.
            nack_script R (lease_key prefix) (job_key prefix id) (lease_member j.queue id t)
              (requeue_target R codec prefix now a j id))
          s (refl, somewhere)
          (λ j body h e.
            by_removal Stays (R.zrem (lease_key prefix) (lease_member j.queue id t) s).0
              (with_body R (push_requeue R (requeue_target R codec prefix now a j id))
                (R.get (job_key prefix id) (unleased j)) (unleased j))
              (false, unleased j)
              (λ z.
                rw (unleased-body j ∙ h)
                  (requeued-Stays now a j (unleased j) (same_queue j body h e) (unleased-body j)))
              (λ z.
                subst Stays
                  (sym (laws.zrem_absent (lease_key prefix) (lease_member j.queue id t) s z))
                  (refl, somewhere)))

    abbrev buried : String → Job → K → K
    buried reason j u =
        R.del (attempts_key prefix id)
          (R.set (dead_reason_key prefix id) reason (R.lpush (dead_key prefix j.queue) id u))

    buried-Stays :
        (reason : String) (j : Job) (u : K)
        → j.queue ≡ q
        → R.get (job_key prefix id) u ≡ R.get (job_key prefix id) s
        → reason_id id ≢ id
        → Stays (buried reason j u)
    buried-Stays reason j u e b other =
        let v = R.lpush (dead_key prefix q) id u in
        let w = R.set (dead_reason_key prefix id) reason v in
        rw e (
          Stays-Keeps v (R.del (attempts_key prefix id) w)
            (Keeps-trans R prefix q id v w (R.del (attempts_key prefix id) w)
              (set_job-Keeps R prefix q id structures (reason_id id) reason v other)
              (del_attempts-Keeps R prefix q id structures id w))
            (
              (push_dead-Keeps R prefix q id structures q id u).body ∙ b,
              inr (inr (inr (rw (structures.lrange-lpush (dead_key prefix q) id u) (inl refl)))),
            ))

    pub dead_letter-Stays : (reason : String) → Stays (dead_letter R codec prefix id t reason s).1
    unfolding dead_letter dead_letter_script with_body
    dead_letter-Stays reason =
        settled_then R codec prefix laws structures reachable Stays id
          (λ j.
            dead_letter_script R (lease_key prefix) (dead_key prefix j.queue) (job_key prefix id)
              (lease_member j.queue id t) id (dead_reason_key prefix id) reason
              (attempts_key prefix id))
          s (refl, somewhere)
          (λ j body h e.
            by_removal Stays (R.zrem (lease_key prefix) (lease_member j.queue id t) s).0
              (with_body R (buried reason j) (R.get (job_key prefix id) (unleased j)) (unleased j))
              (false, unleased j)
              (λ z. rw (unleased-body j ∙ h) (
                buried-Stays reason j (unleased j) (same_queue j body h e) (unleased-body j)
                  (λ p. Apart.reason-ne-own prefix id (ap (job_key prefix) p))))
              (λ z.
                subst Stays
                  (sym (laws.zrem_absent (lease_key prefix) (lease_member j.queue id t) s z))
                  (refl, somewhere)))
