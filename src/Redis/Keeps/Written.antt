-- ===== src/Redis/Keeps/Written.antt =====
-- The bodies that `enqueue` and the claims write are read as jobs of their own ids, on a Redis server
-- that answers.
use capivara_rs.Prelude.{
  ℕ, ◌+◌, String, Bool, true, false, Option, none, some, List, ◌≡◌, refl, sym, ◌∙◌, ap,
  trim_is_empty, arith,
}
use mathlib.Core.Path.{subst}
use capivara_rs.Time.{Duration}
use capivara_rs.Error.{Result, pure}
use capivara_rs.Job.{JobId, QueueName, ClaimToken, Job, ClaimedJob}
use capivara_rs.Registry.{Serde, value, malformed}
use capivara_rs.Redis.{Redis, Codec}
use capivara_rs.Redis.Keys.{
  pending_key, job_key, attempts_key, idempotency_key, lease_key, lease_member,
}
use capivara_rs.Redis.Scripts.{enqueue_idempotent_script}
use capivara_rs.Redis.Claim.{
  wrap, millis, mirror, enqueue, push_job, push_body, push_keyed, returned_id, try_claim_one,
  recover_expired_leases, promote_delayed,
}
use capivara_rs.Redis.Laws.{Laws, Reachable}
use capivara_rs.Redis.Structures.{Structures}
use capivara_rs.Redis.Apart
use capivara_rs.Redis.Members.{NoSep}
use capivara_rs.Redis.Ownership.{call-then}
use capivara_rs.Redis.Producer.{script_known, script_new}
use capivara_rs.Redis.Popping.{
  Next, popped, leased, attempted, body_claimed, body_malformed, orphan_dropped, nothing_waits,
}
use capivara_rs.Redis.Delivery.{last_of, Parts, last_of-Parts}
use capivara_rs.Redis.Redelivery.{recover-Brings, promote-Brings}
use capivara_rs.Redis.Keeps.Safe.{IsFaithful}
use capivara_rs.Redis.Keeps.Enqueuing.{returned_id-state}
use capivara_rs.Redis.Keeps.Bodies.{
  IsOwn, IsSound, IsSound-texts, Only-IsSound, set_body-IsSound, del_body-IsSound, pushed-Sound,
}

module _ {K : Type 0} (R : Redis K) (codec : Codec) (prefix : String) (laws : Laws R)
    (structures : Structures R) (reachable : Reachable R) (faithful : IsFaithful codec) where
  abbrev Sound : K → Type 0
  Sound = IsSound R codec prefix

  same_value : {j k : Job} → value j ≡ value k → j ≡ k
  same_value e = ground (arith, e)

  -- What is written for a job is read as nothing else.
  read_back :
      (j k : Job) (text : String)
      → codec.job_to_string j ≡ value text
      → codec.job_from_str text ≡ value k
      → IsOwn R codec prefix j.id j
      → IsOwn R codec prefix j.id k
  read_back j k text w d own =
      let same : j ≡ k = same_value (sym (faithful j text w) ∙ d) in
      subst (λ x. IsOwn R codec prefix j.id x) same own

  module _ (job : Job) (hq : NoSep job.queue) (hid : NoSep job.id) where
    put-Sound :
        (body : String) (s : K)
        → codec.job_to_string job ≡ value body
        → Sound s
        → Sound (R.set (job_key prefix job.id) body s)
    put-Sound body s w =
        set_body-IsSound R codec prefix structures laws job.id body s
          (λ k d. read_back job k body w d (refl, hq, hid))

    script-Sound :
        (key body : String) (s : K) (o : Option String)
        → codec.job_to_string job ≡ value body
        → R.get (idempotency_key prefix key) s ≡ o
        → Sound s
        → Sound
            (enqueue_idempotent_script R
              (idempotency_key prefix key)
              (job_key prefix job.id)
              (pending_key prefix job.queue)
              job.id
              body
              s).1
    script-Sound key body s none w e sound =
        let t = R.set (job_key prefix job.id) body s in
        let idem = idempotency_key prefix key in
        rw (script_new R codec prefix laws reachable job key body s e) (
          pushed-Sound R codec prefix laws structures reachable job.queue job.id
            (R.set idem job.id t)
            (Only-IsSound R codec prefix idem t (R.set idem job.id t)
              (λ i p. Apart.job-ne-idempotency prefix i key (sym p))
              (structures.set-Only idem job.id t) (put-Sound body s w sound)))
    script-Sound key body s (some known) w e sound =
        rw (script_known R codec prefix laws reachable job key body known s e) (
          del_body-IsSound R codec prefix structures laws job.id
            (R.set (job_key prefix job.id) body s) (put-Sound body s w sound))

    keyed-Sound :
        (body key : String) (blank : Bool) (s : K)
        → codec.job_to_string job ≡ value body
        → Sound s
        → Sound (push_keyed R codec prefix job body key blank s).1
    unfolding push_keyed
    keyed-Sound body key true s w sound = sound
    keyed-Sound body key false s w sound =
        let script =
          enqueue_idempotent_script R (idempotency_key prefix key) (job_key prefix job.id)
            (pending_key prefix job.queue) job.id body in
        subst Sound
          (sym (
            ap (λ r. r.1)
              (call-then R codec prefix laws reachable script (returned_id R codec prefix) s)
            ∙ returned_id-state R codec prefix (script s).0 (script s).1))
          (script-Sound key body s (R.get (idempotency_key prefix key) s) w refl sound)

    body-Sound :
        (body : String) (o : Option String) (s : K)
        → codec.job_to_string job ≡ value body
        → Sound s
        → Sound (push_body R codec prefix job body o s).1
    unfolding push_body
    body-Sound body (some key) s w sound = keyed-Sound body key (trim_is_empty key) s w sound
    body-Sound body none s w sound =
        let put : K → K = R.set (job_key prefix job.id) body in
        let push : K → Unit {0} × K =
          λ u. (tt {0}, R.lpush (pending_key prefix job.queue) job.id (put u)) in
        subst Sound
          (sym (ap (λ r. r.1) (call-then R codec prefix laws reachable push (λ _. pure job.id) s)))
          (pushed-Sound R codec prefix laws structures reachable job.queue job.id (put s)
            (put-Sound body s w sound))

    job-Sound :
        (r : Serde String) (s : K)
        → codec.job_to_string job ≡ r
        → Sound s
        → Sound (push_job R codec prefix job r s).1
    unfolding push_job
    job-Sound (malformed e) s w sound = sound
    job-Sound (value body) s w sound = body-Sound body job.idempotency_key s w sound

    pub enqueue-Sound : (s : K) → Sound s → Sound (enqueue R codec prefix job s).1
    unfolding enqueue
    enqueue-Sound s sound = job-Sound (codec.job_to_string job) s refl sound

  mirrored-Sound :
      (j : Job) (r : Serde String) (u : K)
      → codec.job_to_string j ≡ r
      → IsOwn R codec prefix j.id j
      → Sound u
      → Sound (mirror R codec prefix j r u)
  unfolding mirror
  mirrored-Sound j (malformed e) u w own sound = sound
  mirrored-Sound j (value text) u w own sound =
      subst Sound
        (sym (ap (λ r. r.1) (reachable.runs (λ t. (tt {0}, R.set (job_key prefix j.id) text t)) u)))
        (set_body-IsSound R codec prefix structures laws j.id text u
          (λ k d. read_back j k text w d own) sound)

  module _ (k : QueueName) (lease : Duration) (now : ℕ) (token : ClaimToken) (s : K)
      (sound : Sound s) where
    abbrev claimed : K
    claimed = (try_claim_one R codec prefix k lease now token s).1

    popped-Sound : Sound (popped R prefix k s)
    popped-Sound =
        Only-IsSound R codec prefix (pending_key prefix k) s (popped R prefix k s)
          (Apart.pending-ne-job prefix k) (structures.rpop-Only (pending_key prefix k) s) sound

    leased-Sound : (i : JobId) → Sound (leased R prefix k lease now token i s)
    leased-Sound i =
        let t = popped R prefix k s in
        let u = (R.incr (attempts_key prefix i) t).1 in
        let member = lease_member k i token in
        Only-IsSound R codec prefix (lease_key prefix) u (leased R prefix k lease now token i s)
          (λ x e. Apart.job-ne-lease prefix x (sym e))
          (structures.zadd-Only (lease_key prefix) (wrap (now + millis lease)) member u)
          (Only-IsSound R codec prefix (attempts_key prefix i) t u (Apart.attempts-ne-job prefix i)
            (structures.incr-Only (attempts_key prefix i) t) popped-Sound)

    ends :
        (r : Result (Option ClaimedJob) × K)
        → try_claim_one R codec prefix k lease now token s ≡ r
        → Sound r.1
        → Sound claimed
    ends r e sound_after = subst (λ x. Sound x.1) (sym e) sound_after

    claimed_body-Sound :
        (xs : List String) (i : JobId) (body : String) (r : Serde Job)
        → Next R prefix k xs i s
        → R.get (job_key prefix i) s ≡ some body
        → codec.job_from_str body ≡ r
        → Sound claimed
    claimed_body-Sound xs i body (value j) h b d =
        let j' = attempted R prefix i j k s in
        let (same, hq, hi) = sound i body j b d in
        ends _
          (body_claimed R codec prefix laws structures reachable k xs lease now token i j body s h b
            d)
          (mirrored-Sound j' (codec.job_to_string j') (leased R prefix k lease now token i s) refl
            (refl, hq, subst NoSep (sym same) hi) (leased-Sound i))
    claimed_body-Sound xs i body (malformed message) h b d =
        ends _
          (body_malformed R codec prefix laws structures reachable k xs lease now token i body
            message s h b d)
          (leased-Sound i)

    claimed_id-Sound :
        (xs : List String) (i : JobId) (o : Option String)
        → Next R prefix k xs i s
        → R.get (job_key prefix i) s ≡ o
        → Sound claimed
    claimed_id-Sound xs i none h b =
        ends _
          (orphan_dropped R codec prefix laws structures reachable k xs lease now token i s h b)
          popped-Sound
    claimed_id-Sound xs i (some body) h b =
        claimed_body-Sound xs i body (codec.job_from_str body) h b refl

    claimed_last-Sound :
        (o : Option (List String × JobId))
        → Parts (R.lrange (pending_key prefix k) s) o
        → Sound claimed
    claimed_last-Sound none e =
        ends _ (nothing_waits R codec prefix laws structures reachable k lease now token s e) sound
    claimed_last-Sound (some (xs, i)) e = claimed_id-Sound xs i (R.get (job_key prefix i) s) e refl

    pub claimed-Sound : Sound claimed
    claimed-Sound =
        claimed_last-Sound (last_of (R.lrange (pending_key prefix k) s))
          (last_of-Parts (R.lrange (pending_key prefix k) s))

  pub recovered-Sound :
      (now : ℕ) (s : K) → Sound s → Sound (recover_expired_leases R codec prefix now s).1
  recovered-Sound now s =
      let (e, back) = recover-Brings R codec prefix laws structures reachable now s in
      IsSound-texts R codec prefix s (recover_expired_leases R codec prefix now s).1 (λ i.
        (back.others (job_key prefix i) (λ p. Apart.job-ne-lease prefix i (sym p))
          (λ k. Apart.pending-ne-job prefix k i) (λ a. Apart.attempts-ne-job prefix a i)).text)

  pub promoted-Sound : (now : ℕ) (s : K) → Sound s → Sound (promote_delayed R codec prefix now s).1
  promoted-Sound now s =
      let (e, back) = promote-Brings R codec prefix laws structures reachable now s in
      IsSound-texts R codec prefix s (promote_delayed R codec prefix now s).1 (λ i.
        (back.others (job_key prefix i) (λ p. Apart.job-ne-delayed prefix i (sym p))
          (λ k. Apart.pending-ne-job prefix k i) (λ a. Apart.attempts-ne-job prefix a i)).text)
