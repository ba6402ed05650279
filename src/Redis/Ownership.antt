-- ===== src/Redis/Ownership.antt =====
-- Only the lease member of the running claim settles a job on Redis.
use capivara_rs.Prelude.{
  true, ℕ, String, Bool, false, none, some, ◌≡◌, refl, ◌∙◌, ap, ◌⊎◌, inl, inr, arith,
}
use capivara_rs.Error.{job_not_found, ok, err, Exec, serialize, continue, ◌>>=◌, then_lem}
use capivara_rs.Job.{JobId, ClaimToken, NackAction, Job}
use capivara_rs.Registry.{value}
use capivara_rs.Redis.{Redis, Codec, call, or_err}
use capivara_rs.Redis.Keys.{attempts_key, job_key, lease_key, lease_member}
use capivara_rs.Redis.Scripts.{ack_script, nack_script, dead_letter_script}
use capivara_rs.Redis.Settle.{settled, decoded, get_job, ack, nack, dead_letter}
use capivara_rs.Redis.Laws.{Laws, Reachable}

module _ {K : Type 0} (R : Redis K) (codec : Codec) (prefix : String) (laws : Laws R)
    (reachable : Reachable R) where
  call_lem : {A : Type 0} (f : K → A × K) (s : K) → call R f s ≡ (ok (f s).0, (f s).1)
  unfolding call
  call_lem f s = rw (reachable.runs f s) refl

  pub call-then :
      {A B : Type 0} (f : K → A × K) (g : A → Exec K B) (s : K)
      → (call R f >>= g) s ≡ g (f s).0 (f s).1
  call-then f g s = then_lem (call R f) g (f s).0 s (f s).1 (call_lem f s)

  get_job-none :
      (id : JobId) (s : K)
      → R.get (job_key prefix id) s ≡ none
      → get_job R codec prefix id s ≡ (err (job_not_found id), s)
  unfolding get_job
  get_job-none id s h =
      call-then (λ t. (R.get (job_key prefix id) t, t)) (decoded R codec prefix id) s
      ∙ ap (λ o. decoded R codec prefix id o s) h

  pub get_job-some :
      (id : JobId) (body : String) (job : Job) (s : K)
      → R.get (job_key prefix id) s ≡ some body
      → codec.job_from_str body ≡ value job
      → get_job R codec prefix id s ≡ (ok job, s)
  unfolding get_job
  get_job-some id body job s h e =
      call-then (λ t. (R.get (job_key prefix id) t, t)) (decoded R codec prefix id) s
      ∙ ap (λ o. decoded R codec prefix id o s) h
      ∙ ap (λ r. (or_err serialize r, s)) e

  -- A settlement that reads the job and then runs a script that removes nothing.
  unowned :
      (id : JobId) (script : Job → K → Bool × K) (job : Job) (s : K)
      → get_job R codec prefix id s ≡ (ok job, s)
      → script job s ≡ (false, s)
      → (get_job R codec prefix id >>= (λ j. call R (script j) >>= settled id)) s
        ≡ (err (job_not_found id), s)
  unowned id script job s g z =
      then_lem (get_job R codec prefix id) (λ j. call R (script j) >>= settled id) job s s g
      ∙ call-then (script job) (settled id) s
      ∙ ap (λ r. settled id r.0 r.1) z

  bodiless :
      (id : JobId) (g : Job → Exec K (Unit {0})) (s : K)
      → R.get (job_key prefix id) s ≡ none
      → (get_job R codec prefix id >>= g) s ≡ (err (job_not_found id), s)
  bodiless id g s h = ap (λ r. continue r.0 g r.1) (get_job-none id s h)

  -- The token has no claim of the job: its body is gone, or the lease set has no such member.
  abbrev Unclaimed : JobId → ClaimToken → K → Type 0
  Unclaimed id token s =
      (R.get (job_key prefix id) s ≡ none)
      ⊎ ((job : Job) × (body : String) × (R.get (job_key prefix id) s ≡ some body)
          × (codec.job_from_str body ≡ value job)
          × ((R.zrem (lease_key prefix) (lease_member job.queue id token) s).0 ≡ false))

  -- On a Redis server that answers, with a token that has no claim of the job (its body is gone, or
  -- the lease set has no member of the body's queue, the id and the token), `ack`, `nack` and
  -- `dead_letter` all fail with `JobNotFound` of the id and leave the keyspace as it was.
  pub settle-Unclaimed :
      (id : JobId) (token : ClaimToken) (s : K)
      → Unclaimed id token s
      → (ack R codec prefix id token s ≡ (err (job_not_found id), s))
        × ((now : ℕ) (a : NackAction)
            → nack R codec prefix now id token a s ≡ (err (job_not_found id), s))
        × ((reason : String)
            → dead_letter R codec prefix id token reason s ≡ (err (job_not_found id), s))
  unfolding ack nack dead_letter
  settle-Unclaimed id token s (inl h) =
      (bodiless id _ s h, λ now a. bodiless id _ s h, λ reason. bodiless id _ s h)
  settle-Unclaimed id token s (inr (job, body, h, e, z)) =
      let g = get_job-some id body job s h e in
      let still = laws.zrem_absent (lease_key prefix) (lease_member job.queue id token) s z in
      (
        unowned id _ job s g (unfold ack_script in ground (arith, z, still)),
        λ now a. unowned id _ job s g (unfold nack_script in ground (arith, z, still)),
        λ reason. unowned id _ job s g (unfold dead_letter_script in ground (arith, z, still)),
      )

  pub acked :
      (id : JobId) (token : ClaimToken) (body : String) (job : Job) (s : K)
      → R.get (job_key prefix id) s ≡ some body
      → codec.job_from_str body ≡ value job
      → (R.zrem (lease_key prefix) (lease_member job.queue id token) s).0 ≡ true
      → ack R codec prefix id token s ≡ (
        ok tt,
        R.del (attempts_key prefix id) (
            R.del
              (job_key prefix id)
              (R.zrem (lease_key prefix) (lease_member job.queue id token) s).1),
      )
  unfolding ack ack_script
  acked id token body job s h e z =
      let script = λ (j : Job).
        ack_script R (lease_key prefix) (job_key prefix id) (lease_member j.queue id token)
          (attempts_key prefix id) in
      then_lem (get_job R codec prefix id) (λ j. call R (script j) >>= settled id) job s s
        (get_job-some id body job s h e)
      ∙ call-then (script job) (settled id) s
      ∙ ground (arith, z)

  -- On a Redis server that answers, where the job's body decodes and the lease set has the member
  -- of its queue, the id and the token: `ack` succeeds and deletes the body, and after it `ack`,
  -- `nack` and `dead_letter` of the id fail with any token with `JobNotFound` and leave the
  -- keyspace as it is.
  pub ack_final :
      (id : JobId) (token other : ClaimToken) (body : String) (job : Job) (s : K)
      → R.get (job_key prefix id) s ≡ some body
      → codec.job_from_str body ≡ value job
      → (R.zrem (lease_key prefix) (lease_member job.queue id token) s).0 ≡ true
      → let t = (ack R codec prefix id token s).1 in
        ((ack R codec prefix id token s).0 ≡ ok tt)
        × (R.get (job_key prefix id) t ≡ none)
        × (ack R codec prefix id other t ≡ (err (job_not_found id), t))
        × ((now : ℕ) (a : NackAction)
            → nack R codec prefix now id other a t ≡ (err (job_not_found id), t))
        × ((reason : String)
            → dead_letter R codec prefix id other reason t ≡ (err (job_not_found id), t))
  ack_final id token other body job s h e z =
      let u = (R.zrem (lease_key prefix) (lease_member job.queue id token) s).1 in
      let t = R.del (attempts_key prefix id) (R.del (job_key prefix id) u) in
      let gone : R.get (job_key prefix id) t ≡ none = ground (
        arith,
        laws.get-del (attempts_key prefix id) (job_key prefix id) (R.del (job_key prefix id) u),
        laws.get-del (job_key prefix id) (job_key prefix id) u,
      ) in
      let (a, n, d) = settle-Unclaimed id other t (inl gone) in
      rw (acked id token body job s h e z) (refl, gone, a, n, d)
