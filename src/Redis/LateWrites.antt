-- ===== src/Redis/LateWrites.antt =====
-- The two commands of `try_claim_one` on a Redis server that answers: what the second one does when
-- the lease ran out in between.
use capivara_rs.Prelude.{String, none, some, ◌≡◌, refl, ◌∙◌, inr, if_pos, string_discrete}
use capivara_rs.Error.{job_not_found, ok, err}
use capivara_rs.Job.{ClaimToken, Job}
use capivara_rs.Registry.{value}
use capivara_rs.Redis.{Redis, Codec, ℤ, attempts_of}
use capivara_rs.Redis.Keys.{job_key, lease_key, lease_member}
use capivara_rs.Redis.Claim.{claimed_reply, claimed_body, mirror}
use capivara_rs.Redis.Settle.{ack}
use capivara_rs.Redis.Laws.{Laws, Reachable}
use capivara_rs.Redis.Structures.{Structures}
use capivara_rs.Redis.Apart
use capivara_rs.Redis.Ownership.{settle-Unclaimed}
use capivara_rs.Redis.Settling.{Held, Over, ack_lem, ack-without}

module _ {K : Type 0} (R : Redis K) (codec : Codec) (prefix : String) (laws : Laws R)
    (structures : Structures R) (reachable : Reachable R) where
  -- The job as a claim returns it, by the script's reply.
  abbrev pub counted : Job → ℤ → Job
  counted job n = record job { attempts = attempts_of n }

  replied :
      (token : ClaimToken) (body text : String) (n : ℤ) (job : Job) (s : K)
      → codec.job_from_str body ≡ value job
      → codec.job_to_string (counted job n) ≡ value text
      → claimed_reply R codec prefix token (some (body, n)) s ≡ (
        ok (some (record { job = counted job n; claim_token = token })),
        R.set (job_key prefix job.id) text s,
      )
  unfolding claimed_reply claimed_body mirror
  replied token body text n job s d w =
      rw
        (
          claimed_reply,
          d,
          claimed_body,
          w,
          mirror,
          reachable.runs (λ t. (tt {0}, R.set (job_key prefix job.id) text t)) s,
        )
        refl

  -- On a Redis server that answers, where a claim ran out after its script had replied with a body
  -- that decodes, and another claim of the job is held: the holder's `ack` deletes the body, and
  -- then the rest of the first call of `try_claim_one` writes it again, with its attempts, and
  -- returns the claim. An `ack` with the token of that claim fails with `JobNotFound` and leaves
  -- the body there. The text that is written reads back as the job.
  pub late_claim_restores_body :
      (token other : ClaimToken) (body text first : String) (n : ℤ) (job current : Job) (s : K)
      → Held R codec prefix job.id other body current s
      → Over R codec prefix job.id token job s
      → codec.job_from_str first ≡ value job
      → codec.job_to_string (counted job n) ≡ value text
      → codec.job_from_str text ≡ value (counted job n)
      → let t = (ack R codec prefix job.id other s).1 in
        let u = (claimed_reply R codec prefix token (some (first, n)) t).1 in
        (R.get (job_key prefix job.id) t ≡ none)
        × ((claimed_reply R codec prefix token (some (first, n)) t).0
            ≡ ok (some (record { job = counted job n; claim_token = token })))
        × (R.get (job_key prefix job.id) u ≡ some text)
        × (ack R codec prefix job.id token u ≡ (err (job_not_found job.id), u))
  late_claim_restores_body token other body text first n job current s held over d w r =
      let t = (ack R codec prefix job.id other s).1 in
      let key = job_key prefix job.id in
      let member = lease_member job.queue job.id token in
      let u = R.set key text t in
      let gone =
        (ack_lem R codec prefix laws structures reachable job.id other body current s held).2 in
      let there : R.get key u ≡ some text =
        laws.get-set key key text t
        ∙ if_pos (string_discrete key key) refl (some text) (R.get key t) in
      let absent : Over R codec prefix job.id token job u =
        (structures.set-Only key text t (lease_key prefix)
            (Apart.job-ne-lease prefix job.id)).members
          member
        ∙ ack-without R codec prefix laws structures reachable job.id other body current s held
            member over in
      rw (replied token first text n job t d w) (
        gone,
        refl,
        there,
        (settle-Unclaimed R codec prefix laws reachable job.id token u
            (inr (counted job n, text, there, r, absent))).0,
      )
