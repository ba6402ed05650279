-- ===== src/Redis/Producer.antt =====
-- `enqueue` with an idempotency key on Redis.
use Prim.Native.String.{String, ◌++◌}
use capivara_rs.Prelude.{
  false, Option, none, some, ◌≡◌, ◌≢◌, refl, ◌∙◌, ap, ite, string_discrete, trim_is_empty, arith,
}
use capivara_rs.Error.{broker, ok, ◌>>=◌}
use capivara_rs.Job.{JobId, Job}
use capivara_rs.Registry.{value}
use capivara_rs.Redis.{Redis, Codec, call, or_err}
use capivara_rs.Redis.Keys.{job_key, pending_key, idempotency_key}
use capivara_rs.Redis.Apart.{job-ne-idempotency, pending-ne-job, pending-ne-idempotency}
use capivara_rs.Redis.Scripts.{enqueue_idempotent_script}
use capivara_rs.Redis.Claim.{enqueue, push_job, push_body, push_keyed, returned_id}
use capivara_rs.Redis.Laws.{Laws, Reachable}
use capivara_rs.Redis.Ownership.{call-then}

module _ {K : Type 0} (R : Redis K) (codec : Codec) (prefix : String) (laws : Laws R)
    (reachable : Reachable R) where
  keyed :
      (job : Job) (key body : String) (s : K)
      → job.idempotency_key ≡ some key
      → trim_is_empty key ≡ false
      → codec.job_to_string job ≡ value body
      → enqueue R codec prefix job s
        ≡ (call R (
                enqueue_idempotent_script R
                  (idempotency_key prefix key)
                  (job_key prefix job.id)
                  (pending_key prefix job.queue)
                  job.id
                  body)
              >>= returned_id R codec prefix)
            s
  unfolding enqueue push_job push_body push_keyed
  keyed job key body s e b c =
      ap (λ r. push_job R codec prefix job r s) c
      ∙ ap (λ o. push_body R codec prefix job body o s) e
      ∙ ap (λ x. push_keyed R codec prefix job body key x s) b

  enqueue_keyed :
      (job : Job) (key body : String) (s : K)
      → job.idempotency_key ≡ some key
      → trim_is_empty key ≡ false
      → codec.job_to_string job ≡ value body
      → let r =
          enqueue_idempotent_script R
            (idempotency_key prefix key)
            (job_key prefix job.id)
            (pending_key prefix job.queue)
            job.id
            body
            s in
        enqueue R codec prefix job s ≡ returned_id R codec prefix r.0 r.1
  enqueue_keyed job key body s e b c =
      keyed job key body s e b c
      ∙ call-then R codec prefix laws reachable _ (returned_id R codec prefix) s

  module _ (job : Job) (key body : String) where
    abbrev idem : String
    idem = idempotency_key prefix key

    abbrev own : String
    own = job_key prefix job.id

    abbrev queue : String
    queue = pending_key prefix job.queue

    abbrev script : K → Option String × K
    script = enqueue_idempotent_script R idem own queue job.id body

    own-ne-idem : own ≢ idem
    own-ne-idem = job-ne-idempotency prefix job.id key

    queue-ne-own : queue ≢ own
    queue-ne-own = pending-ne-job prefix job.queue job.id

    queue-ne-idem : queue ≢ idem
    queue-ne-idem = pending-ne-idempotency prefix job.queue key

    pub script_known :
        (w : String) (s : K)
        → R.get idem s ≡ some w
        → script s ≡ (some w, R.del own (R.set own body s))
    unfolding enqueue_idempotent_script
    script_known w s h =
        let there : R.get idem (R.set own body s) ≡ some w =
          ground (arith, h, own-ne-idem, laws.get-set own idem body s) in
        let still : R.get idem (R.del own (R.set own body s)) ≡ some w =
          ground (arith, there, own-ne-idem, laws.get-del own idem (R.set own body s)) in
        rw (laws.set_nx_present idem job.id w (R.set own body s) there, still) refl

    pub script_new :
        (s : K)
        → R.get idem s ≡ none
        → script s ≡ (some job.id, R.lpush queue job.id (R.set idem job.id (R.set own body s)))
    unfolding enqueue_idempotent_script
    script_new s h =
        let absent : R.get idem (R.set own body s) ≡ none =
          ground (arith, h, own-ne-idem, laws.get-set own idem body s) in
        rw (laws.set_nx_absent idem job.id (R.set own body s) absent) refl

    -- The job has the key, which is not blank, and the body is its text.
    abbrev pub Sends : Type 0
    Sends =
        (job.idempotency_key ≡ some key)
        × (trim_is_empty key ≡ false)
        × (codec.job_to_string job ≡ value body)

    replies :
        (id : JobId) (s t : K)
        → Sends
        → script s ≡ (some id, t)
        → codec.parse_str id ≡ value id
        → enqueue R codec prefix job s ≡ (ok id, t)
    unfolding returned_id
    replies id s t (e, b, c) h p =
        enqueue_keyed job key body s e b c
        ∙ ap (λ r. returned_id R codec prefix r.0 r.1) h
        ∙ ap
            (λ r.
              (or_err (λ m. broker ("invalid idempotency job id " ++ (id ++ (": " ++ m)))) r, t))
            p

    -- On a Redis server that answers, `enqueue` with an idempotency key that is known returns the
    -- id recorded for it; every string key reads as before, but that of the new job's own body,
    -- which is empty.
    pub enqueue_known :
        (id : JobId) (s : K)
        → Sends
        → R.get idem s ≡ some id
        → codec.parse_str id ≡ value id
        → ((enqueue R codec prefix job s).0 ≡ ok id)
          × ((k : String)
              → R.get k (enqueue R codec prefix job s).1
                ≡ ite (string_discrete own k) none (R.get k s))
    enqueue_known id s sends h p =
        let e = replies id s (R.del own (R.set own body s)) sends (script_known id s h) p in
        (
          ap (λ r. r.0) e,
          λ k.
              ap (λ r. R.get k r.1) e
              ∙ ground (arith, laws.get-set own k body s, laws.get-del own k (R.set own body s)),
        )

    -- A producer that enqueues the same job twice on Redis, with a new key that is not blank: both
    -- calls return the id of the job, and the second deletes the body that the first had written.
    pub enqueue_twice_loses_body :
        (s : K)
        → Sends
        → R.get idem s ≡ none
        → codec.parse_str job.id ≡ value job.id
        → let t = (enqueue R codec prefix job s).1 in
          ((enqueue R codec prefix job s).0 ≡ ok job.id)
          × (R.get own t ≡ some body)
          × ((enqueue R codec prefix job t).0 ≡ ok job.id)
          × (R.get own (enqueue R codec prefix job t).1 ≡ none)
    enqueue_twice_loses_body s sends h p =
        let put : K = R.set idem job.id (R.set own body s) in
        let t : K = R.lpush queue job.id put in
        let e : enqueue R codec prefix job s ≡ (ok job.id, t) =
          replies job.id s t sends (script_new s h) p in
        let mapped : R.get idem t ≡ some job.id =
          laws.get-lpush queue idem job.id put queue-ne-idem
          ∙ ground (arith, laws.get-set idem idem job.id (R.set own body s)) in
        let kept : R.get own t ≡ some body =
          laws.get-lpush queue own job.id put queue-ne-own
          ∙ ground (
            arith,
            own-ne-idem,
            laws.get-set idem own job.id (R.set own body s),
            laws.get-set own own body s,
          ) in
        let again = enqueue_known job.id t sends mapped p in
        rw e (refl, kept, again.0, again.1 own ∙ ground arith)
