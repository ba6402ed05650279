-- ===== src/Redis/Keeps/Enqueuing.antt =====
-- `enqueue` on a Redis server that answers leaves every other job where it is.
use capivara_rs.Prelude.{
  String, Bool, true, false, Option, none, some, ◌≡◌, ◌≢◌, refl, sym, ◌∙◌, ap, trim_is_empty,
}
use mathlib.Core.Path.{subst}
use capivara_rs.Error.{pure}
use capivara_rs.Job.{JobId, Job}
use capivara_rs.Registry.{Serde, value, malformed}
use capivara_rs.Redis.{Redis, Codec}
use capivara_rs.Redis.Keys.{pending_key, job_key, idempotency_key}
use capivara_rs.Redis.Scripts.{enqueue_idempotent_script}
use capivara_rs.Redis.Claim.{enqueue, push_job, push_body, push_keyed, returned_id}
use capivara_rs.Redis.Laws.{Laws, Reachable}
use capivara_rs.Redis.Structures.{Structures}
use capivara_rs.Redis.Ownership.{call-then}
use capivara_rs.Redis.Producer.{script_known, script_new}
use capivara_rs.Redis.Keeps.{Keeps, Keeps-refl, Keeps-trans}
use capivara_rs.Redis.Keeps.Writes.{
  set_job-Keeps, del_job-Keeps, set_idempotency-Keeps, push_pending-Keeps,
}

module _ {K : Type 0} (R : Redis K) (codec : Codec) (prefix : String) where
  pub returned_id-state : (o : Option String) (s : K) → (returned_id R codec prefix o s).1 ≡ s
  unfolding returned_id
  returned_id-state none s = refl
  returned_id-state (some returned) s = refl

module _ {K : Type 0} (R : Redis K) (codec : Codec) (prefix : String) (laws : Laws R)
    (structures : Structures R) (reachable : Reachable R) (q : String) (id : JobId) (job : Job)
    (ne : job.id ≢ id) where
  abbrev Kept : K → K → Type 0
  Kept = Keeps R prefix q id

  abbrev written : String → K → K
  written body s = R.set (job_key prefix job.id) body s

  known-Keeps :
      (key body : String) (s : K) (o : Option String)
      → R.get (idempotency_key prefix key) s ≡ o
      → Kept s
          (enqueue_idempotent_script R
            (idempotency_key prefix key)
            (job_key prefix job.id)
            (pending_key prefix job.queue)
            job.id
            body
            s).1
  known-Keeps key body s none e =
      let t = written body s in
      let u = R.set (idempotency_key prefix key) job.id t in
      let v = R.lpush (pending_key prefix job.queue) job.id u in
      rw (script_new R codec prefix laws reachable job key body s e) (
        Keeps-trans R prefix q id s t v (set_job-Keeps R prefix q id structures job.id body s ne) (
          Keeps-trans R prefix q id t u v
            (set_idempotency-Keeps R prefix q id structures key job.id t)
            (push_pending-Keeps R prefix q id structures job.queue job.id u)))
  known-Keeps key body s (some w) e =
      let t = written body s in
      rw (script_known R codec prefix laws reachable job key body w s e) (
        Keeps-trans R prefix q id s t (R.del (job_key prefix job.id) t)
          (set_job-Keeps R prefix q id structures job.id body s ne)
          (del_job-Keeps R prefix q id structures job.id t ne))

  keyed-Keeps :
      (body key : String) (blank : Bool) (s : K)
      → Kept s (push_keyed R codec prefix job body key blank s).1
  unfolding push_keyed
  keyed-Keeps body key true s = Keeps-refl R prefix q id s
  keyed-Keeps body key false s =
      let script =
        enqueue_idempotent_script R (idempotency_key prefix key) (job_key prefix job.id)
          (pending_key prefix job.queue) job.id body in
      subst (Kept s)
        (sym (
          ap (λ r. r.1)
            (call-then R codec prefix laws reachable script (returned_id R codec prefix) s)
          ∙ returned_id-state R codec prefix (script s).0 (script s).1))
        (known-Keeps key body s (R.get (idempotency_key prefix key) s) refl)

  body-Keeps :
      (body : String) (o : Option String) (s : K) → Kept s (push_body R codec prefix job body o s).1
  unfolding push_body
  body-Keeps body (some key) s = keyed-Keeps body key (trim_is_empty key) s
  body-Keeps body none s =
      let t = written body s in
      let push : K → Unit {0} × K =
        λ u. (tt {0}, R.lpush (pending_key prefix job.queue) job.id (written body u)) in
      subst (Kept s)
        (sym (ap (λ r. r.1) (call-then R codec prefix laws reachable push (λ _. pure job.id) s)))
        (Keeps-trans R prefix q id s t (push s).1
          (set_job-Keeps R prefix q id structures job.id body s ne)
          (push_pending-Keeps R prefix q id structures job.queue job.id t))

  job-Keeps : (r : Serde String) (s : K) → Kept s (push_job R codec prefix job r s).1
  unfolding push_job
  job-Keeps (malformed e) s = Keeps-refl R prefix q id s
  job-Keeps (value body) s = body-Keeps body job.idempotency_key s

  pub enqueue-Keeps : (s : K) → Kept s (enqueue R codec prefix job s).1
  unfolding enqueue
  enqueue-Keeps s = job-Keeps (codec.job_to_string job) s
