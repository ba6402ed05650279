-- ===== src/Redis/Keeps/Safe.antt =====
-- A job that is somewhere on Redis, with a body that is read as a job of its queue, stays so when a
-- claim writes the body of a job.
use capivara_rs.Prelude.{
  String, some, ◌≡◌, ◌≢◌, refl, sym, ◌∙◌, ap, inl, inr, if_pos, string_discrete,
}
use capivara_rs.Job.{JobId, Job}
use capivara_rs.Registry.{Serde, value, malformed}
use capivara_rs.Redis.{Redis, Codec}
use capivara_rs.Redis.Keys.{
  pending_key, dead_key, job_key, lease_key, delayed_key, lease_member, delayed_member,
}
use capivara_rs.Redis.Claim.{mirror}
use capivara_rs.Redis.Laws.{Laws, Reachable}
use capivara_rs.Redis.Structures.{Structures}
use capivara_rs.Redis.Apart
use capivara_rs.Redis.Keeps.{Somewhere, Keeps, Somewhere-Keeps}
use capivara_rs.Redis.Keeps.Writes.{set_job-Keeps}

-- A text that is written for a job is read as the job.
abbrev pub IsFaithful : Codec → Type 0
IsFaithful codec =
    (job : Job) (text : String)
    → codec.job_to_string job ≡ value text
    → codec.job_from_str text ≡ value job

module _ {K : Type 0} (R : Redis K) (codec : Codec) (prefix : String) (q : String)
    (id : JobId) where
  -- The id has a body that is read as a job of the queue, and the job is somewhere.
  abbrev pub IsSafe : K → Type 0
  IsSafe s =
      ((body : String) × (job : Job) × (R.get (job_key prefix id) s ≡ some body)
        × (codec.job_from_str body ≡ value job)
        × (job.queue ≡ q))
      × Somewhere R prefix q id s

  pub IsSafe-Keeps : (s t : K) → Keeps R prefix q id s t → IsSafe s → IsSafe t
  IsSafe-Keeps s t k ((body, job, b, d, e), w) =
      ((body, job, k.body ∙ b, d, e), Somewhere-Keeps R prefix q id s t k w)

  -- The body of no other id is read as a job with this id.
  abbrev pub OthersBodies : K → Type 0
  OthersBodies s =
      (i : JobId) (body : String) (j : Job)
      → i ≢ id
      → R.get (job_key prefix i) s ≡ some body
      → codec.job_from_str body ≡ value j
      → j.id ≢ id

module _ {K : Type 0} (R : Redis K) (codec : Codec) (prefix : String) (laws : Laws R)
    (structures : Structures R) (reachable : Reachable R) (q : String) (id : JobId) where
  abbrev Safe : K → Type 0
  Safe = IsSafe R codec prefix q id

  -- The body of the job itself may be written.
  written-Somewhere :
      (i : JobId) (text : String) (u : K)
      → Somewhere R prefix q id u
      → Somewhere R prefix q id (R.set (job_key prefix i) text u)
  written-Somewhere i text u w =
      let only = structures.set-Only (job_key prefix i) text u in
      let pending = only (pending_key prefix q) (λ e. Apart.pending-ne-job prefix q i (sym e)) in
      let dead = only (dead_key prefix q) (λ e. Apart.dead-ne-job prefix q i (sym e)) in
      elim w [
        | inl l ↦ inl (rw pending.items l)
        | inr (inl (token, h)) ↦ inr (
            inl (
              token,
              (only (lease_key prefix) (Apart.job-ne-lease prefix i)).members
                    (lease_member q id token)
                  ∙ h,
            ))
        | inr (inr (inl h)) ↦ inr (
            inr (
              inl (
                (only (delayed_key prefix) (Apart.job-ne-delayed prefix i)).members
                  (delayed_member q id)
                ∙ h)))
        | inr (inr (inr l)) ↦ inr (inr (inr (rw dead.items l)))
      ]

  pub mirrored-Safe :
      (j : Job) (r : Serde String) (u : K)
      → IsFaithful codec
      → (j.id ≡ id → j.queue ≡ q)
      → codec.job_to_string j ≡ r
      → Safe u
      → Safe (mirror R codec prefix j r u)
  unfolding mirror
  mirrored-Safe j (malformed e) u faithful same z safe = safe
  mirrored-Safe j (value text) u faithful same z safe =
      rw (mirror, reachable.runs (λ t. (tt {0}, R.set (job_key prefix j.id) text t)) u)
        (elim (string_discrete j.id id) [
          | yes e ↦ (
            (
              text,
              j,
              ap (λ i. R.get (job_key prefix i) (R.set (job_key prefix j.id) text u)) (sym e)
                  ∙ laws.get-set (job_key prefix j.id) (job_key prefix j.id) text u
                  ∙ if_pos (string_discrete (job_key prefix j.id) (job_key prefix j.id)) refl
                      (some text) (R.get (job_key prefix j.id) u),
              faithful j text z,
              same e,
            ),
            written-Somewhere j.id text u safe.1,
          )
          | no n ↦
              IsSafe-Keeps R codec prefix q id u (R.set (job_key prefix j.id) text u)
                (set_job-Keeps R prefix q id structures j.id text u n) safe
        ])
