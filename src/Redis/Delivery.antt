-- ===== src/Redis/Delivery.antt =====
-- `try_claim_one` on a Redis server that answers: which job a queue hands out.
use capivara_rs.Prelude.{
  ℕ, String, true, none, some, List, [], ◌∷◌, ◌++◌, ap, ◌≡◌, ◌≢◌, refl, sym, ◌∙◌, Option, arith,
}
use capivara_rs.Time.{Duration}
use capivara_rs.Error.{ok, err, Result, serialize}
use capivara_rs.Job.{JobId, QueueName, ClaimToken, Job, ClaimedJob}
use capivara_rs.Registry.{Serde, value, malformed}
use capivara_rs.Redis.{Redis, Codec}
use capivara_rs.Redis.Keys.{pending_key, job_key, attempts_key, lease_key, lease_member}
use capivara_rs.Redis.Claim.{mirror, try_claim_one}
use capivara_rs.Redis.Laws.{Laws, Reachable}
use capivara_rs.Redis.Structures.{Structures, Same, Only, Same-trans}
use capivara_rs.Redis.Apart
use capivara_rs.Redis.Popping.{
  Next, popped, mirror-Only, attempted, leased, body_claimed, leased-held, counted_leased,
  leased-queue, body_malformed, orphan_dropped, nothing_waits,
}

-- The ids of a list but the last, and the last.
abbrev pub last_of : List String → Option (List String × String)
last_of [] = none
last_of (x ∷ xs) = elim (last_of xs) [ none ↦ some ([], x) | some (ys, y) ↦ some (x ∷ ys, y) ]

abbrev pub Parts : List String → Option (List String × String) → Type 0
Parts l none = l ≡ []
Parts l (some (xs, x)) = l ≡ xs ++ x ∷ []

longer-Parts :
    (x : String) (xs : List String) (o : Option (List String × String))
    → Parts xs o
    → Parts (x ∷ xs) (elim o [ none ↦ some ([], x) | some (ys, y) ↦ some (x ∷ ys, y) ])
longer-Parts x xs none e = ap (λ l. x ∷ l) e
longer-Parts x xs (some (ys, y)) e = ap (λ l. x ∷ l) e

pub last_of-Parts : (l : List String) → Parts l (last_of l)
last_of-Parts [] = refl
last_of-Parts (x ∷ xs) = longer-Parts x xs (last_of xs) (last_of-Parts xs)

-- The text of a body that was written, if it could be.
abbrev pub written : Serde String → Option String → Option String
written (value text) before = some text
written (malformed e) before = before

module _ {K : Type 0} (R : Redis K) (codec : Codec) (prefix : String) where
  -- The claim took the last id of the queue's list and returned the job that its body was read as,
  -- with the attempts that the counter shows; the lease set has the claim's member, and the job's
  -- body was written anew. No key changed apart from these.
  pub record Delivered (q : QueueName) (xs : List String) (id : JobId) (job : Job)
      (token : ClaimToken) (s : K) (r : Result (Option ClaimedJob) × K) : Type 0 where
    pub result :
        r.0 ≡ ok (some (record { job = attempted R prefix id job q s; claim_token = token }))
    pub queue : R.lrange (pending_key prefix q) r.1 ≡ xs
    pub mirrored :
        R.get (job_key prefix job.id) r.1
        ≡ written
            (codec.job_to_string (attempted R prefix id job q s))
            (R.get (job_key prefix job.id) s)
    pub held : (R.zrem (lease_key prefix) (lease_member q id token) r.1).0 ≡ true
    pub others :
        (j : String)
        → pending_key prefix q ≢ j
        → attempts_key prefix id ≢ j
        → lease_key prefix ≢ j
        → job_key prefix job.id ≢ j
        → Same R j s r.1

  module _ (q : QueueName) (token : ClaimToken) (s : K) (r : Result (Option ClaimedJob) × K) where
    -- By what the body is read as.
    abbrev ClaimsBody : List String → JobId → Serde Job → Type 0
    ClaimsBody xs id (value job) = Delivered q xs id job token s r
    ClaimsBody xs id (malformed message) =
        (r.0 ≡ err (serialize message))
        × (R.lrange (pending_key prefix q) r.1 ≡ xs)
        × ((R.zrem (lease_key prefix) (lease_member q id token) r.1).0 ≡ true)

    -- By whether the id has a body.
    abbrev ClaimsId : List String → JobId → Option String → Type 0
    ClaimsId xs id none =
        (r.0 ≡ ok none)
        × (R.lrange (pending_key prefix q) r.1 ≡ xs)
        × Only R (pending_key prefix q) s r.1
    ClaimsId xs id (some body) = ClaimsBody xs id (codec.job_from_str body)

    -- By whether an id waits.
    abbrev pub Claims : Option (List String × JobId) → Type 0
    Claims none = r ≡ (ok none, s)
    Claims (some (xs, id)) = ClaimsId xs id (R.get (job_key prefix id) s)

module _ {K : Type 0} (R : Redis K) (codec : Codec) (prefix : String) (laws : Laws R)
    (structures : Structures R) (reachable : Reachable R) where
  mirrored_body :
      (job : Job) (text : Serde String) (u : K)
      → R.get (job_key prefix job.id) (mirror R codec prefix job text u)
        ≡ written text (R.get (job_key prefix job.id) u)
  unfolding mirror
  mirrored_body job (malformed e) u = refl
  mirrored_body job (value text) u =
      rw (mirror, reachable.runs (λ t. (tt {0}, R.set (job_key prefix job.id) text t)) u)
        (laws.get-set (job_key prefix job.id) (job_key prefix job.id) text u ∙ ground arith)

  pub body-Delivered :
      (q : QueueName) (xs : List String) (lease : Duration) (now : ℕ) (token : ClaimToken)
      (id : JobId) (job : Job) (body : String) (s : K)
      → Next R prefix q xs id s
      → R.get (job_key prefix id) s ≡ some body
      → codec.job_from_str body ≡ value job
      → Delivered R codec prefix q xs id job token s
          (try_claim_one R codec prefix q lease now token s)
  body-Delivered q xs lease now token id job body s h b d =
      let pending = pending_key prefix q in
      let claimed = attempted R prefix id job q s in
      let text = codec.job_to_string claimed in
      let u = leased R prefix q lease now token id s in
      let mirrored = mirror-Only R codec prefix laws structures reachable claimed text u in
      let before : (j : String)
          → pending ≢ j
          → attempts_key prefix id ≢ j
          → lease_key prefix ≢ j
          → Same R j s u =
        λ j p a l.
          Same-trans R j s (popped R prefix q s) u (structures.rpop-Only pending s j p) (
            counted_leased R codec prefix laws structures reachable q lease now token id s j a l) in
      let own = job_key prefix job.id in
      rw
        (body_claimed R codec prefix laws structures reachable q xs lease now token id job body s h
          b d)
        (record {
          result = refl;
          queue =
              (mirrored pending (λ e. Apart.pending-ne-job prefix q job.id (sym e))).items
              ∙ leased-queue R codec prefix laws structures reachable q xs lease now token id s h;
          mirrored =
              mirrored_body claimed text u
              ∙ ap (written text)
                  (before own (Apart.pending-ne-job prefix q job.id)
                    (Apart.attempts-ne-job prefix id job.id)
                    (λ e. Apart.job-ne-lease prefix job.id (sym e))).text;
          held =
              (mirrored (lease_key prefix) (Apart.job-ne-lease prefix job.id)).members
                (lease_member q id token)
              ∙ leased-held R codec prefix laws structures reachable q lease now token id s;
          others = λ j p a l k.
              Same-trans R j s u (mirror R codec prefix claimed text u) (before j p a l)
                (mirrored j k);
        })

  claims_body :
      (q : QueueName) (xs : List String) (lease : Duration) (now : ℕ) (token : ClaimToken)
      (id : JobId) (body : String) (s : K) (decoded : Serde Job)
      → Next R prefix q xs id s
      → R.get (job_key prefix id) s ≡ some body
      → codec.job_from_str body ≡ decoded
      → ClaimsBody R codec prefix q token s
          (try_claim_one R codec prefix q lease now token s)
          xs
          id
          decoded
  claims_body q xs lease now token id body s (value job) h b d =
      body-Delivered q xs lease now token id job body s h b d
  claims_body q xs lease now token id body s (malformed message) h b d =
      rw
        (body_malformed R codec prefix laws structures reachable q xs lease now token id body
          message s h b d)
        (
          refl,
          leased-queue R codec prefix laws structures reachable q xs lease now token id s h,
          leased-held R codec prefix laws structures reachable q lease now token id s,
        )

  claims_id :
      (q : QueueName) (xs : List String) (lease : Duration) (now : ℕ) (token : ClaimToken)
      (id : JobId) (s : K) (body : Option String)
      → Next R prefix q xs id s
      → R.get (job_key prefix id) s ≡ body
      → ClaimsId R codec prefix q token s
          (try_claim_one R codec prefix q lease now token s)
          xs
          id
          body
  claims_id q xs lease now token id s none h b =
      rw (orphan_dropped R codec prefix laws structures reachable q xs lease now token id s h b) (
        refl,
        (structures.rpop_last (pending_key prefix q) id xs s h).1,
        structures.rpop-Only (pending_key prefix q) s,
      )
  claims_id q xs lease now token id s (some body) h b =
      claims_body q xs lease now token id body s (codec.job_from_str body) h b refl

  claims :
      (q : QueueName) (lease : Duration) (now : ℕ) (token : ClaimToken) (s : K)
      (last : Option (List String × JobId))
      → Parts (R.lrange (pending_key prefix q) s) last
      → Claims R codec prefix q token s (try_claim_one R codec prefix q lease now token s) last
  claims q lease now token s none e =
      nothing_waits R codec prefix laws structures reachable q lease now token s e
  claims q lease now token s (some (xs, id)) e =
      claims_id q xs lease now token id s (R.get (job_key prefix id) s) e refl

  -- On a Redis server that answers, `try_claim_one` does this. If no id waits in the queue it
  -- returns nothing and changes nothing. Otherwise it takes the last id of the list. Without a body
  -- it returns nothing, and no other key changes. A body that cannot be read gives the error, and
  -- the lease set has the claim's member. A body that is read as a job gives this job with the
  -- attempts that the counter shows; the lease set has the claim's member, the body is written anew
  -- if the job can be written, and no key changes but those of the queue, the counter, the leases
  -- and the body.
  pub try_claim_one-Claims :
      (q : QueueName) (lease : Duration) (now : ℕ) (token : ClaimToken) (s : K)
      → Claims R codec prefix q token s
          (try_claim_one R codec prefix q lease now token s)
          (last_of (R.lrange (pending_key prefix q) s))
  try_claim_one-Claims q lease now token s =
      claims q lease now token s (last_of (R.lrange (pending_key prefix q) s))
        (last_of-Parts (R.lrange (pending_key prefix q) s))
