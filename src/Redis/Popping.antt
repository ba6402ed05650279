-- ===== src/Redis/Popping.antt =====
-- `try_claim_one` on a Redis server that answers: the list of the queue, and what the claim writes.
use capivara_rs.Prelude.{
  ℕ, ◌+◌, String, true, none, some, List, [], ◌∷◌, ◌++◌, ◌≡◌, ◌≢◌, refl, sym, ◌∙◌, ap, Option,
  if_pos, string_discrete,
}
use capivara_rs.Time.{Duration}
use capivara_rs.Error.{ok, err, serialize}
use capivara_rs.Job.{JobId, QueueName, ClaimToken, Job}
use capivara_rs.Registry.{Serde, value, malformed}
use capivara_rs.Redis.{Redis, Codec, ℤ, attempts_of}
use capivara_rs.Redis.Keys.{
  pending_key, job_key, job_key_prefix, attempts_key, attempts_key_prefix, lease_key, lease_member,
}
use capivara_rs.Redis.Scripts.{claim_script, claim_body}
use capivara_rs.Redis.Claim.{wrap, millis, mirror, claimed_body, claimed_reply, try_claim_one}
use capivara_rs.Redis.Laws.{Laws, Reachable}
use capivara_rs.Redis.Structures.{Structures, Same, Only, Same-trans}
use capivara_rs.Redis.Apart
use capivara_rs.Redis.Ownership.{call-then}

module _ {K : Type 0} (R : Redis K) (prefix : String) where
  -- The list `xs` with the id `x` at its end, which is the next to be popped.
  abbrev pub Next : QueueName → List String → JobId → K → Type 0
  Next q xs id s = R.lrange (pending_key prefix q) s ≡ xs ++ id ∷ []

  abbrev pub popped : QueueName → K → K
  popped q s = (R.rpop (pending_key prefix q) s).1

  abbrev pub reply : QueueName → Duration → ℕ → ClaimToken → K → Option (String × ℤ) × K
  reply q lease now token =
      claim_script R (pending_key prefix q) (lease_key prefix) (job_key_prefix prefix)
        (wrap (now + millis lease)) q token (attempts_key_prefix prefix)

  -- The job under the attempts that the counter of its id shows.
  abbrev pub attempted : JobId → Job → QueueName → K → Job
  attempted id job q s = record job {
    attempts = attempts_of (R.incr (attempts_key prefix id) (popped q s)).0;
  }

  abbrev counted : QueueName → JobId → K → K
  counted q id s = (R.incr (attempts_key prefix id) (popped q s)).1

  abbrev pub leased : QueueName → Duration → ℕ → ClaimToken → JobId → K → K
  leased q lease now token id s =
      R.zadd (lease_key prefix) (wrap (now + millis lease)) (lease_member q id token)
        (counted q id s)

module _ {K : Type 0} (R : Redis K) (codec : Codec) (prefix : String) (laws : Laws R)
    (structures : Structures R) (reachable : Reachable R) where
  popped-job :
      (q : QueueName) (id : JobId) (s : K)
      → R.get (job_key prefix id) (popped R prefix q s) ≡ R.get (job_key prefix id) s
  popped-job q id s =
      (structures.rpop-Only (pending_key prefix q) s (job_key prefix id)
        (Apart.pending-ne-job prefix q id)).text

  -- The script, once it popped R prefix an id.
  script_popped :
      (q : QueueName) (xs : List String) (id : JobId) (expiry : ℕ) (token : ClaimToken) (s : K)
      → Next R prefix q xs id s
      → claim_script R
          (pending_key prefix q)
          (lease_key prefix)
          (job_key_prefix prefix)
          expiry
          q
          token
          (attempts_key_prefix prefix)
          s
        ≡ claim_body R
            (lease_key prefix)
            id
            (job_key_prefix prefix)
            expiry
            q
            token
            (attempts_key_prefix prefix)
            (R.get (job_key prefix id) s)
            (popped R prefix q s)
  unfolding claim_script
  script_popped q xs id expiry token s h =
      rw
        (
          claim_script,
          (structures.rpop_last (pending_key prefix q) id xs s h).0,
          Apart.job_key_joined prefix id,
          popped-job q id s,
        )
        refl

  try_claim_one_lem :
      (q : QueueName) (lease : Duration) (now : ℕ) (token : ClaimToken) (s : K)
      → try_claim_one R codec prefix q lease now token s
        ≡ claimed_reply R codec prefix token
            (reply R prefix q lease now token s).0
            (reply R prefix q lease now token s).1
  unfolding try_claim_one
  try_claim_one_lem q lease now token s =
      call-then R codec prefix laws reachable (reply R prefix q lease now token)
        (claimed_reply R codec prefix token) s

  pub mirror-Only :
      (job : Job) (text : Serde String) (s : K)
      → Only R (job_key prefix job.id) s (mirror R codec prefix job text s)
  unfolding mirror
  mirror-Only job (malformed e) s j ne = record { text = refl; items = refl; members = λ m. refl }
  mirror-Only job (value updated) s j ne =
      rw (mirror, reachable.runs (λ t. (tt {0}, R.set (job_key prefix job.id) updated t)) s)
        (structures.set-Only (job_key prefix job.id) updated s j ne)

  pub body_claimed :
      (q : QueueName) (xs : List String) (lease : Duration) (now : ℕ) (token : ClaimToken)
      (id : JobId) (job : Job) (body : String) (s : K)
      → Next R prefix q xs id s
      → R.get (job_key prefix id) s ≡ some body
      → codec.job_from_str body ≡ value job
      → try_claim_one R codec prefix q lease now token s ≡ (
        ok (some (record { job = attempted R prefix id job q s; claim_token = token })),
        mirror R codec prefix
            (attempted R prefix id job q s)
            (codec.job_to_string (attempted R prefix id job q s))
            (leased R prefix q lease now token id s),
      )
  unfolding claim_body claimed_reply claimed_body
  body_claimed q xs lease now token id job body s h b d =
      try_claim_one_lem q lease now token s
      ∙ rw
          (
            script_popped q xs id (wrap (now + millis lease)) token s h,
            b,
            Apart.attempts_key_joined prefix id,
            d,
          )
          refl

  pub leased-held :
      (q : QueueName) (lease : Duration) (now : ℕ) (token : ClaimToken) (id : JobId) (s : K)
      → (R.zrem
          (lease_key prefix)
          (lease_member q id token)
          (leased R prefix q lease now token id s)).0
        ≡ true
  leased-held q lease now token id s =
      let member = lease_member q id token in
      structures.has-zadd (lease_key prefix) (wrap (now + millis lease)) member member
        (counted R prefix q id s)
      ∙ if_pos (string_discrete member member) refl true
          (R.zrem (lease_key prefix) member (counted R prefix q id s)).0

  -- What the counter and the lease of a claim leave alone.
  pub counted_leased :
      (q : QueueName) (lease : Duration) (now : ℕ) (token : ClaimToken) (id : JobId) (s : K)
      (j : String)
      → attempts_key prefix id ≢ j
      → lease_key prefix ≢ j
      → Same R j (popped R prefix q s) (leased R prefix q lease now token id s)
  counted_leased q lease now token id s j a l =
      Same-trans R j (popped R prefix q s) (counted R prefix q id s)
        (leased R prefix q lease now token id s)
        (structures.incr-Only (attempts_key prefix id) (popped R prefix q s) j a)
        (structures.zadd-Only (lease_key prefix) (wrap (now + millis lease))
          (lease_member q id token) (counted R prefix q id s) j l)

  pub leased-queue :
      (q : QueueName) (xs : List String) (lease : Duration) (now : ℕ) (token : ClaimToken)
      (id : JobId) (s : K)
      → Next R prefix q xs id s
      → R.lrange (pending_key prefix q) (leased R prefix q lease now token id s) ≡ xs
  leased-queue q xs lease now token id s h =
      (counted_leased q lease now token id s (pending_key prefix q)
        (Apart.attempts-ne-pending prefix id q)
        (λ e. Apart.pending-ne-lease prefix q (sym e))).items
      ∙ (structures.rpop_last (pending_key prefix q) id xs s h).1

  pub body_malformed :
      (q : QueueName) (xs : List String) (lease : Duration) (now : ℕ) (token : ClaimToken)
      (id : JobId) (body message : String) (s : K)
      → Next R prefix q xs id s
      → R.get (job_key prefix id) s ≡ some body
      → codec.job_from_str body ≡ malformed message
      → try_claim_one R codec prefix q lease now token s
        ≡ (err (serialize message), leased R prefix q lease now token id s)
  unfolding claim_body claimed_reply claimed_body
  body_malformed q xs lease now token id body message s h b d =
      try_claim_one_lem q lease now token s
      ∙ rw
          (
            script_popped q xs id (wrap (now + millis lease)) token s h,
            b,
            Apart.attempts_key_joined prefix id,
            d,
          )
          refl

  pub orphan_dropped :
      (q : QueueName) (xs : List String) (lease : Duration) (now : ℕ) (token : ClaimToken)
      (id : JobId) (s : K)
      → Next R prefix q xs id s
      → R.get (job_key prefix id) s ≡ none
      → try_claim_one R codec prefix q lease now token s ≡ (ok none, popped R prefix q s)
  unfolding claim_body claimed_reply
  orphan_dropped q xs lease now token id s h b =
      try_claim_one_lem q lease now token s
      ∙ rw (script_popped q xs id (wrap (now + millis lease)) token s h, b) refl

  pub nothing_waits :
      (q : QueueName) (lease : Duration) (now : ℕ) (token : ClaimToken) (s : K)
      → R.lrange (pending_key prefix q) s ≡ []
      → try_claim_one R codec prefix q lease now token s ≡ (ok none, s)
  unfolding claim_script claimed_reply
  nothing_waits q lease now token s h =
      try_claim_one_lem q lease now token s
      ∙ rw (claim_script, structures.rpop_empty (pending_key prefix q) s h)
          (ap (λ r. (ok none, r.1)) (structures.rpop_empty (pending_key prefix q) s h))
