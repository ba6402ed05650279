-- ===== src/Redis/History.antt =====
-- Calls on a Redis server that answers, one after the other, by any number of clients: a `claim` is
-- its steps, which the calls of others may come between.
use capivara_rs.Prelude.{ℕ, String, List, [], ◌∷◌, ◌≢◌, sym, ◌∙◌, string_discrete}
use mathlib.Core.Path.{subst}
use capivara_rs.Time.{Duration}
use capivara_rs.Job.{JobId, QueueName, ClaimToken, Job, NackAction}
use capivara_rs.Redis.{Redis, Codec}
use capivara_rs.Redis.Claim.{enqueue, try_claim_one, recover_expired_leases, promote_delayed}
use capivara_rs.Redis.Settle.{ack, nack, dead_letter}
use capivara_rs.Redis.Laws.{Laws, Reachable}
use capivara_rs.Redis.Structures.{Structures}
use capivara_rs.Redis.Apart.{reason_id}
use capivara_rs.Redis.Members.{NoSep}
use capivara_rs.Redis.Keeps.Safe.{IsFaithful, IsSafe, IsSafe-Keeps}
use capivara_rs.Redis.Keeps.Claiming.{claimed-Safe}
use capivara_rs.Redis.Keeps.Bodies.{IsSound, ack-Sound, nack-Sound, dead_letter-Sound}
use capivara_rs.Redis.Keeps.Written.{enqueue-Sound, claimed-Sound, recovered-Sound, promoted-Sound}
use capivara_rs.Registry.{value}
use capivara_rs.Redis.Keeps.Returning.{recovered-Safe, promoted-Safe}
use capivara_rs.Redis.Keeps.Settling.{IsPlain, ack-Keeps, nack-Keeps, dead_letter-Keeps}
use capivara_rs.Redis.Keeps.Own.{nack-Stays, dead_letter-Stays}
use capivara_rs.Redis.Keeps.Enqueuing.{enqueue-Keeps}

pub data Call : Type 0 where
  enqueues : Job → Call
  recovers : ℕ → Call
  promotes : ℕ → Call
  claims_one : QueueName → Duration → ℕ → ClaimToken → Call
  acks : JobId → ClaimToken → Call
  nacks : ℕ → JobId → ClaimToken → NackAction → Call
  dead_letters : JobId → ClaimToken → String → Call

module _ {K : Type 0} (R : Redis K) (codec : Codec) (prefix : String) where
  unfoldable pub apply : Call → K → K
  apply (enqueues job) s = (enqueue R codec prefix job s).1
  apply (recovers now) s = (recover_expired_leases R codec prefix now s).1
  apply (promotes now) s = (promote_delayed R codec prefix now s).1
  apply (claims_one queue lease now token) s =
      (try_claim_one R codec prefix queue lease now token s).1
  apply (acks id token) s = (ack R codec prefix id token s).1
  apply (nacks now id token action) s = (nack R codec prefix now id token action s).1
  apply (dead_letters id token reason) s = (dead_letter R codec prefix id token reason s).1

  unfoldable pub run : List Call → K → K
  unfolding apply
  run [] s = s
  run (c ∷ cs) s = run cs (apply c s)

  -- The job is neither enqueued again nor acknowledged, what is enqueued has names without the
  -- separator, and a reason is no text of a job, nor kept under the key of the job.
  abbrev pub Allowed : JobId → Call → Type 0
  Allowed id (enqueues job) = (job.id ≢ id) × NoSep job.queue × NoSep job.id
  Allowed id (recovers now) = Unit
  Allowed id (promotes now) = Unit
  Allowed id (claims_one queue lease now token) = Unit
  Allowed id (acks i token) = i ≢ id
  Allowed id (nacks now i token action) = Unit
  Allowed id (dead_letters i token reason) =
      (reason_id i ≢ id) × ((job : Job) → codec.job_from_str reason ≢ value job)

  abbrev pub AllAllowed : JobId → List Call → Type 0
  AllAllowed id [] = Unit
  AllAllowed id (c ∷ cs) = Allowed id c × AllAllowed id cs

module _ {K : Type 0} (R : Redis K) (codec : Codec) (prefix : String) (laws : Laws R)
    (structures : Structures R) (reachable : Reachable R) (q : QueueName) (id : JobId)
    (hq : NoSep q) (hid : NoSep id) (faithful : IsFaithful codec) where
  abbrev Safe : K → Type 0
  Safe = IsSafe R codec prefix q id

  abbrev Sound : K → Type 0
  Sound = IsSound R codec prefix

  own_nack-Safe :
      (now : ℕ) (token : ClaimToken) (action : NackAction) (s : K)
      → Safe s
      → Safe (nack R codec prefix now id token action s).1
  own_nack-Safe now token action s ((body, job, b, d, e), w) =
      let stays =
        nack-Stays R codec prefix laws structures reachable q id token s body job b d e w now
          action in
      ((body, job, stays.0 ∙ b, d, e), stays.1)

  own_dead_letter-Safe :
      (token : ClaimToken) (reason : String) (s : K)
      → Safe s
      → Safe (dead_letter R codec prefix id token reason s).1
  own_dead_letter-Safe token reason s ((body, job, b, d, e), w) =
      let stays =
        dead_letter-Stays R codec prefix laws structures reachable q id token s body job b d e w
          reason in
      ((body, job, stays.0 ∙ b, d, e), stays.1)

  plain : (i : JobId) (s : K) → Sound s → IsPlain R codec prefix i s
  plain i s sound j body b d = let (same, hj, hi) = sound i body j b d in (hi, hj)

  apply-IsSound :
      (c : Call) (s : K) → Allowed R codec prefix id c → Sound s → Sound (apply R codec prefix c s)
  unfolding apply
  apply-IsSound (enqueues job) s (ne, hj, hi) sound =
      enqueue-Sound R codec prefix laws structures reachable faithful job hj hi s sound
  apply-IsSound (recovers now) s a sound =
      recovered-Sound R codec prefix laws structures reachable faithful now s sound
  apply-IsSound (promotes now) s a sound =
      promoted-Sound R codec prefix laws structures reachable faithful now s sound
  apply-IsSound (claims_one queue lease now token) s a sound =
      claimed-Sound R codec prefix laws structures reachable faithful queue lease now token s sound
  apply-IsSound (acks i token) s a sound =
      ack-Sound R codec prefix laws structures reachable i token s sound
  apply-IsSound (nacks now i token action) s a sound =
      nack-Sound R codec prefix laws structures reachable now i token action s sound
  apply-IsSound (dead_letters i token reason) s (other, no_job) sound =
      dead_letter-Sound R codec prefix laws structures reachable i token reason s no_job sound

  apply-IsSafe :
      (c : Call) (s : K)
      → Allowed R codec prefix id c
      → Sound s
      → Safe s
      → Safe (apply R codec prefix c s)
  unfolding apply
  apply-IsSafe (enqueues job) s (ne, hj, hi) sound safe =
      IsSafe-Keeps R codec prefix q id s (enqueue R codec prefix job s).1
        (enqueue-Keeps R codec prefix laws structures reachable q id job ne s) safe
  apply-IsSafe (recovers now) s a sound safe =
      recovered-Safe R codec prefix laws structures reachable q id hq hid now s safe
  apply-IsSafe (promotes now) s a sound safe =
      promoted-Safe R codec prefix laws structures reachable q id hq hid now s safe
  apply-IsSafe (claims_one queue lease now token) s a sound safe =
      claimed-Safe R codec prefix laws structures reachable q id hq hid queue lease now token s safe
        (λ i body j ne b d e. ne (sym (sound i body j b d).0 ∙ e)) faithful
  apply-IsSafe (acks i token) s ne sound safe =
      IsSafe-Keeps R codec prefix q id s (ack R codec prefix i token s).1
        (ack-Keeps R codec prefix laws structures reachable q id hq hid i token s (plain i s sound)
          ne)
        safe
  apply-IsSafe (nacks now i token action) s a sound safe = elim (string_discrete i id) [
    | yes e ↦
        subst (λ x. Safe (nack R codec prefix now x token action s).1) (sym e)
          (own_nack-Safe now token action s safe)
    | no ne ↦
        IsSafe-Keeps R codec prefix q id s (nack R codec prefix now i token action s).1
          (nack-Keeps R codec prefix laws structures reachable q id hq hid i token s
            (plain i s sound) ne now action)
          safe
  ]
  apply-IsSafe (dead_letters i token reason) s (other, no_job) sound safe =
      elim (string_discrete i id) [
        | yes e ↦
            subst (λ x. Safe (dead_letter R codec prefix x token reason s).1) (sym e)
              (own_dead_letter-Safe token reason s safe)
        | no ne ↦
            IsSafe-Keeps R codec prefix q id s (dead_letter R codec prefix i token reason s).1
              (dead_letter-Keeps R codec prefix laws structures reachable q id hq hid i token s
                (plain i s sound) ne reason other)
              safe
      ]

  -- On a Redis server that answers, for a codec that reads a job's text as the job, two invariants
  -- hold together over calls by whatever clients, one after the other: every body that is read as a
  -- job is one of its own id, and a job with a body that waits, is held, is delayed or is dead
  -- stays so, if the calls neither enqueue its id again nor acknowledge it. Names of queues and ids
  -- hold no separator; a reason of a dead letter is not the text of a job, nor kept under the key
  -- of this one.
  pub run-IsSafe :
      (calls : List Call) (s : K)
      → AllAllowed R codec prefix id calls
      → IsSound R codec prefix s
      → IsSafe R codec prefix q id s
      → IsSound R codec prefix (run R codec prefix calls s)
        × IsSafe R codec prefix q id (run R codec prefix calls s)
  unfolding run
  run-IsSafe [] s a sound safe = (sound, safe)
  run-IsSafe (c ∷ cs) s (a, as') sound safe =
      run-IsSafe cs (apply R codec prefix c s) as' (apply-IsSound c s a sound)
        (apply-IsSafe c s a sound safe)
