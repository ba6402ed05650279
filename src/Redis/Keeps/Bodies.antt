-- ===== src/Redis/Keeps/Bodies.antt =====
-- On a Redis server that answers, a body is read as a job of its own id, whatever calls are made.
use capivara_rs.Prelude.{
  ℕ, ◌+◌, String, true, false, none, some, ◌≡◌, ◌≢◌, sym, ◌∙◌, ap, inl, inr, if_pos, if_neg,
  string_discrete, Bool-cases, arith,
}
use mathlib.Core.Path.{subst}
use capivara_rs.Time.{is_zero}
use capivara_rs.Job.{JobId, ClaimToken, Job, NackAction, requeue_after}
use capivara_rs.Registry.{value}
use capivara_rs.Redis.{Redis, Codec}
use capivara_rs.Redis.Keys.{
  pending_key, dead_key, job_key, dead_reason_key, attempts_key, lease_key, delayed_key,
  lease_member, delayed_member,
}
use capivara_rs.Redis.Scripts.{ack_script, nack_script, dead_letter_script, push_requeue, with_body}
use capivara_rs.Redis.Claim.{wrap, millis}
use capivara_rs.Redis.Settle.{ack, nack, dead_letter, requeue_target}
use capivara_rs.Redis.Laws.{Laws, Reachable}
use capivara_rs.Redis.Structures.{Structures, Only}
use capivara_rs.Redis.Apart
use capivara_rs.Redis.Apart.{reason_id}
use capivara_rs.Redis.Members.{NoSep}
use capivara_rs.Redis.Keeps.Settling.{settled_then, either, either_body}

module _ {K : Type 0} (R : Redis K) (codec : Codec) (prefix : String) where
  -- A job of the id, with names that can be members of the sets.
  abbrev pub IsOwn : JobId → Job → Type 0
  IsOwn i j = (j.id ≡ i) × NoSep j.queue × NoSep i

  -- Every body that is read as a job is read as one of its own id.
  abbrev pub IsSound : K → Type 0
  IsSound s =
      (i : JobId) (body : String) (j : Job)
      → R.get (job_key prefix i) s ≡ some body
      → codec.job_from_str body ≡ value j
      → IsOwn i j

  pub IsSound-texts :
      (s t : K)
      → ((i : JobId) → R.get (job_key prefix i) t ≡ R.get (job_key prefix i) s)
      → IsSound s
      → IsSound t
  IsSound-texts s t same sound i body j b d = sound i body j (sym (same i) ∙ b) d

  pub Only-IsSound :
      (k : String) (s t : K)
      → ((i : JobId) → k ≢ job_key prefix i)
      → Only R k s t
      → IsSound s
      → IsSound t
  Only-IsSound k s t ne only = IsSound-texts s t (λ i. (only (job_key prefix i) (ne i)).text)

  module _ (structures : Structures R) (laws : Laws R) where
    same_text : (x y : String) → some x ≡ some y → x ≡ y
    same_text x y e = ground (arith, e)

    nothing : (x : String) → none ≢ some x
    nothing x e = absurd (ground (arith, e))

    pub set_body-IsSound :
        (i : JobId) (text : String) (s : K)
        → ((j : Job) → codec.job_from_str text ≡ value j → IsOwn i j)
        → IsSound s
        → IsSound (R.set (job_key prefix i) text s)
    set_body-IsSound i text s own sound k body j b d =
        let found = laws.get-set (job_key prefix i) (job_key prefix k) text s in
        elim (string_discrete (job_key prefix i) (job_key prefix k)) [
          | yes e ↦
              let same : text ≡ body = same_text text body (
                sym (
                  if_pos (string_discrete (job_key prefix i) (job_key prefix k)) e (some text)
                    (R.get (job_key prefix k) s))
                ∙ sym found
                ∙ b) in
              subst (λ x. IsOwn x j) (Apart.job_key_inj prefix i k e)
                (own j (ap codec.job_from_str same ∙ d))
          | no n ↦
              sound k body j
                (sym (
                    if_neg (string_discrete (job_key prefix i) (job_key prefix k)) n (some text)
                      (R.get (job_key prefix k) s))
                  ∙ sym found
                  ∙ b)
                d
        ]

    pub del_body-IsSound : (i : JobId) (s : K) → IsSound s → IsSound (R.del (job_key prefix i) s)
    del_body-IsSound i s sound k body j b d =
        let found = laws.get-del (job_key prefix i) (job_key prefix k) s in
        elim (string_discrete (job_key prefix i) (job_key prefix k)) [
          | yes e ↦ absurd (
              nothing body (
                sym (
                  if_pos (string_discrete (job_key prefix i) (job_key prefix k)) e none
                    (R.get (job_key prefix k) s))
                ∙ sym found
                ∙ b))
          | no n ↦
              sound k body j
                (sym (
                    if_neg (string_discrete (job_key prefix i) (job_key prefix k)) n none
                      (R.get (job_key prefix k) s))
                  ∙ sym found
                  ∙ b)
                d
        ]

module _ {K : Type 0} (R : Redis K) (codec : Codec) (prefix : String) (laws : Laws R)
    (structures : Structures R) (reachable : Reachable R) where
  abbrev pub Sound : K → Type 0
  Sound = IsSound R codec prefix

  unleased-Sound : (m : String) (s : K) → Sound s → Sound (R.zrem (lease_key prefix) m s).1
  unleased-Sound m s =
      Only-IsSound R codec prefix (lease_key prefix) s (R.zrem (lease_key prefix) m s).1
        (λ i e. Apart.job-ne-lease prefix i (sym e)) (structures.zrem-Only (lease_key prefix) m s)

  pub pushed-Sound : (q v : String) (s : K) → Sound s → Sound (R.lpush (pending_key prefix q) v s)
  pushed-Sound q v s =
      Only-IsSound R codec prefix (pending_key prefix q) s (R.lpush (pending_key prefix q) v s)
        (Apart.pending-ne-job prefix q) (structures.lpush-Only (pending_key prefix q) v s)

  uncounted-Sound : (i : JobId) (s : K) → Sound s → Sound (R.del (attempts_key prefix i) s)
  uncounted-Sound i s =
      Only-IsSound R codec prefix (attempts_key prefix i) s (R.del (attempts_key prefix i) s)
        (Apart.attempts-ne-job prefix i) (structures.del-Only (attempts_key prefix i) s)

  requeued-Sound :
      (now : ℕ) (a : NackAction) (j : Job) (i : JobId) (s : K)
      → Sound s
      → Sound (push_requeue R (requeue_target R codec prefix now a j i) s)
  unfolding push_requeue requeue_target
  requeued-Sound now (requeue_after delay) j i s sound = elim (Bool-cases (is_zero delay)) [
    | inl e ↦ rw e (pushed-Sound j.queue i s sound)
    | inr e ↦
        let score = wrap (now + millis delay) in
        let m = delayed_member j.queue i in
        rw e (
          Only-IsSound R codec prefix (delayed_key prefix) s (R.zadd (delayed_key prefix) score m s)
            (λ k p. Apart.job-ne-delayed prefix k (sym p))
            (structures.zadd-Only (delayed_key prefix) score m s) sound)
  ]

  pub ack-Sound :
      (i : JobId) (t : ClaimToken) (s : K) → Sound s → Sound (ack R codec prefix i t s).1
  unfolding ack ack_script
  ack-Sound i t s sound =
      settled_then R codec prefix laws structures reachable Sound i
        (λ j.
          ack_script R (lease_key prefix) (job_key prefix i) (lease_member j.queue i t)
            (attempts_key prefix i))
        s sound
        (λ j body h e.
          let u = (R.zrem (lease_key prefix) (lease_member j.queue i t) s).1 in
          let v = R.del (job_key prefix i) u in
          let left = unleased-Sound (lease_member j.queue i t) s sound in
          either R codec prefix laws structures reachable Sound
            (R.zrem (lease_key prefix) (lease_member j.queue i t) s).0
            (true, R.del (attempts_key prefix i) v) (false, u)
            (uncounted-Sound i v (del_body-IsSound R codec prefix structures laws i u left)) left)

  pub nack-Sound :
      (now : ℕ) (i : JobId) (t : ClaimToken) (a : NackAction) (s : K)
      → Sound s
      → Sound (nack R codec prefix now i t a s).1
  unfolding nack nack_script
  nack-Sound now i t a s sound =
      settled_then R codec prefix laws structures reachable Sound i
        (λ j.
          nack_script R (lease_key prefix) (job_key prefix i) (lease_member j.queue i t)
            (requeue_target R codec prefix now a j i))
        s sound
        (λ j body h e.
          let u = (R.zrem (lease_key prefix) (lease_member j.queue i t) s).1 in
          let push = push_requeue R (requeue_target R codec prefix now a j i) in
          let left = unleased-Sound (lease_member j.queue i t) s sound in
          either R codec prefix laws structures reachable Sound
            (R.zrem (lease_key prefix) (lease_member j.queue i t) s).0
            (with_body R push (R.get (job_key prefix i) u) u) (false, u)
            (either_body R codec prefix laws structures reachable Sound push
              (R.get (job_key prefix i) u) u left (requeued-Sound now a j i u left))
            left)

  pub dead_letter-Sound :
      (i : JobId) (t : ClaimToken) (reason : String) (s : K)
      → ((j : Job) → codec.job_from_str reason ≢ value j)
      → Sound s
      → Sound (dead_letter R codec prefix i t reason s).1
  unfolding dead_letter dead_letter_script
  dead_letter-Sound i t reason s no_job sound =
      settled_then R codec prefix laws structures reachable Sound i
        (λ j.
          dead_letter_script R (lease_key prefix) (dead_key prefix j.queue) (job_key prefix i)
            (lease_member j.queue i t) i (dead_reason_key prefix i) reason (attempts_key prefix i))
        s sound
        (λ j body h e.
          let u = (R.zrem (lease_key prefix) (lease_member j.queue i t) s).1 in
          let bury = λ (v : K).
            R.del (attempts_key prefix i)
              (R.set (dead_reason_key prefix i) reason (R.lpush (dead_key prefix j.queue) i v)) in
          let left = unleased-Sound (lease_member j.queue i t) s sound in
          let v = R.lpush (dead_key prefix j.queue) i u in
          let listed =
            Only-IsSound R codec prefix (dead_key prefix j.queue) u v
              (Apart.dead-ne-job prefix j.queue)
              (structures.lpush-Only (dead_key prefix j.queue) i u) left in
          either R codec prefix laws structures reachable Sound
            (R.zrem (lease_key prefix) (lease_member j.queue i t) s).0
            (with_body R bury (R.get (job_key prefix i) u) u) (false, u)
            (either_body R codec prefix laws structures reachable Sound bury
              (R.get (job_key prefix i) u) u left
              (uncounted-Sound i (R.set (dead_reason_key prefix i) reason v) (
                set_body-IsSound R codec prefix structures laws (reason_id i) reason v
                  (λ k d. absurd (no_job k d)) listed)))
            left)
