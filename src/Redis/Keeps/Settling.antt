-- ===== src/Redis/Keeps/Settling.antt =====
-- `ack`, `nack` and `dead_letter` on a Redis server that answers leave every other job where it is; the
-- last two leave their own job somewhere.
use capivara_rs.Prelude.{
  ℕ, ◌+◌, String, Bool, true, false, Option, none, some, ◌≡◌, ◌≢◌, refl, sym, ◌∙◌, ap, inl, inr,
  if◌then◌else◌, Bool-cases, arith,
}
use mathlib.Core.Path.{subst}
use capivara_rs.Time.{is_zero}
use capivara_rs.Error.{Result, ok, err, panic, job_not_found, serialize, Exec, ◌>>=◌, then_lem}
use capivara_rs.Job.{JobId, ClaimToken, Job, NackAction, requeue_after}
use capivara_rs.Registry.{value}
use capivara_rs.Redis.{Redis, Codec, call, or_err}
use capivara_rs.Redis.Keys.{
  dead_key, job_key, dead_reason_key, attempts_key, lease_key, lease_member, delayed_member,
  parse_lease,
}
use capivara_rs.Redis.Scripts.{ack_script, nack_script, dead_letter_script, push_requeue, with_body}
use capivara_rs.Redis.Settle.{settled, decoded, get_job, ack, nack, dead_letter, requeue_target}
use capivara_rs.Redis.Claim.{wrap, millis}
use capivara_rs.Redis.Laws.{Laws, Reachable}
use capivara_rs.Redis.Structures.{Structures}
use capivara_rs.Redis.Apart.{reason_id}
use capivara_rs.Redis.Members.{NoSep, parse_members}
use capivara_rs.Redis.Ownership.{call-then}
use capivara_rs.Redis.Listing.{or_err-ok}
use capivara_rs.Redis.Keeps.{Keeps, Keeps-refl, Keeps-trans}
use capivara_rs.Redis.Keeps.Writes.{
  set_job-Keeps, del_job-Keeps, del_attempts-Keeps, push_pending-Keeps, push_dead-Keeps,
  delay-Keeps, unlease-Keeps,
}

abbrev id_of : Option (String × JobId) → JobId
id_of none = ""
id_of (some m) = m.1

other_member :
    (k : String) (i : JobId) (t : ClaimToken) (q : String) (id : JobId) (token : ClaimToken)
    → NoSep k
    → NoSep i
    → NoSep q
    → NoSep id
    → i ≢ id
    → lease_member k i t ≢ lease_member q id token
other_member k i t q id token hk hi hq hid ne e = ne (
    ap id_of
      (sym (parse_members k i t hk hi).1 ∙ ap parse_lease e ∙ (parse_members q id token hq hid).1))

module _ {K : Type 0} (R : Redis K) (codec : Codec) (prefix : String) where
  -- If the body of the id is read as a job, neither the id nor the queue's name has the separator.
  abbrev pub IsPlain : JobId → K → Type 0
  IsPlain i s =
      (j : Job) (body : String)
      → R.get (job_key prefix i) s ≡ some body
      → codec.job_from_str body ≡ value j
      → NoSep i × NoSep j.queue

module _ {K : Type 0} (R : Redis K) (codec : Codec) (prefix : String) (laws : Laws R)
    (structures : Structures R) (reachable : Reachable R) where
  settled-state : (i : JobId) (b : Bool) (t : K) → (settled i b t).1 ≡ t
  settled-state i true t = refl
  settled-state i false t = refl

  module _ (P : K → Type 0) (i : JobId) (script : Job → K → Bool × K) (s : K) (here : P s) where
    abbrev settlement : Exec K (Unit {0})
    settlement = get_job R codec prefix i >>= (λ j. call R (script j) >>= settled i)

    read_then :
        (o : Option String) (r : Result Job)
        → decoded R codec prefix i o s ≡ (r, s)
        → get_job R codec prefix i s ≡ decoded R codec prefix i o s
        → ((j : Job) → r ≡ ok j → P (script j s).1)
        → P (settlement s).1
    read_then o (err e) d g ran = rw (g, d) here
    read_then o (panic p) d g ran = rw (g, d) here
    read_then o (ok j) d g ran =
        subst P
          (sym (
            ap (λ r. r.1)
              (then_lem (get_job R codec prefix i) (λ k. call R (script k) >>= settled i) j s s
                (g ∙ d))
            ∙ ap (λ r. r.1) (call-then R codec prefix laws reachable (script j) (settled i) s)
            ∙ settled-state i (script j s).0 (script j s).1))
          (ran j refl)

    got : get_job R codec prefix i s ≡ decoded R codec prefix i (R.get (job_key prefix i) s) s
    unfolding get_job
    got =
        call-then R codec prefix laws reachable (λ t. (R.get (job_key prefix i) t, t))
          (decoded R codec prefix i) s

    -- What holds after a settlement that reads the job and then runs a script.
    settled_with :
        (o : Option String)
        → R.get (job_key prefix i) s ≡ o
        → ((j : Job) (body : String)
            → R.get (job_key prefix i) s ≡ some body
            → codec.job_from_str body ≡ value j
            → P (script j s).1)
        → P (settlement s).1
    settled_with none e ran =
        read_then none (err (job_not_found i)) refl (got ∙ ap (λ o. decoded R codec prefix i o s) e)
          (λ j bad. absurd (ground arith))
    settled_with (some body) e ran =
        read_then (some body) (or_err serialize (codec.job_from_str body)) refl
          (got ∙ ap (λ o. decoded R codec prefix i o s) e)
          (λ j d. ran j body e (or_err-ok serialize (codec.job_from_str body) j d))

  pub settled_then :
      (P : K → Type 0) (i : JobId) (script : Job → K → Bool × K) (s : K)
      → P s
      → ((j : Job) (body : String)
          → R.get (job_key prefix i) s ≡ some body
          → codec.job_from_str body ≡ value j
          → P (script j s).1)
      → P ((get_job R codec prefix i >>= (λ j. call R (script j) >>= settled i)) s).1
  settled_then P i script s here ran =
      settled_with P i script s here (R.get (job_key prefix i) s) refl ran

  pub either :
      (P : K → Type 0) (b : Bool) (x y : Bool × K) → P x.1 → P y.1 → P (if b then x else y).1
  either P true x y a b = a
  either P false x y a b = b

  pub either_body :
      (P : K → Type 0) (f : K → K) (o : Option String) (s : K)
      → P s
      → P (f s)
      → P (with_body R f o s).1
  unfolding with_body
  either_body P f none s a b = a
  either_body P f (some body) s a b = b

  module _ (q : String) (id : JobId) (hq : NoSep q) (hid : NoSep id) where
    abbrev Kept : K → K → Type 0
    Kept = Keeps R prefix q id

    module _ (i : JobId) (t : ClaimToken) (s : K) (plain : IsPlain R codec prefix i s)
        (ne : i ≢ id) where
      unleased-Keeps :
          (j : Job) (body : String)
          → R.get (job_key prefix i) s ≡ some body
          → codec.job_from_str body ≡ value j
          → Kept s (R.zrem (lease_key prefix) (lease_member j.queue i t) s).1
      unleased-Keeps j body h e =
          unlease-Keeps R prefix q id structures (lease_member j.queue i t) s (λ token.
            other_member j.queue i t q id token (plain j body h e).1 (plain j body h e).0 hq hid ne)

      pub ack-Keeps : Kept s (ack R codec prefix i t s).1
      unfolding ack ack_script
      ack-Keeps =
          settled_then (Kept s) i
            (λ j.
              ack_script R (lease_key prefix) (job_key prefix i) (lease_member j.queue i t)
                (attempts_key prefix i))
            s (Keeps-refl R prefix q id s)
            (λ j body h e.
              let u = (R.zrem (lease_key prefix) (lease_member j.queue i t) s).1 in
              let v = R.del (job_key prefix i) u in
              let w = R.del (attempts_key prefix i) v in
              let k = unleased-Keeps j body h e in
              either (Kept s) (R.zrem (lease_key prefix) (lease_member j.queue i t) s).0 (true, w)
                (false, u)
                (Keeps-trans R prefix q id s u w k (
                  Keeps-trans R prefix q id u v w (del_job-Keeps R prefix q id structures i u ne)
                    (del_attempts-Keeps R prefix q id structures i v)))
                k)

      requeued-Keeps :
          (now : ℕ) (a : NackAction) (j : Job) (u : K)
          → Kept u (push_requeue R (requeue_target R codec prefix now a j i) u)
      unfolding push_requeue requeue_target
      requeued-Keeps now (requeue_after delay) j u = elim (Bool-cases (is_zero delay)) [
        | inl e ↦ rw e (push_pending-Keeps R prefix q id structures j.queue i u)
        | inr e ↦ rw e (
            delay-Keeps R prefix q id structures (delayed_member j.queue i)
              (wrap (now + millis delay)) u)
      ]

      pub nack-Keeps : (now : ℕ) (a : NackAction) → Kept s (nack R codec prefix now i t a s).1
      unfolding nack nack_script
      nack-Keeps now a =
          settled_then (Kept s) i
            (λ j.
              nack_script R (lease_key prefix) (job_key prefix i) (lease_member j.queue i t)
                (requeue_target R codec prefix now a j i))
            s (Keeps-refl R prefix q id s)
            (λ j body h e.
              let u = (R.zrem (lease_key prefix) (lease_member j.queue i t) s).1 in
              let k = unleased-Keeps j body h e in
              let push = push_requeue R (requeue_target R codec prefix now a j i) in
              either (Kept s) (R.zrem (lease_key prefix) (lease_member j.queue i t) s).0
                (with_body R push (R.get (job_key prefix i) u) u) (false, u)
                (either_body (Kept s) push (R.get (job_key prefix i) u) u k
                  (Keeps-trans R prefix q id s u (push u) k (requeued-Keeps now a j u)))
                k)

      buried-Keeps :
          (j : Job) (reason : String) (u : K)
          → reason_id i ≢ id
          → Kept u (
              R.del
                (attempts_key prefix i)
                (R.set (dead_reason_key prefix i) reason (R.lpush (dead_key prefix j.queue) i u)))
      buried-Keeps j reason u other =
          let v = R.lpush (dead_key prefix j.queue) i u in
          let w = R.set (dead_reason_key prefix i) reason v in
          let x = R.del (attempts_key prefix i) w in
          Keeps-trans R prefix q id u v x (push_dead-Keeps R prefix q id structures j.queue i u) (
            Keeps-trans R prefix q id v w x
              (set_job-Keeps R prefix q id structures (reason_id i) reason v other)
              (del_attempts-Keeps R prefix q id structures i w))

      pub dead_letter-Keeps :
          (reason : String) → reason_id i ≢ id → Kept s (dead_letter R codec prefix i t reason s).1
      unfolding dead_letter dead_letter_script
      dead_letter-Keeps reason other =
          settled_then (Kept s) i
            (λ j.
              dead_letter_script R (lease_key prefix) (dead_key prefix j.queue) (job_key prefix i)
                (lease_member j.queue i t) i (dead_reason_key prefix i) reason
                (attempts_key prefix i))
            s (Keeps-refl R prefix q id s)
            (λ j body h e.
              let u = (R.zrem (lease_key prefix) (lease_member j.queue i t) s).1 in
              let k = unleased-Keeps j body h e in
              let bury = λ (v : K).
                R.del (attempts_key prefix i) (
                  R.set (dead_reason_key prefix i) reason
                    (R.lpush (dead_key prefix j.queue) i v)) in
              either (Kept s) (R.zrem (lease_key prefix) (lease_member j.queue i t) s).0
                (with_body R bury (R.get (job_key prefix i) u) u) (false, u)
                (either_body (Kept s) bury (R.get (job_key prefix i) u) u k
                  (Keeps-trans R prefix q id s u (bury u) k (buried-Keeps j reason u other)))
                k)
