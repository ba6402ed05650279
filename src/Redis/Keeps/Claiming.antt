-- ===== src/Redis/Keeps/Claiming.antt =====
-- `try_claim_one`, `recover_expired_leases` and `promote_delayed` on a Redis server that answers leave a
-- job somewhere, with a body that is read as a job of its queue.
use capivara_rs.Prelude.{
  ℕ, ◌+◌, String, true, Option, none, some, List, [], ◌∷◌, ◌++◌, ◌≡◌, ◌≢◌, refl, sym, ◌∙◌, ap, inl,
  inr, string_discrete, arith,
}
use mathlib.Core.Path.{subst}
use capivara_rs.Time.{Duration}
use capivara_rs.Error.{Result}
use capivara_rs.Job.{JobId, QueueName, ClaimToken, Job, ClaimedJob}
use capivara_rs.Registry.{Serde, value, malformed}
use capivara_rs.Redis.{Redis, Codec}
use capivara_rs.Redis.Keys.{
  pending_key, dead_key, job_key, attempts_key, lease_key, delayed_key, lease_member,
  delayed_member,
}
use capivara_rs.Redis.Claim.{try_claim_one, wrap, millis}
use capivara_rs.Redis.Laws.{Laws, Reachable}
use capivara_rs.Redis.Structures.{Structures, Listed}
use capivara_rs.Redis.Apart
use capivara_rs.Redis.Members.{NoSep}
use capivara_rs.Redis.Popping.{
  Next, popped, leased, attempted, leased-held, body_claimed, body_malformed, orphan_dropped,
  nothing_waits,
}
use capivara_rs.Redis.Delivery.{last_of, Parts, last_of-Parts}
use capivara_rs.Redis.Keeps.{Keeps, Keeps-trans}
use capivara_rs.Redis.Keeps.Writes.{incr_attempts-Keeps, lease-Keeps}
use capivara_rs.Redis.Keeps.Safe.{IsFaithful, IsSafe, IsSafe-Keeps, OthersBodies, mirrored-Safe}

module _ {K : Type 0} (R : Redis K) (codec : Codec) (prefix : String) (laws : Laws R)
    (structures : Structures R) (reachable : Reachable R) (q : String) (id : JobId) (hq : NoSep q)
    (hid : NoSep id) where
  abbrev Safe : K → Type 0
  Safe = IsSafe R codec prefix q id

  pop_front_of : (xs : List String) (i : JobId) → i ≢ id → Listed id (xs ++ i ∷ []) → Listed id xs
  pop_front_of [] i ne (inl e) = absurd (ne e)
  pop_front_of [] i ne (inr l) = elim l [ ]
  pop_front_of (x ∷ xs) i ne (inl e) = inl e
  pop_front_of (x ∷ xs) i ne (inr l) = inr (pop_front_of xs i ne l)

  some-ne-none : (x : String) → some x ≢ none
  some-ne-none x e = absurd (ground (arith, e))

  -- Another id leaves a list.
  popped-Keeps :
      (k : QueueName) (xs : List String) (i : JobId) (s : K)
      → Next R prefix k xs i s
      → ¬ ((k ≡ q) × (i ≡ id))
      → Keeps R prefix q id s (popped R prefix k s)
  popped-Keeps k xs i s h other =
      let key = pending_key prefix k in
      let only = structures.rpop-Only key s in
      record {
        body = (only (job_key prefix id) (Apart.pending-ne-job prefix k id)).text;
        waiting = λ l. elim (string_discrete k q) [
          | yes e ↦ rw⁻¹ e (
              rw (structures.rpop_last key i xs s h).1
                (pop_front_of xs i (λ p. other (e, p)) (rw⁻¹ h (rw e l))))
          | no n ↦
              rw (only (pending_key prefix q) (λ e. n (Apart.pending_key_inj prefix k q e))).items l
        ];
        held = λ token z.
            (only (lease_key prefix) (Apart.pending-ne-lease prefix k)).members
              (lease_member q id token)
            ∙ z;
        delayed = λ z.
            (only (delayed_key prefix) (Apart.pending-ne-delayed prefix k)).members
              (delayed_member q id)
            ∙ z;
        dead = λ l. rw (only (dead_key prefix q) (Apart.pending-ne-dead prefix k q)).items l;
      }

  leased-Keeps :
      (k : QueueName) (lease : Duration) (now : ℕ) (token : ClaimToken) (i : JobId) (s : K)
      → Keeps R prefix q id (popped R prefix k s) (leased R prefix k lease now token i s)
  leased-Keeps k lease now token i s =
      let t = popped R prefix k s in
      let u = (R.incr (attempts_key prefix i) t).1 in
      Keeps-trans R prefix q id t u (leased R prefix k lease now token i s)
        (incr_attempts-Keeps R prefix q id structures i t)
        (lease-Keeps R prefix q id structures (lease_member k i token) (wrap (now + millis lease))
          u)

  module _ (k : QueueName) (lease : Duration) (now : ℕ) (token : ClaimToken) (s : K) (safe : Safe s)
      (others : OthersBodies R codec prefix q id s) (faithful : IsFaithful codec) where
    abbrev claimed : K
    claimed = (try_claim_one R codec prefix k lease now token s).1

    abbrev after : JobId → K
    after i = leased R prefix k lease now token i s

    apart :
        (xs : List String) (i : JobId)
        → Next R prefix k xs i s
        → ¬ ((k ≡ q) × (i ≡ id))
        → Safe (after i)
    apart xs i h other =
        IsSafe-Keeps R codec prefix q id s (after i)
          (Keeps-trans R prefix q id s (popped R prefix k s) (after i)
            (popped-Keeps k xs i s h other) (leased-Keeps k lease now token i s))
          safe

    after-Safe : (xs : List String) (i : JobId) → Next R prefix k xs i s → Safe (after i)
    after-Safe xs i h = elim (string_discrete k q) [
      | yes e ↦ elim (string_discrete i id) [
        | yes f ↦
            let body : R.get (job_key prefix id) (after i) ≡ R.get (job_key prefix id) s =
              (leased-Keeps k lease now token i s).body
              ∙ (structures.rpop-Only (pending_key prefix k) s (job_key prefix id)
                  (Apart.pending-ne-job prefix k id)).text in
            let held : (R.zrem (lease_key prefix) (lease_member q id token) (after i)).0 ≡ true =
              ap (λ m. (R.zrem (lease_key prefix) m (after i)).0)
                (ap (λ x. lease_member x id token) (sym e)
                  ∙ ap (λ x. lease_member k x token) (sym f))
              ∙ leased-held R codec prefix laws structures reachable k lease now token i s in
            ((safe.0.0, safe.0.1, body ∙ safe.0.2, safe.0.3, safe.0.4), inr (inl (token, held)))
        | no n ↦ apart xs i h (λ p. n p.1)
      ]
      | no n ↦ apart xs i h (λ p. n p.0)
    ]

    read_as_own :
        (i : JobId) (body : String) (j : Job)
        → R.get (job_key prefix i) s ≡ some body
        → codec.job_from_str body ≡ value j
        → j.id ≡ id
        → j.queue ≡ q
    read_as_own i body j b d e = elim (string_discrete i id) [
      | yes f ↦
          let own : R.get (job_key prefix id) s ≡ some body =
            ap (λ x. R.get (job_key prefix x) s) (sym f) ∙ b in
          ground (arith, own, d, safe.0.2, safe.0.3, safe.0.4)
      | no n ↦ absurd (others i body j n b d e)
    ]

    ends :
        (r : Result (Option ClaimedJob) × K)
        → try_claim_one R codec prefix k lease now token s ≡ r
        → Safe r.1
        → Safe claimed
    ends r e safe_after = subst (λ x. Safe x.1) (sym e) safe_after

    claimed_body-Safe :
        (xs : List String) (i : JobId) (body : String) (r : Serde Job)
        → Next R prefix k xs i s
        → R.get (job_key prefix i) s ≡ some body
        → codec.job_from_str body ≡ r
        → Safe claimed
    claimed_body-Safe xs i body (value j) h b d =
        let j' = attempted R prefix i j k s in
        ends _
          (body_claimed R codec prefix laws structures reachable k xs lease now token i j body s h b
            d)
          (mirrored-Safe R codec prefix laws structures reachable q id j' (codec.job_to_string j')
            (after i) faithful (read_as_own i body j b d) refl (after-Safe xs i h))
    claimed_body-Safe xs i body (malformed message) h b d =
        ends _
          (body_malformed R codec prefix laws structures reachable k xs lease now token i body
            message s h b d)
          (after-Safe xs i h)

    claimed_id-Safe :
        (xs : List String) (i : JobId) (o : Option String)
        → Next R prefix k xs i s
        → R.get (job_key prefix i) s ≡ o
        → Safe claimed
    claimed_id-Safe xs i none h b =
        let other : ¬ ((k ≡ q) × (i ≡ id)) = λ p.
          some-ne-none safe.0.0
            (sym safe.0.2 ∙ ap (λ x. R.get (job_key prefix x) s) (sym p.1) ∙ b) in
        ends _
          (orphan_dropped R codec prefix laws structures reachable k xs lease now token i s h b)
          (IsSafe-Keeps R codec prefix q id s (popped R prefix k s) (popped-Keeps k xs i s h other)
            safe)
    claimed_id-Safe xs i (some body) h b =
        claimed_body-Safe xs i body (codec.job_from_str body) h b refl

    claimed_last-Safe :
        (o : Option (List String × JobId))
        → Parts (R.lrange (pending_key prefix k) s) o
        → Safe claimed
    claimed_last-Safe none e =
        ends _ (nothing_waits R codec prefix laws structures reachable k lease now token s e) safe
    claimed_last-Safe (some (xs, i)) e = claimed_id-Safe xs i (R.get (job_key prefix i) s) e refl

    pub claimed-Safe : Safe claimed
    claimed-Safe =
        claimed_last-Safe (last_of (R.lrange (pending_key prefix k) s))
          (last_of-Parts (R.lrange (pending_key prefix k) s))
