-- ===== src/Redis/Keeps/Returning.antt =====
-- `recover_expired_leases` and `promote_delayed` on a Redis server that answers leave a job somewhere.
use capivara_rs.Prelude.{ℕ, String, some, List, [], ◌∷◌, ◌≡◌, sym, ◌∙◌, inl, inr, string_discrete}
use capivara_rs.Job.{JobId}
use capivara_rs.Redis.{Redis, Codec}
use capivara_rs.Redis.Keys.{
  pending_key, dead_key, job_key, lease_key, delayed_key, lease_member, delayed_member, parse_lease,
  split_at_sep,
}
use capivara_rs.Redis.Claim.{recover_expired_leases, promote_delayed}
use capivara_rs.Redis.Laws.{Laws, Reachable}
use capivara_rs.Redis.Structures.{Structures, Listed}
use capivara_rs.Redis.Apart
use capivara_rs.Redis.Members.{NoSep, parse_members}
use capivara_rs.Redis.Recovery.{Returns}
use capivara_rs.Redis.Redelivery.{
  recovering, promoting, recover-Brings, promote-Brings, onto-Listed, onto-returned,
}
use capivara_rs.Redis.Keeps.{Somewhere}
use capivara_rs.Redis.Keeps.Safe.{IsSafe}

listed : (m : String) (ms : List String) → Dec (Listed m ms)
listed m [] = no (λ l. elim l [ ])
listed m (x ∷ ms) = elim (string_discrete x m) [
  | yes e ↦ yes (inl e)
  | no n ↦ elim (listed m ms) [
    | yes l ↦ yes (inr l)
    | no k ↦ no (λ l. elim l [ inl e ↦ n e | inr h ↦ k h ])
  ]
]

module _ {K : Type 0} (R : Redis K) (codec : Codec) (prefix : String) (laws : Laws R)
    (structures : Structures R) (reachable : Reachable R) (q : String) (id : JobId) (hq : NoSep q)
    (hid : NoSep id) where
  recovered-Somewhere :
      (ms : List String) (s : K) (body : String) (r : ℕ × K)
      → R.get (job_key prefix id) s ≡ some body
      → Returns R prefix parse_lease (lease_key prefix) ms s r
      → Somewhere R prefix q id s
      → Somewhere R prefix q id r.1
  recovered-Somewhere ms s body r b back (inl l) = inl (
      rw (back.queues q)
        (onto-Listed R prefix parse_lease q ms s id (R.lrange (pending_key prefix q) s) l))
  recovered-Somewhere ms s body r b back (inr (inl (token, h))) =
      elim (listed (lease_member q id token) ms) [
        | yes l ↦ inl (
            rw (back.queues q) (
              onto-returned R prefix parse_lease q ms s (lease_member q id token) id body
                (R.lrange (pending_key prefix q) s) l (parse_members q id token hq hid).1 b))
        | no n ↦ inr (inl (token, back.stay (lease_member q id token) n ∙ h))
      ]
  recovered-Somewhere ms s body r b back (inr (inr (inl h))) = inr (
      inr (
        inl (
          (back.others (delayed_key prefix) (Apart.lease-ne-delayed prefix)
              (Apart.pending-ne-delayed prefix) (Apart.attempts-ne-delayed prefix)).members
            (delayed_member q id)
          ∙ h)))
  recovered-Somewhere ms s body r b back (inr (inr (inr l))) = inr (
      inr (
        inr (
          rw
            (back.others (dead_key prefix q) (λ e. Apart.dead-ne-lease prefix q (sym e))
              (λ k. Apart.pending-ne-dead prefix k q)
              (λ i. Apart.attempts-ne-dead prefix i q)).items
            l)))

  promoted-Somewhere :
      (ms : List String) (s : K) (body : String) (r : ℕ × K)
      → R.get (job_key prefix id) s ≡ some body
      → Returns R prefix split_at_sep (delayed_key prefix) ms s r
      → Somewhere R prefix q id s
      → Somewhere R prefix q id r.1
  promoted-Somewhere ms s body r b back (inl l) = inl (
      rw (back.queues q)
        (onto-Listed R prefix split_at_sep q ms s id (R.lrange (pending_key prefix q) s) l))
  promoted-Somewhere ms s body r b back (inr (inl (token, h))) = inr (
      inl (
        token,
        (back.others (lease_key prefix) (λ e. Apart.lease-ne-delayed prefix (sym e))
                (Apart.pending-ne-lease prefix) (Apart.attempts-ne-lease prefix)).members
              (lease_member q id token)
            ∙ h,
      ))
  promoted-Somewhere ms s body r b back (inr (inr (inl h))) =
      elim (listed (delayed_member q id) ms) [
        | yes l ↦ inl (
            rw (back.queues q) (
              onto-returned R prefix split_at_sep q ms s (delayed_member q id) id body
                (R.lrange (pending_key prefix q) s) l (parse_members q id "" hq hid).0 b))
        | no n ↦ inr (inr (inl (back.stay (delayed_member q id) n ∙ h)))
      ]
  promoted-Somewhere ms s body r b back (inr (inr (inr l))) = inr (
      inr (
        inr (
          rw
            (back.others (dead_key prefix q) (λ e. Apart.dead-ne-delayed prefix q (sym e))
              (λ k. Apart.pending-ne-dead prefix k q)
              (λ i. Apart.attempts-ne-dead prefix i q)).items
            l)))

  pub recovered-Safe :
      (now : ℕ) (s : K)
      → IsSafe R codec prefix q id s
      → IsSafe R codec prefix q id (recover_expired_leases R codec prefix now s).1
  recovered-Safe now s safe =
      let (e, back) = recover-Brings R codec prefix laws structures reachable now s in
      let body =
        (back.others (job_key prefix id) (λ p. Apart.job-ne-lease prefix id (sym p))
          (λ k. Apart.pending-ne-job prefix k id) (λ i. Apart.attempts-ne-job prefix i id)).text in
      (
        (safe.0.0, safe.0.1, body ∙ safe.0.2, safe.0.3, safe.0.4),
        recovered-Somewhere (R.zrangebyscore (lease_key prefix) now s) s safe.0.0
            ((recovering R prefix now s).0, (recover_expired_leases R codec prefix now s).1)
            safe.0.2 back safe.1,
      )

  pub promoted-Safe :
      (now : ℕ) (s : K)
      → IsSafe R codec prefix q id s
      → IsSafe R codec prefix q id (promote_delayed R codec prefix now s).1
  promoted-Safe now s safe =
      let (e, back) = promote-Brings R codec prefix laws structures reachable now s in
      let body =
        (back.others (job_key prefix id) (λ p. Apart.job-ne-delayed prefix id (sym p))
          (λ k. Apart.pending-ne-job prefix k id) (λ i. Apart.attempts-ne-job prefix i id)).text in
      (
        (safe.0.0, safe.0.1, body ∙ safe.0.2, safe.0.3, safe.0.4),
        promoted-Somewhere (R.zrangebyscore (delayed_key prefix) now s) s safe.0.0
            ((promoting R prefix now s).0, (promote_delayed R codec prefix now s).1) safe.0.2 back
            safe.1,
      )
