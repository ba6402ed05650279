-- ===== src/Redis/Redelivery.antt =====
-- `recover_expired_leases` and `promote_delayed` on a Redis server that answers: no job stays with a
-- worker whose lease ran out.
use capivara_rs.Prelude.{
  ℕ, String, Option, some, List, [], ◌∷◌, ◌≡◌, false, refl, sym, none, ◌∙◌, ap, inl, inr, if_pos,
  if_neg, string_discrete,
}
use capivara_rs.Error.{ok, Result, pure}
use capivara_rs.Job.{JobId, ClaimToken}
use capivara_rs.Redis.{Redis, Codec}
use capivara_rs.Redis.Keys.{
  pending_key, pending_key_prefix, job_key, job_key_prefix, attempts_key_prefix, lease_key,
  delayed_key, lease_member, split_at_sep, parse_lease,
}
use capivara_rs.Redis.Scripts.{promote_script, recover_script}
use capivara_rs.Redis.Claim.{recover_expired_leases, promote_delayed}
use capivara_rs.Redis.Laws.{Laws, Reachable}
use capivara_rs.Redis.Structures.{Structures, Listed}
use capivara_rs.Redis.Apart
use capivara_rs.Redis.Ownership.{call-then}
use capivara_rs.Redis.Members.{NoSep, parse_members}
use capivara_rs.Redis.Returning.{IsApart, onto, back, body_of}
use capivara_rs.Redis.Recovery.{Returns, return_members-Returns}

module _ {K : Type 0} (R : Redis K) (prefix : String) where
  -- The scripts as the calls invoke them: how many jobs a script says it brought back, and what it
  -- leaves.
  abbrev pub recovering : ℕ → K → ℕ × K
  recovering now =
      recover_script R (lease_key prefix) now (pending_key_prefix prefix) (job_key_prefix prefix)
        (attempts_key_prefix prefix)

  abbrev pub promoting : ℕ → K → ℕ × K
  promoting now =
      promote_script R (delayed_key prefix) now (pending_key_prefix prefix) (job_key_prefix prefix)
        (attempts_key_prefix prefix)

  -- The call ended well, and brought the members back with `n` as its script's reply.
  abbrev pub Brings :
      (String → Option (String × JobId))
      → String
      → List String
      → K
      → ℕ
      → Result (Unit {0}) × K
      → Type 0
  Brings parse key ms s n r = (r.0 ≡ ok tt) × Returns R prefix parse key ms s (n, r.1)

module _ {K : Type 0} (R : Redis K) (codec : Codec) (prefix : String) (laws : Laws R)
    (structures : Structures R) (reachable : Reachable R) where
  lease-IsApart : IsApart R prefix (lease_key prefix)
  lease-IsApart =
      (Apart.pending-ne-lease prefix, Apart.attempts-ne-lease prefix, Apart.job-ne-lease prefix)

  delayed-IsApart : IsApart R prefix (delayed_key prefix)
  delayed-IsApart = (
    Apart.pending-ne-delayed prefix,
    Apart.attempts-ne-delayed prefix,
    Apart.job-ne-delayed prefix,
  )

  answered :
      (parse : String → Option (String × JobId)) (key : String) (ms : List String) (s : K)
      (reply : ℕ × K) (r : Result (Unit {0}) × K)
      → r ≡ (ok tt, reply.1)
      → Returns R prefix parse key ms s reply
      → Brings R prefix parse key ms s reply.0 r
  answered parse key ms s reply r e returns = rw e (refl, returns)

  pub recover-Brings :
      (now : ℕ) (s : K)
      → Brings R prefix parse_lease
          (lease_key prefix)
          (R.zrangebyscore (lease_key prefix) now s)
          s
          ((recovering R prefix now s).0)
          (recover_expired_leases R codec prefix now s)
  unfolding recover_expired_leases recover_script
  recover-Brings now s =
      let key = lease_key prefix in
      let ms = R.zrangebyscore key now s in
      let script = recovering R prefix now in
      answered parse_lease key ms s (script s) (recover_expired_leases R codec prefix now s)
        (call-then R codec prefix laws reachable script (λ _. pure tt) s)
        (return_members-Returns R prefix structures parse_lease key lease-IsApart ms s
          (structures.zrangebyscore-Distinct key now s)
          (λ m. structures.zrangebyscore-has key now m s))

  pub promote-Brings :
      (now : ℕ) (s : K)
      → Brings R prefix split_at_sep
          (delayed_key prefix)
          (R.zrangebyscore (delayed_key prefix) now s)
          s
          ((promoting R prefix now s).0)
          (promote_delayed R codec prefix now s)
  unfolding promote_delayed promote_script
  promote-Brings now s =
      let key = delayed_key prefix in
      let ms = R.zrangebyscore key now s in
      let script = promoting R prefix now in
      answered split_at_sep key ms s (script s) (promote_delayed R codec prefix now s)
        (call-then R codec prefix laws reachable script (λ _. pure tt) s)
        (return_members-Returns R prefix structures split_at_sep key delayed-IsApart ms s
          (structures.zrangebyscore-Distinct key now s)
          (λ m. structures.zrangebyscore-has key now m s))

  -- On a Redis server that answers, `recover_expired_leases` and `promote_delayed` each succeed and
  -- bring back the members up to their reading: these leave the set, and the ids that are read from
  -- them and have a body are in front of the lists of their queues, the last of them first; the
  -- reply of the call's script, which the call does not return, is how many these are. Other
  -- members stay, and no key changes but those of the set, the queues and the counters of attempts.
  pub bring_back :
      (now : ℕ) (s : K)
      → Brings R prefix parse_lease
          (lease_key prefix)
          (R.zrangebyscore (lease_key prefix) now s)
          s
          ((recovering R prefix now s).0)
          (recover_expired_leases R codec prefix now s)
        × Brings R prefix split_at_sep
            (delayed_key prefix)
            (R.zrangebyscore (delayed_key prefix) now s)
            s
            ((promoting R prefix now s).0)
            (promote_delayed R codec prefix now s)
  bring_back now s = (recover-Brings now s, promote-Brings now s)

-- An id of the list stays in it, and an id that is brought back is in it.
module _ (q : String) where
  back-Listed :
      (o : Option (String × JobId)) (body : Option String) (x : String) (ids : List String)
      → Listed x ids
      → Listed x (back q o body ids)
  back-Listed none body x ids l = l
  back-Listed (some (queue, id)) none x ids l = l
  back-Listed (some (queue, id)) (some body) x ids l = elim (string_discrete queue q) [
    | yes e ↦ rw (if_pos (string_discrete queue q) e) (inr l)
    | no ne ↦ rw (if_neg (string_discrete queue q) ne) l
  ]

module _ {K : Type 0} (R : Redis K) (prefix : String) (parse : String → Option (String × JobId))
    (q : String) where
  pub onto-Listed :
      (ms : List String) (s : K) (x : String) (ids : List String)
      → Listed x ids
      → Listed x (onto R prefix parse q ms s ids)
  onto-Listed [] s x ids l = l
  onto-Listed (m ∷ ms) s x ids l =
      onto-Listed ms s x (back q (parse m) (body_of R prefix (parse m) s) ids)
        (back-Listed q (parse m) (body_of R prefix (parse m) s) x ids l)

  pub onto-returned :
      (ms : List String) (s : K) (m : String) (id : JobId) (body : String) (ids : List String)
      → Listed m ms
      → parse m ≡ some (q, id)
      → R.get (job_key prefix id) s ≡ some body
      → Listed id (onto R prefix parse q ms s ids)
  onto-returned [] s m id body ids l p b = elim l [ ]
  onto-returned (k ∷ ms) s m id body ids (inl e) p b =
      let here : parse k ≡ some (q, id) = ap parse e ∙ p in
      onto-Listed ms s id (back q (parse k) (body_of R prefix (parse k) s) ids)
        (rw (here, b, if_pos (string_discrete q q) refl) (inl refl))
  onto-returned (k ∷ ms) s m id body ids (inr l) p b =
      onto-returned ms s m id body (back q (parse k) (body_of R prefix (parse k) s) ids) l p b

module _ {K : Type 0} (R : Redis K) (codec : Codec) (prefix : String) (laws : Laws R)
    (structures : Structures R) (reachable : Reachable R) where
  -- On a Redis server that answers: a job whose lease has run out, by the reading that recovery
  -- makes, waits again after `recover_expired_leases`, if it has a body and neither its queue's
  -- name nor its id holds the separator. Its id is in the list of its queue, its body is as it was
  -- and its claim is over; every id that waited in a queue waits there still.
  pub expired_job_waits :
      (now : ℕ) (q : String) (id : JobId) (token : ClaimToken) (body : String) (s : K)
      → NoSep q
      → NoSep id
      → Listed (lease_member q id token) (R.zrangebyscore (lease_key prefix) now s)
      → R.get (job_key prefix id) s ≡ some body
      → let t = (recover_expired_leases R codec prefix now s).1 in
        Listed id (R.lrange (pending_key prefix q) t)
        × (R.get (job_key prefix id) t ≡ some body)
        × ((R.zrem (lease_key prefix) (lease_member q id token) t).0 ≡ false)
        × ((k : String) (x : JobId)
            → Listed x (R.lrange (pending_key prefix k) s)
            → Listed x (R.lrange (pending_key prefix k) t))
  expired_job_waits now q id token body s hq hi l b =
      let ms = R.zrangebyscore (lease_key prefix) now s in
      let (e, r) = recover-Brings R codec prefix laws structures reachable now s in
      (
        rw (r.queues q) (
            onto-returned R prefix parse_lease q ms s (lease_member q id token) id body
              (R.lrange (pending_key prefix q) s) l (parse_members q id token hq hi).1 b),
        (r.others (job_key prefix id) (λ p. Apart.job-ne-lease prefix id (sym p))
              (λ k. Apart.pending-ne-job prefix k id) (λ i. Apart.attempts-ne-job prefix i id)).text
            ∙ b,
        r.gone (lease_member q id token) l,
        λ k x m.
            rw (r.queues k)
              (onto-Listed R prefix parse_lease k ms s x (R.lrange (pending_key prefix k) s) m),
      )
