-- ===== src/Redis/Orphans.antt =====
-- `claim` on a Redis server that answers, where the next id of a queue has no body.
use capivara_rs.Prelude.{ℕ, ◌≤◌, String, none, some, List, [], ◌∷◌, ◌≡◌, refl, ◌∙◌, arith}
use capivara_rs.Time.{Duration, Instant, instant_max, add_duration}
use capivara_rs.Error.{ok, pure, ◌>>◌, then_lem}
use capivara_rs.Job.{JobId, QueueName}
use capivara_rs.Memory.Claim.{queue_names}
use capivara_rs.Redis.{Redis, Codec}
use capivara_rs.Redis.Keys.{
  pending_key, pending_key_prefix, job_key, job_key_prefix, attempts_key_prefix, lease_key,
  delayed_key,
}
use capivara_rs.Redis.Scripts.{promote_script, recover_script}
use capivara_rs.Redis.Claim.{
  Round, recover_expired_leases, promote_delayed, try_queues, claim_pass, claim_loop, claim,
}
use capivara_rs.Redis.Laws.{Laws, Reachable}
use capivara_rs.Redis.Structures.{Structures}
use capivara_rs.Redis.Ownership.{call-then}
use capivara_rs.Redis.Popping.{Next, popped, orphan_dropped}

module _ {K : Type 0} (R : Redis K) (codec : Codec) (prefix : String) (laws : Laws R)
    (structures : Structures R) (reachable : Reachable R) where
  -- No lease has run out, and no delayed job is due.
  abbrev pub Settled : Round → K → Type 0
  Settled r s =
      (R.zrangebyscore (lease_key prefix) r.recover_ms s ≡ [])
      × (R.zrangebyscore (delayed_key prefix) r.promote_ms s ≡ [])

  nothing_recovered :
      (now : ℕ) (s : K)
      → R.zrangebyscore (lease_key prefix) now s ≡ []
      → recover_expired_leases R codec prefix now s ≡ (ok tt, s)
  unfolding recover_expired_leases recover_script
  nothing_recovered now s h =
      call-then R codec prefix laws reachable
        (recover_script R (lease_key prefix) now (pending_key_prefix prefix) (job_key_prefix prefix)
          (attempts_key_prefix prefix))
        (λ _. pure tt) s
      ∙ rw (recover_script, h) refl

  nothing_promoted :
      (now : ℕ) (s : K)
      → R.zrangebyscore (delayed_key prefix) now s ≡ []
      → promote_delayed R codec prefix now s ≡ (ok tt, s)
  unfolding promote_delayed promote_script
  nothing_promoted now s h =
      call-then R codec prefix laws reachable
        (promote_script R (delayed_key prefix) now (pending_key_prefix prefix)
          (job_key_prefix prefix) (attempts_key_prefix prefix))
        (λ _. pure tt) s
      ∙ rw (promote_script, h) refl

  claim_pass-Settled :
      (queues : List QueueName) (lease : Duration) (r : Round) (s : K)
      → Settled r s
      → claim_pass R codec prefix queues lease r s
        ≡ try_queues R codec prefix lease r 0 (queue_names queues) s
  unfolding claim_pass
  claim_pass-Settled queues lease r s (h, k) =
      let tries = try_queues R codec prefix lease r 0 (queue_names queues) in
      let promotes = promote_delayed R codec prefix r.promote_ms in
      then_lem (recover_expired_leases R codec prefix r.recover_ms) (λ _. promotes >> tries) tt s s
        (nothing_recovered r.recover_ms s h)
      ∙ then_lem promotes (λ _. tries) tt s s (nothing_promoted r.promote_ms s k)

  pass_drops :
      (q : QueueName) (xs : List String) (id : JobId) (lease : Duration) (r : Round) (s : K)
      → Settled r s
      → Next R prefix q xs id s
      → R.get (job_key prefix id) s ≡ none
      → claim_pass R codec prefix (q ∷ []) lease r s ≡ (ok none, popped R prefix q s)
  unfolding try_queues queue_names
  pass_drops q xs id lease r s settled h b =
      claim_pass-Settled (q ∷ []) lease r s settled
      ∙ rw
          (orphan_dropped R codec prefix laws structures reachable q xs lease (r.claim_ms 0)
            (r.token 0) id s h b)
          refl

  -- On a Redis server that answers, where no lease has run out, no delayed job is due and the next
  -- id of a queue has no body: a `claim` of this queue that may not wait returns nothing and drops
  -- the id, whatever other ids wait behind it, and these still wait.
  pub orphan_hides_jobs :
      (q : QueueName) (xs : List String) (id : JobId) (lease : Duration) (start : Instant)
      (r : Round) (s : K)
      → Settled r s
      → Next R prefix q xs id s
      → R.get (job_key prefix id) s ≡ none
      → start ≤ instant_max
      → (claim R codec prefix (q ∷ []) lease start 0 (r ∷ []) s
          ≡ some (ok none, popped R prefix q s))
        × (R.lrange (pending_key prefix q) (popped R prefix q s) ≡ xs)
  unfolding claim claim_loop add_duration
  orphan_hides_jobs q xs id lease start r s settled h b fits = (
    ground (arith, pass_drops q xs id lease r s settled h b),
    (structures.rpop_last (pending_key prefix q) id xs s h).1,
  )
