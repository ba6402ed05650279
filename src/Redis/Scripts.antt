-- ===== src/Redis/Scripts.antt =====
-- The Lua scripts of broker/redis_broker.rs. Redis runs a script as one step.
use Prim.Native.String.{◌++◌}
use capivara_rs.Prelude.{
  ℕ, ◌+◌, String, Bool, true, false, Option, none, some, List, [], ◌∷◌, if◌then◌else◌,
}
use capivara_rs.Job.{ClaimToken}
use capivara_rs.Redis.{Redis, ℤ}
use capivara_rs.Redis.Keys.{member_sep, split_at_sep, parse_lease}

-- Where a requeued job goes: `LPUSH` of the id, or `ZADD` of the delayed member.
pub data Requeue : Type 0 where
  to_pending : String → String → Requeue
  to_delayed : String → ℕ → String → Requeue

module _ {K : Type 0} (R : Redis K) where
  open R use {get, set, set_nx, del, incr, lpush, rpop, zadd, zrem, zrangebyscore}

  unfoldable pub claim_body :
      String
      → String
      → String
      → ℕ
      → String
      → ClaimToken
      → String
      → Option String
      → K
      → Option (String × ℤ) × K
  claim_body lease_key id job_prefix expiry queue token attempts_prefix none s = (none, s)
  claim_body lease_key id job_prefix expiry queue token attempts_prefix (some body) s =
      let (attempts, s') = incr (attempts_prefix ++ id) s in
      let member : String = queue ++ (member_sep ++ (id ++ (member_sep ++ token))) in
      (some (body, attempts), zadd lease_key expiry member s')

  unfoldable pub claim_script :
      String → String → String → ℕ → String → ClaimToken → String → K → Option (String × ℤ) × K
  unfolding claim_body
  claim_script pending lease_key job_prefix expiry queue token attempts_prefix s =
      let (popped, s') = rpop pending s in
      elim popped [
        | none ↦ (none, s')
        | some id ↦
            claim_body lease_key id job_prefix expiry queue token attempts_prefix
              (get (job_prefix ++ id) s') s'
      ]

  unfoldable pub ack_script : String → String → String → String → K → Bool × K
  ack_script lease_key job_key member attempts_key s =
      let (removed, s') = zrem lease_key member s in
      if removed then (true, del attempts_key (del job_key s')) else (false, s')

  unfoldable pub push_requeue : Requeue → K → K
  push_requeue (to_pending pending id) s = lpush pending id s
  push_requeue (to_delayed delayed score member) s = zadd delayed score member s

  -- A settlement with the body still there, after the lease member was removed.
  unfoldable pub with_body : (K → K) → Option String → K → Bool × K
  with_body f none s = (false, s)
  with_body f (some body) s = (true, f s)

  unfoldable pub nack_script : String → String → String → Requeue → K → Bool × K
  unfolding with_body push_requeue
  nack_script lease_key job_key member target s =
      let (removed, s') = zrem lease_key member s in
      if removed then with_body (push_requeue target) (get job_key s') s' else (false, s')

  unfoldable pub dead_letter_script :
      String → String → String → String → String → String → String → String → K → Bool × K
  unfolding with_body
  dead_letter_script lease_key dead job_key member id reason_key reason attempts_key s =
      let (removed, s') = zrem lease_key member s in
      if removed
      then with_body (λ t. del attempts_key (set reason_key reason (lpush dead id t)))
          (get job_key s') s'
      else (false, s')

  -- The end of the loops of the promote and recover scripts: push the id, or drop the orphan.
  unfoldable pub push_or_drop : String → String → String × String → Option String → K → ℕ × K
  push_or_drop pending_prefix attempts_prefix (queue, id) none s =
      (0, del (attempts_prefix ++ id) s)
  push_or_drop pending_prefix attempts_prefix (queue, id) (some body) s =
      (1, lpush (pending_prefix ++ (queue ++ ":pending")) id s)

  -- One member, once it was removed.
  unfoldable pub return_member : String → String → String → Option (String × String) → K → ℕ × K
  unfolding push_or_drop
  return_member pending_prefix job_prefix attempts_prefix none s = (0, s)
  return_member pending_prefix job_prefix attempts_prefix (some m) s =
      push_or_drop pending_prefix attempts_prefix m (get (job_prefix ++ m.1) s) s

  -- `for _, member in ipairs(members)`: the members that were removed go back to their queues.
  unfoldable pub return_members :
      (String → Option (String × String))
      → String
      → String
      → String
      → String
      → List String
      → K
      → ℕ × K
  unfolding return_member
  return_members parse key pending_prefix job_prefix attempts_prefix [] s = (0, s)
  return_members parse key pending_prefix job_prefix attempts_prefix (m ∷ ms) s =
      let (removed, t) = zrem key m s in
      let (n, u) =
        if removed
        then return_member pending_prefix job_prefix attempts_prefix (parse m) t
        else (0, t) in
      let (k, v) = return_members parse key pending_prefix job_prefix attempts_prefix ms u in
      (n + k, v)

  unfoldable pub promote_script : String → ℕ → String → String → String → K → ℕ × K
  unfolding return_members
  promote_script delayed_key now pending_prefix job_prefix attempts_prefix s =
      return_members split_at_sep delayed_key pending_prefix job_prefix attempts_prefix
        (zrangebyscore delayed_key now s) s

  unfoldable pub recover_script : String → ℕ → String → String → String → K → ℕ × K
  unfolding return_members
  recover_script lease_key now pending_prefix job_prefix attempts_prefix s =
      return_members parse_lease lease_key pending_prefix job_prefix attempts_prefix
        (zrangebyscore lease_key now s) s

  -- What the script returns is nil only if the key holds no text after all.
  unfoldable pub enqueue_idempotent_script :
      String → String → String → String → String → K → Option String × K
  enqueue_idempotent_script idempotency_key job_key pending id body s =
      let (was_set, t) = set_nx idempotency_key id (set job_key body s) in
      if was_set
      then (some id, lpush pending id t)
      else let u = del job_key t in (get idempotency_key u, u)
