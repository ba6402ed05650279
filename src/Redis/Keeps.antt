-- ===== src/Redis/Keeps.antt =====
-- Where a job on Redis is: in its queue's list, leased, delayed or dead. What a command leaves there.
pub mod Writes
pub mod Settling
pub mod Written
pub mod Bodies
pub mod Returning
pub mod Safe
pub mod Claiming
pub mod Enqueuing
pub mod Own
use capivara_rs.Prelude.{
  ℕ, String, true, List, ◌≡◌, ◌≢◌, refl, ◌∙◌, ◌⊎◌, inl, inr, if_pos, if_neg, string_discrete,
}
use capivara_rs.Job.{JobId, ClaimToken}
use capivara_rs.Redis.{Redis}
use capivara_rs.Redis.Keys.{
  pending_key, dead_key, job_key, lease_key, delayed_key, lease_member, delayed_member,
}
use capivara_rs.Redis.Structures.{Structures, Listed, Only}
use capivara_rs.Redis.Apart

module _ {K : Type 0} (R : Redis K) (prefix : String) (q : String) (id : JobId) where
  -- The id waits in the list of the queue, a claim holds it, it is delayed, or it is dead.
  abbrev pub Somewhere : K → Type 0
  Somewhere s =
      Listed id (R.lrange (pending_key prefix q) s)
      ⊎ ((token : ClaimToken) × ((R.zrem (lease_key prefix) (lease_member q id token) s).0 ≡ true))
      ⊎ ((R.zrem (delayed_key prefix) (delayed_member q id) s).0 ≡ true)
      ⊎ Listed id (R.lrange (dead_key prefix q) s)

  -- The job stays where it is in `s`, and so does its body.
  pub record Keeps (s t : K) : Type 0 where
    pub body : R.get (job_key prefix id) t ≡ R.get (job_key prefix id) s
    pub waiting :
        Listed id (R.lrange (pending_key prefix q) s)
        → Listed id (R.lrange (pending_key prefix q) t)
    pub held :
        (token : ClaimToken)
        → (R.zrem (lease_key prefix) (lease_member q id token) s).0 ≡ true
        → (R.zrem (lease_key prefix) (lease_member q id token) t).0 ≡ true
    pub delayed :
        (R.zrem (delayed_key prefix) (delayed_member q id) s).0 ≡ true
        → (R.zrem (delayed_key prefix) (delayed_member q id) t).0 ≡ true
    pub dead :
        Listed id (R.lrange (dead_key prefix q) s) → Listed id (R.lrange (dead_key prefix q) t)

  pub Keeps-refl : (s : K) → Keeps s s
  Keeps-refl s = record {
    body = refl;
    waiting = λ l. l;
    held = λ token h. h;
    delayed = λ h. h;
    dead = λ l. l;
  }

  pub Keeps-trans : (s t u : K) → Keeps s t → Keeps t u → Keeps s u
  Keeps-trans s t u a b = record {
    body = b.body ∙ a.body;
    waiting = λ l. b.waiting (a.waiting l);
    held = λ token h. b.held token (a.held token h);
    delayed = λ h. b.delayed (a.delayed h);
    dead = λ l. b.dead (a.dead l);
  }

  pub Somewhere-Keeps : (s t : K) → Keeps s t → Somewhere s → Somewhere t
  Somewhere-Keeps s t k (inl l) = inl (k.waiting l)
  Somewhere-Keeps s t k (inr (inl (token, h))) = inr (inl (token, k.held token h))
  Somewhere-Keeps s t k (inr (inr (inl h))) = inr (inr (inl (k.delayed h)))
  Somewhere-Keeps s t k (inr (inr (inr l))) = inr (inr (inr (k.dead l)))

  same_list : (x : String) (xs ys : List String) → ys ≡ xs → Listed x xs → Listed x ys
  same_list x xs ys e l = rw e l

  -- A key of nothing that concerns the job.
  abbrev pub IsForeign : String → Type 0
  IsForeign k =
      (k ≢ job_key prefix id)
      × (k ≢ pending_key prefix q)
      × (k ≢ lease_key prefix)
      × (k ≢ delayed_key prefix)
      × (k ≢ dead_key prefix q)

  pub Only-Keeps : (k : String) (s t : K) → IsForeign k → Only R k s t → Keeps s t
  Only-Keeps k s t f only =
      let w = only (pending_key prefix q) f.1 in
      let d = only (dead_key prefix q) f.4 in
      record {
        body = (only (job_key prefix id) f.0).text;
        waiting = λ l. rw w.items l;
        held = λ token h. (only (lease_key prefix) f.2).members (lease_member q id token) ∙ h;
        delayed = λ h. (only (delayed_key prefix) f.3).members (delayed_member q id) ∙ h;
        dead = λ l. rw d.items l;
      }

  module _ (structures : Structures R) where
    pushed-Listed :
        (j k v : String) (s : K) → Listed id (R.lrange j s) → Listed id (R.lrange j (R.lpush k v s))
    pushed-Listed j k v s l = elim (string_discrete k j) [
      | yes e ↦ rw⁻¹ e (rw (structures.lrange-lpush k v s) (inr (rw e l)))
      | no n ↦ rw (structures.lpush-Only k v s j n).items l
    ]

    -- A push onto the list of a queue.
    pub lpush-Keeps :
        (k v : String) (s : K)
        → k ≢ job_key prefix id
        → k ≢ lease_key prefix
        → k ≢ delayed_key prefix
        → Keeps s (R.lpush k v s)
    lpush-Keeps k v s j l d = record {
      body = (structures.lpush-Only k v s (job_key prefix id) j).text;
      waiting = pushed-Listed (pending_key prefix q) k v s;
      held = λ token h.
          (structures.lpush-Only k v s (lease_key prefix) l).members (lease_member q id token) ∙ h;
      delayed = λ h.
          (structures.lpush-Only k v s (delayed_key prefix) d).members (delayed_member q id) ∙ h;
      dead = pushed-Listed (dead_key prefix q) k v s;
    }

    added-has :
        (j k m p : String) (n : ℕ) (s : K)
        → (R.zrem j p s).0 ≡ true
        → (R.zrem j p (R.zadd k n m s)).0 ≡ true
    added-has j k m p n s h = elim (string_discrete k j) [
      | yes e ↦ rw⁻¹ e (
          structures.has-zadd k n m p s ∙ elim (string_discrete m p) [
            | yes f ↦ if_pos (string_discrete m p) f true (R.zrem k p s).0
            | no g ↦ if_neg (string_discrete m p) g true (R.zrem k p s).0 ∙ rw e h
          ])
      | no ne ↦ (structures.zadd-Only k n m s j ne).members p ∙ h
    ]

    -- A member more in a sorted set.
    pub zadd-Keeps :
        (k m : String) (n : ℕ) (s : K)
        → k ≢ job_key prefix id
        → k ≢ pending_key prefix q
        → k ≢ dead_key prefix q
        → Keeps s (R.zadd k n m s)
    zadd-Keeps k m n s j w d = record {
      body = (structures.zadd-Only k n m s (job_key prefix id) j).text;
      waiting = λ l. rw (structures.zadd-Only k n m s (pending_key prefix q) w).items l;
      held = λ token. added-has (lease_key prefix) k m (lease_member q id token) n s;
      delayed = added-has (delayed_key prefix) k m (delayed_member q id) n s;
      dead = λ l. rw (structures.zadd-Only k n m s (dead_key prefix q) d).items l;
    }
