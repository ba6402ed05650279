-- ===== src/Redis/Returning.antt =====
-- One member in the loops of the promote and recover scripts: where its id goes.
use Prim.Native.String
use capivara_rs.Prelude.{
  ℕ, ◌+◌, String, Option, none, some, List, [], ◌∷◌, ◌≡◌, ◌≢◌, refl, ite, if_pos, if_neg,
  string_discrete,
}
use capivara_rs.Job.{JobId}
use capivara_rs.Redis.{Redis}
use capivara_rs.Redis.Keys.{
  pending_key, pending_key_prefix, job_key, job_key_prefix, attempts_key, attempts_key_prefix,
}
use capivara_rs.Redis.Scripts.{push_or_drop, return_member}
use capivara_rs.Redis.Structures.{Structures, Same}
use capivara_rs.Redis.Apart

-- The list of the queue, once a member was read as the queue and the id of a job.
abbrev pub back : String → Option (String × JobId) → Option String → List String → List String
back q none body ids = ids
back q (some (queue, id)) none ids = ids
back q (some (queue, id)) (some body) ids = ite (string_discrete queue q) (id ∷ ids) ids

abbrev one_with : Option (String × JobId) → Option String → ℕ
one_with none body = 0
one_with (some m) none = 0
one_with (some m) (some body) = 1

module _ {K : Type 0} (R : Redis K) (prefix : String) where
  abbrev pub body_of : Option (String × JobId) → K → Option String
  body_of none s = none
  body_of (some m) s = R.get (job_key prefix m.1) s

  module _ (parse : String → Option (String × JobId)) where
    -- The list of the queue, once the members are back: those whose job has a body, the last of them
    -- in front.
    abbrev pub onto : String → List String → K → List String → List String
    onto q [] s ids = ids
    onto q (m ∷ ms) s ids = onto q ms s (back q (parse m) (body_of (parse m) s) ids)

    abbrev pub with_body_among : List String → K → ℕ
    with_body_among [] s = 0
    with_body_among (m ∷ ms) s = one_with (parse m) (body_of (parse m) s) + with_body_among ms s

  -- The key of the set lies apart from those that the loop writes.
  abbrev pub IsApart : String → Type 0
  IsApart key =
      ((q : String) → pending_key prefix q ≢ key)
      × ((id : JobId) → attempts_key prefix id ≢ key)
      × ((id : JobId) → job_key prefix id ≢ key)

  module _ (structures : Structures R) where
    push_or_drop-items :
        (q : String) (m : String × JobId) (body : Option String) (s : K)
        → R.lrange
            (pending_key prefix q)
            (push_or_drop R (pending_key_prefix prefix) (attempts_key_prefix prefix) m body s).1
          ≡ back q (some m) body (R.lrange (pending_key prefix q) s)
    unfolding push_or_drop
    push_or_drop-items q (queue, id) none s =
        rw (Apart.attempts_key_joined prefix id)
          (structures.del-Only (attempts_key prefix id) s (pending_key prefix q)
            (Apart.attempts-ne-pending prefix id q)).items
    push_or_drop-items q (queue, id) (some body) s =
        rw (Apart.pending_key_joined prefix queue) (elim (string_discrete queue q) [
          | yes e ↦
              rw (if_pos (string_discrete queue q) e, e)
                (structures.lrange-lpush (pending_key prefix q) id s)
          | no ne ↦
              rw (if_neg (string_discrete queue q) ne)
                (structures.lpush-Only (pending_key prefix queue) id s (pending_key prefix q)
                  (λ e. ne (Apart.pending_key_inj prefix queue q e))).items
        ])

    -- Every key but those of queues and of attempts.
    push_or_drop-Same :
        (key : String) (m : String × JobId) (body : Option String) (s : K)
        → ((q : String) → pending_key prefix q ≢ key)
        → ((id : JobId) → attempts_key prefix id ≢ key)
        → Same R key s
            (push_or_drop R (pending_key_prefix prefix) (attempts_key_prefix prefix) m body s).1
    unfolding push_or_drop
    push_or_drop-Same key (queue, id) none s p a =
        rw (Apart.attempts_key_joined prefix id)
          (structures.del-Only (attempts_key prefix id) s key (a id))
    push_or_drop-Same key (queue, id) (some body) s p a =
        rw (Apart.pending_key_joined prefix queue)
          (structures.lpush-Only (pending_key prefix queue) id s key (p queue))

    abbrev pub returned : Option (String × JobId) → K → ℕ × K
    returned o s =
        return_member R (pending_key_prefix prefix) (job_key_prefix prefix)
          (attempts_key_prefix prefix) o s

    pub returned-items :
        (q : String) (o : Option (String × JobId)) (s : K)
        → R.lrange (pending_key prefix q) (returned o s).1
          ≡ back q o (body_of o s) (R.lrange (pending_key prefix q) s)
    unfolding return_member
    returned-items q none s = refl
    returned-items q (some m) s =
        rw (Apart.job_key_joined prefix m.1)
          (push_or_drop-items q m (R.get (job_key prefix m.1) s) s)

    push_or_drop-count :
        (m : String × JobId) (body : Option String) (s : K)
        → (push_or_drop R (pending_key_prefix prefix) (attempts_key_prefix prefix) m body s).0
          ≡ one_with (some m) body
    unfolding push_or_drop
    push_or_drop-count m none s = refl
    push_or_drop-count m (some body) s = refl

    pub returned-count :
        (o : Option (String × JobId)) (s : K) → (returned o s).0 ≡ one_with o (body_of o s)
    unfolding return_member
    returned-count none s = refl
    returned-count (some m) s =
        rw (Apart.job_key_joined prefix m.1) (push_or_drop-count m (R.get (job_key prefix m.1) s) s)

    pub returned-Same :
        (key : String) (o : Option (String × JobId)) (s : K)
        → ((q : String) → pending_key prefix q ≢ key)
        → ((id : JobId) → attempts_key prefix id ≢ key)
        → Same R key s (returned o s).1
    unfolding return_member
    returned-Same key none s p a = record { text = refl; items = refl; members = λ m. refl }
    returned-Same key (some m) s p a =
        push_or_drop-Same key m (R.get (Prim.Native.String.◌++◌ (job_key_prefix prefix) m.1) s) s p
          a
