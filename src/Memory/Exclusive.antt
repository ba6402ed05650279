-- ===== src/Memory/Exclusive.antt =====
-- A lease is exclusive while it runs.
use capivara_rs.Prelude.{
  ◌+◌, ◌<◌, ◌≡◌, ◌≢◌, refl, ◌∙◌, ap, some, inl, inr, arith, Option-cases, List, [], ◌∷◌, String,
  Bool-cases, true, leb, Option, min,
}
use capivara_rs.Prelude.HashMap
use capivara_rs.Prelude.HashMap.{HashMap}
use capivara_rs.Error.{ok, Result}
use capivara_rs.Time.{Instant, Duration, u32_max, add_duration}
use capivara_rs.Job.{JobId, QueueName, ClaimToken, Job, ClaimedJob}
use capivara_rs.Memory.{
  InFlight, Inner, recover_one, recover_all, expired_among, recover_expired, promote_delayed,
}
use capivara_rs.Memory.Claim.{Round, claim_pass, try_queues, lease_job, queue_names}
use capivara_rs.Memory.Census
use capivara_rs.Memory.Conserve.{
  in_flight-promote_each, WellFormed, Conserves, Conserves-trans, recover_expired-Conserves,
  promote_delayed-Conserves,
}

-- The id is not among the ids.
abbrev Avoids : JobId → List String → Type 0
Avoids id [] = Unit
Avoids id (x ∷ xs) = (x ≢ id) × Avoids id xs

running :
    (f g : InFlight) (i id : JobId) (m : HashMap InFlight) (now : Instant)
    → HashMap.get id m ≡ some f
    → HashMap.get i m ≡ some g
    → now < f.lease_until
    → leb g.lease_until now ≡ true
    → i ≢ id
running f g i id m now e e' h due p = ground arith

expired_among-Avoids :
    (now : Instant) (m : HashMap InFlight) (ids : List String) (id : JobId) (f : InFlight)
    → HashMap.get id m ≡ some f
    → now < f.lease_until
    → Avoids id (expired_among now m ids)
unfolding expired_among
expired_among-Avoids now m [] id f e h = tt
expired_among-Avoids now m (i ∷ ids) id f e h =
    let rest = expired_among-Avoids now m ids id f e h in
    elim (Option-cases (HashMap.get i m)) [
      | inl e' ↦ rw (e', expired_among) rest
      | inr (g, e') ↦ elim (Bool-cases (leb g.lease_until now)) [
        | inr late ↦ rw (e', expired_among, late) rest
        | inl due ↦ rw (e', expired_among, due) (running f g i id m now e e' h due, rest)
      ]
    ]

recover_all-Avoids :
    (ids : List String) (s : Inner) (id : JobId)
    → Avoids id ids
    → HashMap.get id (recover_all ids s).in_flight ≡ HashMap.get id s.in_flight
unfolding recover_all recover_one
recover_all-Avoids [] s id h = refl
recover_all-Avoids (i ∷ ids) s id h =
    ground
      (arith, recover_all-Avoids ids (recover_one i s) id h.1, HashMap.get-remove i id s.in_flight)

-- Leasing the jobs of the queues touches no other claim, and returns no other job.
record LeavesAlone (id : JobId) (s : Inner) (r : Result (Option ClaimedJob) × Inner) : Type 0 where
  kept : HashMap.get id r.1.in_flight ≡ HashMap.get id s.in_flight
  another : (c : ClaimedJob) → r.0 ≡ ok (some c) → c.job.id ≢ id

lease_job-LeavesAlone :
    (lease : Duration) (now : Instant) (t : ClaimToken) (j : Job) (s : Inner) (id : JobId)
    → j.id ≢ id
    → LeavesAlone id s (lease_job lease now t j s)
unfolding lease_job
lease_job-LeavesAlone lease now t j s id h = elim (Option-cases (add_duration now lease)) [
  | inl e ↦ rw (e, lease_job) (record { kept = refl; another = λ c p. cc })
  | inr (d, e) ↦
      rw (e, lease_job)
        (record {
          kept = ground (
            arith,
            HashMap.get-insert j.id id
                (record {
                  job = record j { attempts = min (j.attempts + 1) u32_max };
                  lease_until = d;
                  token = t;
                })
                s.in_flight,
          );
          another = λ c p. ground arith;
        })
]

try_queues-LeavesAlone :
    (lease : Duration) (now : Instant) (t : ClaimToken) (qs : List String) (s : Inner) (id : JobId)
    → Census.in_queues id s.pending ≡ 0
    → LeavesAlone id s (try_queues lease now t qs s)
unfolding try_queues
try_queues-LeavesAlone lease now t [] s id h = record { kept = refl; another = λ c p. cc }
try_queues-LeavesAlone lease now t (q ∷ qs) s id h =
    elim (Option-cases (HashMap.pop_front q s.pending)) [
      | inl e ↦ rw (e, try_queues) (try_queues-LeavesAlone lease now t qs s id h)
      | inr ((j, m), e) ↦
          let other : j.id ≢ id = ground (arith, Census.in_queues-pop_front id q s.pending) in
          rw (e, try_queues)
            (let l = lease_job-LeavesAlone lease now t j (record s { pending = m }) id other in
              record { kept = l.kept; another = l.another })
    ]

-- While the lease of a claim in a well-formed broker runs, a pass of `claim` by any worker keeps
-- the claim as it is and does not return the job.
pub claim_pass-exclusive :
    (order : List String → List String) (queues : List QueueName) (lease : Duration) (r : Round)
    (s : Inner) (id : JobId) (f : InFlight)
    → WellFormed s
    → HashMap.get id s.in_flight ≡ some f
    → r.at_recover < f.lease_until
    → (HashMap.get id (claim_pass order queues lease r s).1.in_flight ≡ some f)
      × ((c : ClaimedJob) → (claim_pass order queues lease r s).0 ≡ ok (some c) → c.job.id ≢ id)
unfolding claim_pass
claim_pass-exclusive order queues lease r s id f w e h =
    let t : Inner = recover_expired order r.at_recover s in
    let u : Inner = promote_delayed r.at_promote t in
    let back : Conserves s t = recover_expired-Conserves order r.at_recover s w.keyed in
    let due : Conserves s u =
      Conserves-trans back (promote_delayed-Conserves r.at_promote t back.keyed) in
    let still : HashMap.get id t.in_flight ≡ some f =
      unfold recover_expired in
      recover_all-Avoids (expired_among r.at_recover s.in_flight (order (HashMap.keys s.in_flight)))
        s id
        (expired_among-Avoids r.at_recover s.in_flight (order (HashMap.keys s.in_flight)) id f e h)
      ∙ e in
    let held : HashMap.get id u.in_flight ≡ some f =
      unfold promote_delayed in rw in_flight-promote_each still in
    let alone : LeavesAlone id u (try_queues lease r.at_lease r.token (queue_names queues) u) =
      try_queues-LeavesAlone lease r.at_lease r.token (queue_names queues) u id
        (omega (arith, due.same id, w.single id, ap (λ o. Census.one_if_some o) held)) in
    (alone.kept ∙ held, alone.another)
