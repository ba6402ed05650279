-- ===== src/Memory/Conserve.antt =====
-- No operation of the in-process broker loses a job or makes a second copy of one.
use capivara_rs.Prelude.{
  ◌+◌, ◌-◌, ◌≤◌, min, ◌≡◌, refl, sym, ◌∙◌, ap, String, some, List, [], ◌∷◌, ◌++◌, arith,
  Option-cases, inl, inr, ◌⊎◌,
}
use capivara_rs.Prelude.HashMap
use capivara_rs.Prelude.HashMap.{HashMap}
use capivara_rs.Time.{Duration, Instant, instant_max, u32_max, add_duration}
use capivara_rs.Error.{ok}
use capivara_rs.Job.{JobId, QueueName, ClaimToken, Job}
use capivara_rs.Memory.{
  InFlight, Inner, enqueue, push_pending, recover_one, recover_all, expired_among, recover_expired,
  promote_each, promote_delayed,
}
use capivara_rs.Memory.Claim.{Round, queue_names, lease_job, try_queues, claim_pass}
use capivara_rs.Memory.Census
use capivara_rs.Memory.Census.{copies, is_job}

-- An in-flight entry stands under the id of its job.
pub record Keyed (m : HashMap InFlight) : Type 0 where
  pub at : (k : String) (f : InFlight) → HashMap.get k m ≡ some f → f.job.id ≡ k

pub remove-Keyed : (k : String) (m : HashMap InFlight) → Keyed m → Keyed (HashMap.remove k m)
remove-Keyed k m h = record { at = λ j f e. h.at j f (ground (arith, HashMap.get-remove k j m)) }

pub insert-Keyed :
    (f : InFlight) (m : HashMap InFlight) → Keyed m → Keyed (HashMap.insert f.job.id f m)
insert-Keyed f m h = record {
  at = λ j g e. ground (arith, HashMap.get-insert f.job.id j f m, h.at j g);
}

-- The broker's data fit together: entries stand under their ids, and no id is there twice.
pub record WellFormed (s : Inner) : Type 0 where
  pub keyed : Keyed s.in_flight
  pub single : (i : JobId) → copies i s ≤ 1

-- `t` holds the jobs of `s`, each as often, and its entries stand under their ids.
pub record Conserves (s t : Inner) : Type 0 where
  pub keyed : Keyed t.in_flight
  pub same : (i : JobId) → copies i t ≡ copies i s

pub Conserves-trans : {s t u : Inner} → Conserves s t → Conserves t u → Conserves s u
Conserves-trans a b = record { keyed = b.keyed; same = λ i. b.same i ∙ a.same i }

pub Conserves-WellFormed : {s t : Inner} → WellFormed s → Conserves s t → WellFormed t
Conserves-WellFormed w c = record {
  keyed = c.keyed;
  single = λ i. omega (arith, c.same i, w.single i);
}

recover_one-Conserves :
    (id : String) (s : Inner) → Keyed s.in_flight → Conserves s (recover_one id s)
unfolding recover_one
recover_one-Conserves id s h = elim (Option-cases (HashMap.get id s.in_flight)) [
  | inl e ↦ rw (e, recover_one) (record { keyed = h; same = λ i. refl })
  | inr (f, e) ↦
      rw (e, recover_one)
        (record {
          keyed = remove-Keyed id s.in_flight h;
          same = λ i. ground (
            arith,
            h.at id f e,
            Census.in_queues-push_back i f.job.queue f.job s.pending,
            HashMap.get-remove id i s.in_flight,
          );
        })
]

recover_all-Conserves :
    (ids : List String) (s : Inner) → Keyed s.in_flight → Conserves s (recover_all ids s)
unfolding recover_all
recover_all-Conserves [] s h = record { keyed = h; same = λ i. refl }
recover_all-Conserves (id ∷ ids) s h =
    let one = recover_one-Conserves id s h in
    Conserves-trans one (recover_all-Conserves ids (recover_one id s) one.keyed)

pub recover_all-copies :
    (ids : List String) (s : Inner) (i : JobId)
    → Keyed s.in_flight
    → copies i (recover_all ids s) ≡ copies i s
recover_all-copies ids s i h = (recover_all-Conserves ids s h).same i

promote_each-copies :
    (i : JobId) (now : Instant) (l keep : List (Instant × Job)) (s : Inner)
    → copies i (promote_each now l keep s)
      ≡ copies i s
        + Census.in_delayed i l
        + Census.in_delayed i keep
        - Census.in_delayed i s.delayed
unfolding promote_each Census.in_delayed
promote_each-copies i now [] keep s = omega arith
promote_each-copies i now ((when, j) ∷ l) keep s = ground (
  arith,
  promote_each-copies i now l keep (push_pending j s),
  promote_each-copies i now l (keep ++ (when, j) ∷ []) s,
  Census.in_queues-push_back i j.queue j s.pending,
  Census.in_delayed-append i keep ((when, j) ∷ []),
)

pub in_flight-promote_each :
    (now : Instant) (l keep : List (Instant × Job)) (s : Inner)
    → (promote_each now l keep s).in_flight ≡ s.in_flight
unfolding promote_each
in_flight-promote_each now [] keep s = refl
in_flight-promote_each now ((when, j) ∷ l) keep s = ground (
  arith,
  in_flight-promote_each now l keep (push_pending j s),
  in_flight-promote_each now l (keep ++ (when, j) ∷ []) s,
)

pub promote_delayed-Conserves :
    (now : Instant) (s : Inner) → Keyed s.in_flight → Conserves s (promote_delayed now s)
unfolding promote_delayed
promote_delayed-Conserves now s h = record {
  keyed = rw in_flight-promote_each h;
  same = λ i. unfold Census.in_delayed in omega (arith, promote_each-copies i now s.delayed [] s);
}

lease_job-copies :
    (i : JobId) (lease : Duration) (now : Instant) (t : ClaimToken) (j : Job) (s : Inner)
    → now + lease ≤ instant_max
    → is_job i j + copies i s ≤ 1
    → copies i (lease_job lease now t j s).1 ≡ is_job i j + copies i s
unfolding lease_job add_duration
lease_job-copies i lease now t j s h k = ground (
  arith,
  HashMap.get-insert j.id i
      (record {
        job = record j { attempts = min (j.attempts + 1) u32_max };
        lease_until = now + lease;
        token = t;
      })
      s.in_flight,
)

lease_job-Keyed :
    (lease : Duration) (now : Instant) (t : ClaimToken) (j : Job) (s : Inner)
    → Keyed s.in_flight
    → Keyed (lease_job lease now t j s).1.in_flight
unfolding lease_job
lease_job-Keyed lease now t j s h = elim (Option-cases (add_duration now lease)) [
  | inl e ↦ rw (e, lease_job) h
  | inr (d, e) ↦ rw (e, lease_job) (insert-Keyed _ s.in_flight h)
]

try_queues-Keyed :
    (lease : Duration) (now : Instant) (t : ClaimToken) (qs : List String) (s : Inner)
    → Keyed s.in_flight
    → Keyed (try_queues lease now t qs s).1.in_flight
unfolding try_queues
try_queues-Keyed lease now t [] s h = h
try_queues-Keyed lease now t (q ∷ qs) s h = elim (Option-cases (HashMap.pop_front q s.pending)) [
  | inl e ↦ rw (e, try_queues) (try_queues-Keyed lease now t qs s h)
  | inr ((j, m), e) ↦
      rw (e, try_queues) (lease_job-Keyed lease now t j (record s { pending = m }) h)
]

try_queues-copies :
    (i : JobId) (lease : Duration) (now : Instant) (t : ClaimToken) (qs : List String) (s : Inner)
    → now + lease ≤ instant_max
    → copies i s ≤ 1
    → copies i (try_queues lease now t qs s).1 ≡ copies i s
unfolding try_queues
try_queues-copies i lease now t [] s h k = refl
try_queues-copies i lease now t (q ∷ qs) s h k =
    elim (Option-cases (HashMap.pop_front q s.pending)) [
      | inl e ↦ rw (e, try_queues) (try_queues-copies i lease now t qs s h k)
      | inr ((j, m), e) ↦
          let left : is_job i j + Census.in_queues i m ≡ Census.in_queues i s.pending =
            ap (λ r. Census.popped i r (Census.in_queues i s.pending)) (sym e)
            ∙ Census.in_queues-pop_front i q s.pending in
          rw (e, try_queues)
            (omega
              (arith, lease_job-copies i lease now t j (record s { pending = m }) h (omega arith)))
    ]

pub recover_expired-Conserves :
    (order : List String → List String) (now : Instant) (s : Inner)
    → Keyed s.in_flight
    → Conserves s (recover_expired order now s)
unfolding recover_expired
recover_expired-Conserves order now s h =
    recover_all-Conserves (expired_among now s.in_flight (order (HashMap.keys s.in_flight))) s h

-- A pass of `claim` on a well-formed broker, short of an overflow of the lease, loses no job and
-- doubles none, in whatever order the leases are iterated.
pub claim_pass-Conserves :
    (order : List String → List String) (queues : List QueueName) (lease : Duration) (r : Round)
    (s : Inner)
    → WellFormed s
    → r.at_lease + lease ≤ instant_max
    → Conserves s (claim_pass order queues lease r s).1
unfolding claim_pass
claim_pass-Conserves order queues lease r s w h =
    let t : Inner = recover_expired order r.at_recover s in
    let u : Inner = promote_delayed r.at_promote t in
    let back : Conserves s t = recover_expired-Conserves order r.at_recover s w.keyed in
    let due : Conserves s u =
      Conserves-trans back (promote_delayed-Conserves r.at_promote t back.keyed) in
    record {
      keyed = try_queues-Keyed lease r.at_lease r.token (queue_names queues) u due.keyed;
      same = λ i.
          try_queues-copies i lease r.at_lease r.token (queue_names queues) u h
            (omega (arith, due.same i, w.single i))
          ∙ due.same i;
    }

pub enqueue-copies :
    (i : JobId) (job : Job) (s : Inner)
    → (((enqueue job s).0 ≡ ok job.id) × (copies i (enqueue job s).1 ≡ is_job i job + copies i s))
      ⊎ ((enqueue job s).1 ≡ s)
unfolding enqueue
enqueue-copies i job s = ground (arith, Census.in_queues-push_back i job.queue job s.pending)
