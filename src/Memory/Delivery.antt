-- ===== src/Memory/Delivery.antt =====
-- Which job a pass of `claim` hands out.
use capivara_rs.Prelude.{
  ◌+◌, ◌≤◌, ◌≡◌, ◌≢◌, refl, ◌∙◌, none, some, inl, inr, arith, List, [], ◌∷◌, String, Option, min,
}
use capivara_rs.Prelude.HashMap
use capivara_rs.Prelude.HashMap.{HashMap}
use capivara_rs.Error.{ok, Result}
use capivara_rs.Time.{Instant, Duration, instant_max, u32_max, add_duration}
use capivara_rs.Job.{QueueName, ClaimToken, Job, ClaimedJob}
use capivara_rs.Memory.{Inner, promote_delayed, recover_expired}
use capivara_rs.Memory.Claim.{Round, claim_pass, try_queues, lease_job, queue_names}

abbrev pub waiting : QueueName → Inner → List Job
waiting q s = HashMap.get_or_default q s.pending

-- The first of the queues, in the caller's order, that holds a job, and its oldest job.
abbrev pub first_ready_of :
    QueueName → List Job → Option (QueueName × Job) → Option (QueueName × Job)
first_ready_of q [] rest = rest
first_ready_of q (j ∷ js) rest = some (q, j)

abbrev pub first_ready : List QueueName → Inner → Option (QueueName × Job)
first_ready [] s = none
first_ready (q ∷ qs) s = first_ready_of q (waiting q s) (first_ready qs s)

abbrev pub attempted : Job → Job
attempted j = record j { attempts = min (j.attempts + 1) u32_max }

-- The job `j` of `q` was handed out: it is gone from the front of its queue, the other queues are as
-- they were, and it is in flight with the round's token until the end of the lease.
pub record HandsOut (q : QueueName) (j : Job) (lease : Duration) (now : Instant) (t : ClaimToken)
    (s : Inner) (r : Result (Option ClaimedJob) × Inner) : Type 0 where
  pub result : r.0 ≡ ok (some (record { job = attempted j; claim_token = t }))
  pub queue : waiting q s ≡ j ∷ waiting q r.1
  pub others : (k : QueueName) → k ≢ q → waiting k r.1 ≡ waiting k s
  pub leased :
      HashMap.get j.id r.1.in_flight
      ≡ some (record { job = attempted j; lease_until = now + lease; token = t })

module _ (lease : Duration) (now : Instant) (t : ClaimToken)
    (fits : now + lease ≤ instant_max) where
  lease_job_lem :
      (j : Job) (s : Inner)
      → lease_job lease now t j s ≡ (
        ok (some (record { job = attempted j; claim_token = t })),
        record s {
          in_flight =
              HashMap.insert j.id
                (record { job = attempted j; lease_until = now + lease; token = t })
                s.in_flight;
        },
      )
  unfolding lease_job add_duration
  lease_job_lem j s = ground arith

  try_queues-none :
      (qs : List QueueName) (s : Inner)
      → first_ready qs s ≡ none
      → try_queues lease now t qs s ≡ (ok none, s)
  unfolding try_queues
  try_queues-none [] s h = refl
  try_queues-none (q ∷ qs) s h = elim (HashMap.pop_front-Pops q s.pending) [
    | inl (e, w) ↦ rw (e, try_queues) (try_queues-none qs s (ground (arith, w)))
    | inr (a, m, e, w, o) ↦ absurd (ground (arith, w))
  ]

  try_queues-some :
      (qs : List QueueName) (s : Inner) (q : QueueName) (j : Job)
      → first_ready qs s ≡ some (q, j)
      → HandsOut q j lease now t s (try_queues lease now t qs s)
  unfolding try_queues
  try_queues-some [] s q j h = absurd (ground arith)
  try_queues-some (k ∷ qs) s q j h = elim (HashMap.pop_front-Pops k s.pending) [
    | inl (e, w) ↦ rw (e, try_queues) (try_queues-some qs s q j (ground (arith, w)))
    | inr (a, m, e, w, o) ↦
        let same : (k ≡ q) × (a ≡ j) = ground (arith, w) in
        rw (e, try_queues, lease_job_lem a (record s { pending = m }))
          (record {
            result = ground arith;
            queue = ground (arith, w);
            others = λ x ne. o x (λ p. ne (p ∙ same.0));
            leased = ground (
              arith,
              HashMap.get-insert a.id j.id
                  (record { job = attempted a; lease_until = now + lease; token = t }) s.in_flight,
            );
          })
  ]

-- What a pass makes of the first job that is ready in `t`.
abbrev pub Delivers :
    Option (QueueName × Job)
    → Duration
    → Instant
    → ClaimToken
    → Inner
    → Result (Option ClaimedJob) × Inner
    → Type 0
Delivers none lease now token t r = r ≡ (ok none, t)
Delivers (some (q, j)) lease now token t r = HandsOut q j lease now token t r

Delivers-first_ready :
    (o : Option (QueueName × Job)) (lease : Duration) (now : Instant) (token : ClaimToken)
    (qs : List QueueName) (t : Inner)
    → now + lease ≤ instant_max
    → first_ready qs t ≡ o
    → Delivers o lease now token t (try_queues lease now token qs t)
Delivers-first_ready none lease now token qs t h e = try_queues-none lease now token h qs t e
Delivers-first_ready (some (q, j)) lease now token qs t h e =
    try_queues-some lease now token h qs t q j e

-- Once expired leases and due jobs are back in their queues, a pass of `claim` whose lease does not
-- overflow hands out the oldest job of the first queue, in the caller's order, that has one, with
-- one attempt more and a lease until `lease` from now; it returns nothing if those queues are all
-- empty.
pub claim_pass-first_ready :
    (order : List String → List String) (queues : List QueueName) (lease : Duration) (r : Round)
    (s : Inner)
    → r.at_lease + lease ≤ instant_max
    → let t = promote_delayed r.at_promote (recover_expired order r.at_recover s) in
      Delivers
        (first_ready (queue_names queues) t)
        lease
        r.at_lease
        r.token
        t
        (claim_pass order queues lease r s)
unfolding claim_pass
claim_pass-first_ready order queues lease r s h =
    let t : Inner = promote_delayed r.at_promote (recover_expired order r.at_recover s) in
    Delivers-first_ready (first_ready (queue_names queues) t) lease r.at_lease r.token
      (queue_names queues) t h refl
