-- ===== src/Memory/History/Handing.antt =====
-- `enqueue` and `claim` as steps between the places of a job.
use capivara_rs.Prelude.{
  ◌+◌, ◌≤◌, ◌≡◌, refl, ap, inl, inr, arith, List, [], ◌∷◌, String, string_discrete,
}
use capivara_rs.Prelude.HashMap
use capivara_rs.Time.{Instant, Duration, instant_max}
use capivara_rs.Job.{JobId, QueueName, ClaimToken, Job}
use capivara_rs.Memory.{
  Inner, enqueue, recover_all, expired_among, recover_expired, promote_delayed,
}
use capivara_rs.Memory.Claim.{Round, claim_pass, try_queues, lease_job, queue_names}
use capivara_rs.Memory.Census
use capivara_rs.Memory.Census.{copies}
use capivara_rs.Memory.Conserve.{WellFormed, claim_pass-Conserves, enqueue-copies}
use capivara_rs.Memory.Recovery.{not_due, promote_delayed_lem, recover_all-places}
use capivara_rs.Memory.History.Permanence.{claim_pass-Frame}
use capivara_rs.Memory.History.Places.{
  Place, nowhere, waiting, held, delayed, dead, At, enqueueing, claiming, sent, Moves, Same-Moves,
  claimed-Moves,
}

in_delayed-not_due :
    (i : JobId) (now : Instant) (l : List (Instant × Job))
    → Census.in_delayed i (not_due now l) ≤ Census.in_delayed i l
unfolding Census.in_delayed
in_delayed-not_due i now [] = omega arith
in_delayed-not_due i now ((when, j) ∷ l) = ground (arith, in_delayed-not_due i now l)

delayed-try_queues :
    (lease : Duration) (now : Instant) (t : ClaimToken) (qs : List String) (s : Inner)
    → (try_queues lease now t qs s).1.delayed ≡ s.delayed
unfolding try_queues lease_job
delayed-try_queues lease now t [] s = refl
delayed-try_queues lease now t (q ∷ qs) s = ground (arith, delayed-try_queues lease now t qs s)

delayed-claim_pass :
    (i : JobId) (order : List String → List String) (queues : List QueueName) (lease : Duration)
    (r : Round) (s : Inner)
    → Census.delayed i (claim_pass order queues lease r s).1 ≤ Census.delayed i s
unfolding claim_pass recover_expired
delayed-claim_pass i order queues lease r s =
    let ids = expired_among r.at_recover s.in_flight (order (HashMap.keys s.in_flight)) in
    let t : Inner = recover_all ids s in
    let u : Inner = promote_delayed r.at_promote t in
    rw
      (
        delayed-try_queues lease r.at_lease r.token (queue_names queues) u,
        (promote_delayed_lem r.at_promote t).1,
        (recover_all-places ids s).0,
      )
      (in_delayed-not_due i r.at_promote s.delayed)

pub claim-Moves :
    (a : Place) (i : JobId) (order : List String → List String) (queues : List QueueName)
    (lease : Duration) (r : Round) (s : Inner)
    → WellFormed s
    → r.at_lease + lease ≤ instant_max
    → At a i s
    → Moves claiming a i (claim_pass order queues lease r s).1
claim-Moves a i order queues lease r s w h e =
    claimed-Moves a i s (claim_pass order queues lease r s).1 (w.single i)
      ((claim_pass-Conserves order queues lease r s w h).same i)
      (ap (Census.in_dead i) (claim_pass-Frame order queues lease r s).1)
      (delayed-claim_pass i order queues lease r s) e

-- A job that is nowhere, and then in its queue.
sent-Moves :
    (a : Place) (i : JobId) (s t : Inner)
    → copies i s ≡ 0
    → Census.pending i t ≡ 1
    → At a i s
    → Moves enqueueing a i t
sent-Moves nowhere i s t c p e = (waiting, sent, p)
sent-Moves waiting i s t c p e = absurd (omega (arith, c, e))
sent-Moves held i s t c p e = absurd (omega (arith, c, e))
sent-Moves delayed i s t c p e = absurd (omega (arith, c, e))
sent-Moves dead i s t c p e = absurd (omega (arith, c, e))

enqueue-Rest :
    (job : Job) (s : Inner)
    → ((enqueue job s).1.in_flight ≡ s.in_flight)
      × ((enqueue job s).1.delayed ≡ s.delayed)
      × ((enqueue job s).1.dead ≡ s.dead)
unfolding enqueue
enqueue-Rest job s = ground arith

pub enqueue-Moves :
    (a : Place) (i : JobId) (job : Job) (s : Inner)
    → copies job.id s ≡ 0
    → At a i s
    → Moves enqueueing a i (enqueue job s).1
enqueue-Moves a i job s c e =
    let t = (enqueue job s).1 in
    let (f, d, x) = enqueue-Rest job s in
    let still : Census.claimed i t ≡ Census.claimed i s =
      ap (λ m. Census.one_if_some (HashMap.get i m)) f in
    let later = ap (Census.in_delayed i) d in
    let gone = ap (Census.in_dead i) x in
    elim (enqueue-copies i job s) [
      | inr same ↦
          Same-Moves enqueueing a i s t
            (record {
              pending = ap (Census.pending i) same;
              claimed = still;
              delayed = later;
              dead = gone;
            })
            e
      | inl (r, n) ↦ elim (string_discrete job.id i) [
        | yes p ↦ sent-Moves a i s t (rw⁻¹ p c) (ground (arith, n, still, later, gone)) e
        | no q ↦
            Same-Moves enqueueing a i s t
              (record {
                pending = ground (arith, n, still, later, gone);
                claimed = still;
                delayed = later;
                dead = gone;
              })
              e
      ]
    ]
