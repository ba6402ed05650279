-- ===== src/Memory/Settlement.antt =====
-- What a settlement does to the jobs of the broker, on every branch.
use capivara_rs.Prelude.{
  ◌+◌, ◌≤◌, ◌<◌, ◌∙◌, ◌≡◌, ◌≢◌, refl, ◌⊎◌, inl, inr, arith, Bool-cases, [], ◌∷◌, String,
}
use capivara_rs.Prelude.HashMap
use capivara_rs.Error.{ok, panic}
use capivara_rs.Time.{Instant, Duration, instant_max, add_duration}
use capivara_rs.Job.{JobId, ClaimToken, NackAction, requeue_after, Job}
use capivara_rs.Memory.{Inner}
use capivara_rs.Memory.Claim.{overflow_panic}
use capivara_rs.Memory.Settle.{owned, ack, nack, dead_letter, bury, requeue}
use capivara_rs.Memory.Census
use capivara_rs.Memory.Census.{
  copies, is_job, in_queues-push_back, in_delayed-append, in_dead-push_back,
}
use capivara_rs.Memory.Conserve.{Keyed, remove-Keyed, WellFormed, Conserves}
use capivara_rs.Memory.Ownership.{
  Holds, owned-Holds, drop_claim, ack_held, nack_held, dead_letter_held,
}

drop_claim-copies :
    (i id : JobId) (t : ClaimToken) (s : Inner) (h : Holds id t s)
    → Keyed s.in_flight
    → is_job i h.0.job + copies i (drop_claim id s) ≡ copies i s
drop_claim-copies i id t s (f, e, h) k =
    ground (arith, k.at id f e, HashMap.get-remove id i s.in_flight)

-- After an `ack` by the holder of a claim in a well-formed broker, which succeeds, the broker has
-- no copy of the job, and of every other job as many as before.
pub ack_removes :
    (id : JobId) (t : ClaimToken) (s : Inner)
    → WellFormed s
    → Holds id t s
    → ((ack id t s).0 ≡ ok tt)
      × (copies id (ack id t s).1 ≡ 0)
      × ((i : JobId) → i ≢ id → copies i (ack id t s).1 ≡ copies i s)
ack_removes id t s w h =
    let done = ack_held id t s h in
    rw done (
      refl,
      ground (arith, drop_claim-copies id id t s h w.keyed, w.keyed.at id h.0 h.1, w.single id),
      λ i ne. ground (arith, drop_claim-copies i id t s h w.keyed, w.keyed.at id h.0 h.1),
    )

requeue-copies :
    (i : JobId) (now : Instant) (delay : Duration) (j : Job) (s : Inner)
    → now + delay ≤ instant_max
    → copies i (requeue now (requeue_after delay) j s).1 ≡ is_job i j + copies i s
unfolding requeue add_duration Census.in_delayed
requeue-copies i now delay j s h = ground (
  arith,
  in_queues-push_back i j.queue j s.pending,
  in_delayed-append i s.delayed ((now + delay, j) ∷ []),
)

requeue_overflow :
    (now : Instant) (delay : Duration) (j : Job) (s : Inner)
    → instant_max < now + delay
    → 0 < delay
    → requeue now (requeue_after delay) j s ≡ (panic overflow_panic, s)
unfolding requeue add_duration
requeue_overflow now delay j s over pos = ground arith

pub in_flight-requeue :
    (now : Instant) (a : NackAction) (j : Job) (s : Inner)
    → (requeue now a j s).1.in_flight ≡ s.in_flight
unfolding requeue
in_flight-requeue now (requeue_after delay) j s = ground arith

bury-copies :
    (i : JobId) (j : Job) (reason : String) (s : Inner)
    → copies i (bury j reason s) ≡ is_job i j + copies i s
unfolding bury
bury-copies i j reason s =
    ground (arith, in_dead-push_back i j.queue (record { job = j; reason = reason }) s.dead)

pub in_flight-bury :
    (j : Job) (reason : String) (s : Inner) → (bury j reason s).in_flight ≡ s.in_flight
unfolding bury
in_flight-bury j reason s = refl

-- Short of an overflow of the clock, a `nack` on a well-formed broker loses no job and doubles
-- none.
pub nack-Conserves :
    (now : Instant) (id : JobId) (t : ClaimToken) (delay : Duration) (s : Inner)
    → WellFormed s
    → now + delay ≤ instant_max
    → Conserves s (nack now id t (requeue_after delay) s).1
unfolding nack
nack-Conserves now id t delay s w h = elim (Bool-cases (owned id t s)) [
  | inr e ↦ rw (e, nack) (record { keyed = w.keyed; same = λ i. refl })
  | inl e ↦
      let c = owned-Holds id t s e in
      let step = nack_held now id t (requeue_after delay) s c in
      record {
        keyed = rw (step, in_flight-requeue) (remove-Keyed id s.in_flight w.keyed);
        same = λ i. rw step (
            requeue-copies i now delay c.0.job (drop_claim id s) h
            ∙ drop_claim-copies i id t s c w.keyed);
      }
]

-- A `dead_letter` on a well-formed broker loses no job and doubles none.
pub dead_letter-Conserves :
    (id : JobId) (t : ClaimToken) (reason : String) (s : Inner)
    → WellFormed s
    → Conserves s (dead_letter id t reason s).1
unfolding dead_letter
dead_letter-Conserves id t reason s w = elim (Bool-cases (owned id t s)) [
  | inr e ↦ rw (e, dead_letter) (record { keyed = w.keyed; same = λ i. refl })
  | inl e ↦
      let c = owned-Holds id t s e in
      let step = dead_letter_held id t reason s c in
      record {
        keyed =
            rw (step, in_flight-bury c.0.job reason (drop_claim id s))
              (remove-Keyed id s.in_flight w.keyed);
        same = λ i.
            rw step (
              bury-copies i c.0.job reason (drop_claim id s)
              ∙ drop_claim-copies i id t s c w.keyed);
      }
]

-- The holder of a claim in a well-formed broker settles it without a loss: an `ack` succeeds and
-- the broker then has no copy of the job, and of every other job as many as before; a `nack`, short
-- of an overflow of the clock, and a `dead_letter` lose no job and double none.
pub settle-Conserves :
    (id : JobId) (t : ClaimToken) (now : Instant) (delay : Duration) (reason : String) (s : Inner)
    → WellFormed s
    → Holds id t s
    → now + delay ≤ instant_max
    → ((ack id t s).0 ≡ ok tt)
      × (copies id (ack id t s).1 ≡ 0)
      × ((i : JobId) → i ≢ id → copies i (ack id t s).1 ≡ copies i s)
      × Conserves s (nack now id t (requeue_after delay) s).1
      × Conserves s (dead_letter id t reason s).1
settle-Conserves id t now delay reason s w h fits =
    let (done, gone, others) = ack_removes id t s w h in
    (
      done,
      gone,
      others,
      nack-Conserves now id t delay s w fits,
      dead_letter-Conserves id t reason s w,
    )

-- A `nack` by the holder of a claim in a well-formed broker whose nonzero delay ends past the last
-- representable instant panics, and the job is then nowhere in the broker.
pub nack_overflow_loses_job :
    (now : Instant) (id : JobId) (t : ClaimToken) (delay : Duration) (s : Inner)
    → WellFormed s
    → Holds id t s
    → instant_max < now + delay
    → 0 < delay
    → ((nack now id t (requeue_after delay) s).0 ≡ panic overflow_panic)
      × (copies id (nack now id t (requeue_after delay) s).1 ≡ 0)
nack_overflow_loses_job now id t delay s w c over pos =
    rw
      (
        nack_held now id t (requeue_after delay) s c,
        requeue_overflow now delay c.0.job (drop_claim id s) over pos,
      )
      (
        refl,
        ground (arith, drop_claim-copies id id t s c w.keyed, w.keyed.at id c.0 c.1, w.single id),
      )

pub ack-WellFormed :
    (id : JobId) (t : ClaimToken) (s : Inner) → WellFormed s → WellFormed (ack id t s).1
unfolding ack
ack-WellFormed id t s w = elim (Bool-cases (owned id t s)) [
  | inr e ↦ rw (e, ack) w
  | inl e ↦
      let c = owned-Holds id t s e in
      rw (ack_held id t s c) (record {
        keyed = remove-Keyed id s.in_flight w.keyed;
        single = λ i. omega (arith, drop_claim-copies i id t s c w.keyed, w.single i);
      })
]

-- The claims after a settlement: those before, without the settled one if its holder made the call.
abbrev pub Releases : JobId → ClaimToken → Inner → Inner → Type 0
Releases id t s u =
    (u.in_flight ≡ s.in_flight) ⊎ (Holds id t s × (u.in_flight ≡ HashMap.remove id s.in_flight))

pub ack-Releases : (id : JobId) (t : ClaimToken) (s : Inner) → Releases id t s (ack id t s).1
ack-Releases id t s = elim (Bool-cases (owned id t s)) [
  | inr e ↦ inl (unfold ack in ground arith)
  | inl e ↦ let c = owned-Holds id t s e in inr (c, rw (ack_held id t s c) refl)
]

pub nack-Releases :
    (now : Instant) (id : JobId) (t : ClaimToken) (a : NackAction) (s : Inner)
    → Releases id t s (nack now id t a s).1
nack-Releases now id t a s = elim (Bool-cases (owned id t s)) [
  | inr e ↦ inl (unfold nack in ground arith)
  | inl e ↦
      let c = owned-Holds id t s e in
      inr (c, rw (nack_held now id t a s c) (in_flight-requeue now a c.0.job (drop_claim id s)))
]

pub dead_letter-Releases :
    (id : JobId) (t : ClaimToken) (reason : String) (s : Inner)
    → Releases id t s (dead_letter id t reason s).1
dead_letter-Releases id t reason s = elim (Bool-cases (owned id t s)) [
  | inr e ↦ inl (unfold dead_letter in ground arith)
  | inl e ↦
      let c = owned-Holds id t s e in
      inr
        (c, rw (dead_letter_held id t reason s c) (in_flight-bury c.0.job reason (drop_claim id s)))
]
