-- ===== src/Memory/History/Lifecycle.antt =====
-- Every call takes a job along the steps of its kind.
use capivara_rs.Prelude.{
  ◌+◌, ◌≤◌, ◌≡◌, ◌≢◌, refl, ap, ◌∙◌, ◌⊎◌, inl, inr, arith, [], ◌∷◌, String, Bool-cases,
  string_discrete,
}
use capivara_rs.Prelude.HashMap
use capivara_rs.Time.{Instant, Duration, instant_max, add_duration}
use capivara_rs.Job.{JobId, ClaimToken, requeue_after, Job}
use capivara_rs.Memory.{Inner}
use capivara_rs.Memory.Settle.{owned, ack, nack, dead_letter, requeue, bury}
use capivara_rs.Memory.Census
use capivara_rs.Memory.Conserve.{WellFormed}
use capivara_rs.Memory.Ownership.{
  Holds, owned-Holds, drop_claim, ack_held, nack_held, dead_letter_held,
}
use capivara_rs.Memory.History.{Call, enqueues, claims, acks, nacks, dead_letters, apply, Allowed}
use capivara_rs.Memory.History.Places.{
  Place, nowhere, waiting, held, delayed, dead, At, Kind, acking, nacking, burying, kind, Step,
  done, retried, postponed, buried, Moves, Same, Same-Moves, out-Moves,
}
use capivara_rs.Memory.History.Handing.{claim-Moves, enqueue-Moves}

-- The holder's claim is over in `u`, where the job of the claim is at one place more.
record Settles (k : Kind) (i id : JobId) (j : Job) (s u : Inner) : Type 0 where
  mine : i ≡ id → (b : Place) × Step k held b × At b i u
  other : i ≢ id → Same i s u

settled-Moves :
    (k : Kind) (a : Place) (i id : JobId) (t : ClaimToken) (s u : Inner) (h : Holds id t s)
    → WellFormed s
    → Settles k i id h.0.job s u
    → At a i s
    → Moves k a i u
settled-Moves k a i id t s u (f, e, q) w st at = elim (string_discrete i id) [
  | yes p ↦
      let (b, step, there) = st.mine p in
      out-Moves k b a i s u step (w.single i) (rw (p, e) refl) there at
  | no n ↦ Same-Moves k a i s u (st.other n) at
]

held_count :
    (i id : JobId) (t : ClaimToken) (s : Inner) (h : Holds id t s)
    → WellFormed s
    → i ≡ id
    → (Census.pending i s ≡ 0)
      × (Census.delayed i s ≡ 0)
      × (Census.dead i s ≡ 0)
      × (Census.is_job i h.0.job ≡ 1)
held_count i id t s (f, e, q) w p =
    let c : Census.claimed i s ≡ 1 = rw (p, e) refl in
    let k = w.keyed.at id f e in
    (
      omega (arith, c, w.single i),
      omega (arith, c, w.single i),
      omega (arith, c, w.single i),
      ground (arith, k, p),
    )

other_count :
    (i id : JobId) (t : ClaimToken) (s : Inner) (h : Holds id t s)
    → WellFormed s
    → i ≢ id
    → Census.is_job i h.0.job ≡ 0
other_count i id t s (f, e, q) w n = let k = w.keyed.at id f e in ground (arith, k, n)

ack-Settles :
    (i id : JobId) (t : ClaimToken) (s : Inner) (h : Holds id t s)
    → WellFormed s
    → Settles acking i id h.0.job s (drop_claim id s)
ack-Settles i id t s h w = record {
  mine = λ p.
      let (a, b, c, d) = held_count i id t s h w p in
      (nowhere, done, ground (arith, a, b, c, p, HashMap.get-remove id i s.in_flight));
  other = λ n. record {
    pending = refl;
    claimed = ground (arith, n, HashMap.get-remove id i s.in_flight);
    delayed = refl;
    dead = refl;
  };
}

requeue-Rest :
    (now : Instant) (delay : Duration) (j : Job) (s : Inner)
    → ((requeue now (requeue_after delay) j s).1.in_flight ≡ s.in_flight)
      × ((requeue now (requeue_after delay) j s).1.dead ≡ s.dead)
unfolding requeue
requeue-Rest now delay j s = ground arith

requeue-counts :
    (i : JobId) (now : Instant) (delay : Duration) (j : Job) (s : Inner)
    → now + delay ≤ instant_max
    → let u = (requeue now (requeue_after delay) j s).1 in
      ((Census.pending i u ≡ Census.is_job i j + Census.pending i s)
        × (Census.delayed i u ≡ Census.delayed i s))
      ⊎ ((Census.pending i u ≡ Census.pending i s)
          × (Census.delayed i u ≡ Census.is_job i j + Census.delayed i s))
unfolding requeue add_duration Census.in_delayed
requeue-counts i now delay j s h = ground (
  arith,
  Census.in_queues-push_back i j.queue j s.pending,
  Census.in_delayed-append i s.delayed ((now + delay, j) ∷ []),
)

nack-Settles :
    (i id : JobId) (t : ClaimToken) (now : Instant) (delay : Duration) (s : Inner)
    (h : Holds id t s)
    → WellFormed s
    → now + delay ≤ instant_max
    → Settles nacking i id h.0.job s (requeue now (requeue_after delay) h.0.job (drop_claim id s)).1
nack-Settles i id t now delay s h w fits =
    let j : Job = h.0.job in
    let v : Inner = drop_claim id s in
    let u : Inner = (requeue now (requeue_after delay) j v).1 in
    let (f, x) = requeue-Rest now delay j v in
    let counts = requeue-counts i now delay j v fits in
    record {
      mine = λ p.
          let (a, b, c, d) = held_count i id t s h w p in
          elim counts [
            | inl n ↦ (waiting, retried, omega (arith, n.0, d, a))
            | inr n ↦ (delayed, postponed, omega (arith, n.1, d, b))
          ];
      other = λ n.
          let z = other_count i id t s h w n in
          record {
            pending = ground (arith, counts, z);
            claimed =
                ap (λ m. Census.one_if_some (HashMap.get i m)) f
                ∙ ground (arith, n, HashMap.get-remove id i s.in_flight);
            delayed = ground (arith, counts, z);
            dead = ap (Census.in_dead i) x;
          };
    }

bury-Settles :
    (i id : JobId) (t : ClaimToken) (reason : String) (s : Inner) (h : Holds id t s)
    → WellFormed s
    → Settles burying i id h.0.job s (bury h.0.job reason (drop_claim id s))
unfolding bury
bury-Settles i id t reason s h w =
    let j : Job = h.0.job in
    let more = Census.in_dead-push_back i j.queue (record { job = j; reason = reason }) s.dead in
    record {
      mine = λ p.
          let (a, b, c, d) = held_count i id t s h w p in (dead, buried, omega (arith, more, c, d));
      other = λ n.
          let z = other_count i id t s h w n in
          record {
            pending = refl;
            claimed = ground (arith, n, HashMap.get-remove id i s.in_flight);
            delayed = refl;
            dead = omega (arith, more, z);
          };
    }

-- A settlement that the token does not own changes nothing.
unchanged-Moves :
    (k : Kind) (a : Place) (i : JobId) (s u : Inner) → u ≡ s → At a i s → Moves k a i u
unchanged-Moves k a i s u e at =
    Same-Moves k a i s u
      (record {
        pending = ap (Census.pending i) e;
        claimed = ap (Census.claimed i) e;
        delayed = ap (Census.delayed i) e;
        dead = ap (Census.dead i) e;
      })
      at

ack-Moves :
    (a : Place) (i id : JobId) (t : ClaimToken) (s : Inner)
    → WellFormed s
    → At a i s
    → Moves acking a i (ack id t s).1
ack-Moves a i id t s w at = elim (Bool-cases (owned id t s)) [
  | inr e ↦ unchanged-Moves acking a i s (ack id t s).1 (unfold ack in ground (arith, e)) at
  | inl e ↦
      let c = owned-Holds id t s e in
      rw (ack_held id t s c)
        (settled-Moves acking a i id t s (drop_claim id s) c w (ack-Settles i id t s c w) at)
]

nack-Moves :
    (a : Place) (i id : JobId) (t : ClaimToken) (now : Instant) (delay : Duration) (s : Inner)
    → WellFormed s
    → now + delay ≤ instant_max
    → At a i s
    → Moves nacking a i (nack now id t (requeue_after delay) s).1
nack-Moves a i id t now delay s w h at = elim (Bool-cases (owned id t s)) [
  | inr e ↦
      unchanged-Moves nacking a i s (nack now id t (requeue_after delay) s).1
        (unfold nack in ground (arith, e)) at
  | inl e ↦
      let c = owned-Holds id t s e in
      rw (nack_held now id t (requeue_after delay) s c) (
        settled-Moves nacking a i id t s
          (requeue now (requeue_after delay) c.0.job (drop_claim id s)).1 c w
          (nack-Settles i id t now delay s c w h) at)
]

dead_letter-Moves :
    (a : Place) (i id : JobId) (t : ClaimToken) (reason : String) (s : Inner)
    → WellFormed s
    → At a i s
    → Moves burying a i (dead_letter id t reason s).1
dead_letter-Moves a i id t reason s w at = elim (Bool-cases (owned id t s)) [
  | inr e ↦
      unchanged-Moves burying a i s (dead_letter id t reason s).1
        (unfold dead_letter in ground (arith, e)) at
  | inl e ↦
      let c = owned-Holds id t s e in
      rw (dead_letter_held id t reason s c) (
        settled-Moves burying a i id t s (bury c.0.job reason (drop_claim id s)) c w
          (bury-Settles i id t reason s c w) at)
]

-- An allowed call on a well-formed broker takes a job, from the place where it is, along a step
-- that this kind of call may make, or leaves it there. A job that is nowhere is only ever sent to a
-- queue, only a claim makes it held, only a settlement ends that otherwise than back in a queue,
-- only an acknowledgement makes it vanish, and a dead job stays dead.
pub apply-Moves :
    (c : Call) (a : Place) (i : JobId) (s : Inner)
    → Allowed c s
    → WellFormed s
    → At a i s
    → Moves (kind c) a i (apply c s)
unfolding apply
apply-Moves (enqueues job) a i s h w at = enqueue-Moves a i job s h at
apply-Moves (claims order queues lease r) a i s h w at =
    claim-Moves a i order queues lease r s w h at
apply-Moves (acks id t) a i s h w at = ack-Moves a i id t s w at
apply-Moves (nacks now id t delay) a i s h w at = nack-Moves a i id t now delay s w h at
apply-Moves (dead_letters id t reason) a i s h w at = dead_letter-Moves a i id t reason s w at
