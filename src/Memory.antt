-- ===== src/Memory.antt =====
-- broker/memory.rs: the in-process broker. Each operation runs under the mutex and is one step on
-- `Inner`. Readings of `Instant::now()` and fresh claim tokens are arguments.
pub mod Claim
pub mod Settle
pub mod Census
pub mod Conserve
pub mod Ownership
pub mod Settlement
pub mod History
pub mod Exclusive
pub mod Wait
pub mod Delivery
pub mod Recovery
pub mod Producer
use capivara_rs.Prelude.{String, none, some, List, [], ◌∷◌, ◌++◌, leb, if◌then◌else◌, trim_is_empty}
use capivara_rs.Prelude.HashMap
use capivara_rs.Prelude.HashMap.{HashMap}
use capivara_rs.Time.{Instant}
use capivara_rs.Error.{empty_idempotency_key, ok, err, Exec}
use capivara_rs.Job.{JobId, ClaimToken, Job, DeadLetter}

pub record InFlight : Type 0 where
  pub job : Job
  pub lease_until : Instant
  pub token : ClaimToken

pub record Inner : Type 0 where
  pub pending : HashMap (List Job)
  pub in_flight : HashMap InFlight
  pub delayed : List (Instant × Job)
  pub dead : HashMap (List DeadLetter)
  pub idempotency : HashMap JobId

abbrev pub new : Inner
new = record { pending = []; in_flight = []; delayed = []; dead = []; idempotency = [] }

-- `inner.pending.entry(q).or_default().push_back(job)`
unfoldable pub push_pending : Job → Inner → Inner
push_pending job s = record s { pending = HashMap.push_back job.queue job s.pending }

-- The filter over `in_flight.iter()`, whose keys come as `ids`: the leases that have run out.
unfoldable pub expired_among : Instant → HashMap InFlight → List String → List String
expired_among now m [] = []
expired_among now m (id ∷ ids) =
    let rest = expired_among now m ids in
    elim (HashMap.get id m) [
      | none ↦ rest
      | some f ↦ if leb f.lease_until now then id ∷ rest else rest
    ]

unfoldable pub recover_one : String → Inner → Inner
unfolding push_pending
recover_one id s = elim (HashMap.get id s.in_flight) [
  | none ↦ s
  | some f ↦ push_pending f.job (record s { in_flight = HashMap.remove id s.in_flight })
]

unfoldable pub recover_all : List String → Inner → Inner
recover_all [] s = s
recover_all (id ∷ ids) s = recover_all ids (recover_one id s)

-- A `HashMap` is iterated in an order of its own, which `order` gives.
unfoldable pub recover_expired : (List String → List String) → Instant → Inner → Inner
unfolding recover_all expired_among
recover_expired order now s =
    recover_all (expired_among now s.in_flight (order (HashMap.keys s.in_flight))) s

-- The loop over `delayed.drain(..)`: due jobs go to pending, the others to `keep`.
unfoldable pub promote_each : Instant → List (Instant × Job) → List (Instant × Job) → Inner → Inner
unfolding push_pending
promote_each now [] keep s = record s { delayed = keep }
promote_each now ((when, job) ∷ rest) keep s =
    if leb when now
    then promote_each now rest keep (push_pending job s)
    else promote_each now rest (keep ++ (when, job) ∷ []) s

unfoldable pub promote_delayed : Instant → Inner → Inner
unfolding promote_each
promote_delayed now s = promote_each now s.delayed [] s

unfoldable pub enqueue : Job → Exec Inner JobId
unfolding push_pending
enqueue job s = elim job.idempotency_key [
  | none ↦ (ok job.id, push_pending job s)
  | some key ↦
      if trim_is_empty key
      then (err empty_idempotency_key, s)
      else elim (HashMap.get key s.idempotency) [
        | some existing ↦ (ok existing, s)
        | none ↦ (
          ok job.id,
          push_pending job (record s { idempotency = HashMap.insert key job.id s.idempotency }),
        )
      ]
]
