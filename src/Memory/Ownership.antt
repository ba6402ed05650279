-- ===== src/Memory/Ownership.antt =====
-- Claim tokens: only the token of the running claim settles a job.
use capivara_rs.Prelude.{
  ◌≡◌, refl, true, false, some, inl, inr, arith, Option-cases, String, if_neg, string_discrete,
}
use capivara_rs.Prelude.HashMap
use capivara_rs.Error.{job_not_found, ok, err}
use capivara_rs.Time.{Instant}
use capivara_rs.Job.{JobId, ClaimToken, NackAction}
use capivara_rs.Memory.{InFlight, Inner}
use capivara_rs.Memory.Settle.{owned, ack, nack, dead_letter, bury, requeue}

-- The running claim of the job has this token.
abbrev pub Holds : JobId → ClaimToken → Inner → Type 0
Holds id t s = (f : InFlight) × (HashMap.get id s.in_flight ≡ some f) × (f.token ≡ t)

pub owned_of_Holds : (id : JobId) (t : ClaimToken) (s : Inner) → Holds id t s → owned id t s ≡ true
unfolding owned
owned_of_Holds id t s (f, e, h) = ground arith

pub owned-Holds : (id : JobId) (t : ClaimToken) (s : Inner) → owned id t s ≡ true → Holds id t s
unfolding owned
owned-Holds id t s h = elim (Option-cases (HashMap.get id s.in_flight)) [
  | inl e ↦ absurd (ground arith)
  | inr (f, e) ↦ (f, e, ground arith)
]

pub not-owned : (id : JobId) (t : ClaimToken) (s : Inner) → ¬ Holds id t s → owned id t s ≡ false
unfolding owned
not-owned id t s h = elim (Option-cases (HashMap.get id s.in_flight)) [
  | inl e ↦ rw (e, owned) refl
  | inr (f, e) ↦ rw (e, owned) (if_neg (string_discrete f.token t) (λ p. h (f, e, p)) true false)
]

-- With a token that is not the one of the job's running claim, `ack`, `nack` and `dead_letter` all
-- fail with `JobNotFound` of the id and leave the broker as it was.
pub settle_stale :
    (id : JobId) (t : ClaimToken) (s : Inner)
    → ¬ Holds id t s
    → (ack id t s ≡ (err (job_not_found id), s))
      × ((now : Instant) (a : NackAction) → nack now id t a s ≡ (err (job_not_found id), s))
      × ((reason : String) → dead_letter id t reason s ≡ (err (job_not_found id), s))
unfolding ack nack dead_letter
settle_stale id t s h =
    let e = not-owned id t s h in
    (ground (arith, e), λ now a. ground (arith, e), λ reason. ground (arith, e))

abbrev pub drop_claim : JobId → Inner → Inner
drop_claim id s = record s { in_flight = HashMap.remove id s.in_flight }

pub ack_held :
    (id : JobId) (t : ClaimToken) (s : Inner) → Holds id t s → ack id t s ≡ (ok tt, drop_claim id s)
unfolding ack
ack_held id t s h = ground (arith, owned_of_Holds id t s h)

pub nack_held :
    (now : Instant) (id : JobId) (t : ClaimToken) (a : NackAction) (s : Inner) (h : Holds id t s)
    → nack now id t a s ≡ requeue now a h.0.job (drop_claim id s)
unfolding nack
nack_held now id t a s h = ground (arith, owned_of_Holds id t s h)

pub dead_letter_held :
    (id : JobId) (t : ClaimToken) (reason : String) (s : Inner) (h : Holds id t s)
    → dead_letter id t reason s ≡ (ok tt, bury h.0.job reason (drop_claim id s))
unfolding dead_letter
dead_letter_held id t reason s h = ground (arith, owned_of_Holds id t s h)
