-- ===== src/Memory/History/Places.antt =====
-- The places that a job goes through in the broker, and the steps between them that calls may make.
use capivara_rs.Prelude.{ℕ, ◌+◌, ◌≤◌, ◌≡◌, ◌∙◌, ◌⊎◌, inl, inr, arith}
use capivara_rs.Job.{JobId}
use capivara_rs.Memory.{Inner}
use capivara_rs.Memory.Census
use capivara_rs.Memory.Census.{copies}
use capivara_rs.Memory.History.{Call, enqueues, claims, acks, nacks, dead_letters}

pub data Place : Type 0 where
  nowhere waiting held delayed dead : Place

-- The job of the id is at the place.
abbrev pub At : Place → JobId → Inner → Type 0
At nowhere i s = copies i s ≡ 0
At waiting i s = Census.pending i s ≡ 1
At held i s = Census.claimed i s ≡ 1
At delayed i s = Census.delayed i s ≡ 1
At dead i s = Census.dead i s ≡ 1

pub data Kind : Type 0 where
  enqueueing claiming acking nacking burying : Kind

abbrev pub kind : Call → Kind
kind (enqueues job) = enqueueing
kind (claims order queues lease r) = claiming
kind (acks id t) = acking
kind (nacks now id t delay) = nacking
kind (dead_letters id t reason) = burying

-- Where each kind of call may take a job.
pub data Step : Kind → Place → Place → Type 0 where
  stays : (k : Kind) (p : Place) → Step k p p
  sent : Step enqueueing nowhere waiting
  leased : Step claiming waiting held
  expired : Step claiming held waiting
  due : Step claiming delayed waiting
  due_leased : Step claiming delayed held
  done : Step acking held nowhere
  retried : Step nacking held waiting
  postponed : Step nacking held delayed
  buried : Step burying held dead

abbrev pub Moves : Kind → Place → JobId → Inner → Type 0
Moves k a i t = (b : Place) × Step k a b × At b i t

one_of : (m n : ℕ) → m + n ≡ 1 → (m ≡ 1) ⊎ (n ≡ 1)
one_of m n h = ground arith

one_of_three : (m n k : ℕ) → m + n + k ≡ 1 → (m ≡ 1) ⊎ (n ≡ 1) ⊎ (k ≡ 1)
one_of_three m n k h = ground arith

-- A call that leaves the counts of the id as they were.
pub record Same (i : JobId) (s t : Inner) : Type 0 where
  pub pending : Census.pending i t ≡ Census.pending i s
  pub claimed : Census.claimed i t ≡ Census.claimed i s
  pub delayed : Census.delayed i t ≡ Census.delayed i s
  pub dead : Census.dead i t ≡ Census.dead i s

pub Same-Moves :
    (k : Kind) (a : Place) (i : JobId) (s t : Inner) → Same i s t → At a i s → Moves k a i t
Same-Moves k nowhere i s t h e =
    (nowhere, stays k nowhere, omega (arith, e, h.pending, h.claimed, h.delayed, h.dead))
Same-Moves k waiting i s t h e = (waiting, stays k waiting, h.pending ∙ e)
Same-Moves k held i s t h e = (held, stays k held, h.claimed ∙ e)
Same-Moves k delayed i s t h e = (delayed, stays k delayed, h.delayed ∙ e)
Same-Moves k dead i s t h e = (dead, stays k dead, h.dead ∙ e)

-- What a pass of `claim` may do, by the counts.
pub claimed-Moves :
    (a : Place) (i : JobId) (s t : Inner)
    → copies i s ≤ 1
    → copies i t ≡ copies i s
    → Census.dead i t ≡ Census.dead i s
    → Census.delayed i t ≤ Census.delayed i s
    → At a i s
    → Moves claiming a i t
claimed-Moves nowhere i s t w c x d e = (nowhere, stays claiming nowhere, c ∙ e)
claimed-Moves dead i s t w c x d e = (dead, stays claiming dead, x ∙ e)
claimed-Moves waiting i s t w c x d e =
    elim (one_of (Census.pending i t) (Census.claimed i t) (omega (arith, w, c, x, d, e))) [
      | inl h ↦ (waiting, stays claiming waiting, h)
      | inr h ↦ (held, leased, h)
    ]
claimed-Moves held i s t w c x d e =
    elim (one_of (Census.pending i t) (Census.claimed i t) (omega (arith, w, c, x, d, e))) [
      | inl h ↦ (waiting, expired, h)
      | inr h ↦ (held, stays claiming held, h)
    ]
claimed-Moves delayed i s t w c x d e =
    elim (one_of_three (Census.pending i t) (Census.claimed i t) (Census.delayed i t)
      (omega (arith, w, c, x, d, e))) [
        | inl h ↦ (waiting, due, h)
        | inr (inl h) ↦ (held, due_leased, h)
        | inr (inr h) ↦ (delayed, stays claiming delayed, h)
      ]

-- A job that was held, and is then where the step takes it.
pub out-Moves :
    (k : Kind) (b a : Place) (i : JobId) (s t : Inner)
    → Step k held b
    → copies i s ≤ 1
    → Census.claimed i s ≡ 1
    → At b i t
    → At a i s
    → Moves k a i t
out-Moves k b nowhere i s t st w c h e = absurd (omega (arith, w, c, e))
out-Moves k b waiting i s t st w c h e = absurd (omega (arith, w, c, e))
out-Moves k b held i s t st w c h e = (b, st, h)
out-Moves k b delayed i s t st w c h e = absurd (omega (arith, w, c, e))
out-Moves k b dead i s t st w c h e = absurd (omega (arith, w, c, e))
