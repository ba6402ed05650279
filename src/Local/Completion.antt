-- ===== src/Local/Completion.antt =====
-- `process_one` with the in-process broker and results: how a job ends.
use capivara_rs.Prelude.{
  ℕ, String, Bool, true, false, ltb, ◌+◌, ◌≤◌, ◌≡◌, refl, ◌⊎◌, inl, inr, Bool-cases, some, none, [],
  ◌∷◌, ◌++◌, arith,
}
use capivara_rs.Prelude.HashMap
use capivara_rs.Time.{Duration, instant_max, add_duration}
use capivara_rs.Error.{Result, ok}
use capivara_rs.Job.{Bytes, JobId, ClaimToken, Job, ClaimedJob, requeue_after}
use capivara_rs.Retry.{RetryPolicy, delay_for_attempt}
use capivara_rs.Results.{JobResult, success, failure}
use capivara_rs.Results
use capivara_rs.Registry
use capivara_rs.Registry.{Registry, ErasedHandler}
use capivara_rs.Memory.{push_pending}
use capivara_rs.Memory.Settle.{requeue, bury}
use capivara_rs.Memory.Ownership.{Holds, drop_claim, ack_held, nack_held, dead_letter_held}
use capivara_rs.Memory.Delivery.{waiting}
use capivara_rs.Worker.{
  process_one, process_found, finish, finish_terminal, outcome_of, settle_ack, settle_nack,
  settle_dead_letter, store_result,
}
use capivara_rs.Local.{Local, memory_broker, memory_results}

module _ (draw : ℕ → ℕ) (registry : Registry Local) (policy : RetryPolicy) (c : ClaimedJob) where
  abbrev id : JobId
  id = c.job.id

  abbrev token : ClaimToken
  token = c.claim_token

  abbrev delay : Duration
  delay = delay_for_attempt draw policy c.job.attempts

  finish_success :
      (p : Bytes) (s : Local)
      → Holds id token s.inner
      → finish draw memory_broker (some memory_results) registry policy c (success p) s ≡ (
        ok tt,
        record s { inner = drop_claim id s.inner; stored = HashMap.insert id (success p) s.stored },
      )
  unfolding finish settle_ack store_result Results.store
  finish_success p s h = ground (arith, ack_held id token s.inner h)

  requeued :
      (j : Job) (s : Local)
      → s.clock + delay ≤ instant_max
      → (requeue s.clock (requeue_after delay) j s.inner).0 ≡ ok tt
  unfolding requeue add_duration
  requeued j s fits = ground arith

  finish_retry :
      (m : String) (s : Local) (h : Holds id token s.inner)
      → ltb c.job.attempts policy.max_attempts ≡ true
      → s.clock + delay ≤ instant_max
      → finish draw memory_broker (some memory_results) registry policy c (failure m) s ≡ (
        ok tt,
        record s {
          inner = (requeue s.clock (requeue_after delay) h.0.job (drop_claim id s.inner)).1;
        },
      )
  unfolding finish settle_nack
  finish_retry m s h e fits = ground (
    arith,
    nack_held s.clock id token (requeue_after delay) s.inner h,
    requeued h.0.job (record s { inner = drop_claim id s.inner }) fits,
  )

  finish_dead :
      (m : String) (s : Local) (h : Holds id token s.inner)
      → ltb c.job.attempts policy.max_attempts ≡ false
      → finish draw memory_broker (some memory_results) registry policy c (failure m) s ≡ (
        ok tt,
        record s {
          inner = bury h.0.job m (drop_claim id s.inner);
          stored = HashMap.insert id (failure m) s.stored;
        },
      )
  unfolding finish finish_terminal settle_dead_letter store_result Results.store
  finish_dead m s h e = ground (arith, dead_letter_held id token m s.inner h)

  -- How the outcome of the job `j` of the claim, held in `s`, shows in `t`.
  abbrev pub Shows : Bool → JobResult → Job → Local → Local → Type 0
  Shows retry (success p) j s t = HashMap.get id t.stored ≡ some (success p)
  Shows true (failure m) j s t =
      (t.stored ≡ s.stored)
      × (((delay ≡ 0) × (waiting j.queue t.inner ≡ waiting j.queue s.inner ++ j ∷ []))
          ⊎ (t.inner.delayed ≡ s.inner.delayed ++ (s.clock + delay, j) ∷ []))
  Shows false (failure m) j s t =
      (HashMap.get id t.stored ≡ some (failure m))
      × (HashMap.get_or_default j.queue t.inner.dead
          ≡ HashMap.get_or_default j.queue s.inner.dead ++ (record { job = j; reason = m }) ∷ [])

  -- The call ended well, the claim is over, and the outcome shows.
  abbrev pub Completes : Bool → JobResult → Job → Local → Result (Unit {0}) × Local → Type 0
  Completes retry o j s r =
      (r.0 ≡ ok tt) × (HashMap.get id r.1.inner.in_flight ≡ none) × Shows retry o j s r.1

  requeue-Shows :
      (m : String) (s : Local) (h : Holds id token s.inner)
      → s.clock + delay ≤ instant_max
      → Completes true (failure m) h.0.job s (
        ok tt,
        record s {
          inner = (requeue s.clock (requeue_after delay) h.0.job (drop_claim id s.inner)).1;
        },
      )
  unfolding requeue add_duration push_pending
  requeue-Shows m s h fits = ground (
    arith,
    HashMap.get-remove id id s.inner.in_flight,
    HashMap.get_or_default-push_back h.0.job.queue h.0.job.queue h.0.job s.inner.pending,
  )

  bury-Completes :
      (m : String) (s : Local) (h : Holds id token s.inner)
      → Completes false (failure m) h.0.job s (
        ok tt,
        record s {
          inner = bury h.0.job m (drop_claim id s.inner);
          stored = HashMap.insert id (failure m) s.stored;
        },
      )
  unfolding bury
  bury-Completes m s h = (
    refl,
    ground (arith, HashMap.get-remove id id s.inner.in_flight),
    (
      ground (arith, HashMap.get-insert id id (failure m) s.stored),
      ground (
        arith,
        HashMap.get_or_default-push_back h.0.job.queue h.0.job.queue
            (record { job = h.0.job; reason = m }) s.inner.dead,
      ),
    ),
  )

  finish-Completes :
      (o : JobResult) (s : Local) (h : Holds id token s.inner)
      → s.clock + delay ≤ instant_max
      → Completes
          (ltb c.job.attempts policy.max_attempts)
          o
          h.0.job
          s
          (finish draw memory_broker (some memory_results) registry policy c o s)
  finish-Completes (success p) s h fits = rw (finish_success p s h) (
    refl,
    ground (arith, HashMap.get-remove id id s.inner.in_flight),
    ground (arith, HashMap.get-insert id id (success p) s.stored),
  )
  finish-Completes (failure m) s h fits =
      elim (Bool-cases (ltb c.job.attempts policy.max_attempts)) [
        | inl e ↦ rw (finish_retry m s h e fits, e) (requeue-Shows m s h fits)
        | inr e ↦ rw (finish_dead m s h e, e) (bury-Completes m s h)
      ]

  -- A worker with the in-process broker and results that still holds the claim when its handler
  -- ends completes the job, if the delay does not end past the last instant: the call ends well,
  -- the claim is over, and the outcome shows. A success, and a failure without attempts left, is
  -- what the results have for the id; such a failure stands at the end of the queue's dead letters.
  -- A failure with attempts left is at the end of its queue or of the delayed list, and leaves the
  -- results as they were.
  pub process_one-Completes :
      (handler : ErasedHandler Local) (s : Local)
      → Registry.get c.job.task_name registry ≡ ok handler
      → (h : Holds id token (handler c.job.payload s).1.inner)
      → (handler c.job.payload s).1.clock + delay ≤ instant_max
      → Completes
          (ltb c.job.attempts policy.max_attempts)
          (outcome_of (handler c.job.payload s).0)
          h.0.job
          (handler c.job.payload s).1
          (process_one draw memory_broker (some memory_results) registry policy c s)
  unfolding process_one process_found
  process_one-Completes handler s found h fits =
      rw (found, process_found)
        (finish-Completes (outcome_of (handler c.job.payload s).0) (handler c.job.payload s).1 h
          fits)
