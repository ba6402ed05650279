-- ===== src/Worker/Protocol.antt =====
-- Which calls `process_one` makes of the broker and the result backend, in which order. They are
-- watched: a log beside the shared state records each call with what it returned.
use capivara_rs.Prelude.{
  ℕ, String, Bool, true, false, ◌≡◌, ◌≢◌, refl, ◌⊎◌, Option, none, some, List, [], ◌∷◌, ◌++◌, ltb,
  if◌then◌else◌, arith,
}
use capivara_rs.Error.{Result, ok, err, panic, Exec}
use capivara_rs.Job.{Bytes, ClaimedJob, NackAction, requeue_after}
use capivara_rs.Retry.{RetryPolicy, delay_for_attempt}
use capivara_rs.Broker.{Broker}
use capivara_rs.Results.{JobResult, success, failure, ResultBackend}
use capivara_rs.Registry
use capivara_rs.Registry.{Registry, ErasedHandler}
use capivara_rs.Worker.{
  settle_ack, settle_nack, settle_dead_letter, store_result, outcome_of, finish_terminal, finish,
  process_found, process_one,
}

pub data Event : Type 0 where
  acked : Result (Unit {0}) → Event
  nacked : NackAction → Result (Unit {0}) → Event
  dead_lettered : String → Result (Unit {0}) → Event
  stored : JobResult → Result (Unit {0}) → Event

abbrev pub Log : Type 0
Log = List Event

module _ {S : Type 0} where
  abbrev pub watch : {A : Type 0} → (Result A → Event) → Exec S A → Exec (S × Log) A
  watch event m (s, log) = let (r, s') = m s in (r, (s', log ++ event r ∷ []))

  abbrev pub unwatched : {A : Type 0} → Exec S A → Exec (S × Log) A
  unwatched m (s, log) = let (r, s') = m s in (r, (s', log))

  abbrev pub watch_broker : Broker S → Broker (S × Log)
  watch_broker b = record {
    enqueue = λ job. unwatched (b.enqueue job);
    claim = λ queues lease block_for. unwatched (b.claim queues lease block_for);
    ack = λ id token. watch acked (b.ack id token);
    nack = λ id token action. watch (nacked action) (b.nack id token action);
    dead_letter = λ id token reason. watch (dead_lettered reason) (b.dead_letter id token reason);
    list_dead = λ queue. unwatched (b.list_dead queue);
  }

  abbrev pub watch_backend : ResultBackend S → ResultBackend (S × Log)
  watch_backend b = record {
    store = λ id result. watch (stored result) (b.store id result);
    get = λ id. unwatched (b.get id);
  }

  abbrev pub watch_results : Option (ResultBackend S) → Option (ResultBackend (S × Log))
  watch_results none = none
  watch_results (some b) = some (watch_backend b)

abbrev pub is_some {ℓ} : {A : Type ℓ} → Option A → Bool
is_some none = false
is_some (some a) = true

-- What the handler of the job makes of it; `none` if the task is not registered.
abbrev pub fate : {S : Type 0} → Result (ErasedHandler S) → Bytes → S → Option JobResult
fate (ok handler) payload s = some (outcome_of (handler payload s).0)
fate (err e) payload s = none
fate (panic p) payload s = none

-- The calls that are right for the outcome: with a backend, a success is stored and, if that worked,
-- acknowledged; a failure with attempts left is requeued and stored nowhere; any other failure is
-- dead-lettered and, if that worked and there is a backend, stored.
abbrev pub Legal : Bool → Bool → Option JobResult → Log → Type 0
Legal stores retries (some (success p)) (acked r ∷ []) = stores ≡ false
Legal stores retries (some (success p)) (stored q (ok u) ∷ acked r ∷ []) =
    (stores ≡ true) × (q ≡ success p)
Legal stores retries (some (success p)) (stored q r ∷ []) =
    (stores ≡ true) × (q ≡ success p) × (r ≢ ok tt)
Legal stores retries (some (failure m)) (nacked a r ∷ []) = retries ≡ true
Legal stores retries (some (failure m)) (dead_lettered reason (ok u) ∷ stored q r ∷ []) =
    (retries ≡ false) × (stores ≡ true) × (reason ≡ m) × (q ≡ failure m)
Legal stores retries (some (failure m)) (dead_lettered reason r ∷ []) =
    (retries ≡ false) × (reason ≡ m) × ((stores ≡ false) ⊎ (r ≢ ok tt))
Legal stores retries none (dead_lettered reason (ok u) ∷ stored (failure m) r ∷ []) = stores ≡ true
Legal stores retries none (dead_lettered reason r ∷ []) = (stores ≡ false) ⊎ (r ≢ ok tt)
Legal stores retries f log = ⊥

module _ {S : Type 0} (draw : ℕ → ℕ) (broker : Broker S) (results : Option (ResultBackend S))
    (registry : Registry (S × Log)) (policy : RetryPolicy) (claimed : ClaimedJob) where
  abbrev b : Broker (S × Log)
  b = watch_broker broker

  abbrev stores : Bool
  stores = is_some results

  abbrev retries : Bool
  retries = ltb claimed.job.attempts policy.max_attempts

  terminal_unknown :
      (reason message : String) (s : S)
      → Legal stores retries none
          (finish_terminal draw b
            (watch_results results)
            registry
            policy
            claimed
            reason
            message
            (s, [])).1.1
  unfolding finish_terminal store_result settle_dead_letter
  terminal_unknown reason message s = ground arith

  failed-Legal :
      (retry : Bool) (action : NackAction) (message : String) (s : S)
      → Legal stores retry
          (some (failure message))
          ((if retry
              then settle_nack b claimed.job.id claimed.claim_token action
              else finish_terminal draw b
                  (watch_results results)
                  registry
                  policy
                  claimed
                  message
                  message)
            (s, [])).1.1
  unfolding finish_terminal store_result settle_dead_letter settle_nack
  failed-Legal true action message s = ground arith
  failed-Legal false action message s = ground arith

  finish-Legal :
      (outcome : JobResult) (s : S)
      → Legal stores retries
          (some outcome)
          (finish draw b (watch_results results) registry policy claimed outcome (s, [])).1.1
  finish-Legal (success payload) s = unfold finish store_result settle_ack in ground arith
  finish-Legal (failure message) s =
      unfold finish in
      failed-Legal retries (requeue_after (delay_for_attempt draw policy claimed.job.attempts))
        message s

  finish_from :
      (outcome : JobResult) (t : S × Log)
      → t.1 ≡ []
      → Legal stores retries
          (some outcome)
          (finish draw b (watch_results results) registry policy claimed outcome t).1.1
  finish_from outcome (s, log) e = rw e (finish-Legal outcome s)

  -- Handlers are no part of the log: the job's own leaves it as it is.
  abbrev pub KeepsLog : Type 0
  KeepsLog =
      (handler : ErasedHandler (S × Log)) (s : S) (log : Log)
      → Registry.get claimed.job.task_name registry ≡ ok handler
      → (handler claimed.job.payload (s, log)).1.1 ≡ log

  process_found-Legal :
      (found : Result (ErasedHandler (S × Log))) (s : S)
      → ((p : String) → found ≢ panic p)
      → ((handler : ErasedHandler (S × Log))
          → found ≡ ok handler
          → (handler claimed.job.payload (s, [])).1.1 ≡ [])
      → Legal stores retries
          (fate found claimed.job.payload (s, []))
          (process_found draw b (watch_results results) registry policy claimed found (s, [])).1.1
  unfolding process_found
  process_found-Legal (ok handler) s np keeps =
      let kept : (handler claimed.job.payload (s, [])).1.1 ≡ [] = keeps handler refl in
      finish_from (outcome_of (handler claimed.job.payload (s, [])).0)
        (handler claimed.job.payload (s, [])).1 kept
  process_found-Legal (err e) s np keeps = terminal_unknown _ _ s
  process_found-Legal (panic p) s np keeps = absurd (np p refl)

  -- Whatever the handler and the broker do, if the handler leaves the log of calls alone,
  -- `process_one` makes the calls that are right for the outcome: with a result backend a success
  -- is stored and, if that worked, acknowledged; a failure with attempts left is requeued and
  -- stored nowhere; any other failure, or an unregistered task, is dead-lettered, and stored as a
  -- failure exactly if the broker confirmed the dead letter and there is a backend.
  pub process_one-Legal :
      (s : S)
      → KeepsLog
      → Legal stores retries
          (fate (Registry.get claimed.job.task_name registry) claimed.job.payload (s, []))
          (process_one draw b (watch_results results) registry policy claimed (s, [])).1.1
  unfolding process_one
  process_one-Legal s keeps =
      process_found-Legal (Registry.get claimed.job.task_name registry) s
        (Registry.get-ne-panic claimed.job.task_name registry)
        (λ handler found. keeps handler s [] found)
