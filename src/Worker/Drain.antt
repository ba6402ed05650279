-- ===== src/Worker/Drain.antt =====
-- worker/mod.rs: `Worker::run`. The loop's own task is a state machine over the shared state, and a
-- run is a sequence of events: the loop takes its next step, a spawned task runs to its end, or other
-- processes act on the shared state.
pub mod Bounds
pub mod Accounts
pub mod Measure
pub mod Progress
use capivara_rs.Prelude.{
  ℕ, zero, suc, ◌+◌, String, Bool, true, false, Option, none, some, List, [], ◌∷◌, ◌++◌, max, ltb,
  leb, length, if◌then◌else◌,
}
use capivara_rs.Time.{Duration}
use capivara_rs.Error.{CapivaraError, task_panicked, internal, Result, ok, err, panic}
use capivara_rs.Job.{QueueName, default_queue_name, ClaimedJob}
use capivara_rs.Retry.{RetryPolicy}
use capivara_rs.Broker.{Broker}
use capivara_rs.Results.{ResultBackend}
use capivara_rs.Registry.{Registry}
use capivara_rs.Worker.JoinSet.{Flight, running, join_one, finish_at, running_at}
use capivara_rs.Worker.{default_block, process_one}

pub record Worker (S : Type 0) : Type 0 where
  pub registry : Registry S
  pub broker : Broker S
  pub results : Option (ResultBackend S)
  pub queues : List QueueName
  pub lease : Duration
  pub retry_policy : RetryPolicy
  pub concurrency : ℕ

-- Where the loop stands: reaping with `try_join_next`, before its tests, in `join_next().await`, with
-- a permit in `claim`, in the last loop over `join_next`, or done.
pub data Phase : Type 0 where
  reaping checking awaiting claiming draining : Phase
  returned : Result ℕ → Phase

pub record Loop (S : Type 0) : Type 0 where
  pub shared : S
  pub permits : ℕ
  pub in_flight : List Flight
  pub processed : ℕ
  pub first_err : Option CapivaraError
  pub phase : Phase

pub data Event (S : Type 0) : Type 0 where
  advances : ℕ → Event S
  completes : ℕ → Event S
  others : (S → S) → Event S

-- `if first_err.is_none() { *first_err = Some(e) }`
unfoldable pub keep_first : Option CapivaraError → CapivaraError → Option CapivaraError
keep_first none e = some e
keep_first (some first) e = some first

unfoldable pub account_err : Result (Unit {0}) → Option CapivaraError → Option CapivaraError
unfolding keep_first
account_err (ok u) first = first
account_err (err e) first = keep_first first e
account_err (panic p) first = keep_first first (task_panicked p)

unfoldable pub account_join : {S : Type 0} → Result (Unit {0}) → Loop S → Loop S
unfolding account_err
account_join joined l = record l {
  processed = l.processed + 1;
  first_err = account_err joined l.first_err;
}

abbrev pub leak_message : String
leak_message = "semaphore exhausted with no in-flight jobs (permit leak)"

-- `max_jobs.is_some_and(|m| n >= m)` and `max_jobs.is_none_or(|m| n < m)`
abbrev pub reached : Option ℕ → ℕ → Bool
reached none n = false
reached (some m) n = leb m n

abbrev pub is_under : Option ℕ → ℕ → Bool
is_under none n = true
is_under (some m) n = ltb n m

-- `max_jobs` or the permits forbid a claim: wait for a task, or stop if there is none.
abbrev pub await_or : {S : Type 0} → Loop S → List Flight → Loop S → Loop S
await_or stop [] l = stop
await_or stop (f ∷ fs) l = record l { phase = awaiting }

-- `queues`, or the default queue if there is none.
abbrev pub queues_of : List QueueName → List QueueName
queues_of [] = default_queue_name ∷ []
queues_of (q ∷ qs) = q ∷ qs

abbrev pub outcome : Option CapivaraError → ℕ → Result ℕ
outcome (some e) n = err e
outcome none n = ok n

module _ {S : Type 0} where
  unfoldable pub acquire : ℕ → Loop S → Loop S
  acquire zero l =
      await_or (record l { first_err = some (internal leak_message); phase = draining }) l.in_flight
        l
  acquire (suc p) l = record l { permits = p; phase = claiming }

  unfoldable pub check_limits : Option ℕ → Loop S → Loop S
  unfolding acquire
  check_limits max_jobs l =
      if reached max_jobs l.processed
      then record l { phase = draining }
      else if is_under max_jobs (l.processed + length l.in_flight)
      then acquire l.permits l
      else await_or (record l { phase = draining }) l.in_flight l

  unfoldable pub check : Option ℕ → Loop S → Loop S
  unfolding check_limits
  check max_jobs l = elim l.first_err [
    | some e ↦ record l { phase = draining }
    | none ↦ check_limits max_jobs l
  ]

  -- What comes back from `claim`, to the loop that holds a permit for it.
  unfoldable pub claimed : Result (Option ClaimedJob) → Loop S → Loop S
  unfolding keep_first
  claimed (ok (some c)) l = record l { in_flight = l.in_flight ++ running c ∷ []; phase = reaping }
  claimed (ok none) l =
      let back : Loop S = record l { permits = l.permits + 1 } in
      await_or (record back { phase = draining }) l.in_flight back
  claimed (err e) l = record l {
    permits = l.permits + 1;
    first_err = keep_first l.first_err e;
    phase = reaping;
  }
  claimed (panic p) l = record l { permits = l.permits + 1; phase = returned (panic p) }

  -- One `join`: with a finished task account for it and go on to `next`; with none, to `blocked`.
  unfoldable pub join : Phase → Phase → Option (Result (Unit {0}) × List Flight) → Loop S → Loop S
  unfolding account_join
  join next blocked none l = record l { phase = blocked }
  join next blocked (some (r, rest)) l =
      account_join r (record l { in_flight = rest; phase = next })

  unfoldable pub drain : ℕ → List Flight → Loop S → Loop S
  unfolding join
  drain i [] l = record l { phase = returned (outcome l.first_err l.processed) }
  drain i (f ∷ fs) l = join draining draining (join_one i (f ∷ fs)) l

  -- A pass over `try_join_next` joins a task, or finds none and goes on.
  unfoldable pub advance : Worker S → Option ℕ → ℕ → Phase → Loop S → Loop S
  unfolding join check claimed drain
  advance w max_jobs i reaping l = join reaping checking (join_one i l.in_flight) l
  advance w max_jobs i checking l = check max_jobs l
  advance w max_jobs i awaiting l = join reaping awaiting (join_one i l.in_flight) l
  advance w max_jobs i claiming l =
      let (r, s) = w.broker.claim (queues_of w.queues) w.lease default_block l.shared in
      claimed r (record l { shared = s })
  advance w max_jobs i draining l = drain i l.in_flight l
  advance w max_jobs i (returned r) l = l

  -- The task at the position runs to its end, and its permit is dropped with it.
  unfoldable pub complete : (ℕ → ℕ) → Worker S → ℕ → Option ClaimedJob → Loop S → Loop S
  complete draw w i none l = l
  complete draw w i (some c) l =
      let (r, s) = process_one draw w.broker w.results w.registry w.retry_policy c l.shared in
      record l { shared = s; permits = l.permits + 1; in_flight = finish_at i r l.in_flight }

  unfoldable pub step : (ℕ → ℕ) → Worker S → Option ℕ → Event S → Loop S → Loop S
  unfolding advance complete
  step draw w max_jobs (advances i) l = advance w max_jobs i l.phase l
  step draw w max_jobs (completes i) l = complete draw w i (running_at i l.in_flight) l
  step draw w max_jobs (others f) l = record l { shared = f l.shared }

  unfoldable pub run : (ℕ → ℕ) → Worker S → Option ℕ → List (Event S) → Loop S → Loop S
  run draw w max_jobs [] l = l
  run draw w max_jobs (e ∷ es) l = run draw w max_jobs es (step draw w max_jobs e l)

  -- The loop on entry.
  unfoldable pub start : Worker S → S → Loop S
  start w s = record {
    shared = s;
    permits = max w.concurrency 1;
    in_flight = [];
    processed = 0;
    first_err = none;
    phase = reaping;
  }
