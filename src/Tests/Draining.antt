-- ===== src/Tests/Draining.antt =====
-- `Worker::run` at concrete inputs: a broker that hands out one job, and handlers that succeed.
use capivara_rs.Prelude.HashMap
use capivara_rs.Worker.{process_one}
use capivara_rs.Worker.JoinSet.{running_at, join_one, finish_at}
use capivara_rs.Prelude.{
  ◌*◌, ℕ, zero, suc, ◌≤◌, ◌≡◌, refl, ◌+◌, Option, none, some, List, [], ◌∷◌, max, length,
  string_discrete,
}
use capivara_rs.Error.{ok, Exec}
use capivara_rs.Job.{ClaimedJob}
use capivara_rs.Retry.{default_policy}
use capivara_rs.Broker.{Broker}
use capivara_rs.Registry
use capivara_rs.Registry.{Registry}
use capivara_rs.Worker.JoinSet.Counts.{running_count}
use capivara_rs.Worker.Drain.{Worker, Event, advances, completes, run, start, check, returned, step}
use capivara_rs.Worker.Drain.Bounds.{Within, run_limits, check_never_leaks}
use capivara_rs.Worker.Drain.Accounts.{claims, run_returns_claims}
use capivara_rs.Worker.Drain.Progress.{progress, Lives, run_stops}
use capivara_rs.Tests.Data.{flight}

-- The shared state is the number of jobs that wait.
abbrev claim_next : Exec ℕ (Option ClaimedJob)
claim_next zero = (ok none, zero)
claim_next (suc n) = (ok (some (record { job = flight.job; claim_token = "t" })), n)

abbrev counting : Broker ℕ
counting = record {
  enqueue = λ job n. (ok job.id, suc n);
  claim = λ queues lease block_for. claim_next;
  ack = λ id token n. (ok tt, n);
  nack = λ id token action n. (ok tt, suc n);
  dead_letter = λ id token reason n. (ok tt, n);
  list_dead = λ queue n. (ok [], n);
}

abbrev add_tasks : Registry ℕ
add_tasks = ("add", λ payload n. (ok payload, n)) ∷ []

abbrev worker : Worker ℕ
worker = record {
  registry = add_tasks;
  broker = counting;
  results = none;
  queues = [];
  lease = 30;
  retry_policy = default_policy;
  concurrency = 0;
}

abbrev lowest : ℕ → ℕ
lowest n = 0

-- Reap, test and claim the job; reap and test: the one permit is out, so await; the task ends.
abbrev one_job : List (Event ℕ)
one_job =
    advances 0 ∷ advances 0 ∷ advances 0 ∷ advances 0 ∷ advances 0 ∷ completes 0 ∷ advances 0 ∷ []

-- Then find nothing to claim, and drain.
abbrev whole_run : List (Event ℕ)
whole_run =
    advances 0
    ∷ advances 0
    ∷ advances 0
    ∷ advances 0
    ∷ advances 0
    ∷ completes 0
    ∷ advances 0
    ∷ advances 0
    ∷ advances 0
    ∷ advances 0
    ∷ advances 0
    ∷ []

returns_one : (run lowest worker none whole_run (start worker 1)).phase ≡ returned (ok 1)
unfolding run step running_at start join_one finish_at process_one Registry.get HashMap.get
    string_discrete
returns_one = refl

run_limits_example :
    (running_count (run lowest worker (some 1) one_job (start worker 5)).in_flight
      ≤ max worker.concurrency 1)
    × Within (some 1) (
        (run lowest worker (some 1) one_job (start worker 5)).processed
        + length (run lowest worker (some 1) one_job (start worker 5)).in_flight)
run_limits_example = run_limits lowest worker (some 1) 5 one_job

check_never_leaks_example :
    (check none (run lowest worker none (advances 0 ∷ []) (start worker 1))).first_err
    ≡ (run lowest worker none (advances 0 ∷ []) (start worker 1)).first_err
unfolding run step start join_one
check_never_leaks_example = check_never_leaks lowest worker none 1 (advances 0 ∷ []) refl

run_returns_claims_example :
    (1 ≡ claims lowest worker none whole_run (start worker 1))
    × ((run lowest worker none whole_run (start worker 1)).in_flight ≡ [])
    × ((run lowest worker none whole_run (start worker 1)).first_err ≡ none)
run_returns_claims_example = run_returns_claims lowest worker none 1 whole_run 1 returns_one

run_stops_example :
    (progress lowest worker (some 1) one_job (start worker 5) ≤ 8 + 9 * 1)
    × Lives 0
        (run lowest worker (some 1) one_job (start worker 5)).phase
        (run lowest worker (some 1) one_job (start worker 5)).in_flight
run_stops_example = run_stops lowest worker 1 5 one_job 0
