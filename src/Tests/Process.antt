-- ===== src/Tests/Process.antt =====
-- `process_one` and the registry at concrete inputs, over the in-process broker and results.
use capivara_rs.Prelude.{
  none, arith, ◌⊎◌, sym, ap, ℕ, true, false, ltb, ◌≡◌, refl, some, [], ◌∷◌, ite, string_discrete,
}
use capivara_rs.Prelude.HashMap
use capivara_rs.Error.{task_error, Result, ok, err, task_already_registered}
use capivara_rs.Job.{Bytes, ClaimedJob}
use capivara_rs.Retry.{default_policy}
use capivara_rs.Retry.Backoff.{delay_bounds}
use capivara_rs.Registry
use capivara_rs.Registry.{
  Registry, ErasedHandler, Task, Serde, value, malformed, done, failed, erase,
}
use capivara_rs.Worker.{process_one, outcome_of}
use capivara_rs.Time.{add_duration}
use capivara_rs.Memory.{promote_delayed, recover_expired}
use capivara_rs.Memory.Claim.{claim, claim_loop, claim_pass}
use capivara_rs.Local.Completion.{Completes, process_one-Completes}
use capivara_rs.Worker.Protocol.{
  Log, watch_broker, watch_results, is_some, fate, Legal, process_one-Legal,
}
use capivara_rs.Local.{Local, memory_broker, memory_results}
use capivara_rs.Tests.Data.{flight, leased, as_listed, round_at}

-- A task whose arguments and output are numbers, one byte each.
abbrev one_byte : Bytes → Serde ℕ
one_byte (n ∷ []) = value n
one_byte _ = malformed "expected one byte"

abbrev twice : Task Local
twice = record {
  name = "twice";
  Args = ℕ;
  Output = ℕ;
  args_from_slice = one_byte;
  args_to_vec = λ n. value (n ∷ []);
  output_to_vec = λ n. value (n ∷ n ∷ []);
  run = λ n s. (done n, s);
}

abbrev pub add : {S : Type 0} → Task S
add = record {
  name = "add";
  Args = Bytes;
  Output = ℕ;
  args_from_slice = λ b. value b;
  args_to_vec = λ b. value b;
  output_to_vec = λ n. value (n ∷ []);
  run = λ b s. (failed (task_error "overflow"), s);
}

abbrev pub tasks : {S : Type 0} → Registry S
tasks = ("add", erase add) ∷ []

abbrev pub local : Local
local = record {
  inner = leased;
  stored = [];
  clock = 20;
  rounds = λ i. record { earlier = []; last = round_at 20 "u" };
  called = 0;
  order = as_listed;
}

abbrev pub claim_a : ClaimedJob
claim_a = record { job = flight.job; claim_token = "t" }

abbrev pub lowest : ℕ → ℕ
lowest n = 0

-- The task fails with attempts left: its job goes to the delayed list, and nothing is stored.
retries_later :
    (process_one lowest memory_broker
      (some memory_results)
      tasks
      default_policy
      claim_a
      local).1.stored
    ≡ []
unfolding process_one Registry.get HashMap.get string_discrete erase
retries_later = refl

-- The task has no access to the log.
log_after : Local → Log → Result (ErasedHandler (Local × Log)) → Log
log_after s log (ok handler) = (handler claim_a.job.payload (s, log)).1.1
log_after s log _ = log

keeps_log :
    (handler : ErasedHandler (Local × Log)) (s : Local) (log : Log)
    → Registry.get claim_a.job.task_name tasks ≡ ok handler
    → (handler claim_a.job.payload (s, log)).1.1 ≡ log
unfolding log_after Registry.get HashMap.get string_discrete erase
keeps_log handler s log found = sym (ap (log_after s log) found)

process_one-Legal_example :
    Legal
      (is_some (some memory_results))
      (ltb claim_a.job.attempts default_policy.max_attempts)
      (fate {S = Local × Log}
        (Registry.get claim_a.job.task_name tasks)
        claim_a.job.payload
        (local, []))
      (process_one lowest
        (watch_broker memory_broker)
        (watch_results (some memory_results))
        tasks
        default_policy
        claim_a
        (local, [])).1.1
process_one-Legal_example =
    process_one-Legal lowest memory_broker (some memory_results) tasks default_policy claim_a local
      keeps_log

abbrev local_tasks : Registry Local
local_tasks = tasks

register_lem_example :
    ((Registry.contains "twice" local_tasks ≡ false)
      × ((Registry.register twice local_tasks).0 ≡ ok tt)
      × (Registry.get "add" (Registry.register twice local_tasks).1
          ≡ ite
              (string_discrete "twice" "add")
              (ok (erase twice))
              (Registry.get "add" local_tasks)))
    ⊎ ((Registry.contains "twice" local_tasks ≡ true)
        × (Registry.register twice local_tasks
            ≡ (err (task_already_registered "twice"), local_tasks)))
register_lem_example = Registry.register_lem twice local_tasks "add"

process_one-Completes_example :
    Completes lowest tasks default_policy claim_a true
      (outcome_of (erase add claim_a.job.payload local).0)
      flight.job
      local
      (process_one lowest memory_broker (some memory_results) tasks default_policy claim_a local)
unfolding Registry.get HashMap.get string_discrete erase
process_one-Completes_example =
    process_one-Completes lowest tasks default_policy claim_a (erase add) local refl
      (flight, refl, refl) (omega (arith, delay_bounds lowest default_policy 1 (λ n. omega arith)))

-- A call that may wait 50 nanoseconds ends with the last round, though that read its clock earlier.
waits_out : (memory_broker.claim ("other" ∷ []) 30 50 local).0 ≡ ok none
unfolding HashMap.get HashMap.get_or_default HashMap.pop_front claim claim_loop claim_pass
    add_duration promote_delayed recover_expired string_discrete
waits_out = refl
