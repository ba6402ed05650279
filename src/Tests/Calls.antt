-- ===== src/Tests/Calls.antt =====
-- Sequences of calls on the in-process broker, and on the in-process results, at concrete inputs.
use capivara_rs.Time.{add_duration}
use capivara_rs.Memory.Claim.{claim_pass}
use capivara_rs.Prelude.{
  String, ◌⊎◌, true, trim_is_empty, false-ne, ◌≡◌, refl, ◌++◌, some, List, [], ◌∷◌, arith,
  string_discrete, trim_is_empty,
}
use capivara_rs.Prelude.HashMap
use capivara_rs.Error.{ok, err, job_not_found, empty_idempotency_key}
use capivara_rs.Job.{JobId, DeadLetter, requeue_after}
use capivara_rs.Memory
use capivara_rs.Memory.{enqueue}
use capivara_rs.Memory.Settle.{ack, nack, dead_letter, list_dead}
use capivara_rs.Memory.Conserve.{WellFormed}
use capivara_rs.Memory.History.{
  apply, acks, Call, claims, dead_letters, run, AllAllowed, run-WellFormed, apply,
}
use capivara_rs.Memory.History.Permanence.{list_dead-run}
use capivara_rs.Memory.History.Tokens.{Lost, settle_late}
use capivara_rs.Memory.History.Places.{held, kind, Moves}
use capivara_rs.Memory.History.Lifecycle.{apply-Moves}
use capivara_rs.Memory.Producer.{Takes, enqueue_lem}
use capivara_rs.Tests.Data.{
  leased-WellFormed, add_job, leased, queued, round_at, as_listed, queued-WellFormed,
}

-- A worker claims the job and stalls; its lease runs out, and another worker claims the job.
abbrev pub handed_over : List Call
handed_over =
    claims as_listed [] 30 (round_at 10 "u") ∷ claims as_listed [] 30 (round_at 50 "v") ∷ []

second_attempt :
    (run handed_over queued).in_flight
    ≡ ("a", record { job = record add_job { attempts = 2 }; lease_until = 80; token = "v" }) ∷ []
unfolding run apply claim_pass HashMap.pop_front Memory.promote_delayed Memory.recover_expired
    string_discrete add_duration HashMap.insert HashMap.get Memory.recover_one HashMap.push_back
    HashMap.remove
second_attempt = refl

stale_ack : (ack "a" "u" (run handed_over queued)).0 ≡ err (job_not_found "a")
unfolding run ack HashMap.get apply claim_pass HashMap.pop_front Memory.promote_delayed
    Memory.recover_expired string_discrete add_duration HashMap.insert Memory.recover_one
    HashMap.push_back HashMap.remove
stale_ack = refl

blank_key :
    enqueue (record add_job { idempotency_key = some "  " }) queued
    ≡ (err empty_idempotency_key, queued)
unfolding enqueue trim_is_empty
blank_key = refl

handed_over_allowed : AllAllowed handed_over queued
handed_over_allowed = (omega arith, (omega arith, tt))

run-WellFormed_example : WellFormed (run handed_over queued)
run-WellFormed_example = run-WellFormed handed_over queued handed_over_allowed queued-WellFormed

none_held : Lost "s" queued
none_held id (f, e, p) = unfold HashMap.get in absurd (ground arith)

-- The token "s" of a claim that is over, while others claim the job.
settle_late_example :
    (ack "a" "s" (run handed_over queued) ≡ (err (job_not_found "a"), run handed_over queued))
    × (nack 60 "a" "s" (requeue_after 5) (run handed_over queued)
        ≡ (err (job_not_found "a"), run handed_over queued))
    × (dead_letter "a" "s" "boom" (run handed_over queued)
        ≡ (err (job_not_found "a"), run handed_over queued))
settle_late_example =
    settle_late "s" handed_over queued "a" 60 (requeue_after 5) "boom" none_held
      (false-ne "u" "s" refl, (false-ne "v" "s" refl, tt))

list_dead-run_example :
    (before later : List DeadLetter) × ((list_dead "default" leased).0 ≡ ok before)
    × ((list_dead "default" (run (dead_letters "a" "t" "boom" ∷ []) leased)).0
        ≡ ok (before ++ later))
list_dead-run_example = list_dead-run "default" (dead_letters "a" "t" "boom" ∷ []) leased

enqueue_lem_example :
    ((key : String) × (add_job.idempotency_key ≡ some key)
      × (trim_is_empty key ≡ true)
      × (enqueue add_job Memory.new ≡ (err empty_idempotency_key, Memory.new)))
    ⊎ (((key : String) × (id : JobId) × (add_job.idempotency_key ≡ some key)
          × (HashMap.get key Memory.new.idempotency ≡ some id)
          × (enqueue add_job Memory.new ≡ (ok id, Memory.new)))
        ⊎ Takes add_job Memory.new)
enqueue_lem_example = enqueue_lem add_job Memory.new

apply-Moves_example : Moves (kind (acks "a" "t")) held "a" (apply (acks "a" "t") leased)
unfolding HashMap.get string_discrete
apply-Moves_example = apply-Moves (acks "a" "t") held "a" leased tt leased-WellFormed refl
