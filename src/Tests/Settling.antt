-- ===== src/Tests/Settling.antt =====
-- Settlements of a claim of the in-process broker at concrete inputs.
use capivara_rs.Prelude.{
  some, false-ne, ap, ◌∙◌, Option, none, ◌≡◌, ◌≢◌, refl, [], ◌∷◌, arith, string_discrete,
}
use capivara_rs.Prelude.HashMap
use capivara_rs.Time.{instant_max, add_duration}
use capivara_rs.Error.{ok, err, panic, job_not_found}
use capivara_rs.Job.{JobId, ClaimToken, requeue_after}
use capivara_rs.Memory.{InFlight}
use capivara_rs.Memory.Claim.{overflow_panic}
use capivara_rs.Memory.Settle.{ack, nack, dead_letter, list_dead}
use capivara_rs.Memory.Census.{copies}
use capivara_rs.Memory.Conserve.{Conserves}
use capivara_rs.Memory.Ownership.{Holds}
use capivara_rs.Memory.Settlement.{settle-Conserves, nack_overflow_loses_job}
use capivara_rs.Tests.Data.{add_job, flight, leased, leased-WellFormed}

nack_delays :
    (nack 10 "a" "t" (requeue_after 5) leased).1.delayed
    ≡ (15, record add_job { attempts = 1 }) ∷ []
unfolding nack HashMap.get string_discrete add_duration
nack_delays = refl

nack_at_once :
    (nack 10 "a" "t" (requeue_after 0) leased).1.pending
    ≡ ("default", record add_job { attempts = 1 } ∷ []) ∷ []
unfolding nack HashMap.get string_discrete HashMap.push_back
nack_at_once = refl

ack_stale : ack "a" "u" leased ≡ (err (job_not_found "a"), leased)
unfolding ack HashMap.get string_discrete
ack_stale = refl

dead_letters_listed :
    (list_dead "default" (dead_letter "a" "t" "boom" leased).1).0
    ≡ ok (record { job = record add_job { attempts = 1 }; reason = "boom" } ∷ [])
unfolding list_dead dead_letter HashMap.get_or_default HashMap.get string_discrete HashMap.push_back
dead_letters_listed = refl

holds : Holds "a" "t" leased
unfolding HashMap.get string_discrete
holds = (flight, refl, refl)

token_of : Option InFlight → ClaimToken
token_of none = ""
token_of (some f) = f.token

not_held : ¬ Holds "a" "u" leased
unfolding token_of HashMap.get string_discrete
not_held (f, e, p) = false-ne "t" "u" refl (ap token_of e ∙ p)

settle-Conserves_example :
    ((ack "a" "t" leased).0 ≡ ok tt)
    × (copies "a" (ack "a" "t" leased).1 ≡ 0)
    × ((i : JobId) → i ≢ "a" → copies i (ack "a" "t" leased).1 ≡ copies i leased)
    × Conserves leased (nack 10 "a" "t" (requeue_after 5) leased).1
    × Conserves leased (dead_letter "a" "t" "boom" leased).1
settle-Conserves_example =
    settle-Conserves "a" "t" 10 5 "boom" leased leased-WellFormed holds (omega arith)

nack_overflow_loses_job_example :
    ((nack 10 "a" "t" (requeue_after instant_max) leased).0 ≡ panic overflow_panic)
    × (copies "a" (nack 10 "a" "t" (requeue_after instant_max) leased).1 ≡ 0)
nack_overflow_loses_job_example =
    nack_overflow_loses_job 10 "a" "t" instant_max leased leased-WellFormed holds (omega arith)
      (omega arith)
