-- ===== src/Tests/Data.antt =====
-- What the tests share: jobs, and an in-process broker with one claim, or with one queued job.
use capivara_rs.Prelude.{String, some, List, [], ◌∷◌, arith}
use capivara_rs.Prelude.HashMap
use capivara_rs.Time.{Instant}
use capivara_rs.Job.{Job}
use capivara_rs.Memory
use capivara_rs.Memory.{InFlight, Inner}
use capivara_rs.Memory.Claim.{Round}
use capivara_rs.Memory.Census
use capivara_rs.Memory.Conserve.{WellFormed}

abbrev pub add_job : Job
add_job = record {
  id = "a";
  queue = "default";
  task_name = "add";
  payload = 1 ∷ 2 ∷ [];
  attempts = 0;
  idempotency_key = some "order-42";
}

abbrev pub flight : InFlight
flight = record { job = record add_job { attempts = 1 }; lease_until = 30; token = "t" }

abbrev pub leased : Inner
leased = record Memory.new { in_flight = ("a", flight) ∷ [] }

abbrev pub queued : Inner
queued = record Memory.new { pending = ("default", add_job ∷ []) ∷ [] }

abbrev pub postponed : Inner
postponed = record Memory.new { delayed = (5, add_job) ∷ (50, record add_job { id = "b" }) ∷ [] }

-- A round that reads one instant throughout, while nobody else acts.
abbrev pub round_at : Instant → String → Round
round_at now token = record {
  at_recover = now;
  at_promote = now;
  at_lease = now;
  at_check = now;
  at_remaining = now;
  token = token;
  others = λ s. s;
}

abbrev pub as_listed : List String → List String
as_listed ids = ids

pub leased-WellFormed : WellFormed leased
unfolding HashMap.get Census.in_queues Census.in_delayed Census.in_dead
leased-WellFormed = record {
  keyed = record { at = λ k f e. ground arith };
  single = λ i. ground arith;
}

pub queued-WellFormed : WellFormed queued
unfolding HashMap.get Census.in_queues Census.in_list Census.in_delayed Census.in_dead
queued-WellFormed = record {
  keyed = record { at = λ k f e. absurd (ground arith) };
  single = λ i. ground arith;
}
