-- ===== src/Broker.antt =====
-- broker/mod.rs: the trait `Broker`, over the state `S` that its callers share. What other tasks and
-- processes do between two calls is part of the calls: a broker over an `S` that holds their moves
-- makes them first.
use capivara_rs.Prelude.{String, Option, List}
use capivara_rs.Time.{Duration}
use capivara_rs.Error.{Exec}
use capivara_rs.Job.{JobId, QueueName, ClaimToken, Job, ClaimedJob, NackAction, DeadLetter}

pub record Broker (S : Type 0) : Type 0 where
  pub enqueue : Job → Exec S JobId
  pub claim : List QueueName → Duration → Duration → Exec S (Option ClaimedJob)
  pub ack : JobId → ClaimToken → Exec S (Unit {0})
  pub nack : JobId → ClaimToken → NackAction → Exec S (Unit {0})
  pub dead_letter : JobId → ClaimToken → String → Exec S (Unit {0})
  pub list_dead : QueueName → Exec S (List DeadLetter)
