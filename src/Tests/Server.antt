-- ===== src/Tests/Server.antt =====
-- The broker on a small Redis at concrete inputs.
use capivara_rs.Redis.Scripts.{
  claim_script, promote_script, recover_script, enqueue_idempotent_script, ack_script,
}
use Prim.Native.String.{◌++◌}
use capivara_rs.Prelude.{
  ℕ, String, none, some, [], ◌∷◌, ◌≡◌, refl, inr, ite, string_discrete, arith, trim_is_empty,
}
use capivara_rs.Prelude.HashMap
use capivara_rs.Error.{ok, err, job_not_found}
use capivara_rs.Job.{NackAction}
use capivara_rs.Registry.{value}
use capivara_rs.Redis.{Codec}
use capivara_rs.Redis.Keys.{job_key, lease_member, member_sep, parse_lease}
use capivara_rs.Redis.Claim.{Round, claim_pass, enqueue}
use capivara_rs.Redis.Settle.{ack, nack, dead_letter}
use capivara_rs.Redis.Ownership.{settle-Unclaimed}
use capivara_rs.Redis.Members.{NoSep, parse_lease_misreads}
use capivara_rs.Redis.Producer.{enqueue_known, enqueue_twice_loses_body}
use capivara_rs.Tests.Data.{add_job}
use capivara_rs.Tests.Keyspace.{Keyspace, empty, small, small-Laws, small-Reachable}

-- A body that is the job's id.
abbrev pub by_id : Codec
by_id = record {
  job_to_string = λ job. value job.id;
  job_from_str = λ text. value (record add_job { id = text });
  parse_str = λ text. value text;
}

abbrev pub round : Round
round = record {
  recover_ms = 10;
  promote_ms = 10;
  claim_ms = λ i. 10;
  token = λ i. "t";
  at_check = 0;
  at_remaining = 0;
}

abbrev sent : Keyspace
sent = record empty { strings = ("p:job:a", "a") ∷ [] }

-- A job that was enqueued is claimed, with its first attempt, and its holder acknowledges it.
claims_sent :
    (claim_pass small by_id "p:" [] 30 round (enqueue small by_id "p:" add_job empty).1).0
    ≡ ok (some (record { job = record add_job { attempts = 1 }; claim_token = "t" }))
unfolding claim_pass enqueue claim_script HashMap.get_or_default promote_script HashMap.get
    recover_script trim_is_empty enqueue_idempotent_script HashMap.insert string_discrete
claims_sent = refl

acks_claimed :
    (ack small by_id "p:" "a" "t"
      (claim_pass small by_id "p:" [] 30 round (enqueue small by_id "p:" add_job empty).1).1).0
    ≡ ok tt
unfolding claim_pass enqueue ack HashMap.get claim_script HashMap.get_or_default promote_script
    recover_script trim_is_empty enqueue_idempotent_script HashMap.insert string_discrete ack_script
    HashMap.contains_key
acks_claimed = refl

settle-Unclaimed_example :
    (ack small by_id "p:" "a" "u" sent ≡ (err (job_not_found "a"), sent))
    × ((now : ℕ) (a : NackAction)
        → nack small by_id "p:" now "a" "u" a sent ≡ (err (job_not_found "a"), sent))
    × ((reason : String)
        → dead_letter small by_id "p:" "a" "u" reason sent ≡ (err (job_not_found "a"), sent))
unfolding HashMap.get string_discrete
settle-Unclaimed_example =
    settle-Unclaimed small by_id "p:" small-Laws small-Reachable "a" "u" sent
      (inr (add_job, "a", refl, refl, refl))

pub NoSep-default : NoSep "default"
NoSep-default = ground arith

pub NoSep-a : NoSep "a"
NoSep-a = ground arith

parse_lease_misreads_example :
    parse_lease (lease_member ("default" ++ (member_sep ++ "a")) "b" "t") ≡ some ("default", "a")
parse_lease_misreads_example = parse_lease_misreads "default" "a" "b" "t" NoSep-default NoSep-a

-- The key is known for the job "b".
abbrev known : Keyspace
known = record empty { strings = ("p:idempotency:order-42", "b") ∷ ("p:job:b", "b") ∷ [] }

enqueue_known_example :
    ((enqueue small by_id "p:" add_job known).0 ≡ ok "b")
    × ((k : String)
        → HashMap.get k (enqueue small by_id "p:" add_job known).1.strings
          ≡ ite (string_discrete (job_key "p:" "a") k) none (HashMap.get k known.strings))
unfolding HashMap.get string_discrete trim_is_empty
enqueue_known_example =
    enqueue_known small by_id "p:" small-Laws small-Reachable add_job "order-42" "a" "b" known
      (refl, refl, refl) refl refl

enqueue_twice_loses_body_example :
    ((enqueue small by_id "p:" add_job empty).0 ≡ ok "a")
    × (HashMap.get (job_key "p:" "a") (enqueue small by_id "p:" add_job empty).1.strings ≡ some "a")
    × ((enqueue small by_id "p:" add_job (enqueue small by_id "p:" add_job empty).1).0 ≡ ok "a")
    × (HashMap.get
          (job_key "p:" "a")
          (enqueue small by_id "p:" add_job (enqueue small by_id "p:" add_job empty).1).1.strings
        ≡ none)
unfolding HashMap.get string_discrete trim_is_empty
enqueue_twice_loses_body_example =
    enqueue_twice_loses_body small by_id "p:" small-Laws small-Reachable add_job "order-42" "a"
      empty (refl, refl, refl) refl refl
