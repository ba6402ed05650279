-- ===== src/Tests/Completing.antt =====
-- `process_one` on a small Redis at concrete inputs.
use capivara_rs.Prelude.{[], ◌∷◌, ◌≡◌, refl, some, none, ltb, string_discrete}
use capivara_rs.Prelude.HashMap
use capivara_rs.Error.{ok, err, job_not_found}
use capivara_rs.Job.{Bytes, ClaimedJob}
use capivara_rs.Retry.{default_policy}
use capivara_rs.Registry
use capivara_rs.Registry.{Registry, Task, value, malformed, done, erase}
use capivara_rs.Results.{success, failure}
use capivara_rs.Worker.{outcome_of}
use capivara_rs.Redis.{attempts_of, pos}
use capivara_rs.Redis.Claim.{enqueue, try_claim_one, claimed_reply}
use capivara_rs.Redis.Settle.{ack}
use capivara_rs.Redis.LateWrites.{late_claim_restores_body}
use capivara_rs.Redis.Results.{ResultCodec}
use capivara_rs.Redis.Host.{Host}
use capivara_rs.Redis.Completion.{processed, processed-Completes}
use capivara_rs.Redis.Outcomes.{Completes}
use capivara_rs.Redis.Processing.{claim_of, claimed_from, sent_job-Completes}
use capivara_rs.Tests.Data.{add_job}
use capivara_rs.Tests.Process.{add, tasks, lowest}
use capivara_rs.Tests.Keyspace.{Keyspace, empty, small, small-Laws, small-Reachable}
use capivara_rs.Tests.Structures.{small-Structures}
use capivara_rs.Tests.Server.{by_id, round}
use capivara_rs.Tests.Queueing.{plain_job, by_attempts}

-- The third attempt of "a", held by the claim "t".
abbrev third : ClaimedJob
third = record { job = record add_job { attempts = 3 }; claim_token = "t" }

abbrev host : Keyspace → Host Keyspace
host s = record {
  keyspace = s;
  clock = 0;
  now_ms = 20;
  rounds = λ i. record { earlier = []; last = round };
  called = 0;
}

abbrev holding : Host Keyspace
holding = host (record empty {
  strings = ("p:job:a", "a") ∷ [];
  zsets = ("p:lease", ("default\u{1f}a\u{1f}t", 40) ∷ []) ∷ [];
})

-- A failure is written as its message.
abbrev messages : ResultCodec
messages = record {
  result_to_string = λ r. elim r [ success p ↦ malformed "no message" | failure m ↦ value m ];
  result_from_str = λ text. value (failure text);
}

processed-Completes_example :
    Completes small by_id messages "p:" 0 lowest default_policy third
      (ltb 3 default_policy.max_attempts)
      (outcome_of (erase add third.job.payload holding).0)
      "a"
      (record add_job { id = "a" })
      holding
      (processed small by_id messages "p:" 0 lowest tasks default_policy third holding)
unfolding Registry.get HashMap.get HashMap.contains_key string_discrete erase outcome_of
processed-Completes_example =
    processed-Completes small by_id messages "p:" 0 lowest tasks default_policy third small-Laws
      small-Structures small-Reachable (erase add) holding "a" "overflow" add_job refl
      (refl, refl, refl) (refl, refl)

-- A task that ends well.
abbrev echo : Task (Host Keyspace)
echo = record {
  name = "add";
  Args = Bytes;
  Output = Bytes;
  args_from_slice = λ b. value b;
  args_to_vec = λ b. value b;
  output_to_vec = λ b. value b;
  run = λ b s. (done b, s);
}

abbrev echoes : Registry (Host Keyspace)
echoes = ("add", erase echo) ∷ []

abbrev echoed : ResultCodec
echoed = record {
  result_to_string = λ r. value "12";
  result_from_str = λ text. value (success (1 ∷ 2 ∷ []));
}

-- "a" was sent and claimed.
abbrev claimed : Host Keyspace
claimed = host (claimed_from small by_attempts "p:" plain_job 30 10 "t" empty)

sent_job-Completes_example :
    ((try_claim_one small by_attempts "p:" "default" 30 10 "t"
        (enqueue small by_attempts "p:" plain_job empty).1).0
      ≡ ok (some (claim_of small by_attempts "p:" plain_job "t" empty)))
    × Completes small by_attempts echoed "p:" 0 lowest default_policy
        (claim_of small by_attempts "p:" plain_job "t" empty)
        (ltb 1 default_policy.max_attempts)
        (success (1 ∷ 2 ∷ []))
        "1"
        (record plain_job { attempts = 1 })
        claimed
        (processed small by_attempts echoed "p:" 0 lowest echoes default_policy
          (claim_of small by_attempts "p:" plain_job "t" empty)
          claimed)
unfolding string_discrete attempts_of HashMap.get HashMap.get_or_default enqueue HashMap.insert
    Registry.get erase outcome_of
sent_job-Completes_example =
    sent_job-Completes small by_attempts echoed "p:" 0 lowest echoes default_policy small-Laws
      small-Structures small-Reachable plain_job 30 10 "t" "0" "1" "12" empty claimed (erase echo)
      refl refl refl refl refl refl refl refl refl (refl, refl)

-- The claim "t" of "a" ran out, and "u" holds the job.
abbrev reclaimed : Keyspace
reclaimed = record empty {
  strings = ("p:job:a", "1") ∷ [];
  zsets = ("p:lease", ("default\u{1f}a\u{1f}u", 40) ∷ []) ∷ [];
}

late_claim_restores_body_example :
    let t = (ack small by_attempts "p:" "a" "u" reclaimed).1 in
    let u = (claimed_reply small by_attempts "p:" "t" (some ("0", pos 1)) t).1 in
    (small.get "p:job:a" t ≡ none)
    × ((claimed_reply small by_attempts "p:" "t" (some ("0", pos 1)) t).0
        ≡ ok (some (record { job = record plain_job { attempts = 1 }; claim_token = "t" })))
    × (small.get "p:job:a" u ≡ some "1")
    × (ack small by_attempts "p:" "a" "t" u ≡ (err (job_not_found "a"), u))
unfolding string_discrete attempts_of HashMap.get HashMap.contains_key
late_claim_restores_body_example =
    late_claim_restores_body small by_attempts "p:" small-Laws small-Structures small-Reachable "t"
      "u" "1" "1" "0" (pos 1) plain_job (record plain_job { attempts = 1 }) reclaimed
      (refl, refl, refl) refl refl refl refl
