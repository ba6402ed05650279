-- ===== src/Tests/Queueing.antt =====
-- The lists and the sorted sets of the broker on a small Redis, at concrete inputs.
use capivara_rs.Prelude.{
  ℕ, zero, suc, String, none, some, List, [], ◌∷◌, ◌≡◌, ◌≢◌, refl, ◌∙◌, ap, false, inl, inr, ite,
  string_discrete, false-ne, arith,
}
use capivara_rs.Prelude.HashMap
use capivara_rs.Time.{from_millis}
use capivara_rs.Error.{ok}
use capivara_rs.Job.{JobId, Job}
use capivara_rs.Registry.{Serde, value, malformed}
use capivara_rs.Redis.{Codec}
use capivara_rs.Redis.Keys.{pending_key, parse_lease, split_at_sep}
use capivara_rs.Redis.Claim.{
  Round, try_claim_one, sleep_slice, claim, recover_expired_leases, promote_delayed,
}
use capivara_rs.Redis.Scripts.{recover_script, promote_script}
use capivara_rs.Redis.Settle.{dead_letter, list_dead}
use capivara_rs.Redis.Structures.{Listed}
use capivara_rs.Redis.Delivery.{Claims, last_of, try_claim_one-Claims}
use capivara_rs.Redis.Orphans.{orphan_hides_jobs}
use capivara_rs.Redis.DeadLetters.{dead_letter_listed}
use capivara_rs.Redis.Redelivery.{Brings, bring_back, expired_job_waits}
use capivara_rs.Redis.Wait.{claim_returns_by_slices}
use capivara_rs.Tests.Data.{add_job}
use capivara_rs.Tests.Keyspace.{Keyspace, empty, small, small-Laws, small-Reachable}
use capivara_rs.Tests.Structures.{small-Structures}
use capivara_rs.Tests.Server.{by_id, round, NoSep-default, NoSep-a}

-- "a" waits, and "b" behind it.
abbrev waiting : Keyspace
waiting = record empty {
  strings = ("p:job:a", "a") ∷ ("p:job:b", "b") ∷ [];
  lists = ("p:q:default:pending", "b" ∷ "a" ∷ []) ∷ [];
}

try_claim_one-Claims_example :
    Claims small by_id "p:" "default" "t" waiting
      (try_claim_one small by_id "p:" "default" 30 10 "t" waiting)
      (last_of (small.lrange "p:q:default:pending" waiting))
try_claim_one-Claims_example =
    try_claim_one-Claims small by_id "p:" small-Laws small-Structures small-Reachable "default" 30
      10 "t" waiting

-- "a" has no body any more.
abbrev orphaned : Keyspace
orphaned = record waiting { strings = ("p:job:b", "b") ∷ [] }

orphan_hides_jobs_example :
    (claim small by_id "p:" ("default" ∷ []) 30 0 0 (round ∷ []) orphaned
      ≡ some (ok none, (small.rpop "p:q:default:pending" orphaned).1))
    × (small.lrange "p:q:default:pending" (small.rpop "p:q:default:pending" orphaned).1 ≡ "b" ∷ [])
unfolding HashMap.get HashMap.get_or_default string_discrete
orphan_hides_jobs_example =
    orphan_hides_jobs small by_id "p:" small-Laws small-Structures small-Reachable "default"
      ("b" ∷ []) "a" 30 0 round orphaned (refl, refl) refl refl (omega arith)

abbrev three_rounds : List Round
three_rounds =
    round
    ∷ record round { at_check = from_millis 50; at_remaining = from_millis 50 }
    ∷ record round { at_check = from_millis 100; at_remaining = from_millis 100 }
    ∷ []

claim_returns_by_slices_example :
    claim small by_id "p:" [] 30 0 (from_millis 50) three_rounds empty ≢ none
claim_returns_by_slices_example =
    claim_returns_by_slices small by_id "p:" [] 30 0 (from_millis 50) three_rounds empty
      (unfold sleep_slice in ground arith) (omega arith)

-- "a" is held, and "b" is dead.
abbrev mourning : Keyspace
mourning = record empty {
  strings = ("p:job:a", "a") ∷ ("p:job:b", "b") ∷ [];
  lists = ("p:q:default:dead", "b" ∷ []) ∷ [];
  zsets = ("p:lease", ("default\u{1f}a\u{1f}t", 40) ∷ []) ∷ [];
}

abbrev text_of : Serde JobId → JobId
text_of (value id) = id
text_of (malformed e) = ""

is_b :
    (text : String) (other : JobId)
    → Listed text ("b" ∷ [])
    → value text ≡ value other
    → "b" ≡ other
is_b text other (inl e) p = e ∙ ap text_of p
is_b text other (inr l) p = elim l [ ]

dead_letter_listed_example :
    ((dead_letter small by_id "p:" "a" "t" "boom" mourning).0 ≡ ok tt)
    × ((list_dead small by_id "p:" "default"
          (dead_letter small by_id "p:" "a" "t" "boom" mourning).1).0
        ≡ ok (
            (record { job = record add_job { id = "b" }; reason = "" })
            ∷ (record { job = add_job; reason = "boom" })
            ∷ []))
unfolding list_dead HashMap.get_or_default string_discrete HashMap.get HashMap.contains_key
dead_letter_listed_example =
    dead_letter_listed small by_id "p:" small-Laws small-Structures small-Reachable "a" "t" "boom"
      "a" add_job mourning (refl, refl, refl) refl
      (λ text other l p. (
        λ e. false-ne "b" "a" refl (is_b text other l p ∙ e),
        λ e. false-ne "b" "a:dead_reason" refl (is_b text other l p ∙ e),
      ))

-- The leases of "a" and "b" run out at 40, and that of "c" later; "c" waits too, in another queue.
abbrev crashed : Keyspace
crashed = record empty {
  strings = ("p:job:a", "a") ∷ ("p:job:b", "b") ∷ ("p:job:c", "c") ∷ [];
  lists = ("p:q:default:pending", "d" ∷ []) ∷ [];
  zsets =
      (
        "p:lease",
        ("default\u{1f}a\u{1f}t", 40)
            ∷ ("default\u{1f}b\u{1f}u", 40)
            ∷ ("default\u{1f}c\u{1f}v", 90)
            ∷ [],
      )
      ∷ [];
}

bring_back_example :
    Brings small "p:" parse_lease "p:lease"
      (small.zrangebyscore "p:lease" 50 crashed)
      crashed
      2
      (recover_expired_leases small by_id "p:" 50 crashed)
    × Brings small "p:" split_at_sep "p:delayed"
        (small.zrangebyscore "p:delayed" 50 crashed)
        crashed
        0
        (promote_delayed small by_id "p:" 50 crashed)
unfolding string_discrete recover_script promote_script HashMap.get HashMap.contains_key parse_lease
    HashMap.insert HashMap.remove
bring_back_example =
    bring_back small by_id "p:" small-Laws small-Structures small-Reachable 50 crashed

expired_job_waits_example :
    let t = (recover_expired_leases small by_id "p:" 50 crashed).1 in
    Listed "a" (small.lrange "p:q:default:pending" t)
    × (small.get "p:job:a" t ≡ some "a")
    × ((small.zrem "p:lease" "default\u{1f}a\u{1f}t" t).0 ≡ false)
    × ((k : String) (x : JobId)
        → Listed x (small.lrange (pending_key "p:" k) crashed)
        → Listed x (small.lrange (pending_key "p:" k) t))
unfolding string_discrete
expired_job_waits_example =
    expired_job_waits small by_id "p:" small-Laws small-Structures small-Reachable 50 "default" "a"
      "t" "a" crashed NoSep-default NoSep-a (unfold HashMap.get in inl refl)
      (unfold HashMap.get in refl)

-- A job without a key, which is written as whether it was attempted.
abbrev pub plain_job : Job
plain_job = record add_job { idempotency_key = none }

abbrev attempt_text : ℕ → String
attempt_text zero = "0"
attempt_text (suc n) = "1"

abbrev pub by_attempts : Codec
by_attempts = record {
  job_to_string = λ job. value (attempt_text job.attempts);
  job_from_str = λ text. value (record plain_job { attempts = ite (string_discrete text "0") 0 1 });
  parse_str = λ text. value text;
}
