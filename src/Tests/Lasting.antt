-- ===== src/Tests/Lasting.antt =====
-- A history of calls on a small Redis, at concrete inputs.
use capivara_rs.Prelude.{
  String, none, some, List, [], ◌∷◌, ◌≡◌, ◌≢◌, refl, sym, ◌∙◌, ap, ite, if_pos, if_neg, inl, inr,
  string_discrete, ℕ_discrete, false-ne, arith,
}
use capivara_rs.Prelude.HashMap
use mathlib.Core.Path.{subst}
use capivara_rs.Redis.Keys.{job_key}
use capivara_rs.Redis.Apart.{job_key_inj}
use capivara_rs.Redis.Members.{NoSep}
use capivara_rs.Job.{JobId, Job, requeue_after}
use capivara_rs.Registry.{value, malformed}
use capivara_rs.Redis.{Codec}
use capivara_rs.Redis.Claim.{enqueue}
use capivara_rs.Redis.Keeps.Safe.{IsFaithful, IsSafe}
use capivara_rs.Redis.Keeps.Bodies.{IsOwn, IsSound}
use capivara_rs.Redis.History.{
  Call, recovers, promotes, claims_one, acks, nacks, dead_letters, run, run-IsSafe, AllAllowed,
}
use capivara_rs.Redis.Safety.{sent_never_lost}
use capivara_rs.Tests.Keyspace.{Keyspace, empty, small, small-Laws, small-Reachable}
use capivara_rs.Tests.Structures.{small-Structures}
use capivara_rs.Tests.Server.{NoSep-default, NoSep-a}
use capivara_rs.Tests.Queueing.{plain_job}

Job-discrete : Discrete Job
Job-discrete = hlevel (ℕ_discrete, string_discrete)

-- One job has a text.
abbrev one_job : Codec
one_job = record {
  job_to_string = λ job. ite (Job-discrete job plain_job) (value "0") (malformed "unknown");
  job_from_str = λ text. ite (string_discrete text "0") (value plain_job) (malformed "unknown");
  parse_str = λ text. value text;
}

zero_text : (text : String) → value "0" ≡ value text → text ≡ "0"
zero_text text e = ground (arith, e)

unknown : (text : String) → malformed "unknown" ≢ value text
unknown text e = absurd (ground (arith, e))

one_job-IsFaithful : IsFaithful one_job
one_job-IsFaithful job text w = elim (Job-discrete job plain_job) [
  | yes e ↦
      let same : text ≡ "0" =
        zero_text text
          (sym (if_pos (Job-discrete job plain_job) e (value "0") (malformed "unknown")) ∙ w) in
      if_pos (string_discrete text "0") same (value plain_job) (malformed "unknown")
      ∙ ap (λ j. value j) (sym e)
  | no n ↦ absurd (
      unknown text
        (sym (if_neg (Job-discrete job plain_job) n (value "0") (malformed "unknown")) ∙ w))
]

-- A worker claims the job and stalls; its lease runs out, another claims it and gives it back; a third
-- one dead-letters it.
abbrev calls : List Call
calls =
    claims_one "default" 30_000_000_000 10 "t"
    ∷ recovers 50_000
    ∷ claims_one "default" 30_000_000_000 50_000 "u"
    ∷ nacks 60_000 "a" "u" (requeue_after 1_000_000_000)
    ∷ promotes 70_000
    ∷ acks "b" "t"
    ∷ claims_one "default" 30_000_000_000 70_000 "v"
    ∷ dead_letters "a" "v" "boom"
    ∷ []

unread : (job : Job) → malformed "unknown" ≢ value job
unread job e = absurd (ground (arith, e))

calls-AllAllowed : AllAllowed small one_job "p:" "a" calls
unfolding string_discrete
calls-AllAllowed = (
  tt,
  (
    tt,
    (
      tt,
      (
        tt,
        (
          tt,
          (
            false-ne "b" "a" refl,
            (tt, ((false-ne "a:dead_reason" "a" refl, λ job e. unread job e), tt)),
          ),
        ),
      ),
    ),
  ),
)

none_there : (body : String) → none ≢ some body
none_there body b = absurd (ground (arith, b))

sent_never_lost_example :
    IsSafe small one_job "p:" "default" "a"
      (run small one_job "p:" calls (enqueue small one_job "p:" plain_job empty).1)
unfolding HashMap.get
sent_never_lost_example =
    sent_never_lost small one_job "p:" small-Laws small-Structures small-Reachable
      one_job-IsFaithful plain_job NoSep-default NoSep-a "0" calls empty refl
      (if_pos (Job-discrete plain_job plain_job) refl (value "0") (malformed "unknown"))
      calls-AllAllowed (λ i body j b d. absurd (none_there body b))

-- "a" is held by the claim "t".
abbrev holding : Keyspace
holding = record empty {
  strings = ("p:job:a", "0") ∷ [];
  zsets = ("p:lease", ("default\u{1f}a\u{1f}t", 40) ∷ []) ∷ [];
}

same_job : (j k : Job) → value j ≡ value k → j ≡ k
same_job j k e = ground (arith, e)

only_a :
    (i : JobId) (body : String) (j : Job)
    → HashMap.get (job_key "p:" i) holding.strings ≡ some body
    → one_job.job_from_str body ≡ value j
    → IsOwn small one_job "p:" i j
unfolding HashMap.get
only_a i body j b d = elim (string_discrete "p:job:a" (job_key "p:" i)) [
  | yes e ↦ elim (string_discrete body "0") [
    | yes f ↦
        let own : plain_job ≡ j =
          same_job plain_job j (
            sym (if_pos (string_discrete body "0") f (value plain_job) (malformed "unknown"))
            ∙ d) in
        let id : "a" ≡ i = job_key_inj "p:" "a" i e in
        subst (λ k. IsOwn small one_job "p:" i k) own (id, NoSep-default, subst NoSep id NoSep-a)
    | no n ↦ absurd (
        unread j
          (sym (if_neg (string_discrete body "0") n (value plain_job) (malformed "unknown")) ∙ d))
  ]
  | no n ↦ absurd (
      none_there body
        (sym (if_neg (string_discrete "p:job:a" (job_key "p:" i)) n (some "0") none) ∙ b))
]

run-IsSafe_example :
    IsSound small one_job "p:" (run small one_job "p:" calls holding)
    × IsSafe small one_job "p:" "default" "a" (run small one_job "p:" calls holding)
unfolding HashMap.get HashMap.contains_key string_discrete
run-IsSafe_example =
    run-IsSafe small one_job "p:" small-Laws small-Structures small-Reachable "default" "a"
      NoSep-default NoSep-a one_job-IsFaithful calls holding calls-AllAllowed only_a
      (("0", plain_job, refl, refl, refl), inr (inl ("t", refl)))
