-- ===== src/Worker/Drain/Accounts.antt =====
-- What `Worker::run` returns.
use native.Mathlib.Nat.{add-zero, add_assoc}
use capivara_rs.Prelude.{
  ℕ, zero, suc, ◌+◌, ◌≡◌, refl, Option, none, some, List, [], ◌∷◌, length, length-append, arith,
  Bool, true, false,
}
use capivara_rs.Error.{Result, ok, err, panic}
use capivara_rs.Job.{ClaimedJob}
use capivara_rs.Worker.{process_one, default_block}
use capivara_rs.Worker.JoinSet.{Flight, running, join_one, running_at}
use capivara_rs.Worker.JoinSet.Counts.{Without, join_one-Without, length-finish_at}
use capivara_rs.Worker.Drain.{
  Worker, Loop, Phase, reaping, checking, awaiting, claiming, draining, returned, Event, advances,
  completes, others, queues_of, acquire, check, claimed, join, drain, advance, complete, step, run,
  start,
}

-- The jobs that `claim` has handed to the loop.
abbrev pub handed : Result (Option ClaimedJob) → ℕ
handed (ok (some c)) = 1
handed _ = 0

abbrev pub is_returned : Phase → Bool
is_returned (returned r) = true
is_returned _ = false

-- A result `Ok(k)` is the number processed, with nothing in flight and no error kept.
abbrev pub Settled : {S : Type 0} → Phase → Loop S → Type 0
Settled (returned (ok k)) l = (k ≡ l.processed) × (l.in_flight ≡ []) × (l.first_err ≡ none)
Settled _ l = Unit

module _ {S : Type 0} (n : ℕ) where
  -- Every job handed out is in flight or processed.
  record Accounts (l : Loop S) : Type 0 where
    total : l.processed + length l.in_flight ≡ n
    settled : Settled l.phase l

  join-Accounts :
      (next blocked : Phase) (o : Option (Result (Unit {0}) × List Flight)) (l : Loop S)
      → is_returned next ≡ false
      → is_returned blocked ≡ false
      → ((r : Result (Unit {0})) (rest : List Flight)
          → o ≡ some (r, rest)
          → Without l.in_flight rest)
      → Accounts l
      → Accounts (join next blocked o l)
  unfolding join
  join-Accounts next blocked none l hn hb wo v = ground arith
  join-Accounts next blocked (some (r, rest)) l hn hb wo v = ground (arith, wo r rest refl)

  acquire-Accounts : (p : ℕ) (l : Loop S) → Accounts l → Accounts (acquire p l)
  unfolding acquire
  acquire-Accounts zero l v = ground arith
  acquire-Accounts (suc p) l v = ground arith

  check-Accounts : (max_jobs : Option ℕ) (l : Loop S) → Accounts l → Accounts (check max_jobs l)
  unfolding check
  check-Accounts max_jobs l v = ground (arith, acquire-Accounts l.permits l)

  drain-Accounts :
      (i : ℕ) (fs : List Flight) (l : Loop S)
      → l.in_flight ≡ fs
      → Accounts l
      → Accounts (drain i fs l)
  unfolding drain
  drain-Accounts i [] l e v = ground arith
  drain-Accounts i (f ∷ fs) l e v =
      join-Accounts draining draining (join_one i (f ∷ fs)) l refl refl
        (λ r rest h. join_one-Without i l.in_flight r rest (rw e h)) v

Settled-shared :
    {S : Type 0} (p : Phase) (l : Loop S) (s : S)
    → Settled p l
    → Settled p (record l { shared = s })
Settled-shared (returned (ok k)) l s h = h
Settled-shared _ l s h = tt

-- A loop that has settled has no task that could still end.
Settled-running :
    {S : Type 0} (p : Phase) (l m : Loop S) (i : ℕ) (c : ClaimedJob)
    → running_at i l.in_flight ≡ some c
    → Settled p l
    → Settled p m
unfolding running_at
Settled-running (returned (ok k)) l m i c e h = absurd (ground arith)
Settled-running _ l m i c e h = tt

claimed-Accounts :
    {S : Type 0} (n : ℕ) (r : Result (Option ClaimedJob)) (l : Loop S)
    → Accounts n l
    → Accounts (n + handed r) (claimed r l)
unfolding claimed
claimed-Accounts n (ok (some c)) l v = ground (arith, length-append l.in_flight (running c ∷ []))
claimed-Accounts n (ok none) l v = ground arith
claimed-Accounts n (err x) l v = ground arith
claimed-Accounts n (panic p) l v = ground arith

module _ {S : Type 0} (draw : ℕ → ℕ) (w : Worker S) (max_jobs : Option ℕ) where
  abbrev pub handed_in : Phase → Loop S → ℕ
  handed_in claiming l =
      handed (w.broker.claim (queues_of w.queues) w.lease default_block l.shared).0
  handed_in _ l = 0

  abbrev pub handed_by : Event S → Loop S → ℕ
  handed_by (advances i) l = handed_in l.phase l
  handed_by (completes i) l = 0
  handed_by (others f) l = 0

  unfoldable pub claims : List (Event S) → Loop S → ℕ
  claims [] l = 0
  claims (e ∷ es) l = handed_by e l + claims es (step draw w max_jobs e l)

  advance-Accounts :
      (n i : ℕ) (p : Phase) (l : Loop S)
      → Accounts n l
      → Accounts (n + handed_in p l) (advance w max_jobs i p l)
  unfolding advance
  advance-Accounts n i reaping l v = rw add-zero (
      join-Accounts n reaping checking (join_one i l.in_flight) l refl refl
        (join_one-Without i l.in_flight) v)
  advance-Accounts n i checking l v = rw add-zero (check-Accounts n max_jobs l v)
  advance-Accounts n i awaiting l v = rw add-zero (
      join-Accounts n reaping awaiting (join_one i l.in_flight) l refl refl
        (join_one-Without i l.in_flight) v)
  advance-Accounts n i claiming l v =
      claimed-Accounts n (w.broker.claim (queues_of w.queues) w.lease default_block l.shared).0
        (record l {
          shared = (w.broker.claim (queues_of w.queues) w.lease default_block l.shared).1;
        })
        (record {
          total = v.total;
          settled =
              Settled-shared l.phase l
                (w.broker.claim (queues_of w.queues) w.lease default_block l.shared).1 v.settled;
        })
  advance-Accounts n i draining l v = rw add-zero (drain-Accounts n i l.in_flight l refl v)
  advance-Accounts n i (returned r) l v = rw add-zero v

  complete-Accounts :
      (n i : ℕ) (o : Option ClaimedJob) (l : Loop S)
      → running_at i l.in_flight ≡ o
      → Accounts n l
      → Accounts n (complete draw w i o l)
  unfolding complete
  complete-Accounts n i none l e v = v
  complete-Accounts n i (some c) l e v =
      let (r, s) = process_one draw w.broker w.results w.registry w.retry_policy c l.shared in
      record {
        total = omega (arith, v.total, length-finish_at i r l.in_flight);
        settled = Settled-running l.phase l (complete draw w i (some c) l) i c e v.settled;
      }

  step-Accounts :
      (n : ℕ) (e : Event S) (l : Loop S)
      → Accounts n l
      → Accounts (n + handed_by e l) (step draw w max_jobs e l)
  unfolding step
  step-Accounts n (advances i) l v = advance-Accounts n i l.phase l v
  step-Accounts n (completes i) l v =
      rw add-zero (complete-Accounts n i (running_at i l.in_flight) l refl v)
  step-Accounts n (others f) l v =
      rw add-zero
        (record { total = v.total; settled = Settled-shared l.phase l (f l.shared) v.settled })

  run-Accounts :
      (n : ℕ) (es : List (Event S)) (l : Loop S)
      → Accounts n l
      → Accounts (n + claims es l) (run draw w max_jobs es l)
  unfolding run claims
  run-Accounts n [] l v = rw add-zero v
  run-Accounts n (e ∷ es) l v =
      rw (← add_assoc n (handed_by e l) (claims es (step draw w max_jobs e l)))
        (run-Accounts (n + handed_by e l) es (step draw w max_jobs e l) (step-Accounts n e l v))

  start-Accounts : (s : S) → Accounts 0 (start w s)
  unfolding start
  start-Accounts s = record { total = refl; settled = tt }

  -- When `run` returns `Ok(n)`, `n` is the number of jobs that `claim` handed to it, each of them
  -- was processed and joined, and no error was kept.
  pub run_returns_claims :
      (s : S) (es : List (Event S)) (n : ℕ)
      → (run draw w max_jobs es (start w s)).phase ≡ returned (ok n)
      → (n ≡ claims es (start w s))
        × ((run draw w max_jobs es (start w s)).in_flight ≡ [])
        × ((run draw w max_jobs es (start w s)).first_err ≡ none)
  run_returns_claims s es n e = ground (arith, run-Accounts 0 es (start w s) (start-Accounts s))

  -- At any time the jobs handed out are those processed and those in flight.
  pub run_total :
      (s : S) (es : List (Event S))
      → (run draw w max_jobs es (start w s)).processed
          + length (run draw w max_jobs es (start w s)).in_flight
        ≡ claims es (start w s)
  run_total s es = omega (arith, (run-Accounts 0 es (start w s) (start-Accounts s)).total)
