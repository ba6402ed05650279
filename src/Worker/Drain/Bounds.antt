-- ===== src/Worker/Drain/Bounds.antt =====
-- `Worker::run` keeps to its limits: the concurrency and `max_jobs`.
use capivara_rs.Prelude.{
  ℕ, zero, suc, ◌+◌, ◌≤◌, ◌≡◌, refl, true, Option, none, some, List, [], ◌∷◌, max, length,
  length-append, arith,
}
use capivara_rs.Error.{Result, ok, err, panic}
use capivara_rs.Job.{ClaimedJob}
use capivara_rs.Worker.{process_one, default_block}
use capivara_rs.Worker.JoinSet.{Flight, running, join_one, running_at}
use capivara_rs.Worker.JoinSet.Counts.{
  running_count, Without, join_one-Without, running_count-append, running_count-finish_at,
  length-finish_at,
}
use capivara_rs.Worker.Drain.{
  Worker, Loop, Phase, reaping, checking, awaiting, claiming, draining, returned, Event, advances,
  completes, others, queues_of, acquire, check, claimed, join, drain, advance, complete, step, run,
  start, is_under,
}

-- The permit that the loop holds while it claims.
abbrev pub held : Phase → ℕ
held claiming = 1
held _ = 0

abbrev pub Within : Option ℕ → ℕ → Type 0
Within none n = Unit
Within (some m) n = n ≤ m

module _ {S : Type 0} (w : Worker S) (max_jobs : Option ℕ) where
  -- Every permit is free, with the loop, or with a running task; and the jobs done and in flight,
  -- with the one about to be claimed, are within `max_jobs`.
  pub record Inv (l : Loop S) : Type 0 where
    pub permits : l.permits + held l.phase + running_count l.in_flight ≡ max w.concurrency 1
    pub within : Within max_jobs (l.processed + length l.in_flight + held l.phase)

  join-Inv :
      (next blocked : Phase) (o : Option (Result (Unit {0}) × List Flight)) (l : Loop S)
      → held next ≡ 0
      → held blocked ≡ 0
      → held l.phase ≡ 0
      → ((r : Result (Unit {0})) (rest : List Flight)
          → o ≡ some (r, rest)
          → Without l.in_flight rest)
      → Inv l
      → Inv (join next blocked o l)
  unfolding join
  join-Inv next blocked none l hn hb hl wo v = ground arith
  join-Inv next blocked (some (r, rest)) l hn hb hl wo v = ground (arith, wo r rest refl)

  acquire-Inv :
      (p : ℕ) (l : Loop S)
      → l.permits ≡ p
      → held l.phase ≡ 0
      → is_under max_jobs (l.processed + length l.in_flight) ≡ true
      → Inv l
      → Inv (acquire p l)
  unfolding acquire
  acquire-Inv zero l e hl u v = ground arith
  acquire-Inv (suc p) l e hl u v = ground arith

  check-Inv : (l : Loop S) → held l.phase ≡ 0 → Inv l → Inv (check max_jobs l)
  unfolding check
  check-Inv l hl v = ground (arith, acquire-Inv l.permits l refl hl)

  claimed-Inv :
      (r : Result (Option ClaimedJob)) (l : Loop S) → l.phase ≡ claiming → Inv l → Inv (claimed r l)
  unfolding claimed
  claimed-Inv (ok (some c)) l e v =
      ground (arith, running_count-append l.in_flight c, length-append l.in_flight (running c ∷ []))
  claimed-Inv (ok none) l e v = ground arith
  claimed-Inv (err x) l e v = ground arith
  claimed-Inv (panic p) l e v = ground arith

  drain-Inv :
      (i : ℕ) (fs : List Flight) (l : Loop S)
      → l.in_flight ≡ fs
      → held l.phase ≡ 0
      → Inv l
      → Inv (drain i fs l)
  unfolding drain
  drain-Inv i [] l e hl v = ground arith
  drain-Inv i (f ∷ fs) l e hl v =
      join-Inv draining draining (join_one i (f ∷ fs)) l refl refl hl
        (λ r rest h. join_one-Without i l.in_flight r rest (rw e h)) v

  advance-Inv :
      (i : ℕ) (p : Phase) (l : Loop S) → l.phase ≡ p → Inv l → Inv (advance w max_jobs i p l)
  unfolding advance
  advance-Inv i reaping l e v =
      join-Inv reaping checking (join_one i l.in_flight) l refl refl (rw e refl)
        (join_one-Without i l.in_flight) v
  advance-Inv i checking l e v = check-Inv l (rw e refl) v
  advance-Inv i awaiting l e v =
      join-Inv reaping awaiting (join_one i l.in_flight) l refl refl (rw e refl)
        (join_one-Without i l.in_flight) v
  advance-Inv i claiming l e v =
      claimed-Inv (w.broker.claim (queues_of w.queues) w.lease default_block l.shared).0
        (record l {
          shared = (w.broker.claim (queues_of w.queues) w.lease default_block l.shared).1;
        })
        e (record { permits = v.permits; within = v.within })
  advance-Inv i draining l e v = drain-Inv i l.in_flight l refl (rw e refl) v
  advance-Inv i (returned r) l e v = v

  complete-Inv :
      (draw : ℕ → ℕ) (i : ℕ) (o : Option ClaimedJob) (l : Loop S)
      → running_at i l.in_flight ≡ o
      → Inv l
      → Inv (complete draw w i o l)
  unfolding complete
  complete-Inv draw i none l e v = v
  complete-Inv draw i (some c) l e v =
      let r = (process_one draw w.broker w.results w.registry w.retry_policy c l.shared).0 in
      record {
        permits = omega (arith, v.permits, running_count-finish_at i r l.in_flight c e);
        within = rw length-finish_at v.within;
      }

  step-Inv : (draw : ℕ → ℕ) (e : Event S) (l : Loop S) → Inv l → Inv (step draw w max_jobs e l)
  unfolding step
  step-Inv draw (advances i) l v = advance-Inv i l.phase l refl v
  step-Inv draw (completes i) l v = complete-Inv draw i (running_at i l.in_flight) l refl v
  step-Inv draw (others f) l v = record { permits = v.permits; within = v.within }

  run-Inv :
      (draw : ℕ → ℕ) (es : List (Event S)) (l : Loop S) → Inv l → Inv (run draw w max_jobs es l)
  unfolding run
  run-Inv draw [] l v = v
  run-Inv draw (e ∷ es) l v = run-Inv draw es (step draw w max_jobs e l) (step-Inv draw e l v)

  start-Inv : (s : S) → Inv (start w s)
  unfolding start running_count
  start-Inv s = ground arith

  acquire-first_err :
      (p : ℕ) (l : Loop S)
      → l.permits ≡ p
      → held l.phase ≡ 0
      → Inv l
      → (acquire p l).first_err ≡ l.first_err
  unfolding acquire running_count
  acquire-first_err zero l e hl v = ground arith
  acquire-first_err (suc p) l e hl v = refl

  check-first_err :
      (l : Loop S) → held l.phase ≡ 0 → Inv l → (check max_jobs l).first_err ≡ l.first_err
  unfolding check
  check-first_err l hl v = ground (arith, acquire-first_err l.permits l refl hl v)

module _ {S : Type 0} (draw : ℕ → ℕ) (w : Worker S) (max_jobs : Option ℕ) (s : S)
    (es : List (Event S)) where
  abbrev l : Loop S
  l = run draw w max_jobs es (start w s)

  inv : Inv w max_jobs l
  inv = run-Inv w max_jobs draw es (start w s) (start-Inv w max_jobs s)

  -- After any events from the start of `run`, no more tasks run than the concurrency, taken as one
  -- if it is zero, and the jobs processed and in flight are at most `max_jobs`, if it is given.
  pub run_limits :
      (running_count l.in_flight ≤ max w.concurrency 1)
      × Within max_jobs (l.processed + length l.in_flight)
  run_limits = ground (arith, inv)

  -- Where the loop of `run` comes to its tests before a claim, they set no error: the branch for a
  -- semaphore that is exhausted with no job in flight is never taken.
  pub check_never_leaks : l.phase ≡ checking → (check max_jobs l).first_err ≡ l.first_err
  check_never_leaks e = check-first_err w max_jobs l (rw e refl) inv
