-- ===== src/Worker/Drain/Progress.antt =====
-- `Worker::run` does not spin, and is never stuck.
use capivara_rs.Prelude.{
  ℕ, ◌+◌, ◌*◌, ◌≤◌, ◌<◌, ◌≡◌, refl, ◌⊎◌, inl, inr, Option, none, some, List, [], ◌∷◌, length, arith,
  Option-cases, true,
}
use capivara_rs.Error.{CapivaraError}
use capivara_rs.Job.{ClaimedJob}
use capivara_rs.Worker.{process_one, default_block}
use capivara_rs.Worker.JoinSet.{Flight, join_one, running_at, finish_at}
use capivara_rs.Worker.JoinSet.Counts.{running_count, join_one-none, length-finish_at}
use capivara_rs.Worker.Drain.{
  Worker, Loop, Phase, reaping, checking, awaiting, claiming, draining, returned, Event, advances,
  completes, others, queues_of, advance, complete, step, run, start,
}
use capivara_rs.Worker.Drain.Bounds.{run_limits}
use capivara_rs.Worker.Drain.Accounts.{handed_in, handed_by, claims, run_total, is_returned}
use capivara_rs.Worker.Drain.Measure.{
  joins, moves, Ready, Ready-length, measure, IsReady, join-measure, join-moves, check-measure,
  claimed-measure, drain-measure, join-IsReady, check-IsReady, claimed-IsReady, drain-IsReady,
}

module _ {S : Type 0} (draw : ℕ → ℕ) (w : Worker S) (max_jobs : Option ℕ) where
  advance-measure :
      (i : ℕ) (p : Phase) (l : Loop S)
      → l.phase ≡ p
      → Ready p l.in_flight l.first_err
      → measure (advance w max_jobs i p l) + moves i p l.in_flight
        ≤ measure l + 9 * handed_in draw w max_jobs p l
  unfolding advance
  advance-measure i reaping l e f = omega (
    arith,
    join-measure reaping checking i 1 (join_one i l.in_flight) l refl (omega arith)
        (rw e (omega arith)) (omega arith),
  )
  advance-measure i checking l e f = omega (arith, check-measure max_jobs l (rw e refl))
  advance-measure i awaiting l e f = omega (
    arith,
    join-moves reaping awaiting i (join_one i l.in_flight) l refl (omega arith)
        (rw e (omega arith)),
  )
  advance-measure i claiming l e f =
      let r = w.broker.claim (queues_of w.queues) w.lease default_block l.shared in
      omega (arith, claimed-measure r.0 (record l { shared = r.1 }) (rw e refl) f)
  advance-measure i draining l e f = omega (arith, drain-measure i l.in_flight l refl (rw e refl))
  advance-measure i (returned r) l e f = omega arith

  advance-IsReady :
      (i : ℕ) (p : Phase) (l : Loop S)
      → l.phase ≡ p
      → Ready p l.in_flight l.first_err
      → IsReady (advance w max_jobs i p l)
  unfolding advance
  advance-IsReady i reaping l e f =
      join-IsReady reaping checking (join_one i l.in_flight) l (λ fs x. tt) tt
  advance-IsReady i checking l e f = check-IsReady max_jobs l
  advance-IsReady i awaiting l e f =
      join-IsReady reaping awaiting (join_one i l.in_flight) l (λ fs x. tt) f
  advance-IsReady i claiming l e f =
      let r = w.broker.claim (queues_of w.queues) w.lease default_block l.shared in
      claimed-IsReady r.0 (record l { shared = r.1 }) e
  advance-IsReady i draining l e f = drain-IsReady i l.in_flight l
  advance-IsReady i (returned r) l e f = rw e tt

  -- The steps of the loop, among the events, that do not wait.
  abbrev pub moves_by : Event S → Loop S → ℕ
  moves_by (advances i) l = moves i l.phase l.in_flight
  moves_by _ l = 0

  unfoldable pub progress : List (Event S) → Loop S → ℕ
  progress [] l = 0
  progress (e ∷ es) l = moves_by e l + progress es (step draw w max_jobs e l)

  complete-measure :
      (i : ℕ) (o : Option ClaimedJob) (l : Loop S) → measure (complete draw w i o l) ≡ measure l
  unfolding complete
  complete-measure i none l = refl
  complete-measure i (some c) l =
      let (r, s) = process_one draw w.broker w.results w.registry w.retry_policy c l.shared in
      omega (arith, length-finish_at i r l.in_flight)

  complete-IsReady :
      (i : ℕ) (o : Option ClaimedJob) (l : Loop S) → IsReady l → IsReady (complete draw w i o l)
  unfolding complete
  complete-IsReady i none l f = f
  complete-IsReady i (some c) l f =
      let (r, s) = process_one draw w.broker w.results w.registry w.retry_policy c l.shared in
      Ready-length l.phase l.in_flight (finish_at i r l.in_flight) l.first_err
        (length-finish_at i r l.in_flight) f

  step-measure :
      (e : Event S) (l : Loop S)
      → IsReady l
      → measure (step draw w max_jobs e l) + moves_by e l
        ≤ measure l + 9 * handed_by draw w max_jobs e l
  unfolding step
  step-measure (advances i) l f = advance-measure i l.phase l refl f
  step-measure (completes i) l f = omega (arith, complete-measure i (running_at i l.in_flight) l)
  step-measure (others g) l f = omega arith

  step-IsReady : (e : Event S) (l : Loop S) → IsReady l → IsReady (step draw w max_jobs e l)
  unfolding step
  step-IsReady (advances i) l f = advance-IsReady i l.phase l refl f
  step-IsReady (completes i) l f = complete-IsReady i (running_at i l.in_flight) l f
  step-IsReady (others g) l f = f

  run-measure :
      (es : List (Event S)) (l : Loop S)
      → IsReady l
      → measure (run draw w max_jobs es l) + progress es l
        ≤ measure l + 9 * claims draw w max_jobs es l
  unfolding run progress claims
  run-measure [] l f = omega arith
  run-measure (e ∷ es) l f =
      let m = step draw w max_jobs e l in
      omega (arith, step-measure e l f, run-measure es m (step-IsReady e l f))

  start-IsReady : (s : S) → IsReady (start w s)
  unfolding start
  start-IsReady s = tt

  pub run-IsReady :
      (es : List (Event S)) (l : Loop S) → IsReady l → IsReady (run draw w max_jobs es l)
  unfolding run
  run-IsReady [] l f = f
  run-IsReady (e ∷ es) l f = run-IsReady es (step draw w max_jobs e l) (step-IsReady e l f)

  pub progress-le :
      (s : S) (es : List (Event S))
      → progress es (start w s) ≤ 8 + 9 * claims draw w max_jobs es (start w s)
  unfolding start
  progress-le s es = omega (arith, run-measure es (start w s) (start-IsReady s))

joins_or_running :
    (i : ℕ) (l : List Flight) → 0 < length l → (joins (join_one i l) ≡ 1) ⊎ (0 < running_count l)
joins_or_running i l h = elim (Option-cases (join_one i l)) [
  | inl e ↦ inr (omega (arith, h, join_one-none i l e))
  | inr (r, e) ↦ inl (rw e refl)
]

-- The loop moves, or has returned, or a task runs.
abbrev pub Lives : ℕ → Phase → List Flight → Type 0
Lives i p l = (moves i p l ≡ 1) ⊎ (is_returned p ≡ true) ⊎ (0 < running_count l)

lives : (i : ℕ) (p : Phase) (l : List Flight) (o : Option CapivaraError) → Ready p l o → Lives i p l
lives i reaping l o h = inl refl
lives i checking l o h = inl refl
lives i claiming l o h = inl refl
lives i awaiting l o h = elim (joins_or_running i l h) [ inl e ↦ inl e | inr e ↦ inr (inr e) ]
lives i draining [] o h = inl refl
lives i draining (f ∷ fs) o h = elim (joins_or_running i (f ∷ fs) (omega arith)) [
  | inl e ↦ inl e
  | inr e ↦ inr (inr e)
]
lives i (returned r) l o h = inr (inl refl)

-- With a limit of `m` jobs, after any events from the start of `run`: the loop has taken at most `8
-- + 9 * m` steps that do not wait for a task, and it is not stuck: its next step is such a step, or
-- it has returned, or a task is running.
pub run_stops :
    {S : Type 0} (draw : ℕ → ℕ) (w : Worker S) (m : ℕ) (s : S) (es : List (Event S)) (i : ℕ)
    → (progress draw w (some m) es (start w s) ≤ 8 + 9 * m)
      × Lives i
          (run draw w (some m) es (start w s)).phase
          (run draw w (some m) es (start w s)).in_flight
run_stops draw w m s es i =
    let l = run draw w (some m) es (start w s) in
    (
      omega (
        arith,
        progress-le draw w (some m) s es,
        run_total draw w (some m) s es,
        (run_limits draw w (some m) s es).1,
      ),
      lives i l.phase l.in_flight l.first_err
          (run-IsReady draw w (some m) es (start w s) (start-IsReady draw w (some m) s)),
    )
