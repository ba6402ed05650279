-- ===== src/Worker/Drain/Measure.antt =====
-- How far the loop of `Worker::run` is from its end, and what each of its steps does to that.
use capivara_rs.Prelude.{
  ℕ, zero, suc, ◌+◌, ◌*◌, ◌≤◌, ◌<◌, ◌≡◌, refl, Option, none, some, List, [], ◌∷◌, length,
  length-append, arith,
}
use capivara_rs.Error.{CapivaraError, Result, ok, err, panic}
use capivara_rs.Job.{ClaimedJob}
use capivara_rs.Worker.JoinSet.{Flight, running, join_one}
use capivara_rs.Worker.JoinSet.Counts.{join_one-Without}
use capivara_rs.Worker.Drain.{
  Loop, Phase, reaping, checking, awaiting, claiming, draining, returned, acquire, check, claimed,
  join, drain, keep_first, account_err, account_join,
}
use capivara_rs.Worker.Drain.Accounts.{handed}

abbrev pub rank : Phase → ℕ
rank reaping = 5
rank checking = 4
rank claiming = 3
rank awaiting = 2
rank draining = 1
rank (returned r) = 0

abbrev pub room : Option CapivaraError → ℕ
room none = 3
room (some e) = 0

abbrev pub joins : Option (Result (Unit {0}) × List Flight) → ℕ
joins none = 0
joins (some r) = 1

abbrev pub drains : ℕ → List Flight → ℕ
drains i [] = 1
drains i (f ∷ fs) = joins (join_one i (f ∷ fs))

-- Whether the next step of the loop does something, and does not wait for a task.
abbrev pub moves : ℕ → Phase → List Flight → ℕ
moves i reaping l = 1
moves i checking l = 1
moves i claiming l = 1
moves i awaiting l = joins (join_one i l)
moves i draining l = drains i l
moves i (returned r) l = 0

room-account : (r : Result (Unit {0})) (o : Option CapivaraError) → room (account_err r o) ≤ room o
unfolding account_err
room-account (ok u) o = omega arith
room-account (err e) none = unfold keep_first in omega arith
room-account (err e) (some x) = unfold keep_first in omega arith
room-account (panic e) none = unfold keep_first in omega arith
room-account (panic e) (some x) = unfold keep_first in omega arith

-- A loop that claims has kept no error, and one that awaits a task has some.
abbrev pub Ready : Phase → List Flight → Option CapivaraError → Type 0
Ready claiming fs o = o ≡ none
Ready awaiting fs o = 0 < length fs
Ready _ fs o = Unit

pub Ready-length :
    (p : Phase) (fs gs : List Flight) (o : Option CapivaraError)
    → length gs ≡ length fs
    → Ready p fs o
    → Ready p gs o
Ready-length claiming fs gs o e h = h
Ready-length awaiting fs gs o e h = omega (arith, e, h)
Ready-length reaping fs gs o e h = tt
Ready-length checking fs gs o e h = tt
Ready-length draining fs gs o e h = tt
Ready-length (returned r) fs gs o e h = tt

module _ {S : Type 0} where
  abbrev pub measure : Loop S → ℕ
  measure l = 6 * length l.in_flight + rank l.phase + room l.first_err

  -- The join finds a task, or makes way for the phase `blocked`, which stands `d` lower.
  pub join-measure :
      (next blocked : Phase) (i d : ℕ) (o : Option (Result (Unit {0}) × List Flight)) (l : Loop S)
      → join_one i l.in_flight ≡ o
      → rank next ≤ 5
      → rank blocked + d ≤ rank l.phase
      → d ≤ 1
      → measure (join next blocked o l) + d ≤ measure l
  unfolding join account_join
  join-measure next blocked i d none l e hn hb hd = omega (arith, hb)
  join-measure next blocked i d (some (r, rest)) l e hn hb hd =
      omega (arith, hn, hd, room-account r l.first_err, (join_one-Without i l.in_flight r rest e).0)

  -- A join that does find a task.
  pub join-moves :
      (next blocked : Phase) (i : ℕ) (o : Option (Result (Unit {0}) × List Flight)) (l : Loop S)
      → join_one i l.in_flight ≡ o
      → rank next ≤ 5
      → rank blocked ≤ rank l.phase
      → measure (join next blocked o l) + joins o ≤ measure l
  unfolding join account_join
  join-moves next blocked i none l e hn hb = omega (arith, hb)
  join-moves next blocked i (some (r, rest)) l e hn hb =
      omega (arith, hn, room-account r l.first_err, (join_one-Without i l.in_flight r rest e).0)

  acquire-measure : (p : ℕ) (l : Loop S) → rank l.phase ≡ 4 → measure (acquire p l) + 1 ≤ measure l
  unfolding acquire
  acquire-measure zero l h = ground arith
  acquire-measure (suc p) l h = omega (arith, h)

  pub check-measure :
      (max_jobs : Option ℕ) (l : Loop S)
      → rank l.phase ≡ 4
      → measure (check max_jobs l) + 1 ≤ measure l
  unfolding check
  check-measure max_jobs l h = ground (arith, acquire-measure l.permits l h)

  pub claimed-measure :
      (r : Result (Option ClaimedJob)) (l : Loop S)
      → rank l.phase ≡ 3
      → l.first_err ≡ none
      → measure (claimed r l) + 1 ≤ measure l + 9 * handed r
  unfolding claimed
  claimed-measure (ok (some c)) l h f = omega (arith, h, length-append l.in_flight (running c ∷ []))
  claimed-measure (ok none) l h f = ground arith
  claimed-measure (err x) l h f = unfold keep_first in ground arith
  claimed-measure (panic p) l h f = ground arith

  pub drain-measure :
      (i : ℕ) (fs : List Flight) (l : Loop S)
      → l.in_flight ≡ fs
      → rank l.phase ≡ 1
      → measure (drain i fs l) + drains i fs ≤ measure l
  unfolding drain
  drain-measure i [] l e h = omega (arith, h)
  drain-measure i (f ∷ fs) l e h =
      join-moves draining draining i (join_one i (f ∷ fs)) l (rw e refl) (omega arith)
        (omega (arith, h))

  abbrev pub IsReady : Loop S → Type 0
  IsReady l = Ready l.phase l.in_flight l.first_err

  pub join-IsReady :
      (next blocked : Phase) (o : Option (Result (Unit {0}) × List Flight)) (l : Loop S)
      → ((fs : List Flight) (e : Option CapivaraError) → Ready next fs e)
      → Ready blocked l.in_flight l.first_err
      → IsReady (join next blocked o l)
  unfolding join account_join
  join-IsReady next blocked none l hn hb = hb
  join-IsReady next blocked (some (r, rest)) l hn hb = hn rest (account_err r l.first_err)

  acquire-IsReady : (p : ℕ) (l : Loop S) → l.first_err ≡ none → IsReady (acquire p l)
  unfolding acquire
  acquire-IsReady zero l h = ground arith
  acquire-IsReady (suc p) l h = h

  pub check-IsReady : (max_jobs : Option ℕ) (l : Loop S) → IsReady (check max_jobs l)
  unfolding check
  check-IsReady max_jobs l = ground (arith, acquire-IsReady l.permits l)

  pub claimed-IsReady :
      (r : Result (Option ClaimedJob)) (l : Loop S) → l.phase ≡ claiming → IsReady (claimed r l)
  unfolding claimed
  claimed-IsReady (ok (some c)) l h = tt
  claimed-IsReady (ok none) l h = ground arith
  claimed-IsReady (err x) l h = tt
  claimed-IsReady (panic p) l h = tt

  pub drain-IsReady : (i : ℕ) (fs : List Flight) (l : Loop S) → IsReady (drain i fs l)
  unfolding drain
  drain-IsReady i [] l = tt
  drain-IsReady i (f ∷ fs) l =
      join-IsReady draining draining (join_one i (f ∷ fs)) l (λ fs x. tt) tt
