-- ===== src/Worker/JoinSet.antt =====
-- tokio's JoinSet and the tasks that `Worker::run` spawns into it, as the loop sees them.
pub mod Counts
use capivara_rs.Prelude.{ℕ, zero, suc, Option, none, some, List, [], ◌∷◌}
use capivara_rs.Error.{Result}
use capivara_rs.Job.{ClaimedJob}

-- An entry of the JoinSet: a task that runs, or its result, not joined yet.
pub data Flight : Type 0 where
  running : ClaimedJob → Flight
  finished : Result (Unit {0}) → Flight

-- The JoinSet hands out a finished task: the one at the position, or else the first.
unfoldable pub first_finished : List Flight → Option (Result (Unit {0}) × List Flight)
first_finished [] = none
first_finished (finished r ∷ l) = some (r, l)
first_finished (running c ∷ l) = elim (first_finished l) [
  | none ↦ none
  | some (r, rest) ↦ some (r, running c ∷ rest)
]

unfoldable pub join_one : ℕ → List Flight → Option (Result (Unit {0}) × List Flight)
unfolding first_finished
join_one i [] = none
join_one zero l = first_finished l
join_one (suc i) (f ∷ l) = elim (join_one i l) [
  | none ↦ first_finished (f ∷ l)
  | some (r, rest) ↦ some (r, f ∷ rest)
]

-- A running task, and the set once it has ended.
unfoldable pub finish_at : ℕ → Result (Unit {0}) → List Flight → List Flight
finish_at i r [] = []
finish_at zero r (f ∷ l) = finished r ∷ l
finish_at (suc i) r (f ∷ l) = f ∷ finish_at i r l

unfoldable pub running_at : ℕ → List Flight → Option ClaimedJob
running_at i [] = none
running_at zero (running c ∷ l) = some c
running_at zero (finished r ∷ l) = none
running_at (suc i) (f ∷ l) = running_at i l
