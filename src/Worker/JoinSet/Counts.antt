-- ===== src/Worker/JoinSet/Counts.antt =====
-- How many tasks of the JoinSet run, and what a join and an end of a task do to the counts.
use capivara_rs.Prelude.{
  ℕ, zero, suc, ◌+◌, ◌≤◌, ◌≡◌, refl, none, some, List, [], ◌∷◌, ◌++◌, length, arith, Option-cases,
  inl, inr,
}
use capivara_rs.Error.{Result}
use capivara_rs.Job.{ClaimedJob}
use capivara_rs.Worker.JoinSet.{
  Flight, running, finished, first_finished, join_one, finish_at, running_at,
}

abbrev pub is_running : Flight → ℕ
is_running (running c) = 1
is_running (finished r) = 0

unfoldable pub running_count : List Flight → ℕ
running_count [] = 0
running_count (f ∷ l) = is_running f + running_count l

-- The set `rest` is `l` without a finished task.
abbrev pub Without : List Flight → List Flight → Type 0
Without l rest = (length l ≡ suc (length rest)) × (running_count l ≡ running_count rest)

first_finished-Without :
    (l : List Flight) (r : Result (Unit {0})) (rest : List Flight)
    → first_finished l ≡ some (r, rest)
    → Without l rest
unfolding first_finished running_count
first_finished-Without [] r rest h = absurd (ground arith)
first_finished-Without (finished x ∷ l) r rest h = ground arith
first_finished-Without (running c ∷ l) r rest h = elim (Option-cases (first_finished l)) [
  | inl e ↦ absurd (ground (arith, e))
  | inr ((x, m), e) ↦ ground (arith, e, first_finished-Without l x m e)
]

pub join_one-Without :
    (i : ℕ) (l : List Flight) (r : Result (Unit {0})) (rest : List Flight)
    → join_one i l ≡ some (r, rest)
    → Without l rest
unfolding join_one running_count
join_one-Without i [] r rest h = absurd (ground arith)
join_one-Without zero (f ∷ l) r rest h = first_finished-Without (f ∷ l) r rest h
join_one-Without (suc i) (f ∷ l) r rest h = elim (Option-cases (join_one i l)) [
  | inl e ↦ first_finished-Without (f ∷ l) r rest (ground (arith, e))
  | inr ((x, m), e) ↦ ground (arith, e, join_one-Without i l x m e)
]

pub running_count-append :
    (l : List Flight) (c : ClaimedJob) → running_count (l ++ running c ∷ []) ≡ running_count l + 1
unfolding running_count
running_count-append [] c = omega arith
running_count-append (f ∷ l) c = omega (arith, running_count-append l c)

pub running_count-finish_at :
    (i : ℕ) (r : Result (Unit {0})) (l : List Flight) (c : ClaimedJob)
    → running_at i l ≡ some c
    → running_count (finish_at i r l) + 1 ≡ running_count l
unfolding running_count finish_at running_at
running_count-finish_at i r [] c h = absurd (ground arith)
running_count-finish_at zero r (running d ∷ l) c h = omega arith
running_count-finish_at zero r (finished x ∷ l) c h = absurd (ground arith)
running_count-finish_at (suc i) r (f ∷ l) c h = omega (arith, running_count-finish_at i r l c h)

pub length-finish_at :
    (i : ℕ) (r : Result (Unit {0})) (l : List Flight) → length (finish_at i r l) ≡ length l
unfolding finish_at
length-finish_at i r [] = refl
length-finish_at zero r (f ∷ l) = refl
length-finish_at (suc i) r (f ∷ l) = omega (arith, length-finish_at i r l)

pub running_count-le : (l : List Flight) → running_count l ≤ length l
unfolding running_count
running_count-le [] = omega arith
running_count-le (running c ∷ l) = omega (arith, running_count-le l)
running_count-le (finished r ∷ l) = omega (arith, running_count-le l)

first_finished-none : (l : List Flight) → first_finished l ≡ none → running_count l ≡ length l
unfolding first_finished running_count
first_finished-none [] h = refl
first_finished-none (finished x ∷ l) h = absurd (ground arith)
first_finished-none (running c ∷ l) h = elim (Option-cases (first_finished l)) [
  | inl e ↦ omega (arith, first_finished-none l e)
  | inr ((x, m), e) ↦ absurd (ground (arith, e))
]

-- Where no task can be joined, all of them run.
pub join_one-none : (i : ℕ) (l : List Flight) → join_one i l ≡ none → running_count l ≡ length l
unfolding join_one running_count
join_one-none i [] h = refl
join_one-none zero (f ∷ l) h = first_finished-none (f ∷ l) h
join_one-none (suc i) (f ∷ l) h = elim (Option-cases (join_one i l)) [
  | inl e ↦ first_finished-none (f ∷ l) (ground (arith, e))
  | inr ((x, m), e) ↦ absurd (ground (arith, e))
]
