-- ===== src/Memory/Census.antt =====
-- Where a broker holds the job of an id: how often in its queues, in flight, delayed and dead. The
-- count does not see the order of a queue or of a map.
use capivara_rs.Prelude.{
  ℕ, ◌+◌, ◌≡◌, refl, Option, none, some, List, [], ◌∷◌, ◌++◌, ite, arith, string_discrete,
}
use capivara_rs.Prelude.HashMap
use capivara_rs.Prelude.HashMap.{HashMap}
use capivara_rs.Time.{Instant}
use capivara_rs.Job.{JobId, Job, DeadLetter}
use capivara_rs.Memory.{Inner}

abbrev pub one_if_some {ℓ} : {A : Type ℓ} → Option A → ℕ
one_if_some none = 0
one_if_some (some a) = 1

module _ (i : JobId) where
  abbrev pub is_job : Job → ℕ
  is_job j = ite (string_discrete j.id i) 1 0

  unfoldable pub in_list : List Job → ℕ
  in_list [] = 0
  in_list (j ∷ js) = is_job j + in_list js

  unfoldable pub in_queues : HashMap (List Job) → ℕ
  unfolding in_list
  in_queues [] = 0
  in_queues ((q, js) ∷ m) = in_list js + in_queues m

  unfoldable pub in_delayed : List (Instant × Job) → ℕ
  in_delayed [] = 0
  in_delayed ((when, j) ∷ l) = is_job j + in_delayed l

  unfoldable pub in_letters : List DeadLetter → ℕ
  in_letters [] = 0
  in_letters (d ∷ l) = is_job d.job + in_letters l

  unfoldable pub in_dead : HashMap (List DeadLetter) → ℕ
  unfolding in_letters
  in_dead [] = 0
  in_dead ((q, l) ∷ m) = in_letters l + in_dead m

  abbrev pub pending : Inner → ℕ
  pending s = in_queues s.pending

  abbrev pub claimed : Inner → ℕ
  claimed s = one_if_some (HashMap.get i s.in_flight)

  abbrev pub delayed : Inner → ℕ
  delayed s = in_delayed s.delayed

  abbrev pub dead : Inner → ℕ
  dead s = in_dead s.dead

  -- How many copies of the job the broker holds, wherever they are.
  abbrev pub copies : Inner → ℕ
  copies s = pending s + claimed s + delayed s + dead s

  pub in_list-append : (xs ys : List Job) → in_list (xs ++ ys) ≡ in_list xs + in_list ys
  unfolding in_list
  in_list-append [] ys = omega arith
  in_list-append (x ∷ xs) ys = omega (arith, in_list-append xs ys)

  pub in_letters-append :
      (xs ys : List DeadLetter) → in_letters (xs ++ ys) ≡ in_letters xs + in_letters ys
  unfolding in_letters
  in_letters-append [] ys = omega arith
  in_letters-append (x ∷ xs) ys = omega (arith, in_letters-append xs ys)

  pub in_delayed-append :
      (xs ys : List (Instant × Job)) → in_delayed (xs ++ ys) ≡ in_delayed xs + in_delayed ys
  unfolding in_delayed
  in_delayed-append [] ys = omega arith
  in_delayed-append ((when, x) ∷ xs) ys = omega (arith, in_delayed-append xs ys)

  pub in_queues-push_back :
      (q : JobId) (j : Job) (m : HashMap (List Job))
      → in_queues (HashMap.push_back q j m) ≡ is_job j + in_queues m
  unfolding HashMap.push_back in_queues in_list
  in_queues-push_back q j [] = ground arith
  in_queues-push_back q j ((k, js) ∷ m) =
      ground (arith, in_queues-push_back q j m, in_list-append js (j ∷ []))

  pub in_dead-push_back :
      (q : JobId) (d : DeadLetter) (m : HashMap (List DeadLetter))
      → in_dead (HashMap.push_back q d m) ≡ is_job d.job + in_dead m
  unfolding HashMap.push_back in_dead in_letters
  in_dead-push_back q d [] = ground arith
  in_dead-push_back q d ((k, l) ∷ m) =
      ground (arith, in_dead-push_back q d m, in_letters-append l (d ∷ []))

  -- What is left in the queues, with the job that was taken out.
  abbrev pub popped : Option (Job × HashMap (List Job)) → ℕ → ℕ
  popped none n = n
  popped (some r) n = is_job r.0 + in_queues r.1

  pub in_queues-pop_front :
      (q : JobId) (m : HashMap (List Job))
      → popped (HashMap.pop_front q m) (in_queues m) ≡ in_queues m
  unfolding HashMap.pop_front in_queues in_list
  in_queues-pop_front q [] = refl
  in_queues-pop_front q ((k, []) ∷ m) = ground (arith, in_queues-pop_front q m)
  in_queues-pop_front q ((k, x ∷ js) ∷ m) = ground (arith, in_queues-pop_front q m)
