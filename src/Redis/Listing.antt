-- ===== src/Redis/Listing.antt =====
-- What `list_dead` shows of one state, on a Redis server that answers.
use capivara_rs.Prelude.{String, Option, none, some, List, [], ◌∷◌, ◌≡◌, refl, ◌∙◌, arith}
use mathlib.Core.List.{reverse}
use capivara_rs.Error.{CapivaraError, serialize, Result, ok, err, panic, Exec, continue}
use capivara_rs.Job.{JobId, QueueName, DeadLetter}
use capivara_rs.Registry.{Serde, value, malformed}
use capivara_rs.Redis.{Redis, Codec, or_err}
use capivara_rs.Redis.Keys.{dead_key, job_key, dead_reason_key}
use capivara_rs.Redis.Settle.{or_empty, parsed_id, letter_then, letters_of, list_dead}
use capivara_rs.Redis.Laws.{Laws, Reachable}
use capivara_rs.Redis.Ownership.{call-then}

abbrev pub and_then : {A B : Type 0} → Result A → (A → Result B) → Result B
and_then (ok a) g = g a
and_then (err e) g = err e
and_then (panic p) g = panic p

and_then_lem :
    {S A B : Type 0} (r : Result A) (f : A → Exec S B) (g : A → Result B) (s : S)
    → ((a : A) → f a s ≡ (g a, s))
    → continue r f s ≡ (and_then r g, s)
and_then_lem (ok a) f g s h = h a
and_then_lem (err e) f g s h = refl
and_then_lem (panic p) f g s h = refl

pub and_then_assoc :
    {A B C : Type 0} (r : Result A) (g : A → Result B) (h : B → Result C)
    → and_then (and_then r g) h ≡ and_then r (λ a. and_then (g a) h)
and_then_assoc (ok a) g h = refl
and_then_assoc (err e) g h = refl
and_then_assoc (panic p) g h = refl

pub and_then_congr :
    {A B : Type 0} (r : Result A) (g h : A → Result B)
    → ((a : A) → r ≡ ok a → g a ≡ h a)
    → and_then r g ≡ and_then r h
and_then_congr (ok a) g h e = e a refl
and_then_congr (err m) g h e = refl
and_then_congr (panic p) g h e = refl

pub or_err-ok :
    {A : Type 0} (f : String → CapivaraError) (r : Serde A) (a : A)
    → or_err f r ≡ ok a
    → r ≡ value a
or_err-ok f (value b) a e = ground arith
or_err-ok f (malformed m) a e = absurd (ground arith)

module _ {K : Type 0} (R : Redis K) (codec : Codec) (prefix : String) where
  -- The letter of the id, in front of the later ones.
  abbrev pub letter_of :
      JobId → Option String → Option String → Result (List DeadLetter) → Result (List DeadLetter)
  letter_of id none reason rest = rest
  letter_of id (some body) reason rest =
      and_then (or_err serialize (codec.job_from_str body)) (λ job.
        and_then rest
          (λ letters. ok (record { job = job; reason = or_empty R codec prefix reason } ∷ letters)))

  -- What `list_dead` makes of the ids of a list, the oldest first, in one state.
  abbrev pub letters_in : List String → K → Result (List DeadLetter)
  letters_in [] s = ok []
  letters_in (text ∷ texts) s =
      let rest = letters_in texts s in
      and_then (parsed_id R codec prefix text) (λ id.
        letter_of id (R.get (job_key prefix id) s) (R.get (dead_reason_key prefix id) s) rest)

  module _ (laws : Laws R) (reachable : Reachable R) where
    letter_then_lem :
        (id : JobId) (body : Option String) (rest : Exec K (List DeadLetter))
        (r : Result (List DeadLetter)) (s : K)
        → rest s ≡ (r, s)
        → letter_then R codec prefix id body rest s
          ≡ (letter_of id body (R.get (dead_reason_key prefix id) s) r, s)
    unfolding letter_then
    letter_then_lem id none rest r s h = h
    letter_then_lem id (some body) rest r s h =
        and_then_lem (or_err serialize (codec.job_from_str body)) _
          (λ job. and_then r (λ letters. ok (
            record {
              job = job;
              reason = or_empty R codec prefix (R.get (dead_reason_key prefix id) s);
            }
            ∷ letters)))
          s
          (λ job.
            call-then R codec prefix laws reachable (λ t. (R.get (dead_reason_key prefix id) t, t))
              _ s
            ∙ rw h (and_then_lem r _ _ s (λ letters. refl)))

    letters_of_lem :
        (ids : List String) (s : K) → letters_of R codec prefix ids s ≡ (letters_in ids s, s)
    unfolding letters_of
    letters_of_lem [] s = refl
    letters_of_lem (text ∷ texts) s =
        and_then_lem (parsed_id R codec prefix text) _
          (λ id.
            letter_of id (R.get (job_key prefix id) s) (R.get (dead_reason_key prefix id) s)
              (letters_in texts s))
          s
          (λ id.
            call-then R codec prefix laws reachable (λ t. (R.get (job_key prefix id) t, t)) _ s
            ∙ letter_then_lem id (R.get (job_key prefix id) s) (letters_of R codec prefix texts)
                (letters_in texts s) s (letters_of_lem texts s))

    pub list_dead_lem :
        (queue : QueueName) (s : K)
        → list_dead R codec prefix queue s
          ≡ (letters_in (reverse (R.lrange (dead_key prefix queue) s)) s, s)
    unfolding list_dead
    list_dead_lem queue s =
        call-then R codec prefix laws reachable (λ t. (R.lrange (dead_key prefix queue) t, t))
          (λ ids. letters_of R codec prefix (reverse ids)) s
        ∙ letters_of_lem (reverse (R.lrange (dead_key prefix queue) s)) s
