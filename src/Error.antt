-- ===== src/Error.antt =====
-- error.rs: the errors of the library, their texts, and what a call can end in. A panic is an
-- outcome of its own, with the text that tokio's JoinError shows of it.
use Prim.Native.String.{◌++◌}
use capivara_rs.Prelude.{String, ◌≡◌, ap}

pub data CapivaraError : Type 0 where
  task_already_registered : String → CapivaraError
  task_not_registered : String → CapivaraError
  no_result_backend : CapivaraError
  result_not_found : String → CapivaraError
  job_not_found : String → CapivaraError
  empty_idempotency_key : CapivaraError
  serialize : String → CapivaraError
  broker : String → CapivaraError
  result_backend : String → CapivaraError
  task_failed : String → CapivaraError
  task_panicked : String → CapivaraError
  internal : String → CapivaraError

-- The `#[error("…")]` attributes.
unfoldable pub to_string : CapivaraError → String
to_string (task_already_registered name) = "task `" ++ (name ++ "` is already registered")
to_string (task_not_registered name) = "task `" ++ (name ++ "` is not registered")
to_string no_result_backend = "no result backend configured; cannot get_result"
to_string (result_not_found id) = "result for job `" ++ (id ++ "` not found")
to_string (job_not_found id) = "job `" ++ (id ++ "` not found in broker")
to_string empty_idempotency_key = "idempotency key must be non-empty (got empty or whitespace-only)"
to_string (serialize e) = "JSON serde error: " ++ e
to_string (broker e) = "broker error: " ++ e
to_string (result_backend message) = "result backend error: " ++ message
to_string (task_failed message) = "task failed: " ++ message
to_string (task_panicked message) = "task panicked: " ++ message
to_string (internal message) = "internal error: " ++ message

pub record TaskError : Type 0 where
  pub message : String

-- `TaskError::new`, which the conversions from texts call.
abbrev pub task_error : String → TaskError
task_error message = record { message = message }

pub data Result {ℓ} (A : Type ℓ) : Type ℓ where
  ok : A → Result A
  err : CapivaraError → Result A
  panic : String → Result A

-- A computation over shared state: what was written before an error or a panic stays written.
abbrev pub Exec {ℓ} : Type ℓ → Type ℓ → Type ℓ
Exec S A = S → Result A × S

module _ {ℓ} {S A : Type ℓ} where
  abbrev pub pure : A → Exec S A
  pure a s = (ok a, s)

  abbrev pub fail : CapivaraError → Exec S A
  fail e s = (err e, s)

module _ {ℓ} {S A B : Type ℓ} where
  -- `?`: an error ends the function, and a panic unwinds it.
  abbrev pub continue : Result A → (A → Exec S B) → Exec S B
  continue (ok a) f s = f a s
  continue (err e) f s = (err e, s)
  continue (panic p) f s = (panic p, s)

  infixl 10 ◌>>=◌ ◌>>◌
  abbrev pub ◌>>=◌ : Exec S A → (A → Exec S B) → Exec S B
  ◌>>=◌ m f s = let (r, s') = m s in continue r f s'

  abbrev pub ◌>>◌ : Exec S A → Exec S B → Exec S B
  m >> n = m >>= λ _. n

  -- What follows a call that returns a value.
  pub then_lem :
      (m : Exec S A) (f : A → Exec S B) (a : A) (s t : S) → m s ≡ (ok a, t) → (m >>= f) s ≡ f a t
  then_lem m f a s t e = ap (λ r. continue r.0 f r.1) e
