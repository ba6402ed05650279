-- ===== src/Registry.antt =====
-- registry.rs and task.rs: task names and their type-erased handlers. A handler may act on the shared
-- state and may panic. serde_json's conversions of a task's arguments and output are parameters of
-- the task: they give a value, or the text of an error.
use capivara_rs.Prelude.{
  Bool-cases, ◌⊎◌, inl, inr, String, Bool, true, false, ◌≡◌, ite, Option, none, some,
  string_discrete, ◌≢◌, refl, ap, ◌∙◌, if◌then◌else◌,
}
use capivara_rs.Prelude.HashMap
use capivara_rs.Prelude.HashMap.{HashMap}
use capivara_rs.Error.{
  task_already_registered, task_not_registered, serialize, task_failed, TaskError, Result, ok, err,
  panic, Exec,
}
use capivara_rs.Job.{Bytes}

pub data Serde (A : Type 0) : Type 0 where
  value : A → Serde A
  malformed : String → Serde A

-- How `Task::run` ends: with its output, with a TaskError, or in a panic.
pub data TaskOutcome (A : Type 0) : Type 0 where
  done : A → TaskOutcome A
  failed : TaskError → TaskOutcome A
  panicked : String → TaskOutcome A

pub record Task (S : Type 0) : Type 1 where
  pub name : String
  pub Args : Type 0
  pub Output : Type 0
  pub args_from_slice : Bytes → Serde Args
  pub args_to_vec : Args → Serde Bytes
  pub output_to_vec : Output → Serde Bytes
  pub run : Args → S → TaskOutcome Output × S

abbrev pub ErasedHandler : Type 0 → Type 0
ErasedHandler S = Bytes → Exec S Bytes

abbrev pub Registry : Type 0 → Type 0
Registry S = HashMap (ErasedHandler S)

to_result : Serde Bytes → Result Bytes
to_result (value bytes) = ok bytes
to_result (malformed e) = err (serialize e)

module _ {S : Type 0} (T : Task S) where
  open T use {Args, Output, args_from_slice, output_to_vec}

  encode_outcome : TaskOutcome Output × S → Result Bytes × S
  unfolding to_result
  encode_outcome (done output, s) = (to_result (output_to_vec output), s)
  encode_outcome (failed e, s) = (err (task_failed e.message), s)
  encode_outcome (panicked p, s) = (panic p, s)

  run_decoded : Serde Args → Exec S Bytes
  unfolding encode_outcome
  run_decoded (value args) s = encode_outcome (T.run args s)
  run_decoded (malformed e) s = (err (serialize e), s)

  unfoldable pub erase : ErasedHandler S
  unfolding run_decoded
  erase payload = run_decoded (args_from_slice payload)

-- The second component is the registry after the call.
unfoldable pub register : {S : Type 0} → Task S → Exec (Registry S) (Unit {0})
register T reg =
    if HashMap.contains_key T.name reg
    then (err (task_already_registered T.name), reg)
    else (ok tt, HashMap.insert T.name (erase T) reg)

-- `ok_or_else(…)`
or_missing : {S : Type 0} → String → Option (ErasedHandler S) → Result (ErasedHandler S)
or_missing name (some handler) = ok handler
or_missing name none = err (task_not_registered name)

unfoldable pub get : {S : Type 0} → String → Registry S → Result (ErasedHandler S)
unfolding or_missing
get name reg = or_missing name (HashMap.get name reg)

abbrev pub contains : {S : Type 0} → String → Registry S → Bool
contains name reg = HashMap.contains_key name reg

ap-ite {ℓ κ μ} :
    {A : Type ℓ} {B : Type κ} {P : Type μ} (f : A → B) (d : Dec P) (x y : A)
    → f (ite d x y) ≡ ite d (f x) (f y)
ap-ite f (yes p) x y = refl
ap-ite f (no n) x y = refl

get-insert :
    {S : Type 0} (T : Task S) (reg : Registry S) (name : String)
    → get name (HashMap.insert T.name (erase T) reg)
      ≡ ite (string_discrete T.name name) (ok (erase T)) (get name reg)
unfolding get
get-insert T reg name =
    ap (or_missing name) (HashMap.get-insert T.name name (erase T) reg)
    ∙ ap-ite (or_missing name) (string_discrete T.name name) (some (erase T)) (HashMap.get name reg)

-- Registering a task under a new name succeeds; the name then gives the task's handler, and every
-- other name what it gave before. Under a name that is taken it fails with `TaskAlreadyRegistered`
-- and changes nothing.
pub register_lem :
    {S : Type 0} (T : Task S) (reg : Registry S) (name : String)
    → ((contains T.name reg ≡ false)
        × ((register T reg).0 ≡ ok tt)
        × (get name (register T reg).1
            ≡ ite (string_discrete T.name name) (ok (erase T)) (get name reg)))
      ⊎ ((contains T.name reg ≡ true)
          × (register T reg ≡ (err (task_already_registered T.name), reg)))
unfolding register get
register_lem T reg name = elim (Bool-cases (contains T.name reg)) [
  | inl taken ↦ inr (taken, rw taken refl)
  | inr new ↦ inl (new, rw new refl, rw new (get-insert T reg name))
]

pub get-ne-panic :
    {S : Type 0} (name : String) (reg : Registry S) (p : String) → get name reg ≢ panic p
unfolding get
get-ne-panic {S} name reg p = or_missing-ne-panic (HashMap.get name reg)
  where
    or_missing-ne-panic : (o : Option (ErasedHandler S)) → or_missing name o ≢ panic p
    or_missing-ne-panic none = λ e. cc
    or_missing-ne-panic (some h) = λ e. cc
