-- ===== src/Results.antt =====
-- result/mod.rs and result/memory.rs: the trait `ResultBackend`, and the in-process backend.
use capivara_rs.Prelude.{String, ◌≡◌, ite, Option, some, arith, string_discrete}
use capivara_rs.Prelude.HashMap
use capivara_rs.Prelude.HashMap.{HashMap}
use capivara_rs.Error.{ok, Exec}
use capivara_rs.Job.{JobId, Bytes}

pub data JobResult : Type 0 where
  success : Bytes → JobResult
  failure : String → JobResult

pub record ResultBackend (S : Type 0) : Type 0 where
  pub store : JobId → JobResult → Exec S (Unit {0})
  pub get : JobId → Exec S (Option JobResult)

abbrev pub Stored : Type 0
Stored = HashMap JobResult

unfoldable pub store : JobId → JobResult → Exec Stored (Unit {0})
store id result m = (ok tt, HashMap.insert id result m)

unfoldable pub get : JobId → Exec Stored (Option JobResult)
get id m = (ok (HashMap.get id m), m)

-- What `get` returns after a `store` is the last result stored for the id, and for another id what
-- it returned before; neither call fails, and `get` changes nothing.
pub get-store :
    (id k : JobId) (r : JobResult) (m : Stored)
    → get k (store id r m).1
      ≡ (ok (ite (string_discrete id k) (some r) (HashMap.get k m)), (store id r m).1)
unfolding get store
get-store id k r m = ground (arith, HashMap.get-insert id k r m)
