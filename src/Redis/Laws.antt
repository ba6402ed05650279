-- ===== src/Redis/Laws.antt =====
-- What broker/redis_broker.rs relies on of Redis, as its commands are documented.
use capivara_rs.Prelude.{ℕ, String, true, false, none, some, ◌≡◌, ◌≢◌, ite, string_discrete}
use capivara_rs.Redis.{Redis}
use capivara_rs.Registry.{value}

pub record Laws {K : Type 0} (R : Redis K) : Type 0 where
  pub get-set :
      (k j v : String) (s : K)
      → R.get j (R.set k v s) ≡ ite (string_discrete k j) (some v) (R.get j s)
  -- Until the time to live is over; the code asks for one second at least.
  pub get-set_ex :
      (k j v : String) (seconds : ℕ) (s : K)
      → R.get j (R.set_ex k v seconds s) ≡ ite (string_discrete k j) (some v) (R.get j s)
  pub get-del :
      (k j : String) (s : K) → R.get j (R.del k s) ≡ ite (string_discrete k j) none (R.get j s)
  -- `LPUSH` writes no other key.
  pub get-lpush : (k j v : String) (s : K) → k ≢ j → R.get j (R.lpush k v s) ≡ R.get j s
  pub set_nx_absent :
      (k v : String) (s : K) → R.get k s ≡ none → R.set_nx k v s ≡ (true, R.set k v s)
  pub set_nx_present : (k v w : String) (s : K) → R.get k s ≡ some w → R.set_nx k v s ≡ (false, s)
  -- `ZREM` of a member that is not there does nothing.
  pub zrem_absent : (k m : String) (s : K) → (R.zrem k m s).0 ≡ false → (R.zrem k m s).1 ≡ s

-- The server answers, and no other client acts.
pub record Reachable {K : Type 0} (R : Redis K) : Type 1 where
  pub runs : {A : Type 0} (f : K → A × K) (s : K) → R.invoke f s ≡ (value (f s).0, (f s).1)
