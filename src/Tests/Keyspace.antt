-- ===== src/Tests/Keyspace.antt =====
-- A small Redis, for the tests: strings, counters, lists and sorted sets by key.
use mathlib.Core.List.{reverse}
use capivara_rs.Prelude.{
  ℕ, suc, String, Bool, true, false, Option, none, some, List, [], ◌∷◌, leb, if◌then◌else◌, ◌≡◌,
  refl, ap, arith, ite, string_discrete,
}
use capivara_rs.Prelude.HashMap
use capivara_rs.Prelude.HashMap.{HashMap}
use capivara_rs.Registry.{value}
use capivara_rs.Redis.{Redis, pos}
use capivara_rs.Redis.Laws.{Laws, Reachable}

pub record Keyspace : Type 0 where
  pub strings : HashMap String
  pub counters : HashMap ℕ
  pub lists : HashMap (List String)
  pub zsets : HashMap (HashMap ℕ)

abbrev pub empty : Keyspace
empty = record { strings = []; counters = []; lists = []; zsets = [] }

abbrev set_string : String → String → Keyspace → Keyspace
set_string k v s = record s { strings = HashMap.insert k v s.strings }

abbrev one_more : Option ℕ → ℕ
one_more none = 1
one_more (some n) = suc n

abbrev pub pop_last : String → List String → Keyspace → Option String × Keyspace
pop_last k [] s = (none, s)
pop_last k (x ∷ xs) s = (some x, record s { lists = HashMap.insert k (reverse xs) s.lists })

abbrev pub take_member : String → String → Option (HashMap ℕ) → Keyspace → Bool × Keyspace
take_member k m none s = (false, s)
take_member k m (some z) s =
    if HashMap.contains_key m z
    then (true, record s { zsets = HashMap.insert k (HashMap.remove m z) s.zsets })
    else (false, s)

abbrev pub or_none : Option (HashMap ℕ) → HashMap ℕ
or_none none = []
or_none (some z) = z

abbrev pub without : String → List String → List String
without m [] = []
without m (x ∷ xs) = let rest = without m xs in ite (string_discrete x m) rest (x ∷ rest)

-- Of the entries of a member the first counts, as for `get`.
abbrev pub up_to : ℕ → HashMap ℕ → List String
up_to max [] = []
up_to max ((m, score) ∷ z) =
    let rest = without m (up_to max z) in if leb score max then m ∷ rest else rest

abbrev set_absent : String → String → Option String → Keyspace → Bool × Keyspace
set_absent k v none s = (true, set_string k v s)
set_absent k v (some w) s = (false, s)

abbrev pub small : Redis Keyspace
small = record {
  get = λ k s. HashMap.get k s.strings;
  set = set_string;
  set_ex = λ k v seconds s. set_string k v s;
  set_nx = λ k v s. set_absent k v (HashMap.get k s.strings) s;
  del = λ k s. record s {
    strings = HashMap.remove k s.strings;
    counters = HashMap.remove k s.counters;
  };
  incr = λ k s. (
    pos (one_more (HashMap.get k s.counters)),
    record s { counters = HashMap.insert k (one_more (HashMap.get k s.counters)) s.counters },
  );
  lpush =
      λ k v s. record s { lists = HashMap.insert k (v ∷ HashMap.get_or_default k s.lists) s.lists };
  rpop = λ k s. pop_last k (reverse (HashMap.get_or_default k s.lists)) s;
  lrange = λ k s. HashMap.get_or_default k s.lists;
  zadd = λ k score m s. record s {
    zsets = HashMap.insert k (HashMap.insert m score (or_none (HashMap.get k s.zsets))) s.zsets;
  };
  zrem = λ k m s. take_member k m (HashMap.get k s.zsets) s;
  zrangebyscore = λ k max s. up_to max (or_none (HashMap.get k s.zsets));
  nil_error = "nil";
  invoke = λ f s. (value (f s).0, (f s).1);
}

pub small-Reachable : Reachable small
small-Reachable = record { runs = λ f s. refl }

take_member-absent :
    (k m : String) (o : Option (HashMap ℕ)) (s : Keyspace)
    → (take_member k m o s).0 ≡ false
    → (take_member k m o s).1 ≡ s
take_member-absent k m none s h = refl
take_member-absent k m (some z) s h = ground arith

pub small-Laws : Laws small
small-Laws = record {
  get-set = λ k j v s. HashMap.get-insert k j v s.strings;
  get-set_ex = λ k j v seconds s. HashMap.get-insert k j v s.strings;
  get-del = λ k j s. HashMap.get-remove k j s.strings;
  get-lpush = λ k j v s n. refl;
  set_nx_absent = λ k v s h. ap (λ o. set_absent k v o s) h;
  set_nx_present = λ k v w s h. ap (λ o. set_absent k v o s) h;
  zrem_absent = λ k m s h. take_member-absent k m (HashMap.get k s.zsets) s h;
}
