-- ===== src/Redis/Structures.antt =====
-- What broker/redis_broker.rs relies on of Redis's lists and sorted sets, and that a command writes
-- under its own key alone, as the commands are documented.
use capivara_rs.Prelude.{
  ℕ, ◌≤◌, String, true, false, none, some, List, [], ◌∷◌, ◌++◌, ◌≡◌, ◌≢◌, ◌⊎◌, ite, string_discrete,
  ◌∙◌,
}
use capivara_rs.Redis.{Redis}

abbrev pub Listed : String → List String → Type 0
Listed x [] = ⊥
Listed x (y ∷ ys) = (y ≡ x) ⊎ Listed x ys

abbrev pub Distinct : List String → Type 0
Distinct [] = Unit
Distinct (m ∷ ms) = (¬ Listed m ms) × Distinct ms

module _ {K : Type 0} (R : Redis K) where
  -- The key holds in `t` what it holds in `s`, as the commands show it: a text, a list, the members
  -- of a sorted set.
  pub record Same (j : String) (s t : K) : Type 0 where
    pub text : R.get j t ≡ R.get j s
    pub items : R.lrange j t ≡ R.lrange j s
    pub members : (m : String) → (R.zrem j m t).0 ≡ (R.zrem j m s).0

  pub Same-trans : (j : String) (s t u : K) → Same j s t → Same j t u → Same j s u
  Same-trans j s t u a b = record {
    text = b.text ∙ a.text;
    items = b.items ∙ a.items;
    members = λ m. b.members m ∙ a.members m;
  }

  -- Every key but `k` holds in `t` what it holds in `s`.
  abbrev pub Only : String → K → K → Type 0
  Only k s t = (j : String) → k ≢ j → Same j s t

  pub record Structures : Type 0 where
    pub set-Only : (k v : String) (s : K) → Only k s (R.set k v s)
    pub set_ex-Only : (k v : String) (seconds : ℕ) (s : K) → Only k s (R.set_ex k v seconds s)
    pub del-Only : (k : String) (s : K) → Only k s (R.del k s)
    pub incr-Only : (k : String) (s : K) → Only k s (R.incr k s).1
    pub lpush-Only : (k v : String) (s : K) → Only k s (R.lpush k v s)
    pub rpop-Only : (k : String) (s : K) → Only k s (R.rpop k s).1
    pub zadd-Only : (k : String) (n : ℕ) (m : String) (s : K) → Only k s (R.zadd k n m s)
    pub zrem-Only : (k m : String) (s : K) → Only k s (R.zrem k m s).1
    pub lrange-lpush : (k v : String) (s : K) → R.lrange k (R.lpush k v s) ≡ v ∷ R.lrange k s
    -- `RPOP` of an empty list, which is no key at all.
    pub rpop_empty : (k : String) (s : K) → R.lrange k s ≡ [] → R.rpop k s ≡ (none, s)
    pub rpop_last :
        (k v : String) (xs : List String) (s : K)
        → R.lrange k s ≡ xs ++ v ∷ []
        → ((R.rpop k s).0 ≡ some v) × (R.lrange k (R.rpop k s).1 ≡ xs)
    pub has-zadd :
        (k : String) (n : ℕ) (m p : String) (s : K)
        → (R.zrem k p (R.zadd k n m s)).0 ≡ ite (string_discrete m p) true (R.zrem k p s).0
    pub has-zrem :
        (k m p : String) (s : K)
        → (R.zrem k p (R.zrem k m s).1).0 ≡ ite (string_discrete m p) false (R.zrem k p s).0
    -- What `ZRANGEBYSCORE` returns is in the set.
    pub zrangebyscore-has :
        (k : String) (max : ℕ) (m : String) (s : K)
        → Listed m (R.zrangebyscore k max s)
        → (R.zrem k m s).0 ≡ true
    pub zrangebyscore-Distinct : (k : String) (max : ℕ) (s : K) → Distinct (R.zrangebyscore k max s)
    -- A member is in the range from when its score is.
    pub zrangebyscore-zadd :
        (k : String) (n max : ℕ) (m : String) (s : K)
        → n ≤ max
        → Listed m (R.zrangebyscore k max (R.zadd k n m s))
