-- ===== src/Tests/Structures.antt =====
-- The small Redis keeps to what the broker relies on of lists and sorted sets.
use mathlib.Core.List.{reverse, reverse-append, reverse-reverse}
use capivara_rs.Prelude.{
  ℕ, String, Bool, true, false, Option, none, some, List, [], ◌∷◌, ◌++◌, ◌≡◌, refl, sym, ◌∙◌, ap,
  ◌≤◌, ite, string_discrete, inl, inr, Bool-cases, arith,
}
use capivara_rs.Prelude.HashMap
use capivara_rs.Prelude.HashMap.{HashMap}
use capivara_rs.Redis.Structures.{Listed, Same, Only, Structures}
use capivara_rs.Tests.Ranges.{up_to-has, up_to-Distinct, up_to-insert}
use capivara_rs.Tests.Keyspace.{Keyspace, small, pop_last, take_member, or_none}

-- Whether the member is in the set, which says all of what `take_member` answers.
abbrev in_set : String → Option (HashMap ℕ) → Bool
in_set m none = false
in_set m (some z) = HashMap.contains_key m z

take_member-in_set :
    (k m : String) (o : Option (HashMap ℕ)) (s : Keyspace) → (take_member k m o s).0 ≡ in_set m o
take_member-in_set k m none s = refl
take_member-in_set k m (some z) s = ground arith

entry-Same :
    (j : String) (s t : Keyspace)
    → HashMap.get j t.strings ≡ HashMap.get j s.strings
    → HashMap.get_or_default j t.lists ≡ HashMap.get_or_default j s.lists
    → HashMap.get j t.zsets ≡ HashMap.get j s.zsets
    → Same small j s t
entry-Same j s t a b c = record {
  text = a;
  items = b;
  members = λ m.
      take_member-in_set j m (HashMap.get j t.zsets) t
      ∙ ap (in_set m) c
      ∙ sym (take_member-in_set j m (HashMap.get j s.zsets) s);
}

pop_last-Only : (k : String) (xs : List String) (s : Keyspace) → Only small k s (pop_last k xs s).1
pop_last-Only k [] s j ne = entry-Same j s s refl refl refl
pop_last-Only k (x ∷ xs) s j ne =
    entry-Same j s _ refl (HashMap.get_or_default-insert k j (reverse xs) s.lists ∙ ground arith)
      refl

taken-Only :
    (k m : String) (z : HashMap ℕ) (s : Keyspace) (b : Bool)
    → HashMap.contains_key m z ≡ b
    → Only small k s (take_member k m (some z) s).1
taken-Only k m z s true e j ne = rw e (
    entry-Same j s (record s { zsets = HashMap.insert k (HashMap.remove m z) s.zsets }) refl refl
      (HashMap.get-insert k j (HashMap.remove m z) s.zsets ∙ ground arith))
taken-Only k m z s false e j ne = rw e (entry-Same j s s refl refl refl)

take_member-Only :
    (k m : String) (o : Option (HashMap ℕ)) (s : Keyspace) → Only small k s (take_member k m o s).1
take_member-Only k m none s j ne = entry-Same j s s refl refl refl
take_member-Only k m (some z) s j ne = taken-Only k m z s (HashMap.contains_key m z) refl j ne

contains_key-insert :
    (m p : String) (n : ℕ) (z : HashMap ℕ)
    → HashMap.contains_key p (HashMap.insert m n z)
      ≡ ite (string_discrete m p) true (HashMap.contains_key p z)
unfolding HashMap.contains_key
contains_key-insert m p n z = ground (arith, HashMap.get-insert m p n z)

contains_key-remove :
    (m p : String) (z : HashMap ℕ)
    → HashMap.contains_key p (HashMap.remove m z)
      ≡ ite (string_discrete m p) false (HashMap.contains_key p z)
unfolding HashMap.contains_key
contains_key-remove m p z = ground (arith, HashMap.get-remove m p z)

in_set-or_none : (p : String) (o : Option (HashMap ℕ)) → in_set p (some (or_none o)) ≡ in_set p o
unfolding HashMap.contains_key HashMap.get
in_set-or_none p none = refl
in_set-or_none p (some z) = refl

has-zadd_small :
    (k : String) (n : ℕ) (m p : String) (s : Keyspace)
    → (small.zrem k p (small.zadd k n m s)).0 ≡ ite (string_discrete m p) true (small.zrem k p s).0
has-zadd_small k n m p s =
    let z = or_none (HashMap.get k s.zsets) in
    let own : ite (string_discrete k k) (some (HashMap.insert m n z)) (HashMap.get k s.zsets)
        ≡ some (HashMap.insert m n z) =
      ground arith in
    take_member-in_set k p (HashMap.get k (small.zadd k n m s).zsets) (small.zadd k n m s)
    ∙ ap (in_set p) (HashMap.get-insert k k (HashMap.insert m n z) s.zsets ∙ own)
    ∙ contains_key-insert m p n z
    ∙ ap (ite (string_discrete m p) true) (
        in_set-or_none p (HashMap.get k s.zsets)
        ∙ sym (take_member-in_set k p (HashMap.get k s.zsets) s))

taken-has :
    (k m p : String) (o : Option (HashMap ℕ)) (s : Keyspace)
    → HashMap.get k s.zsets ≡ o
    → in_set p (HashMap.get k (take_member k m o s).1.zsets)
      ≡ ite (string_discrete m p) false (in_set p o)
taken-has k m p none s e = rw e (ground arith)
taken-has k m p (some z) s e = elim (Bool-cases (HashMap.contains_key m z)) [
  | inl b ↦
      rw (b, HashMap.get-insert k k (HashMap.remove m z) s.zsets)
        (ground (arith, contains_key-remove m p z))
  | inr b ↦ rw (b, e) (ground (arith, b))
]

has-zrem_small :
    (k m p : String) (s : Keyspace)
    → (small.zrem k p (small.zrem k m s).1).0 ≡ ite (string_discrete m p) false (small.zrem k p s).0
has-zrem_small k m p s =
    let t = (small.zrem k m s).1 in
    take_member-in_set k p (HashMap.get k t.zsets) t
    ∙ taken-has k m p (HashMap.get k s.zsets) s refl
    ∙ ap (ite (string_discrete m p) false) (sym (take_member-in_set k p (HashMap.get k s.zsets) s))

zrangebyscore-has_small :
    (k : String) (max : ℕ) (m : String) (s : Keyspace)
    → Listed m (small.zrangebyscore k max s)
    → (small.zrem k m s).0 ≡ true
zrangebyscore-has_small k max m s l =
    take_member-in_set k m (HashMap.get k s.zsets) s
    ∙ sym (in_set-or_none m (HashMap.get k s.zsets))
    ∙ up_to-has max m (or_none (HashMap.get k s.zsets)) l

zrangebyscore-zadd_small :
    (k : String) (n max : ℕ) (m : String) (s : Keyspace)
    → n ≤ max
    → Listed m (small.zrangebyscore k max (small.zadd k n m s))
zrangebyscore-zadd_small k n max m s h =
    let z = HashMap.insert m n (or_none (HashMap.get k s.zsets)) in
    let own : HashMap.get k (HashMap.insert k z s.zsets) ≡ some z =
      HashMap.get-insert k k z s.zsets ∙ ground arith in
    rw own (up_to-insert n max m (or_none (HashMap.get k s.zsets)) h)

rpop_last_small :
    (k v : String) (xs : List String) (s : Keyspace)
    → small.lrange k s ≡ xs ++ v ∷ []
    → ((small.rpop k s).0 ≡ some v) × (small.lrange k (small.rpop k s).1 ≡ xs)
rpop_last_small k v xs s h =
    let turned : reverse (HashMap.get_or_default k s.lists) ≡ v ∷ reverse xs =
      ap reverse h ∙ reverse-append xs (v ∷ []) in
    rw turned (
      refl,
      HashMap.get_or_default-insert k k (reverse (reverse xs)) s.lists
          ∙ ground (arith, reverse-reverse xs),
    )

pub small-Structures : Structures small
small-Structures = record {
  set-Only =
      λ k v s j ne. entry-Same j s _ (HashMap.get-insert k j v s.strings ∙ ground arith) refl refl;
  set_ex-Only = λ k v seconds s j ne.
      entry-Same j s _ (HashMap.get-insert k j v s.strings ∙ ground arith) refl refl;
  del-Only =
      λ k s j ne. entry-Same j s _ (HashMap.get-remove k j s.strings ∙ ground arith) refl refl;
  incr-Only = λ k s j ne. entry-Same j s _ refl refl refl;
  lpush-Only = λ k v s j ne.
      entry-Same j s _ refl
        (HashMap.get_or_default-insert k j (v ∷ HashMap.get_or_default k s.lists) s.lists
          ∙ ground arith)
        refl;
  rpop-Only = λ k s. pop_last-Only k (reverse (HashMap.get_or_default k s.lists)) s;
  zadd-Only = λ k n m s j ne. entry-Same j s _ refl refl (
      HashMap.get-insert k j (HashMap.insert m n (or_none (HashMap.get k s.zsets))) s.zsets
      ∙ ground arith);
  zrem-Only = λ k m s. take_member-Only k m (HashMap.get k s.zsets) s;
  lrange-lpush = λ k v s.
      HashMap.get_or_default-insert k k (v ∷ HashMap.get_or_default k s.lists) s.lists
      ∙ ground arith;
  rpop_empty = λ k s h. ap (λ xs. pop_last k (reverse xs) s) h;
  rpop_last = rpop_last_small;
  has-zadd = has-zadd_small;
  has-zrem = has-zrem_small;
  zrangebyscore-has = zrangebyscore-has_small;
  zrangebyscore-Distinct = λ k max s. up_to-Distinct max (or_none (HashMap.get k s.zsets));
  zrangebyscore-zadd = zrangebyscore-zadd_small;
}
