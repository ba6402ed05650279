-- ===== src/Tests/Ranges.antt =====
-- `ZRANGEBYSCORE` of the small Redis: the members up to a score.
use mathlib.Core.Path.{subst}
use capivara_rs.Prelude.{
  ℕ, ◌≢◌, String, Bool, true, false, List, [], ◌∷◌, leb, ◌≡◌, refl, sym, ◌∙◌, ◌≤◌, string_discrete,
  inl, inr, Bool-cases, if◌then◌else◌, if_pos, if_neg, arith,
}
use capivara_rs.Prelude.HashMap
use capivara_rs.Prelude.HashMap.{HashMap}
use capivara_rs.Redis.Structures.{Distinct, Listed}
use capivara_rs.Tests.Keyspace.{without, up_to}

le→leb : (a b : ℕ) → a ≤ b → leb a b ≡ true
le→leb a b h = ground arith

later :
    (p m : String) (ms : List String) (b : Bool)
    → ¬ (p ≡ m)
    → Listed m (if b then p ∷ ms else ms)
    → Listed m ms
later p m ms true ne (inl e) = absurd (ne e)
later p m ms true ne (inr l) = l
later p m ms false ne l = l

-- A list without a text, by whether its first is the text.
first_goes : (m y : String) (xs : List String) → y ≡ m → without m (y ∷ xs) ≡ without m xs
first_goes m y xs e = if_pos (string_discrete y m) e (without m xs) (y ∷ without m xs)

first_stays : (m y : String) (xs : List String) → y ≢ m → without m (y ∷ xs) ≡ y ∷ without m xs
first_stays m y xs n = if_neg (string_discrete y m) n (without m xs) (y ∷ without m xs)

without-Listed : (m x : String) (xs : List String) → Listed x (without m xs) → Listed x xs
without-Listed m x [] l = l
without-Listed m x (y ∷ xs) l = elim (string_discrete y m) [
  | yes e ↦ inr (without-Listed m x xs (subst (Listed x) (first_goes m y xs e) l))
  | no n ↦ elim (subst (Listed x) (first_stays m y xs n) l) [
    | inl e ↦ inl e
    | inr h ↦ inr (without-Listed m x xs h)
  ]
]

Listed-without : (m x : String) (xs : List String) → m ≢ x → Listed x xs → Listed x (without m xs)
Listed-without m x [] n l = l
Listed-without m x (y ∷ xs) n l = elim (string_discrete y m) [
  | yes e ↦
      rw (first_goes m y xs e)
        (elim l [ inl f ↦ absurd (n (sym e ∙ f)) | inr h ↦ Listed-without m x xs n h ])
  | no k ↦
      rw (first_stays m y xs k) (elim l [ inl f ↦ inl f | inr h ↦ inr (Listed-without m x xs n h) ])
]

without-absent : (m : String) (xs : List String) → ¬ Listed m (without m xs)
without-absent m [] l = l
without-absent m (y ∷ xs) l = elim (string_discrete y m) [
  | yes e ↦ without-absent m xs (subst (Listed m) (first_goes m y xs e) l)
  | no n ↦ elim (subst (Listed m) (first_stays m y xs n) l) [
    | inl e ↦ n e
    | inr h ↦ without-absent m xs h
  ]
]

without-Distinct : (m : String) (xs : List String) → Distinct xs → Distinct (without m xs)
without-Distinct m [] d = d
without-Distinct m (y ∷ xs) d = elim (string_discrete y m) [
  | yes e ↦ rw (first_goes m y xs e) (without-Distinct m xs d.1)
  | no n ↦ rw (first_stays m y xs n) (λ l. d.0 (without-Listed m y xs l), without-Distinct m xs d.1)
]

pub up_to-has :
    (max : ℕ) (m : String) (z : HashMap ℕ)
    → Listed m (up_to max z)
    → HashMap.contains_key m z ≡ true
unfolding HashMap.contains_key HashMap.get
up_to-has max m [] l = elim l [ ]
up_to-has max m ((p, n) ∷ z) l = elim (string_discrete p m) [
  | yes e ↦ ground arith
  | no ne ↦ ground (
    arith,
    up_to-has max m z
        (without-Listed p m (up_to max z) (later p m (without p (up_to max z)) (leb n max) ne l)),
  )
]

pub up_to-Distinct : (max : ℕ) (z : HashMap ℕ) → Distinct (up_to max z)
up_to-Distinct max [] = tt
up_to-Distinct max ((p, n) ∷ z) = elim (Bool-cases (leb n max)) [
  | inl b ↦
      rw b (without-absent p (up_to max z), without-Distinct p (up_to max z) (up_to-Distinct max z))
  | inr b ↦ rw b (without-Distinct p (up_to max z) (up_to-Distinct max z))
]

pub up_to-insert :
    (n max : ℕ) (m : String) (z : HashMap ℕ) → n ≤ max → Listed m (up_to max (HashMap.insert m n z))
unfolding HashMap.insert
up_to-insert n max m [] h = rw (le→leb n max h) (inl refl)
up_to-insert n max m ((p, k) ∷ z) h = elim (string_discrete p m) [
  | yes e ↦ rw (if_pos (string_discrete p m) e, le→leb n max h) (inl refl)
  | no ne ↦ elim (Bool-cases (leb k max)) [
    | inl b ↦
        rw (if_neg (string_discrete p m) ne, b)
          (inr
            (Listed-without p m (up_to max (HashMap.insert m n z)) ne (up_to-insert n max m z h)))
    | inr b ↦
        rw (if_neg (string_discrete p m) ne, b)
          (Listed-without p m (up_to max (HashMap.insert m n z)) ne (up_to-insert n max m z h))
  ]
]
