-- ===== src/Prelude/HashMap.antt =====
-- std::collections::HashMap with text keys, as an association list. What the code iterates over
-- is met in an order of the caller's choice, so that the order of the entries says nothing.
use mathlib.Core.List.{List, [], ◌∷◌, ◌++◌, map}
use mathlib.Core.Logic.{ite, if_pos, if_neg, ◌≢◌, ◌⊎◌, inl, inr}
use mathlib.Core.Option
use mathlib.Core.Option.{Option, none, some}
use mathlib.Core.Path.{◌≡◌, refl}
use mathlib.Core.Bool.{Bool, true, false}
use Prim.Native.String.{String}
use native.Mathlib.Omega.{arith}
use capivara_rs.Prelude.Tests.{string_discrete}

abbrev pub HashMap {ℓ} : Type ℓ → Type ℓ
HashMap V = List (String × V)

module _ {ℓ} {V : Type ℓ} where
  unfoldable pub get : String → HashMap V → Option V
  get k [] = none
  get k ((j, v) ∷ m) = ite (string_discrete j k) (some v) (get k m)

  unfoldable pub insert : String → V → HashMap V → HashMap V
  insert k v [] = (k, v) ∷ []
  insert k v ((j, w) ∷ m) = ite (string_discrete j k) ((k, v) ∷ m) ((j, w) ∷ insert k v m)

  unfoldable pub remove : String → HashMap V → HashMap V
  remove k [] = []
  remove k ((j, w) ∷ m) = let rest = remove k m in ite (string_discrete j k) rest ((j, w) ∷ rest)

  unfoldable pub contains_key : String → HashMap V → Bool
  contains_key k m = elim (get k m) [ none ↦ false | some _ ↦ true ]

  abbrev pub keys : HashMap V → List String
  keys = map (λ e. e.0)

  pub get-insert :
      (k j : String) (v : V) (m : HashMap V)
      → get j (insert k v m) ≡ ite (string_discrete k j) (some v) (get j m)
  unfolding get insert
  get-insert k j v [] = refl
  get-insert k j v ((i, w) ∷ m) = ground (arith, get-insert k j v m)

  pub get-remove :
      (k j : String) (m : HashMap V) → get j (remove k m) ≡ ite (string_discrete k j) none (get j m)
  unfolding get remove
  get-remove k j [] = ground arith
  get-remove k j ((i, w) ∷ m) = ground (arith, get-remove k j m)

  remove_absent : (k : String) (m : HashMap V) → get k m ≡ none → remove k m ≡ m
  unfolding get remove
  remove_absent k [] h = refl
  remove_absent k ((i, w) ∷ m) h = ground (arith, remove_absent k m)

-- A map of lists: `entry(k).or_default().push(a)`, and `get(k)` with an empty default.
module _ {ℓ} {A : Type ℓ} where
  unfoldable pub get_or_default : String → HashMap (List A) → List A
  get_or_default k [] = []
  get_or_default k ((j, v) ∷ m) = ite (string_discrete j k) v (get_or_default k m)

  pop_list : String → List A → HashMap (List A) → Option (A × HashMap (List A))
  pop_list j [] m = none
  pop_list j (a ∷ v) m = some (a, (j, v) ∷ m)

  unfoldable pub push_back : String → A → HashMap (List A) → HashMap (List A)
  push_back k a [] = (k, a ∷ []) ∷ []
  push_back k a ((j, v) ∷ m) =
      ite (string_discrete j k) ((j, v ++ a ∷ []) ∷ m) ((j, v) ∷ push_back k a m)

  -- `get_mut(k)`, then `pop_front()` of the list that is there.
  unfoldable pub pop_front : String → HashMap (List A) → Option (A × HashMap (List A))
  unfolding pop_list
  pop_front k [] = none
  pop_front k ((j, v) ∷ m) =
      ite (string_discrete j k) (pop_list j v m)
        (Option.map (λ r. (r.0, (j, v) ∷ r.1)) (pop_front k m))

  pub get_or_default-push_back :
      (k j : String) (a : A) (m : HashMap (List A))
      → get_or_default j (push_back k a m)
        ≡ ite (string_discrete k j) (get_or_default j m ++ a ∷ []) (get_or_default j m)
  unfolding get_or_default push_back
  get_or_default-push_back k j a [] = ground arith
  get_or_default-push_back k j a ((i, v) ∷ m) = ground (arith, get_or_default-push_back k j a m)

  pub get_or_default-insert :
      (k j : String) (v : List A) (m : HashMap (List A))
      → get_or_default j (insert k v m) ≡ ite (string_discrete k j) v (get_or_default j m)
  unfolding get_or_default insert
  get_or_default-insert k j v [] = refl
  get_or_default-insert k j v ((i, w) ∷ m) = ground (arith, get_or_default-insert k j v m)

  -- `pop_front` takes the first of the list under the key, and touches no other list.
  abbrev Pops : String → HashMap (List A) → Option (A × HashMap (List A)) → Type ℓ
  Pops k m r =
      ((r ≡ none) × (get_or_default k m ≡ []))
      ⊎ ((a : A) × (m' : HashMap (List A)) × (r ≡ some (a, m'))
          × (get_or_default k m ≡ a ∷ get_or_default k m')
          × ((j : String) → j ≢ k → get_or_default j m' ≡ get_or_default j m))

  pop_here :
      (i k : String) (v : List A) (m : HashMap (List A))
      → i ≡ k
      → Pops k ((i, v) ∷ m) (pop_list i v m)
  unfolding pop_list get_or_default
  pop_here i k [] m p = inl (refl, if_pos (string_discrete i k) p [] (get_or_default k m))
  pop_here i k (a ∷ v) m p = inr (a, (i, v) ∷ m, refl, ground arith, λ j ne. ground arith)

  pop_later :
      (i k : String) (v : List A) (m : HashMap (List A)) (r : Option (A × HashMap (List A)))
      → ¬ (i ≡ k)
      → Pops k m r
      → Pops k ((i, v) ∷ m) (Option.map (λ r. (r.0, (i, v) ∷ r.1)) r)
  unfolding get_or_default
  pop_later i k v m r n (inl (e, h)) = inl (rw e refl, ground arith)
  pop_later i k v m r n (inr (a, m', e, h, other)) =
      inr (a, (i, v) ∷ m', rw e refl, ground arith, λ j ne. ground (arith, other j ne))

  pub pop_front-Pops : (k : String) (m : HashMap (List A)) → Pops k m (pop_front k m)
  unfolding pop_front
  pop_front-Pops k [] = inl (refl, unfold get_or_default in refl)
  pop_front-Pops k ((i, v) ∷ m) = elim (string_discrete i k) [
    | yes p ↦ rw (if_pos (string_discrete i k) p) (pop_here i k v m p)
    | no n ↦
        rw (if_neg (string_discrete i k) n)
          (pop_later i k v m (pop_front k m) n (pop_front-Pops k m))
  ]
