-- ===== src/Memory/Recovery.antt =====
-- What `recover_expired` and `promote_delayed` bring back to the queues.
use mathlib.Core.List.{append_assoc, append-nil}
use capivara_rs.Prelude.{
  ◌≤◌, ℕ, ◌≡◌, refl, sym, none, some, ◌⊎◌, inl, inr, arith, Option-cases, List, [], ◌∷◌, ◌++◌,
  String, string_discrete, Bool-cases, ite, leb, if◌then◌else◌, true,
}
use capivara_rs.Prelude.HashMap
use capivara_rs.Prelude.HashMap.{HashMap}
use capivara_rs.Time.{Instant}
use capivara_rs.Job.{JobId, QueueName, Job}
use capivara_rs.Memory.{
  InFlight, Inner, push_pending, promote_each, promote_delayed, recover_one, recover_all,
  expired_among, recover_expired,
}
use capivara_rs.Memory.Census.{pending}
use capivara_rs.Memory.Conserve.{in_flight-promote_each, WellFormed, recover_all-copies}
use capivara_rs.Memory.Delivery.{waiting}

-- The delayed jobs that are not due, and those of one queue that are, in the order of the list.
abbrev pub not_due : Instant → List (Instant × Job) → List (Instant × Job)
not_due now [] = []
not_due now ((when, j) ∷ l) = if leb when now then not_due now l else (when, j) ∷ not_due now l

abbrev pub due : Instant → QueueName → List (Instant × Job) → List Job
due now q [] = []
due now q ((when, j) ∷ l) =
    if leb when now
    then ite (string_discrete j.queue q) (j ∷ due now q l) (due now q l)
    else due now q l

promote_each-delayed :
    (now : Instant) (l keep : List (Instant × Job)) (s : Inner)
    → (promote_each now l keep s).delayed ≡ keep ++ not_due now l
unfolding promote_each
promote_each-delayed now [] keep s = sym (append-nil keep)
promote_each-delayed now ((when, j) ∷ l) keep s = ground (
  arith,
  promote_each-delayed now l keep (push_pending j s),
  promote_each-delayed now l (keep ++ (when, j) ∷ []) s,
  append_assoc keep ((when, j) ∷ []) (not_due now l),
)

promote_each-waiting :
    (q : QueueName) (now : Instant) (l keep : List (Instant × Job)) (s : Inner)
    → waiting q (promote_each now l keep s) ≡ waiting q s ++ due now q l
unfolding promote_each
promote_each-waiting q now [] keep s = sym (append-nil (waiting q s))
promote_each-waiting q now ((when, j) ∷ l) keep s = ground (
  arith,
  promote_each-waiting q now l keep (push_pending j s),
  promote_each-waiting q now l (keep ++ (when, j) ∷ []) s,
  HashMap.get_or_default-push_back j.queue q j s.pending,
  append_assoc (waiting q s) (j ∷ []) (due now q l),
)

-- Promotion appends to each queue its delayed jobs that are due, in their order, and leaves exactly
-- the others delayed, in their order; no claim changes.
pub promote_delayed_lem :
    (now : Instant) (s : Inner)
    → ((q : QueueName) → waiting q (promote_delayed now s) ≡ waiting q s ++ due now q s.delayed)
      × ((promote_delayed now s).delayed ≡ not_due now s.delayed)
      × ((promote_delayed now s).in_flight ≡ s.in_flight)
unfolding promote_delayed
promote_delayed_lem now s = (
  λ q. promote_each-waiting q now s.delayed [] s,
  promote_each-delayed now s.delayed [] s,
  in_flight-promote_each now s.delayed [] s,
)

abbrev pub Listed : String → List String → Type 0
Listed x [] = ⊥
Listed x (y ∷ ys) = (y ≡ x) ⊎ Listed x ys

-- An iteration over a map meets each of its keys.
abbrev pub MeetsAll : (List String → List String) → Type 0
MeetsAll order = (x : String) (xs : List String) → Listed x xs → Listed x (order xs)

Listed-keys :
    (id : String) (m : HashMap InFlight) (f : InFlight)
    → HashMap.get id m ≡ some f
    → Listed id (HashMap.keys m)
unfolding HashMap.get
Listed-keys id [] f e = absurd (ground arith)
Listed-keys id ((k, g) ∷ m) f e = elim (string_discrete k id) [
  | yes p ↦ inl p
  | no n ↦ inr (Listed-keys id m f (ground arith))
]

le→leb : (a b : ℕ) → a ≤ b → leb a b ≡ true
le→leb a b h = ground arith

expired_among-cons :
    (now : Instant) (m : HashMap InFlight) (i : String) (ids : List String) (id : JobId)
    → Listed id (expired_among now m ids)
    → Listed id (expired_among now m (i ∷ ids))
unfolding expired_among
expired_among-cons now m i ids id l = elim (Option-cases (HashMap.get i m)) [
  | inl e ↦ rw (e, expired_among) l
  | inr (g, e) ↦ elim (Bool-cases (leb g.lease_until now)) [
    | inl b ↦ rw (e, expired_among, b) (inr l)
    | inr b ↦ rw (e, expired_among, b) l
  ]
]

Listed-expired :
    (now : Instant) (m : HashMap InFlight) (ids : List String) (id : JobId) (f : InFlight)
    → HashMap.get id m ≡ some f
    → f.lease_until ≤ now
    → Listed id ids
    → Listed id (expired_among now m ids)
unfolding expired_among
Listed-expired now m [] id f e h l = elim l [ ]
Listed-expired now m (i ∷ ids) id f e h (inl p) =
    let here : HashMap.get i m ≡ some f = rw p e in
    rw (here, expired_among, le→leb f.lease_until now h) (inl p)
Listed-expired now m (i ∷ ids) id f e h (inr l) =
    expired_among-cons now m i ids id (Listed-expired now m ids id f e h l)

recover_all-none :
    (ids : List String) (s : Inner) (id : JobId)
    → HashMap.get id s.in_flight ≡ none
    → HashMap.get id (recover_all ids s).in_flight ≡ none
unfolding recover_all recover_one
recover_all-none [] s id h = h
recover_all-none (i ∷ ids) s id h =
    ground (arith, recover_all-none ids (recover_one i s) id, HashMap.get-remove i id s.in_flight)

recover_all-removes :
    (ids : List String) (s : Inner) (id : JobId)
    → Listed id ids
    → HashMap.get id (recover_all ids s).in_flight ≡ none
unfolding recover_all recover_one
recover_all-removes [] s id l = elim l [ ]
recover_all-removes (i ∷ ids) s id (inl p) =
    ground (arith, recover_all-none ids (recover_one i s) id, HashMap.get-remove i id s.in_flight)
recover_all-removes (i ∷ ids) s id (inr l) = recover_all-removes ids (recover_one i s) id l

-- Recovery moves jobs between the claims and the queues alone.
pub recover_all-places :
    (ids : List String) (s : Inner)
    → ((recover_all ids s).delayed ≡ s.delayed) × ((recover_all ids s).dead ≡ s.dead)
unfolding recover_all recover_one
recover_all-places [] s = (refl, refl)
recover_all-places (i ∷ ids) s = ground (arith, recover_all-places ids (recover_one i s))

-- A claim of a well-formed broker whose lease has run out is over after recovery, in any order of
-- iteration that meets every claim: nobody holds it, and its job is back in a queue, once.
pub recover_expired_requeues :
    (order : List String → List String) (now : Instant) (s : Inner) (id : JobId) (f : InFlight)
    → MeetsAll order
    → WellFormed s
    → HashMap.get id s.in_flight ≡ some f
    → f.lease_until ≤ now
    → (HashMap.get id (recover_expired order now s).in_flight ≡ none)
      × (pending id (recover_expired order now s) ≡ 1)
unfolding recover_expired
recover_expired_requeues order now s id f meets w e h =
    let keys = HashMap.keys s.in_flight in
    let ids = expired_among now s.in_flight (order keys) in
    let listed =
      Listed-expired now s.in_flight (order keys) id f e h
        (meets id keys (Listed-keys id s.in_flight f e)) in
    let gone : HashMap.get id (recover_all ids s).in_flight ≡ none =
      recover_all-removes ids s id listed in
    (
      gone,
      ground
          (arith, gone, w.single id, recover_all-copies ids s id w.keyed, recover_all-places ids s),
    )
