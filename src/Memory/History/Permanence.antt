-- ===== src/Memory/History/Permanence.antt =====
-- What no call takes back: an idempotency key keeps its job id, and dead letters stay, oldest first.
use capivara_rs.Prelude.{
  ◌≡◌, refl, ◌∙◌, ap, some, inl, inr, arith, Option-cases, List, [], ◌∷◌, ◌++◌, String,
  string_discrete, Bool-cases, trim_is_empty, false,
}
use mathlib.Core.List.{append_assoc, append-nil}
use capivara_rs.Prelude.HashMap
use capivara_rs.Prelude.HashMap.{HashMap}
use capivara_rs.Error.{ok}
use capivara_rs.Time.{Instant, Duration}
use capivara_rs.Job.{JobId, QueueName, ClaimToken, requeue_after, Job, DeadLetter}
use capivara_rs.Memory.{
  Inner, enqueue, push_pending, recover_one, recover_all, expired_among, recover_expired,
  promote_each, promote_delayed,
}
use capivara_rs.Memory.Claim.{Round, claim_pass, try_queues, queue_names}
use capivara_rs.Memory.Settle.{owned, ack, nack, dead_letter, list_dead, bury}
use capivara_rs.Memory.Ownership.{owned-Holds, dead_letter_held}
use capivara_rs.Memory.History.{Call, enqueues, claims, acks, nacks, dead_letters, apply, run}

-- A pass of `claim` touches neither the keys nor the dead.
abbrev pub Frame : Inner → Inner → Type 0
Frame s t = (t.idempotency ≡ s.idempotency) × (t.dead ≡ s.dead)

recover_all-Frame : (ids : List String) (s : Inner) → Frame s (recover_all ids s)
unfolding recover_all recover_one
recover_all-Frame [] s = (refl, refl)
recover_all-Frame (id ∷ ids) s = ground (arith, recover_all-Frame ids (recover_one id s))

promote_each-Frame :
    (now : Instant) (l keep : List (Instant × Job)) (s : Inner)
    → Frame s (promote_each now l keep s)
unfolding promote_each
promote_each-Frame now [] keep s = (refl, refl)
promote_each-Frame now ((when, j) ∷ l) keep s = ground (
  arith,
  promote_each-Frame now l keep (push_pending j s),
  promote_each-Frame now l (keep ++ (when, j) ∷ []) s,
)

try_queues-Frame :
    (lease : Duration) (now : Instant) (t : ClaimToken) (qs : List String) (s : Inner)
    → Frame s (try_queues lease now t qs s).1
unfolding try_queues
try_queues-Frame lease now t [] s = (refl, refl)
try_queues-Frame lease now t (q ∷ qs) s = ground (arith, try_queues-Frame lease now t qs s)

pub claim_pass-Frame :
    (order : List String → List String) (queues : List QueueName) (lease : Duration) (r : Round)
    (s : Inner)
    → Frame s (claim_pass order queues lease r s).1
unfolding claim_pass promote_delayed recover_expired
claim_pass-Frame order queues lease r s =
    let ids = expired_among r.at_recover s.in_flight (order (HashMap.keys s.in_flight)) in
    let t : Inner = recover_all ids s in
    let u : Inner = promote_each r.at_promote t.delayed [] t in
    ground (
      arith,
      recover_all-Frame ids s,
      promote_each-Frame r.at_promote t.delayed [] t,
      try_queues-Frame lease r.at_lease r.token (queue_names queues) u,
    )

HasKey : String → JobId → Inner → Type 0
HasKey key id s = HashMap.get key s.idempotency ≡ some id

enqueue-HasKey :
    (job : Job) (key : String) (id : JobId) (s : Inner)
    → HasKey key id s
    → HasKey key id (enqueue job s).1
unfolding enqueue HasKey
enqueue-HasKey job key id s h = elim (Option-cases job.idempotency_key) [
  | inl e ↦ ground arith
  | inr (k, e) ↦ ground (arith, HashMap.get-insert k key job.id s.idempotency)
]

apply-HasKey :
    (c : Call) (key : String) (id : JobId) (s : Inner) → HasKey key id s → HasKey key id (apply c s)
unfolding apply HasKey
apply-HasKey (enqueues job) key id s h = enqueue-HasKey job key id s h
apply-HasKey (claims order queues lease r) key id s h =
    rw ((claim_pass-Frame order queues lease r s).0) h
apply-HasKey (acks i t) key id s h = unfold ack in ground arith
apply-HasKey (nacks now i t delay) key id s h = unfold nack in ground arith
apply-HasKey (dead_letters i t reason) key id s h = unfold dead_letter in ground arith

run-HasKey :
    (cs : List Call) (key : String) (id : JobId) (s : Inner)
    → HasKey key id s
    → HasKey key id (run cs s)
unfolding run
run-HasKey [] key id s h = h
run-HasKey (c ∷ cs) key id s h = run-HasKey cs key id (apply c s) (apply-HasKey c key id s h)

enqueue_records :
    (job : Job) (key : String) (s : Inner) (id : JobId)
    → job.idempotency_key ≡ some key
    → (enqueue job s).0 ≡ ok id
    → (trim_is_empty key ≡ false) × HasKey key id (enqueue job s).1
unfolding enqueue HasKey
enqueue_records job key s id e h = ground (arith, HashMap.get-insert key key job.id s.idempotency)

enqueue_known :
    (job : Job) (key : String) (s : Inner) (id : JobId)
    → job.idempotency_key ≡ some key
    → trim_is_empty key ≡ false
    → HasKey key id s
    → enqueue job s ≡ (ok id, s)
unfolding enqueue HasKey
enqueue_known job key s id e b h = ground arith

-- Once a job with a key has been enqueued, any later job with that key gets the id that the first
-- call returned and leaves the broker as it is, whatever calls were made between the two.
pub enqueue_again :
    (first second : Job) (key : String) (cs : List Call) (s : Inner) (id : JobId)
    → first.idempotency_key ≡ some key
    → second.idempotency_key ≡ some key
    → (enqueue first s).0 ≡ ok id
    → enqueue second (run cs (enqueue first s).1) ≡ (ok id, run cs (enqueue first s).1)
enqueue_again first second key cs s id e e' h =
    let (filled, known) = enqueue_records first key s id e h in
    enqueue_known second key (run cs (enqueue first s).1) id e' filled
      (run-HasKey cs key id (enqueue first s).1 known)

-- The dead letters of the queue in `d` are those in `c`, and perhaps later ones behind them.
abbrev Extends : QueueName → HashMap (List DeadLetter) → HashMap (List DeadLetter) → Type 0
Extends q c d =
    (later : List DeadLetter) × (HashMap.get_or_default q d ≡ HashMap.get_or_default q c ++ later)

push_back-Extends :
    (q k : QueueName) (l : DeadLetter) (d : HashMap (List DeadLetter))
    → Extends q d (HashMap.push_back k l d)
push_back-Extends q k l d = elim (string_discrete k q) [
  | yes p ↦ (l ∷ [], ground (arith, HashMap.get_or_default-push_back k q l d))
  | no p ↦ (
    [],
    ground
        (arith, HashMap.get_or_default-push_back k q l d, append-nil (HashMap.get_or_default q d)),
  )
]

Extends-of_eq : (q : QueueName) (c d : HashMap (List DeadLetter)) → d ≡ c → Extends q c d
Extends-of_eq q c d e = ([], rw (e, append-nil))

Extends-trans :
    (q : QueueName) (b c d : HashMap (List DeadLetter))
    → Extends q b c
    → Extends q c d
    → Extends q b d
Extends-trans q b c d (x, e) (y, f) =
    (x ++ y, f ∙ ap (λ l. l ++ y) e ∙ append_assoc (HashMap.get_or_default q b) x y)

dead_letter-Extends :
    (q : QueueName) (id : JobId) (t : ClaimToken) (reason : String) (s : Inner)
    → Extends q s.dead (dead_letter id t reason s).1.dead
dead_letter-Extends q id t reason s = elim (Bool-cases (owned id t s)) [
  | inr e ↦
      Extends-of_eq q s.dead (dead_letter id t reason s).1.dead (unfold dead_letter in ground arith)
  | inl e ↦
      let c = owned-Holds id t s e in
      rw (dead_letter_held id t reason s c) (
        unfold bury in
        push_back-Extends q c.0.job.queue (record { job = c.0.job; reason = reason }) s.dead)
]

apply-Extends : (q : QueueName) (c : Call) (s : Inner) → Extends q s.dead (apply c s).dead
unfolding apply
apply-Extends q (enqueues job) s =
    Extends-of_eq q s.dead (enqueue job s).1.dead (unfold enqueue in ground arith)
apply-Extends q (claims order queues lease r) s =
    Extends-of_eq q s.dead (claim_pass order queues lease r s).1.dead
      ((claim_pass-Frame order queues lease r s).1)
apply-Extends q (acks i t) s =
    Extends-of_eq q s.dead (ack i t s).1.dead (unfold ack in ground arith)
apply-Extends q (nacks now i t delay) s =
    Extends-of_eq q s.dead (nack now i t (requeue_after delay) s).1.dead
      (unfold nack in ground arith)
apply-Extends q (dead_letters i t reason) s = dead_letter-Extends q i t reason s

run-Extends : (q : QueueName) (cs : List Call) (s : Inner) → Extends q s.dead (run cs s).dead
unfolding run
run-Extends q [] s = Extends-of_eq q s.dead s.dead refl
run-Extends q (c ∷ cs) s =
    Extends-trans q s.dead (apply c s).dead (run cs (apply c s)).dead (apply-Extends q c s)
      (run-Extends q cs (apply c s))

-- What `list_dead` returns for a queue is the beginning of what it returns after any further calls:
-- dead letters stay as they are, the oldest first.
pub list_dead-run :
    (q : QueueName) (cs : List Call) (s : Inner)
    → (before later : List DeadLetter) × ((list_dead q s).0 ≡ ok before)
      × ((list_dead q (run cs s)).0 ≡ ok (before ++ later))
unfolding list_dead
list_dead-run q cs s =
    let (later, e) = run-Extends q cs s in (HashMap.get_or_default q s.dead, later, refl, ap ok e)
