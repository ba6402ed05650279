-- ===== src/Memory/History/Tokens.antt =====
-- A token that holds no claim never comes to hold one again.
use capivara_rs.Prelude.{
  ◌+◌, ◌≡◌, ◌≢◌, sym, ◌∙◌, some, ◌⊎◌, inl, inr, arith, Option-cases, List, [], ◌∷◌, String, min,
}
use capivara_rs.Prelude.HashMap
use capivara_rs.Prelude.HashMap.{HashMap}
use capivara_rs.Error.{err, job_not_found}
use capivara_rs.Time.{Instant, Duration, u32_max, add_duration}
use capivara_rs.Job.{JobId, QueueName, ClaimToken, NackAction, requeue_after, Job}
use capivara_rs.Memory.{
  InFlight, Inner, recover_one, recover_all, expired_among, recover_expired, promote_each,
  promote_delayed,
}
use capivara_rs.Memory.Claim.{Round, claim_pass, try_queues, lease_job, queue_names}
use capivara_rs.Memory.Settle.{ack, nack, dead_letter}
use capivara_rs.Memory.Conserve.{in_flight-promote_each}
use capivara_rs.Memory.Ownership.{Holds, settle_stale}
use capivara_rs.Memory.Settlement.{Releases, ack-Releases, nack-Releases, dead_letter-Releases}
use capivara_rs.Memory.History.{
  Call, enqueues, claims, acks, nacks, dead_letters, apply, run, in_flight-enqueue,
}

abbrev Held : Type 0
Held = HashMap InFlight

-- Each claim in `n` is one of `m`, or was made with the token.
abbrev pub Grows : ClaimToken → Held → Held → Type 0
Grows t m n =
    (id : JobId) (f : InFlight)
    → HashMap.get id n ≡ some f
    → (f.token ≡ t) ⊎ (HashMap.get id m ≡ some f)

recover_all-sub :
    (ids : List String) (s : Inner) (id : JobId) (f : InFlight)
    → HashMap.get id (recover_all ids s).in_flight ≡ some f
    → HashMap.get id s.in_flight ≡ some f
unfolding recover_all recover_one
recover_all-sub [] s id f h = h
recover_all-sub (i ∷ ids) s id f h =
    ground
      (arith, recover_all-sub ids (recover_one i s) id f h, HashMap.get-remove i id s.in_flight)

lease_job-Grows :
    (lease : Duration) (now : Instant) (t : ClaimToken) (j : Job) (s : Inner)
    → Grows t s.in_flight (lease_job lease now t j s).1.in_flight
unfolding lease_job
lease_job-Grows lease now t j s id f h = elim (Option-cases (add_duration now lease)) [
  | inl e ↦ ground arith
  | inr (d, e) ↦ ground (
    arith,
    HashMap.get-insert j.id id
        (record {
          job = record j { attempts = min (j.attempts + 1) u32_max };
          lease_until = d;
          token = t;
        })
        s.in_flight,
  )
]

try_queues-Grows :
    (lease : Duration) (now : Instant) (t : ClaimToken) (qs : List String) (s : Inner)
    → Grows t s.in_flight (try_queues lease now t qs s).1.in_flight
unfolding try_queues
try_queues-Grows lease now t [] s id f h = inr h
try_queues-Grows lease now t (q ∷ qs) s id f h =
    elim (Option-cases (HashMap.pop_front q s.pending)) [
      | inl e ↦ ground (arith, try_queues-Grows lease now t qs s id f)
      | inr ((j, m), e) ↦
          ground (arith, lease_job-Grows lease now t j (record s { pending = m }) id f)
    ]

claim_pass-Grows :
    (order : List String → List String) (queues : List QueueName) (lease : Duration) (r : Round)
    (s : Inner)
    → Grows r.token s.in_flight (claim_pass order queues lease r s).1.in_flight
unfolding claim_pass recover_expired promote_delayed
claim_pass-Grows order queues lease r s id f h =
    let t : Inner =
      recover_all (expired_among r.at_recover s.in_flight (order (HashMap.keys s.in_flight))) s in
    let u : Inner = promote_each r.at_promote t.delayed [] t in
    elim (try_queues-Grows lease r.at_lease r.token (queue_names queues) u id f h) [
      | inl e ↦ inl e
      | inr e ↦ inr (
          recover_all-sub
            (expired_among r.at_recover s.in_flight (order (HashMap.keys s.in_flight))) s id f
            (rw in_flight-promote_each at e))
    ]

-- No claim has the token.
abbrev pub Lost : ClaimToken → Inner → Type 0
Lost t s = (id : JobId) → ¬ Holds id t s

-- A claim draws a token other than `t`.
abbrev pub DrawsOther : ClaimToken → Call → Type 0
DrawsOther t (claims order queues lease r) = r.token ≢ t
DrawsOther t _ = Unit

abbrev pub AllDrawOther : ClaimToken → List Call → Type 0
AllDrawOther t [] = Unit
AllDrawOther t (c ∷ cs) = DrawsOther t c × AllDrawOther t cs

Releases-sub :
    (i id : JobId) (t : ClaimToken) (s u : Inner) (f : InFlight)
    → Releases i t s u
    → HashMap.get id u.in_flight ≡ some f
    → HashMap.get id s.in_flight ≡ some f
Releases-sub i id t s u f (inl e) h = rw e at h
Releases-sub i id t s u f (inr (c, e)) h = ground (arith, HashMap.get-remove i id s.in_flight)

apply-Lost :
    (c : Call) (t : ClaimToken) (s : Inner) → DrawsOther t c → Lost t s → Lost t (apply c s)
unfolding apply
apply-Lost (enqueues job) t s d l id (f, e, p) = l id (f, rw in_flight-enqueue at e, p)
apply-Lost (claims order queues lease r) t s d l id (f, e, p) =
    elim (claim_pass-Grows order queues lease r s id f e) [
      | inl q ↦ d (sym q ∙ p)
      | inr q ↦ l id (f, q, p)
    ]
apply-Lost (acks i t') t s d l id (f, e, p) =
    l id (f, Releases-sub i id t' s (ack i t' s).1 f (ack-Releases i t' s) e, p)
apply-Lost (nacks now i t' delay) t s d l id (f, e, p) =
    let a = requeue_after delay in
    l id (f, Releases-sub i id t' s (nack now i t' a s).1 f (nack-Releases now i t' a s) e, p)
apply-Lost (dead_letters i t' reason) t s d l id (f, e, p) = l id (
  f,
  Releases-sub i id t' s (dead_letter i t' reason s).1 f (dead_letter-Releases i t' reason s) e,
  p,
)

run-Lost :
    (cs : List Call) (t : ClaimToken) (s : Inner) → AllDrawOther t cs → Lost t s → Lost t (run cs s)
unfolding run
run-Lost [] t s d l = l
run-Lost (c ∷ cs) t s d l = run-Lost cs t (apply c s) d.1 (apply-Lost c t s d.0 l)

-- A token that holds no claim settles nothing for good: after any calls whose claims draw other
-- tokens, its `ack`, `nack` and `dead_letter` of any id fail with `JobNotFound` and leave the
-- broker as it was.
pub settle_late :
    (t : ClaimToken) (cs : List Call) (s : Inner) (id : JobId) (now : Instant) (a : NackAction)
    (reason : String)
    → Lost t s
    → AllDrawOther t cs
    → (ack id t (run cs s) ≡ (err (job_not_found id), run cs s))
      × (nack now id t a (run cs s) ≡ (err (job_not_found id), run cs s))
      × (dead_letter id t reason (run cs s) ≡ (err (job_not_found id), run cs s))
settle_late t cs s id now a reason l d =
    let stale = settle_stale id t (run cs s) (run-Lost cs t s d l id) in
    (stale.0, stale.1 now a, stale.2 reason)
