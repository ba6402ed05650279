-- ===== src/Memory/Producer.antt =====
-- `enqueue` of the in-process broker, on every branch.
use capivara_rs.Prelude.{
  ◌∙◌, sym, Option-cases, Bool-cases, ◌⊎◌, inl, inr, Option, ◌≡◌, refl, ap, ◌++◌, none, some, [],
  ◌∷◌, String, ite, string_discrete, arith, trim_is_empty, true, false,
}
use capivara_rs.Prelude.HashMap
use capivara_rs.Prelude.HashMap.{HashMap}
use capivara_rs.Error.{ok, err, empty_idempotency_key}
use capivara_rs.Job.{JobId, QueueName, Job}
use capivara_rs.Memory.{Inner, enqueue, push_pending}
use capivara_rs.Memory.Delivery.{waiting}

-- `t` is `s` with the job at the end of its queue.
pub record Appends (job : Job) (s t : Inner) : Type 0 where
  pub queues :
      (q : QueueName)
      → waiting q t ≡ ite (string_discrete job.queue q) (waiting q s ++ job ∷ []) (waiting q s)
  pub in_flight : t.in_flight ≡ s.in_flight
  pub delayed : t.delayed ≡ s.delayed
  pub dead : t.dead ≡ s.dead

push_pending-Appends :
    (job : Job) (s : Inner) (known : HashMap JobId)
    → Appends job s (push_pending job (record s { idempotency = known }))
unfolding push_pending
push_pending-Appends job s known = record {
  queues = λ q. HashMap.get_or_default-push_back job.queue q job s.pending;
  in_flight = refl;
  delayed = refl;
  dead = refl;
}

enqueued :
    (job : Job) (s : Inner) (known : HashMap JobId)
    → enqueue job s ≡ (ok job.id, push_pending job (record s { idempotency = known }))
    → ((enqueue job s).0 ≡ ok job.id)
      × Appends job s (enqueue job s).1
      × ((enqueue job s).1.idempotency ≡ known)
unfolding push_pending
enqueued job s known e = rw e (refl, push_pending-Appends job s known, refl)

-- The job has no key, or one that is new.
abbrev pub IsNew : Option String → Inner → Type 0
IsNew none s = Unit
IsNew (some key) s = (trim_is_empty key ≡ false) × (HashMap.get key s.idempotency ≡ none)

-- The keys of `s`, with the id for the job's key if it has one.
abbrev pub recorded : Option String → JobId → HashMap JobId → String → Option JobId
recorded none id m k = HashMap.get k m
recorded (some key) id m k = ite (string_discrete key k) (some id) (HashMap.get k m)

-- A new job was taken: its id is returned, it is at the end of its queue, and its key is recorded.
pub record Takes (job : Job) (s : Inner) : Type 0 where
  pub is_new : IsNew job.idempotency_key s
  pub result : (enqueue job s).0 ≡ ok job.id
  pub appends : Appends job s (enqueue job s).1
  pub keys :
      (k : String)
      → HashMap.get k (enqueue job s).1.idempotency
        ≡ recorded job.idempotency_key job.id s.idempotency k

-- `enqueue` ends in one of three ways. A key of white space alone gives `EmptyIdempotencyKey`, and
-- a key that is known the id recorded for it: both leave the broker as it was. A job with no key,
-- or with a new one, is appended to its queue, its id returned and recorded for the key, and no
-- other key changes.
pub enqueue_lem :
    (job : Job) (s : Inner)
    → ((key : String) × (job.idempotency_key ≡ some key)
        × (trim_is_empty key ≡ true)
        × (enqueue job s ≡ (err empty_idempotency_key, s)))
      ⊎ (((key : String) × (id : JobId) × (job.idempotency_key ≡ some key)
            × (HashMap.get key s.idempotency ≡ some id)
            × (enqueue job s ≡ (ok id, s)))
          ⊎ Takes job s)
unfolding enqueue
enqueue_lem job s = elim (Option-cases job.idempotency_key) [
  | inl e ↦
      let (result, appends, known) = enqueued job s s.idempotency (ground arith) in
      inr (
        inr (record {
          is_new = rw e tt;
          result = result;
          appends = appends;
          keys = λ k. simp (e, known) refl;
        }))
  | inr (key, e) ↦ elim (Bool-cases (trim_is_empty key)) [
    | inl b ↦ inl (key, e, b, ground arith)
    | inr b ↦ elim (Option-cases (HashMap.get key s.idempotency)) [
      | inr (id, h) ↦ inr (inl (key, id, e, h, ground arith))
      | inl h ↦
          let (result, appends, known) =
            enqueued job s (HashMap.insert key job.id s.idempotency) (ground arith) in
          inr (
            inr (record {
              is_new = rw e (b, h);
              result = result;
              appends = appends;
              keys = λ k.
                  ap (HashMap.get k) known
                  ∙ HashMap.get-insert key k job.id s.idempotency
                  ∙ ap (λ o. recorded o job.id s.idempotency k) (sym e);
            }))
    ]
  ]
]
