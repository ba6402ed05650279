-- ===== src/Redis/Apart.antt =====
-- The keys of broker/redis_broker.rs do not meet: behind the prefix they begin differently. The keys
-- that the scripts put together are those of the operations.
use Prim.Native.String.{String, [], ◌∷◌, ◌++◌}
use Prim.Native.Char.{code}
use text.Mathlib.TextLemmas.{
  cons-append, append_assoc, append-nil, nil≢cons, nil-append, append_cancel_left,
  append_cancel_right,
}
use capivara_rs.Prelude.{ℕ, ◌≡◌, ◌≢◌, refl, sym, ◌∙◌, ap, arith}
use capivara_rs.Job.{JobId}
use capivara_rs.Redis.Keys.{
  pending_key, pending_key_prefix, dead_key, job_key, job_key_prefix, dead_reason_key, attempts_key,
  attempts_key_prefix, lease_key, delayed_key, idempotency_key,
}

-- The key of a dead job's reason is the key of a job with this id.
abbrev pub reason_id : JobId → JobId
reason_id id = id ++ ":dead_reason"

abbrev first : String → ℕ
first [] = 0
first (c ∷ s) = code c

first-append : (s r : String) → first s ≢ 0 → first (s ++ r) ≡ first s
first-append [] r h = absurd (h refl)
first-append (c ∷ s) r h = ap first (cons-append c s r)

-- The last character, or what stands before the text.
abbrev last : String → ℕ → ℕ
last [] n = n
last (c ∷ s) n = last s (code c)

last-append : (s r : String) (n : ℕ) → last (s ++ r) n ≡ last r (last s n)
last-append [] r n = ap (λ t. last t n) (nil-append r)
last-append (c ∷ s) r n = ap (λ t. last t n) (cons-append c s r) ∙ last-append s r (code c)

module _ (prefix : String) where
  -- Two keys whose parts behind the prefix begin differently.
  keys_differ :
      (k l r t : String)
      → first k ≢ 0
      → first l ≢ 0
      → first k ≢ first l
      → prefix ++ (k ++ r) ≢ prefix ++ (l ++ t)
  keys_differ k l r t hk hl h e = h (
      sym (first-append k r hk)
      ∙ ap first (append_cancel_left prefix (k ++ r) (l ++ t) e)
      ∙ first-append l t hl)

  -- The keys of the sorted sets have nothing behind their names.
  set_differs :
      (k r name : String) → first k ≢ 0 → first k ≢ first name → prefix ++ (k ++ r) ≢ prefix ++ name
  set_differs k r name hk h e =
      h (sym (first-append k r hk) ∙ ap first (append_cancel_left prefix (k ++ r) name e))

  pub job-ne-idempotency :
      (id : JobId) (key : String) → job_key prefix id ≢ idempotency_key prefix key
  job-ne-idempotency id key =
      keys_differ "job:" "idempotency:" id key (λ e. omega (arith, e)) (λ e. omega (arith, e))
        (λ e. omega (arith, e))

  pub pending-ne-job : (queue : String) (id : JobId) → pending_key prefix queue ≢ job_key prefix id
  pending-ne-job queue id =
      keys_differ "q:" "job:" (queue ++ ":pending") id (λ e. omega (arith, e))
        (λ e. omega (arith, e)) (λ e. omega (arith, e))

  pub pending-ne-idempotency :
      (queue key : String) → pending_key prefix queue ≢ idempotency_key prefix key
  pending-ne-idempotency queue key =
      keys_differ "q:" "idempotency:" (queue ++ ":pending") key (λ e. omega (arith, e))
        (λ e. omega (arith, e)) (λ e. omega (arith, e))

  pub attempts-ne-job : (id other : JobId) → attempts_key prefix id ≢ job_key prefix other
  attempts-ne-job id other =
      keys_differ "attempts:" "job:" id other (λ e. omega (arith, e)) (λ e. omega (arith, e))
        (λ e. omega (arith, e))

  pub attempts-ne-pending :
      (id : JobId) (queue : String) → attempts_key prefix id ≢ pending_key prefix queue
  attempts-ne-pending id queue =
      keys_differ "attempts:" "q:" id (queue ++ ":pending") (λ e. omega (arith, e))
        (λ e. omega (arith, e)) (λ e. omega (arith, e))

  pub attempts-ne-dead :
      (id : JobId) (queue : String) → attempts_key prefix id ≢ dead_key prefix queue
  attempts-ne-dead id queue =
      keys_differ "attempts:" "q:" id (queue ++ ":dead") (λ e. omega (arith, e))
        (λ e. omega (arith, e)) (λ e. omega (arith, e))

  pub dead-ne-job : (queue : String) (id : JobId) → dead_key prefix queue ≢ job_key prefix id
  dead-ne-job queue id =
      keys_differ "q:" "job:" (queue ++ ":dead") id (λ e. omega (arith, e)) (λ e. omega (arith, e))
        (λ e. omega (arith, e))

  pub attempts-ne-lease : (id : JobId) → attempts_key prefix id ≢ lease_key prefix
  attempts-ne-lease id =
      set_differs "attempts:" id "lease" (λ e. omega (arith, e)) (λ e. omega (arith, e))

  pub job-ne-lease : (id : JobId) → job_key prefix id ≢ lease_key prefix
  job-ne-lease id = set_differs "job:" id "lease" (λ e. omega (arith, e)) (λ e. omega (arith, e))

  pub pending-ne-lease : (queue : String) → pending_key prefix queue ≢ lease_key prefix
  pending-ne-lease queue =
      set_differs "q:" (queue ++ ":pending") "lease" (λ e. omega (arith, e)) (λ e. omega (arith, e))

  pub dead-ne-lease : (queue : String) → dead_key prefix queue ≢ lease_key prefix
  dead-ne-lease queue =
      set_differs "q:" (queue ++ ":dead") "lease" (λ e. omega (arith, e)) (λ e. omega (arith, e))

  pub attempts-ne-delayed : (id : JobId) → attempts_key prefix id ≢ delayed_key prefix
  attempts-ne-delayed id =
      set_differs "attempts:" id "delayed" (λ e. omega (arith, e)) (λ e. omega (arith, e))

  pub job-ne-delayed : (id : JobId) → job_key prefix id ≢ delayed_key prefix
  job-ne-delayed id =
      set_differs "job:" id "delayed" (λ e. omega (arith, e)) (λ e. omega (arith, e))

  pub pending-ne-delayed : (queue : String) → pending_key prefix queue ≢ delayed_key prefix
  pending-ne-delayed queue =
      set_differs "q:" (queue ++ ":pending") "delayed" (λ e. omega (arith, e))
        (λ e. omega (arith, e))

  pub result-ne-job : (id other : JobId) → prefix ++ ("result:" ++ id) ≢ job_key prefix other
  result-ne-job id other =
      keys_differ "result:" "job:" id other (λ e. omega (arith, e)) (λ e. omega (arith, e))
        (λ e. omega (arith, e))

  pub result-ne-attempts :
      (id other : JobId) → prefix ++ ("result:" ++ id) ≢ attempts_key prefix other
  result-ne-attempts id other =
      keys_differ "result:" "attempts:" id other (λ e. omega (arith, e)) (λ e. omega (arith, e))
        (λ e. omega (arith, e))

  pub result-ne-dead :
      (id : JobId) (queue : String) → prefix ++ ("result:" ++ id) ≢ dead_key prefix queue
  result-ne-dead id queue =
      keys_differ "result:" "q:" id (queue ++ ":dead") (λ e. omega (arith, e))
        (λ e. omega (arith, e)) (λ e. omega (arith, e))

  pub result-ne-pending :
      (id : JobId) (queue : String) → prefix ++ ("result:" ++ id) ≢ pending_key prefix queue
  result-ne-pending id queue =
      keys_differ "result:" "q:" id (queue ++ ":pending") (λ e. omega (arith, e))
        (λ e. omega (arith, e)) (λ e. omega (arith, e))

  pub result-ne-delayed : (id : JobId) → prefix ++ ("result:" ++ id) ≢ delayed_key prefix
  result-ne-delayed id =
      set_differs "result:" id "delayed" (λ e. omega (arith, e)) (λ e. omega (arith, e))

  pub result-ne-lease : (id : JobId) → prefix ++ ("result:" ++ id) ≢ lease_key prefix
  result-ne-lease id =
      set_differs "result:" id "lease" (λ e. omega (arith, e)) (λ e. omega (arith, e))

  pub job_key_inj : (id other : JobId) → job_key prefix id ≡ job_key prefix other → id ≡ other
  job_key_inj id other e =
      append_cancel_left "job:" id other
        (append_cancel_left prefix ("job:" ++ id) ("job:" ++ other) e)

  pub pending_key_inj :
      (queue other : String) → pending_key prefix queue ≡ pending_key prefix other → queue ≡ other
  pending_key_inj queue other e = append_cancel_right queue other ":pending" (
      append_cancel_left "q:" (queue ++ ":pending") (other ++ ":pending") (
        append_cancel_left prefix ("q:" ++ (queue ++ ":pending")) ("q:" ++ (other ++ ":pending"))
          e))

  pub job_key_joined : (id : JobId) → job_key_prefix prefix ++ id ≡ job_key prefix id
  job_key_joined id = append_assoc prefix "job:" id

  pub attempts_key_joined : (id : JobId) → attempts_key_prefix prefix ++ id ≡ attempts_key prefix id
  attempts_key_joined id = append_assoc prefix "attempts:" id

  pub pending_key_joined :
      (queue : String)
      → pending_key_prefix prefix ++ (queue ++ ":pending") ≡ pending_key prefix queue
  pending_key_joined queue = append_assoc prefix "q:" (queue ++ ":pending")

  pub reason-ne-own : (id : JobId) → dead_reason_key prefix id ≢ job_key prefix id
  reason-ne-own id e = nil≢cons (
      append_cancel_left id "" ":dead_reason"
        (append-nil id ∙ sym (job_key_inj (id ++ ":dead_reason") id e)))

  pub reason_key_inj :
      (id other : JobId) → dead_reason_key prefix id ≡ dead_reason_key prefix other → id ≡ other
  reason_key_inj id other e =
      append_cancel_right id other ":dead_reason"
        (job_key_inj (id ++ ":dead_reason") (other ++ ":dead_reason") e)

  pub pending-ne-dead : (queue other : String) → pending_key prefix queue ≢ dead_key prefix other
  pending-ne-dead queue other e =
      let same = append_cancel_left "q:" (queue ++ ":pending") (other ++ ":dead") (
        append_cancel_left prefix ("q:" ++ (queue ++ ":pending")) ("q:" ++ (other ++ ":dead")) e) in
      let ends : 103 ≡ 100 =
        sym (last-append queue ":pending" 0)
        ∙ ap (λ t. last t 0) same
        ∙ last-append other ":dead" 0 in
      omega (arith, ends)

  pub dead-ne-delayed : (queue : String) → dead_key prefix queue ≢ delayed_key prefix
  dead-ne-delayed queue =
      set_differs "q:" (queue ++ ":dead") "delayed" (λ e. omega (arith, e)) (λ e. omega (arith, e))

  pub idempotency-ne-lease : (key : String) → idempotency_key prefix key ≢ lease_key prefix
  idempotency-ne-lease key =
      set_differs "idempotency:" key "lease" (λ e. omega (arith, e)) (λ e. omega (arith, e))

  pub idempotency-ne-delayed : (key : String) → idempotency_key prefix key ≢ delayed_key prefix
  idempotency-ne-delayed key =
      set_differs "idempotency:" key "delayed" (λ e. omega (arith, e)) (λ e. omega (arith, e))

  pub idempotency-ne-dead :
      (key queue : String) → idempotency_key prefix key ≢ dead_key prefix queue
  idempotency-ne-dead key queue =
      keys_differ "idempotency:" "q:" key (queue ++ ":dead") (λ e. omega (arith, e))
        (λ e. omega (arith, e)) (λ e. omega (arith, e))

  pub lease-ne-delayed : lease_key prefix ≢ delayed_key prefix
  lease-ne-delayed e =
      let begins : 108 ≡ 100 = ap first (append_cancel_left prefix "lease" "delayed" e) in
      omega (arith, begins)
