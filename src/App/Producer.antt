-- ===== src/App/Producer.antt =====
-- Sending with an idempotency key, over the in-process broker.
use capivara_rs.Prelude.{
  String, true, false, some, List, ◌≡◌, refl, sym, ◌∙◌, ap, inl, inr, Bool-cases, trim_is_empty,
}
use capivara_rs.Error.{empty_idempotency_key, task_not_registered, serialize, Result, ok, err}
use capivara_rs.Job.{JobId, Bytes, Job, new_job}
use capivara_rs.Registry
use capivara_rs.Registry.{Task, Serde, value, malformed}
use capivara_rs.Memory.{enqueue}
use capivara_rs.Memory.History.{Call, run}
use capivara_rs.Memory.History.Permanence.{enqueue_again}
use capivara_rs.Local.{Local, memory_broker, on_inner}
use capivara_rs.App.{App, send_payload, send_inner, send_with_idempotency_key}

module _ (app : App Local) (T : Task Local) (args : T.Args) (key : String) (id : JobId) where
  abbrev pub on_memory : App Local
  on_memory = record app { broker = memory_broker }

  abbrev pub job_of : Bytes → Job
  job_of payload = record (new_job id T.name payload) {
    queue = app.default_queue;
    idempotency_key = some key;
  }

  abbrev pub sends : Local → Result JobId × Local
  sends = send_with_idempotency_key on_memory T args key id

  sends_lem :
      (payload : Bytes) (s : Local)
      → trim_is_empty key ≡ false
      → Registry.contains T.name app.registry ≡ true
      → T.args_to_vec args ≡ value payload
      → sends s ≡ on_inner (enqueue (job_of payload)) s
  unfolding send_with_idempotency_key send_inner send_payload
  sends_lem payload s b c e = rw (b, c, e) refl

  blank_refused : (s : Local) → trim_is_empty key ≡ true → (sends s).0 ≡ err empty_idempotency_key
  unfolding send_with_idempotency_key
  blank_refused s b = rw b refl

  unregistered_refused :
      (s : Local)
      → trim_is_empty key ≡ false
      → Registry.contains T.name app.registry ≡ false
      → (sends s).0 ≡ err (task_not_registered T.name)
  unfolding send_with_idempotency_key send_inner
  unregistered_refused s b c = rw (b, c) refl

  malformed_refused :
      (message : String) (s : Local)
      → trim_is_empty key ≡ false
      → Registry.contains T.name app.registry ≡ true
      → T.args_to_vec args ≡ malformed message
      → (sends s).0 ≡ err (serialize message)
  unfolding send_with_idempotency_key send_inner send_payload
  malformed_refused message s b c e = rw (b, c, e) refl

  accepted_value :
      (i : JobId) (s : Local) (v : Serde Bytes)
      → (sends s).0 ≡ ok i
      → trim_is_empty key ≡ false
      → Registry.contains T.name app.registry ≡ true
      → T.args_to_vec args ≡ v
      → (payload : Bytes) × (sends s ≡ on_inner (enqueue (job_of payload)) s)
  accepted_value i s (value payload) h b c e = (payload, sends_lem payload s b c e)
  accepted_value i s (malformed message) h b c e =
      absurd (cc (h, malformed_refused message s b c e))

  -- What was sent without an error was enqueued.
  accepted :
      (i : JobId) (s : Local)
      → (sends s).0 ≡ ok i
      → (payload : Bytes) × (sends s ≡ on_inner (enqueue (job_of payload)) s)
  accepted i s h = elim (Bool-cases (trim_is_empty key)) [
    | inl b ↦ absurd (cc (h, blank_refused s b))
    | inr b ↦ elim (Bool-cases (Registry.contains T.name app.registry)) [
      | inl c ↦ accepted_value i s (T.args_to_vec args) h b c refl
      | inr c ↦ absurd (cc (h, unregistered_refused s b c))
    ]
  ]

-- The broker of the process after more calls on it.
abbrev pub after : List Call → Local → Local
after calls s = record s { inner = run calls s.inner }

-- Over the in-process broker: once a job was sent with a key, a later send with that key, which is
-- not blank, of whatever registered task whose arguments serialize, and from whatever app on the
-- same broker, returns the id that the first returned and changes nothing, whatever calls the
-- broker got between the two.
pub send_again :
    (app again : App Local) (T U : Task Local) (args : T.Args) (others : U.Args) (key : String)
    (first second i : JobId) (payload : Bytes) (calls : List Call) (s : Local)
    → (sends app T args key first s).0 ≡ ok i
    → trim_is_empty key ≡ false
    → Registry.contains U.name again.registry ≡ true
    → U.args_to_vec others ≡ value payload
    → sends again U others key second (after calls (sends app T args key first s).1)
      ≡ (ok i, after calls (sends app T args key first s).1)
send_again app again T U args others key first second i payload calls s h b c e =
    let (body, sent) = accepted app T args key first i s h in
    let one : Job = job_of app T args key first body in
    let two : Job = job_of again U others key second payload in
    let took : (enqueue one s.inner).0 ≡ ok i = sym (ap (λ r. r.0) sent) ∙ h in
    let same = enqueue_again one two key calls s.inner i refl refl took in
    rw sent (
      sends_lem again U others key second payload (after calls (on_inner (enqueue one) s).1) b c e
      ∙ ap (λ r. (r.0, record s { inner = r.1 })) same)
