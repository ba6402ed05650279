-- ===== src/Tests/Sending.antt =====
-- The app at concrete inputs, over the in-process broker.
use capivara_rs.Memory.{enqueue}
use capivara_rs.Prelude.{◌≤◌, ◌≡◌, refl, some, List, [], ◌∷◌, string_discrete, trim_is_empty}
use capivara_rs.Prelude.HashMap
use capivara_rs.Error.{ok, err, task_not_registered}
use capivara_rs.Retry.{default_policy}
use capivara_rs.App.{App, new, send, worker_of, send_with_idempotency_key}
use capivara_rs.App.Settings.{Setting, max_attempts, concurrency, configure, worker_usable}
use capivara_rs.App.Producer.{sends, after, send_again}
use capivara_rs.Local.{Local, memory_broker, memory_results}
use capivara_rs.Tests.Process.{add, tasks, local}
use capivara_rs.Tests.Calls.{handed_over}

abbrev app : App Local
app = record {
  registry = tasks;
  broker = memory_broker;
  results = some memory_results;
  default_queue = "default";
  lease = 30;
  retry_policy = default_policy;
  concurrency = 4;
}

-- An app without tasks sends nothing.
unregistered : (send (new memory_broker) add (1 ∷ []) "b" local).0 ≡ err (task_not_registered "add")
unfolding send HashMap.contains_key HashMap.get new
unregistered = refl

abbrev lowest_settings : List (Setting Local)
lowest_settings = max_attempts 0 ∷ concurrency 0 ∷ []

worker_usable_example :
    (1 ≤ (worker_of (configure lowest_settings (new memory_broker))).retry_policy.max_attempts)
    × (1 ≤ (worker_of (configure lowest_settings (new memory_broker))).concurrency)
worker_usable_example = worker_usable memory_broker lowest_settings

sent_b : (sends app add (1 ∷ []) "order-42" "b" local).0 ≡ ok "b"
unfolding HashMap.get send_with_idempotency_key trim_is_empty HashMap.contains_key string_discrete
    enqueue
sent_b = refl

send_again_example :
    sends app add
      (2 ∷ [])
      "order-42"
      "c"
      (after handed_over (sends app add (1 ∷ []) "order-42" "b" local).1)
    ≡ (ok "b", after handed_over (sends app add (1 ∷ []) "order-42" "b" local).1)
unfolding HashMap.get string_discrete trim_is_empty HashMap.contains_key
send_again_example =
    send_again app app add add (1 ∷ []) (2 ∷ []) "order-42" "b" "c" "b" (2 ∷ []) handed_over local
      sent_b refl refl refl
