-- ===== src/Witnesses/Queues.antt =====
-- Requests for the length of a queue of the sample store.
use Prim.Native.String.{count}
use shopware_operator.Prelude.{
  ℕ, suc, ◌≤◌, String, ◌≡◌, refl, ◌⊎◌, true, false, none, some, [], ◌∷◌, arith, ◌==◌, if◌then◌else◌,
}
use shopware_operator.Prelude.Text.{concat}
use shopware_operator.Prelude.Int.{pos}
use shopware_operator.Kube.{Reply, found, PodPhase, ok}
use shopware_operator.Api.State.{ready}
use shopware_operator.Api.Store.{QueueTransportStats, Store}
use shopware_operator.Samples.{env, store_in}
use shopware_operator.Stores.{QueueStats}
use shopware_operator.Workloads.Services.{queue_path, worker_scaled_object}
use shopware_operator.Queues.Paths.{
  IsPart, ReadsPlain, AllUnreserved, is_unreserved, path_of, trim_prefix, trim_prefix-append,
  request_parts, request_parts-trigger_url,
}
use shopware_operator.Queues.Fetching.Spacing.{Spaced, Reach-Spaced}
use shopware_operator.Queues.Handler.{QueueServer, answer, serve, serve_twice}
use shopware_operator.Queues.Fetching.{
  waiting, holding, fetching, answered, Slot, at, entry_of, tick, miss, acquire, ask, fetch, Reach,
  here, next, new_slot,
}
use shopware_operator.Queues.Documents.{
  Json, has_transports, extract_from, extract_stats_document, extract_stats_document_total,
}
use shopware_operator.Queues.Stats.{
  AdminPod, Pods, get_running_admin_pod, trim_space, truncate, transports_of,
}
use shopware_operator.Queues.Stats.Asking.{
  QueueStatsError, of_output, stats_error, select_stats_output, redact_queue_stats_output,
  get_admin_queue_stats,
}
use shopware_operator.Queues.Stats.Reading.{counts}
use shopware_operator.Queues.Stats.Redaction.{read_output, redact_keeps_output}

abbrev transport : ℕ → QueueTransportStats
transport n = record { name = "async"; count = pos n }

-- What the pod says at first and later
abbrev stats : ℕ → QueueStats
stats n s = ok (transport n ∷ [], [])

abbrev get : String → String → Reply Store
get namespace name = found (store_in ready)

abbrev server : QueueServer
server = record { has_clients = true; ttl = 10; cache = λ k. none }

shops-IsPart : IsPart "shops"
shops-IsPart = (refl, ground arith)

demo-IsPart : IsPart "demo"
demo-IsPart = (refl, ground arith)

async-IsPart : IsPart "async"
async-IsPart = (refl, ground arith)

-- A server that reads what stands after the base
reads_path : ReadsPlain (trim_prefix "http://operator") "http://operator"
reads_path ps plain = trim_prefix-append "http://operator" (path_of ps)

request_parts-trigger_url_example :
    request_parts (
      trim_prefix "http://operator"
        (worker_scaled_object env "http://operator" (store_in ready) "async").trigger_url)
    ≡ some ("shops", "demo", "async")
unfolding AllUnreserved is_unreserved
request_parts-trigger_url_example =
    request_parts-trigger_url (trim_prefix "http://operator") env "http://operator" (store_in ready)
      "async" reads_path (refl, refl, refl, ground arith) (refl, refl, refl, ground arith)
      (refl, refl, refl, ground arith)

serve_twice_example :
    let path = queue_path "shops" "demo" "async" in
    let (q', first) = serve 3 5 (stats 7) get path server in
    let (q'', second) = serve 12 13 (stats 8) get path q' in
    (first ≡ answer (store_in ready) "async" (transport 7 ∷ []))
    × (second ≡ answer (store_in ready) "async" (transport 7 ∷ []))
    × (q'' ≡ q')
serve_twice_example =
    serve_twice 3 5 12 13 (stats 7) (stats 8) get (store_in ready) "async" server (transport 7 ∷ [])
      [] (shops-IsPart, demo-IsPart, async-IsPart, refl) refl refl refl (omega arith)

-- Two threads, one after the other, the second ten units of time later
abbrev asking : ℕ → Slot → Slot
asking t s = record s {
  threads = at t fetching (at t holding (at t waiting s.threads));
  lock = some t;
}

abbrev first_fetch : Slot
first_fetch =
    let s = asking 0 (new_slot 5) in
    record s {
      threads = at 0 (answered (transport 7 ∷ [])) s.threads;
      lock = none;
      entry = some (entry_of 5 (transport 7 ∷ []));
      fetches = 5 ∷ [];
    }

abbrev second_fetch : Slot
second_fetch =
    let s = asking 1 (record first_fetch { now = 15 }) in
    record s {
      threads = at 1 (answered (transport 8 ∷ [])) s.threads;
      lock = none;
      entry = some (entry_of 15 (transport 8 ∷ []));
      fetches = 15 ∷ 5 ∷ [];
    }

first_reached : Reach 10 [] (new_slot 5) first_fetch
first_reached =
    next (next (next (next here (miss _ 0 refl refl)) (acquire _ 0 refl refl)) (ask _ 0 refl refl))
      (fetch _ 0 (transport 7 ∷ []) refl)

second_reached : Reach 10 [] (new_slot 5) second_fetch
second_reached =
    next
      (next
        (next (next (next first_reached (tick _ 10)) (miss _ 1 refl refl)) (acquire _ 1 refl refl))
        (ask _ 1 refl refl))
      (fetch _ 1 (transport 8 ∷ []) refl)

Reach-Spaced_example :
    Spaced 10 second_fetch.fetches
    × ((t u : ℕ) → second_fetch.threads t ≡ fetching → second_fetch.threads u ≡ fetching → t ≡ u)
Reach-Spaced_example = Reach-Spaced 10 [] 5 second_reached

-- A decoder that knows little
abbrev json : Json
json = record {
  decode = λ s. if s == "{}" then some ("{}", 2) else none;
  probe = λ s. none;
  wrapper = λ s. none;
  items = λ s. none;
  objects = λ s. none;
  counts = λ s. if s == "counts" then some (("b", pos 2) ∷ ("a", pos 1) ∷ []) else none;
  is_space_rune = λ c. false;
}

json_advances :
    (s document : String) (offset : ℕ) → json.decode s ≡ some (document, offset) → 1 ≤ offset
json_advances s document offset e = ground arith

extract_stats_document_total_example :
    (extract_from json "PHP {} counts" (suc (count "PHP {} counts")) "PHP {} counts"
      ≡ some (extract_stats_document json "PHP {} counts"))
    × ((extract_stats_document json "PHP {} counts" ≡ "PHP {} counts")
        ⊎ (has_transports json (extract_stats_document json "PHP {} counts") ≡ true))
extract_stats_document_total_example =
    extract_stats_document_total json json_advances "PHP {} counts"

abbrev admin_pod : AdminPod
admin_pod = record {
  namespace = "shops";
  name = "admin-1";
  phase = PodPhase.running;
  is_deleted = false;
  conditions = ("Ready", "True") ∷ [];
}

abbrev pods : Pods
pods = record {
  get_deployment = λ namespace name. found ("shops", "app=admin");
  as_selector = λ s. found s;
  list_pods = λ namespace selector. found (admin_pod ∷ []);
  exec = λ namespace pod container command. ("password=geheim", "", none);
}

redact_keeps_output_example :
    (e : QueueStatsError) × (get_admin_queue_stats pods json (store_in ready)
      ≡ stats_error (of_output e))
    × (redact_queue_stats_output env (of_output e)
        ≡ concat (
            "unexpected messenger:stats output, no known json shape: "
            ∷ truncate (transports_of json (read_output json "password=geheim" "")).0 500
            ∷ " (pod: "
            ∷ "admin-1"
            ∷ ", container: "
            ∷ "shopware-admin"
            ∷ ", command: "
            ∷ env.quote "php bin/console messenger:stats --format=json --no-debug"
            ∷ ", stdout and stderr omitted)"
            ∷ []))
unfolding get_running_admin_pod select_stats_output trim_space extract_stats_document
redact_keeps_output_example =
    redact_keeps_output env pods json (store_in ready) admin_pod "password=geheim" "" refl refl refl
      (refl, refl, refl)
