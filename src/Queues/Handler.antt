-- ===== src/Queues/Handler.antt =====
-- internal/metrics/queue_handler.go: the handler of requests for the length of a queue, run to the end before the
-- next request; the gauges of Prometheus are left out. A time is a number, as `time.Since` measures it.
use shopware_operator.Prelude.{
  ℕ, ◌-◌, ◌<◌, String, ◌≡◌, refl, ap, ◌∙◌, Bool, true, false, not, Option, none, some, List, [],
  ◌∷◌, ◌==◌, if◌then◌else◌, ltb, inl, inr, Bool-cases, arith, eq_refl,
}
use shopware_operator.Prelude.Int.{ℤ}
use shopware_operator.Kube.{Reply, found, absent, failed, Result, ok, err}
use shopware_operator.Api.Store.{QueueTransportStats, Store}
use shopware_operator.Trigger.{NamespacedName, update}
use shopware_operator.Stores.{QueueStats}
use shopware_operator.Workloads.Services.{queue_path}
use shopware_operator.Queues.Paths.{IsPart, request_parts, request_parts_of}

-- queueCacheEntry
pub record CacheEntry : Type 0 where
  pub fetched_at : ℕ
  pub transports : List QueueTransportStats

-- QueueStats of package metrics: whether it can reach the pods, how long an entry is good for, and the
-- entries by store
pub record QueueServer : Type 0 where
  pub has_clients : Bool
  pub ttl : ℕ
  pub cache : NamespacedName → Option CacheEntry

abbrev pub key_of : Store → NamespacedName
key_of store = record { namespace = store.namespace; name = store.name }

-- `entry != nil && time.Since(entry.fetchedAt) < q.TTL`
abbrev pub is_fresh : ℕ → ℕ → Option CacheEntry → Bool
is_fresh ttl now none = false
is_fresh ttl now (some e) = ltb (now - e.fetched_at) ttl

abbrev entry_transports : Option CacheEntry → List QueueTransportStats
entry_transports none = []
entry_transports (some e) = e.transports

-- The end of transports, after the pod has been asked, at the time that it answers
abbrev pub fetched :
    ℕ
    → Store
    → Result (List QueueTransportStats × List String)
    → QueueServer
    → QueueServer × List QueueTransportStats
fetched later store (err e) q = (q, store.status.queue_state.transports)
fetched later store (ok (stats, uncountable)) q = (
  record q {
    cache =
        update (key_of store) (some (record { fetched_at = later; transports = stats })) q.cache;
  },
  stats,
)

-- transports: `now` is the time of the two looks at the entry, `later` that of the answer of the pod.
unfoldable pub transports :
    ℕ → ℕ → QueueStats → Store → QueueServer → QueueServer × List QueueTransportStats
transports now later stats store q =
    if not q.has_clients
    then (q, store.status.queue_state.transports)
    else if is_fresh q.ttl now (q.cache (key_of store))
    then (q, entry_transports (q.cache (key_of store)))
    else fetched later store (stats store) q

-- The answers, with their status codes 200, 400, 404 and 500; queueCountResponse is the first.
pub data Response : Type 0 where
  count_of : (store namespace queue : String) → ℤ → Response
  bad_request : String → Response
  missing : String → Response
  server_error : String → Response

-- The loop over the transports
abbrev pub answer : Store → String → List QueueTransportStats → Response
answer store queue [] = missing "queue not found for store"
answer store queue (t ∷ ts) =
    let rest = answer store queue ts in
    if t.name == queue then count_of store.name store.namespace queue t.count else rest

-- Handler on a request with a good path, at what the API server answers for the store
abbrev respond : ℕ → ℕ → QueueStats → String → Reply Store → QueueServer → QueueServer × Response
respond now later stats queue (absent e) q = (q, missing "store not found")
respond now later stats queue (failed e) q = (q, server_error e)
respond now later stats queue (found store) q =
    let (q', ts) = transports now later stats store q in (q', answer store queue ts)

abbrev respond_parts :
    ℕ
    → ℕ
    → QueueStats
    → (String → String → Reply Store)
    → Option (String × String × String)
    → QueueServer
    → QueueServer × Response
respond_parts now later stats get none q =
    (q, bad_request "expected path /api/queue/<namespace>/<store>/<queue>")
respond_parts now later stats get (some (namespace, name, queue)) q =
    respond now later stats queue (get namespace name) q

-- Handler
unfoldable pub serve :
    ℕ
    → ℕ
    → QueueStats
    → (String → String → Reply Store)
    → String
    → QueueServer
    → QueueServer × Response
unfolding request_parts transports
serve now later stats get path q = respond_parts now later stats get (request_parts path) q

-- The parts of the URL of a scaled object are good, and the API server has the store.
abbrev IsServed : (String → String → Reply Store) → Store → String → Type 0
IsServed get store queue =
    IsPart store.namespace
    × IsPart store.name
    × IsPart queue
    × (get store.namespace store.name ≡ found store)

serve-queue_path :
    (now later : ℕ) (stats : QueueStats) (get : String → String → Reply Store) (store : Store)
    (queue : String) (q : QueueServer)
    → IsServed get store queue
    → serve now later stats get (queue_path store.namespace store.name queue) q
      ≡ respond now later stats queue (found store) q
unfolding serve
serve-queue_path now later stats get store queue q (n, m, p, there) =
    ap (λ parts. respond_parts now later stats get parts q)
      (request_parts_of store.namespace store.name queue n m p)
    ∙ ap (λ reply. respond now later stats queue reply q) there

transports_stale :
    (now later : ℕ) (stats : QueueStats) (store : Store) (q : QueueServer)
    (ts : List QueueTransportStats) (uncountable : List String)
    → q.has_clients ≡ true
    → is_fresh q.ttl now (q.cache (key_of store)) ≡ false
    → stats store ≡ ok (ts, uncountable)
    → transports now later stats store q ≡ fetched later store (ok (ts, uncountable)) q
unfolding transports
transports_stale now later stats store q ts uncountable clients stale says =
    simp (clients, stale, says)

transports_young :
    (now later : ℕ) (stats : QueueStats) (store : Store) (q : QueueServer) (e : CacheEntry)
    → q.has_clients ≡ true
    → q.cache (key_of store) ≡ some e
    → now - e.fetched_at < q.ttl
    → transports now later stats store q ≡ (q, e.transports)
unfolding transports
transports_young now later stats store q e clients kept young =
    let fresh : ltb (now - e.fetched_at) q.ttl ≡ true = ground arith in simp (clients, kept, fresh)

transports_failed :
    (now later : ℕ) (stats : QueueStats) (store : Store) (q : QueueServer) (e : String)
    → is_fresh q.ttl now (q.cache (key_of store)) ≡ false
    → stats store ≡ err e
    → transports now later stats store q ≡ (q, store.status.queue_state.transports)
unfolding transports
transports_failed now later stats store q e stale fails = elim (Bool-cases q.has_clients) [
  | inl clients ↦ simp (clients, stale, fails)
  | inr nothing ↦ simp (nothing)
]

abbrev answered : Store → String → QueueServer × List QueueTransportStats → QueueServer × Response
answered store queue (q, ts) = (q, answer store queue ts)

-- A request for the path that the scaled object of a queue is given, when no entry is fresh and the pod
-- answers: it is answered from what the pod says, and so is each later request until the time to live is
-- over, though the pod may say something else by then.
pub serve_twice :
    (now later next later' : ℕ) (stats stats' : QueueStats) (get : String → String → Reply Store)
    (store : Store) (queue : String) (q : QueueServer) (ts : List QueueTransportStats)
    (uncountable : List String)
    → IsServed get store queue
    → q.has_clients ≡ true
    → is_fresh q.ttl now (q.cache (key_of store)) ≡ false
    → stats store ≡ ok (ts, uncountable)
    → (next - later < q.ttl)
    → let path = queue_path store.namespace store.name queue in
      let (q', first) = serve now later stats get path q in
      let (q'', second) = serve next later' stats' get path q' in
      (first ≡ answer store queue ts) × (second ≡ answer store queue ts) × (q'' ≡ q')
serve_twice now later next later' stats stats' get store queue q ts uncountable served clients stale
      says young =
    let first =
      serve-queue_path now later stats get store queue q served
      ∙ ap (answered store queue)
          (transports_stale now later stats store q ts uncountable clients stale says) in
    let q' = (fetched later store (ok (ts, uncountable)) q).0 in
    let kept : q'.cache (key_of store) ≡ some (record { fetched_at = later; transports = ts }) =
      rw (eq_refl store.namespace, eq_refl store.name) refl in
    let second =
      serve-queue_path next later' stats' get store queue q' served
      ∙ ap (answered store queue) (
          transports_young next later' stats' store q'
            (record { fetched_at = later; transports = ts }) clients kept young) in
    rw (first, second) (refl, refl, refl)

-- If the pod does not answer when no entry is fresh, a request for the path that the scaled object of a
-- queue is given is answered from the status of the store, and nothing is kept of the failure.
serve_falls_back :
    (now later : ℕ) (stats : QueueStats) (get : String → String → Reply Store) (store : Store)
    (queue e : String) (q : QueueServer)
    → IsServed get store queue
    → is_fresh q.ttl now (q.cache (key_of store)) ≡ false
    → stats store ≡ err e
    → serve now later stats get (queue_path store.namespace store.name queue) q
      ≡ (q, answer store queue store.status.queue_state.transports)
serve_falls_back now later stats get store queue e q served stale fails =
    serve-queue_path now later stats get store queue q served
    ∙ ap (answered store queue) (transports_failed now later stats store q e stale fails)
