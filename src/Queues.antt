-- ===== src/Queues.antt =====
-- internal/metrics/queue_handler.go and internal/deployment/queue.go: the lengths of a store's queues, from the
-- pod that is asked for them to the answer that the scaler reads. Paths splits the path of a request,
-- Handler answers it from the cache, Fetching is the cache under several requests at once, and Stats and
-- Documents read the output of the pod.
pub mod Paths
pub mod Handler
pub mod Fetching
pub mod Documents
pub mod Stats
