-- ===== src/Lib.antt =====
-- The Shopware operator: how it brings a Store resource from its creation to a running shop, as the
-- code of internal/manager, internal/deployment, internal/job, internal/trigger, internal/controller,
-- internal/k8s, internal/secret and api/v1 does it.
--
-- Api models the resource (api/v1/store.go, api/v1/store_status.go): the states, the specification and
-- its merge, the list of conditions, and in Environment the variables of its containers
-- (api/v1/store_env.go). Services models the tests of the database and of the object storage
-- (internal/util/db.go, internal/util/s3.go), Jobs the state of a job (internal/job/util.go),
-- Deployments the conditions, names and images of deployments (internal/deployment). Manager models
-- the state machine: Base what the managers share (internal/manager/base/base.go), Wait, Jobs and
-- Serving the state handlers, Reconcile their choice by state (internal/manager/manager.go), Resources
-- what a reconcile writes (internal/manager/base/resources.go and the resource handlers). Stores models
-- one reconcile of a store as a whole (internal/controller/store_controller.go,
-- internal/manager/status.go). Workloads models the objects that a store is made of before they are
-- written: the deployments, services, disruption budgets, scaled objects, the autoscaler and the
-- setup and migration jobs (internal/deployment, internal/service, internal/pdb, internal/hpa, internal/job) with their labels, annotations,
-- environments and security contexts (internal/util). Queues models how the lengths of the queues are
-- asked for, read, cached and served (internal/deployment/queue.go, internal/metrics/queue_handler.go).
-- Trigger models the recorder of causes (internal/trigger). Secrets models the secret of a store
-- (internal/secret/secret.go), Cluster how an object is compared with the deployed one and brought up to
-- date (internal/k8s/utils.go). Execs, Debugging and Snapshots model the other resources: commands, debug
-- instances and snapshots, and what their controllers make of their status (internal/controller). Kube
-- has the objects of the API server and, in the record Env, all that the code asks of the world: the API
-- server, the clock, the database, the object storage, hashes and quoting are arguments of the
-- definitions; Cluster, Secrets, Queues and Debugging/Reconcile have such records of their own. Samples
-- and Witnesses run the definitions on a small cluster.
--
-- A handler is a function from the store to the store, the next state and the events; what is written
-- to the cluster is a list of requests. Loops are structural recursion; only the printing of numbers
-- uses fuel, one more than the number, which has at most as many digits, as does the search for a
-- document in output, one more than its characters, and the wait for a deletion counts down from the
-- bound that the code has. The builders of deployments give the store back, since they write to maps
-- that it shares with their caller; the cache of the queue lengths is a function for requests one after
-- the other and a step relation for requests at once. A nil slice is the empty list except where the code
-- tells them apart. A map is a list of entries of which the first of a key counts. Text is a sequence of
-- characters, and its length is counted in bytes where the code does so.
--
-- Not modelled: the building of ingresses, routes, cron jobs, the jobs of commands and snapshots and the pods
-- and services of debug instances; Manager/Resources has all objects that it writes as parameters. Further the transfer of snapshots,
-- which runs programs and clients of other services, the webhook, logging, tracing and the gauges of
-- Prometheus, and generated code.
pub mod Prelude
pub mod Kube
pub mod Api
pub mod Services
pub mod Jobs
pub mod Deployments
pub mod Manager
pub mod Trigger
pub mod Cluster
pub mod Secrets
pub mod Stores
pub mod Execs
pub mod Debugging
pub mod Snapshots
pub mod Workloads
pub mod Queues
mod Samples
mod Witnesses
