-- ===== src/Deployments/Workers.antt =====
-- internal/deployment/worker.go: which worker deployments a store has, and their joint condition.
pub mod Worst
use shopware_operator.Prelude.{
  ℕ, String, Bool, true, false, ◌||◌, List, [], ◌∷◌, map, ltb, ◌==◌, if◌then◌else◌,
}
use shopware_operator.Prelude.Int.{ℤ, pos, ◌+ℤ◌, int32}
use shopware_operator.Prelude.Text.{concat}
use shopware_operator.Kube.{Reply, found, absent, failed, Deployment, Env, Result, ok, err}
use shopware_operator.Api.State.{DeploymentState, unknown, error, not_found, running, scaling}
use shopware_operator.Api.Container.{merge}
use shopware_operator.Api.Store.{QueueTransportStats, DeploymentCondition, Store}
use shopware_operator.Deployments.{condition_of, get_deployment_condition, ready_text}
use shopware_operator.Deployments.Names.{queue_worker_name}

-- WorkerQueues
unfoldable pub worker_queues : Store → List String
worker_queues store = map (λ (t : QueueTransportStats). t.name) store.status.queue_state.transports

-- appsv1.Deployment as WorkerDeployment builds it: its name, its replicas and the queues that its
-- containers consume.
pub record Worker : Type 0 where
  pub name : String
  pub replicas : ℤ
  pub queues : List String

abbrev pub single_queue : List String → String
single_queue [] = ""
single_queue (q ∷ []) = q
single_queue (q ∷ r ∷ qs) = ""

-- WorkerDeployment
unfoldable pub worker_deployment : Env → Store → List String → Worker
worker_deployment env store queues = record {
  name = queue_worker_name env store (single_queue queues);
  replicas =
      if store.spec.worker.enable_keda_scaling
      then store.spec.worker.min_replicas
      else (merge store.spec.container store.spec.worker_deployment_container).replicas;
  queues = queues;
}

abbrev pub has_empty : List String → Bool
has_empty [] = false
has_empty (q ∷ qs) = q == "" || has_empty qs

-- One deployment for each queue, or one for all of them.
abbrev pub split_workers : Env → Store → List String → List Worker
split_workers env store [] = []
split_workers env store (q ∷ qs) =
    if store.spec.worker.enable_keda_scaling
    then map (λ queue. worker_deployment env store (queue ∷ [])) (q ∷ qs)
    else worker_deployment env store (q ∷ qs) ∷ []

-- WorkerDeployments
unfoldable pub worker_deployments : Env → Store → Result (List Worker)
unfolding worker_queues
worker_deployments env store =
    if has_empty (worker_queues store)
    then err (concat ("empty queue name for store " ∷ store.namespace ∷ "/" ∷ store.name ∷ []))
    else ok (split_workers env store (worker_queues store))

-- `stateRank`
abbrev pub rank : DeploymentState → ℕ
rank running = 0
rank scaling = 1
rank unknown = 2
rank not_found = 3
rank error = 4

-- `con` in the loop of GetWorkerDeploymentCondition: its state and its message are read.
abbrev pub worker_condition : ℕ → Worker → Reply Deployment → DeploymentCondition
worker_condition now w (absent e) = condition_of 0 not_found "No deployment found" "" (pos 0)
worker_condition now w (failed e) =
    condition_of 0 error (concat ("error on client get: " ∷ e ∷ [])) "" (pos 0)
worker_condition now w (found d) = get_deployment_condition now d w.replicas

abbrev available_of : Reply Deployment → ℤ
available_of (found d) = d.available_replicas
available_of _ = pos 0

-- The variables of the loop.
pub record Totals : Type 0 where
  pub state : DeploymentState
  pub message : String
  pub available : ℤ
  pub store_replicas : ℤ

-- The body of the loop; the sums are int32.
unfoldable pub add_worker : Env → Store → Totals → Worker → Totals
add_worker env store t w =
    let reply = env.get_deployment store.namespace w.name in
    let con = worker_condition env.now w reply in
    let worse = ltb (rank t.state) (rank con.state) in
    record {
      state = if worse then con.state else t.state;
      message = if worse then concat (w.name ∷ ": " ∷ con.message ∷ []) else t.message;
      available = int32 (t.available +ℤ available_of reply);
      store_replicas = int32 (t.store_replicas +ℤ w.replicas);
    }

unfoldable pub add_workers : Env → Store → Totals → List Worker → Totals
unfolding add_worker
add_workers env store t [] = t
add_workers env store t (w ∷ ws) = add_workers env store (add_worker env store t w) ws

abbrev pub no_totals : Totals
no_totals = record {
  state = running;
  message = "All worker deployments are running";
  available = pos 0;
  store_replicas = pos 0;
}

abbrev waiting_message : Store → String
waiting_message store =
    let message : String =
      "No worker deployments, waiting for queue transports from the admin pod" in
    if store.status.queue_state.error == ""
    then message
    else concat (message ∷ ": " ∷ store.status.queue_state.error ∷ [])

abbrev totals_condition : ℕ → Totals → DeploymentCondition
totals_condition now t =
    condition_of now t.state t.message (ready_text t.available t.store_replicas) t.store_replicas

abbrev workers_condition : Env → Store → Result (List Worker) → DeploymentCondition
workers_condition env store (err e) = condition_of env.now error e "0/0" (pos 0)
workers_condition env store (ok []) =
    condition_of env.now running (waiting_message store) "0/0" (pos 0)
workers_condition env store (ok (w ∷ ws)) =
    totals_condition env.now (add_workers env store no_totals (w ∷ ws))

-- GetWorkerDeploymentCondition
unfoldable pub get_worker_deployment_condition : Env → Store → DeploymentCondition
unfolding worker_deployments
get_worker_deployment_condition env store =
    workers_condition env store (worker_deployments env store)
