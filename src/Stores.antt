-- ===== src/Stores.antt =====
-- internal/controller/store_controller.go, internal/manager/status.go and internal/manager/queue.go: one
-- reconcile of a store, from its request to the time of the next one.
pub mod Requeue
pub mod Watched
use shopware_operator.Prelude.{
  ℕ, ◌*◌, ◌^◌, String, Bool, true, false, not, ◌&&◌, ◌||◌, Option, none, some, List, [], ◌∷◌, ◌==◌,
  if◌then◌else◌,
}
use shopware_operator.Prelude.Int.{ℤ, pos}
use shopware_operator.Kube.{Reply, found, absent, failed, Env, Result, ok, err}
use shopware_operator.Api.State.{
  ready, DeploymentState, running, not_found, same_deployment_state, state_text,
}
use shopware_operator.Api.Store.{
  Store, StoreCondition, QueueTransportStats, QueueCondition, store_add_condition, store_is_state,
  store_last_condition,
}
use shopware_operator.Deployments.{
  get_admin_deployment_condition, get_storefront_deployment_condition,
}
use shopware_operator.Deployments.Workers.{get_worker_deployment_condition}
use shopware_operator.Manager.Base.{Base, error_status}
use shopware_operator.Manager.Reconcile.{Step, reconcile_state}
use shopware_operator.Manager.Resources.{reconcile_resources}
use shopware_operator.Manager.Resources.Steps.{World, Effects}
use shopware_operator.Trigger.{NamespacedName, Trigger, Recorder, add, drain, forget, finish}

-- The transports with their lengths and those that can not be counted, as the admin pod tells them
-- (internal/deployment/queue.go), which is a parameter here.
abbrev pub QueueStats : Type 0
QueueStats = Store → Result (List QueueTransportStats × List String)

abbrev queue_state_of :
    ℕ → QueueCondition → Result (List QueueTransportStats × List String) → QueueCondition
queue_state_of now old (err e) = record old { last_update_time = now; error = e }
queue_state_of now old (ok (stats, uncountable)) = record {
  last_update_time = now;
  error = "";
  transports = stats;
  uncountable_transports = uncountable;
}

-- UpdateQueueState
unfoldable pub update_queue_state : Base → Env → QueueStats → Store → Store
update_queue_state b env stats s =
    if not b.has_clients
    then s
    else if not (store_is_state s (ready ∷ []))
    then s
    else if not (same_deployment_state s.status.admin_state.state running)
    then s
    else record s {
      status = record s.status {
        queue_state = queue_state_of env.now s.status.queue_state (stats s);
      };
    }

-- The condition of an error
abbrev note : ℕ → String → Option String → Store → Store
note now reason none s = s
note now reason (some e) s =
    store_add_condition
      (record {
        type = state_text s.status.state;
        last_transition_time = 0;
        last_update_time = now;
        message = e;
        reason = reason;
        status = error_status;
      })
      s

abbrev error_of : Result (Unit {0}) → Option String
error_of (ok _) = none
error_of (err e) = some e

-- `store.Status.Message = store.Status.GetLastCondition().Message`, and the state of the admin deployment
abbrev with_message : Env → Store → Store
with_message env s = record s {
  status = record s.status {
    message = (store_last_condition s).message;
    admin_state = get_admin_deployment_condition env s;
  };
}

abbrev with_deployments : Env → Store → Store
with_deployments env s = record s {
  status = record s.status {
    worker_state = get_worker_deployment_condition env s;
    storefront_state = get_storefront_deployment_condition env s;
  };
}

abbrev pub is_deleted : Option ℕ → Bool
is_deleted none = false
is_deleted (some t) = true

-- ReconcileStatus: the store with the status that it writes
unfoldable pub reconcile_status : Base → Env → QueueStats → Option String → Store → Store
reconcile_status b env stats reconcile_error s =
    let step = reconcile_state b env s in
    let noted =
      note env.now "ReconcileError" reconcile_error
        (note env.now "StatusError" (error_of step.outcome) step.store) in
    if is_deleted s.deletion_timestamp
    then s
    else with_deployments env (update_queue_state b env stats (with_message env noted))

-- What a reconcile comes to: the store, if its status was updated, when it is called again, in
-- nanoseconds, and the reason of that.
pub record Reconciled : Type 0 where
  pub store : Option Store
  pub requeue_after : ℤ
  pub reason : String

abbrev pub short_requeue : ℤ
short_requeue = pos (5 * 10 ^ 9)

abbrev api_failed_requeue : ℤ
api_failed_requeue = pos (20 * 10 ^ 9)

abbrev pub long_requeue : ℤ
long_requeue = pos (15 * 60 * 10 ^ 9)

abbrev comes_to : Option Store → ℤ → String → Reconciled
comes_to store after reason = record { store = store; requeue_after = after; reason = reason }

abbrev pub is_empty {ℓ} : {A : Type ℓ} → List A → Bool
is_empty [] = true
is_empty (x ∷ xs) = false

-- The end of Reconcile, on the store with its new status
abbrev pub schedule : Store → Reconciled
schedule s =
    if not (store_is_state s (ready ∷ []))
    then comes_to (some s) short_requeue "store is not ready yet"
    else if is_empty s.status.queue_state.transports
    then comes_to (some s) short_requeue "worker queues are not known yet"
    else if same_deployment_state s.status.worker_state.state not_found
    then comes_to (some s) short_requeue "worker deployments are not created yet"
    else comes_to (some s) long_requeue "store is ready, periodic long requeue"

abbrev after_resources : Base → Env → QueueStats → Store → Option String → Reconciled
after_resources b env stats s (some e) =
    comes_to none short_requeue "reconciling resources failed, short requeue"
after_resources b env stats s none = schedule (reconcile_status b env stats none s)

abbrev reconcile_reply : World → Base → Env → QueueStats → Reply Store → Reconciled
reconcile_reply w b env stats (absent e) = comes_to none (pos 0) "store not found, no requeue"
reconcile_reply w b env stats (failed e) =
    comes_to none api_failed_requeue "getting store failed, short requeue"
reconcile_reply w b env stats (found s) =
    if is_deleted s.deletion_timestamp
    then comes_to none short_requeue "store is being deleted"
    else after_resources b env stats s (reconcile_resources w b s).error

abbrev forget_absent : NamespacedName → Reply Store → Recorder → Recorder
forget_absent key (absent e) r = forget key r
forget_absent key (failed e) r = r
forget_absent key (found s) r = r

-- Reconcile, on what the API server answers for the store of the key, with the recorder of the triggers.
-- It never returns an error.
unfoldable pub reconcile :
    (ℤ → String)
    → World
    → Base
    → Env
    → QueueStats
    → NamespacedName
    → Reply Store
    → Recorder
    → Reconciled × Recorder
reconcile show_duration w b env stats key reply r =
    let result = reconcile_reply w b env stats reply in
    let drained = (drain show_duration env.now key r).1 in
    (
      result,
      finish env.now key result.reason result.requeue_after false (forget_absent key reply drained),
    )

-- The references by which findStoreForReconcile takes a secret for one of the store
abbrev pub refers_to : String → Store → Bool
refers_to name s =
    s.spec.database.password_secret_ref.name == name
    || s.spec.database.tls_secret_name == name
    || s.spec.opensearch_spec.password_secret_ref.name == name
    || s.spec.fastly.token_ref.name == name
    || s.spec.admin_credentials.username_secret_ref.name == name
    || s.spec.admin_credentials.password_secret_ref.name == name

abbrev pub key_of : Store → NamespacedName
key_of s = record { namespace = s.namespace; name = s.name }

abbrev pub secret_trigger : String → Trigger
secret_trigger name = record {
  source = "ReferencedSecret";
  event = "mapped";
  name = name;
  reason = "referenced db/opensearch/fastly/admin secret changed";
  changes = [];
  at = 0;
}

-- The loop over the stores, with the recorder
abbrev pub map_secret : ℕ → String → String → List Store → Recorder → List NamespacedName × Recorder
map_secret now namespace name [] r = ([], r)
map_secret now namespace name (s ∷ ss) r =
    if not (s.namespace == namespace)
    then map_secret now namespace name ss r
    else if refers_to name s
    then (let rest =
          map_secret now namespace name ss (add now (key_of s) (secret_trigger name) r) in
        (key_of s ∷ rest.0, rest.1))
    else map_secret now namespace name ss r

-- findStoreForReconcile, on the list of all stores
unfoldable pub find_store_for_reconcile :
    ℕ → Result (List Store) → String → String → Recorder → List NamespacedName × Recorder
find_store_for_reconcile now (err e) namespace name r = ([], r)
find_store_for_reconcile now (ok stores) namespace name r = map_secret now namespace name stores r
