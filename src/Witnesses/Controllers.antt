-- ===== src/Witnesses/Controllers.antt =====
-- Commands, debug instances and snapshots of the sample store, and its environment.
use shopware_operator.Prelude.{◌≡◌, refl, ◌⊎◌, false, none, some, [], ◌∷◌, ◌<◌, ◌≤◌, arith}
use shopware_operator.Prelude.Int.{pos}
use shopware_operator.Kube.{found, ok, Job, Env}
use shopware_operator.Api.State.{AppState}
use shopware_operator.Api.Environment.{operator_env, get_env}
use shopware_operator.Api.Environment.Overrides.{last_env}
use shopware_operator.Api.Environment.Features.{
  get_old_session_cache, get_session_cache, get_app_cache, get_lock, get_otel, get_blackfire,
  get_tideways, get_storage, get_worker, get_opensearch, get_fastly, get_fpm_configuration,
}
use shopware_operator.Api.Environment.Seen.{count_env, last-get_env}
use shopware_operator.Api.Store.{Store}
use shopware_operator.Samples.{env, env_of, pod_of, store_in, job, spec}
use shopware_operator.Jobs.{
  is_done, has_errors, is_job_container_done, scan_statuses, scan_pods, scan_job, scan_containers,
  fall_back,
}
use shopware_operator.Manager.Jobs.Evidence.{Backed}
use shopware_operator.Execs.{
  ExecState, StoreExec, command_container, command_progress, reconcile_exec_status, run_command,
  exec_add_condition,
}
use shopware_operator.Execs.Machine.{exec_done_is_Backed}
use shopware_operator.Execs.Cleanup.{exec_plan, deletion}
use shopware_operator.Execs.Cleanup.Deletion.{exec_deletion_iff}
use shopware_operator.Debugging.{
  DebugState, StoreDebugInstance, debug_add_condition, debug_verdict, run_debug_instance,
  reconcile_debug_status,
}
use shopware_operator.Debugging.Reconcile.{DebugReplies, instance, deletes, debug_reconcile}
use shopware_operator.Debugging.Reconcile.Cleaning.{error_not_woken, done_is_deleted}
use shopware_operator.Debugging.Waiting.{after_updates, waits_forever}
use shopware_operator.Snapshots.{
  SnapshotState, Snapshot, snapshot_container, reconcile_snapshot_status,
}
use shopware_operator.Snapshots.Outcome.{snapshot_ends}

-- A store with a variable of the user's own.
abbrev configured : Store
configured = record (store_in AppState.ready) {
  spec = record spec {
    container = record spec.container {
      extra_envs = record { name = "APP_SECRET"; value = "own"; value_from = none } ∷ [];
    };
  };
}

-- The operator sets the handler of sessions twice, and the user once.
abbrev own_handler : Store
own_handler = record configured {
  spec = record configured.spec {
    container = record configured.spec.container {
      extra_envs = record { name = "PHP_SESSION_HANDLER"; value = "own"; value_from = none } ∷ [];
    };
  };
}

last-get_env_example :
    last_env "PHP_SESSION_HANDLER" none (get_env "http://operator" own_handler)
    ≡ some (record { name = "PHP_SESSION_HANDLER"; value = "files"; value_from = none })
unfolding operator_env count_env get_old_session_cache get_session_cache get_app_cache get_lock
    get_otel get_blackfire get_tideways get_storage get_worker get_opensearch get_fastly
    get_fpm_configuration
last-get_env_example = last-get_env "http://operator" own_handler "PHP_SESSION_HANDLER"

abbrev exec_in : ExecState → StoreExec
exec_in state = record {
  namespace = "shops";
  name = "cache-clear";
  deletion_timestamp = none;
  spec = record {
    store_ref = "demo";
    cron_schedule = "";
    cleanup_period_successful_exec = pos 40;
    cleanup_period_error_exec = pos 0;
  };
  status = record {
    state = state;
    conditions =
        record {
          type = state;
          last_transition_time = 50;
          last_update_time = 50;
          message = "Command finished";
          reason = "";
          status = "Ready";
        }
        ∷ [];
  };
}

abbrev command_job : Job
command_job = record (job (pos 0)) { containers = "shopware-command" ∷ [] }

abbrev command_env : Env
command_env = record (env_of (pos 2) (pod_of "shopware-command" (pos 0) "Completed")) {
  get_job = λ namespace name. found command_job;
}

exec_done_is_Backed_example :
    ((s : Store) × (some (store_in AppState.ready) ≡ some s))
    × Backed command_env command_container (found command_job)
unfolding reconcile_exec_status run_command command_progress exec_add_condition
    is_job_container_done scan_statuses scan_pods scan_job scan_containers fall_back is_done
    has_errors
exec_done_is_Backed_example =
    exec_done_is_Backed command_env (some (store_in AppState.ready)) none
      (exec_in ExecState.running) (λ e. cc) refl

exec_deletion_iff_example :
    (exec_plan 100 (exec_in ExecState.done) (found (store_in AppState.ready))).ensures ≡ deletion
exec_deletion_iff_example =
    (exec_deletion_iff 100 (exec_in ExecState.done) (found (store_in AppState.ready))).1 (
      refl,
      refl,
      (40, 50, (refl, omega arith), ([], _, [], refl, refl, (λ e. cc), tt), omega arith),
    )

abbrev debug_in : DebugState → StoreDebugInstance
debug_in state = record {
  namespace = "shops";
  name = "debug";
  creation_timestamp = 90;
  deletion_timestamp = none;
  store_ref = "demo";
  duration = pos 3600;
  ignore_store_status = false;
  state = state;
  conditions = [];
}

-- The store is gone once and then back twice: the instance still waits.
waits_forever_example :
    (after_updates
      ((env, store_in AppState.ready, none) ∷ (env, store_in AppState.ready, none) ∷ [])
      (reconcile_debug_status env none none (debug_in DebugState.running))).state
    ≡ DebugState.wait
waits_forever_example =
    waits_forever env none (debug_in DebugState.running)
      ((env, store_in AppState.ready, none) ∷ (env, store_in AppState.ready, none) ∷ []) refl

abbrev debug_replies : DebugReplies
debug_replies = record {
  get_store = found (store_in AppState.ready);
  get_pod = found tt;
  service_changed = ok false;
  ensure = λ o. ok tt;
  delete = λ o. found tt;
}

error_not_woken_example :
    (50 < 3690
      → (debug_reconcile 50 60 (debug_in DebugState.error) debug_replies).requests ≡ []
        × ((debug_reconcile 50 60 (debug_in DebugState.error) debug_replies).requeue_after ≡ pos 0))
    × (3690 ≤ 50
        → (debug_reconcile 50 60 (debug_in DebugState.error) debug_replies).requests
          ≡ deletes instance ∷ [])
error_not_woken_example =
    error_not_woken (debug_in DebugState.error) debug_replies (store_in AppState.ready) 3600 refl
      refl (omega arith) refl refl refl 50 60

-- The cluster at the end of the duration of the instance
abbrev late_env : Env
late_env = record env { now = 4000 }

done_is_deleted_example :
    (debug_reconcile 4000 4001
      (reconcile_debug_status late_env
        (some (store_in AppState.ready))
        none
        (debug_in DebugState.running))
      debug_replies).requests
    ≡ deletes instance ∷ []
unfolding reconcile_debug_status run_debug_instance debug_verdict debug_add_condition
done_is_deleted_example =
    done_is_deleted late_env (store_in AppState.ready) none (debug_in DebugState.running) refl
      (λ e. cc) refl 4000 4001 debug_replies (omega arith)

abbrev snapshot : Snapshot
snapshot = record {
  namespace = "shops";
  name = "nightly";
  sub_command = "create";
  store_name_ref = "demo";
  status = record {
    state = SnapshotState.pending;
    completed_at = 0;
    message = "";
    conditions = [];
  };
}

snapshot_ends_example :
    let s = reconcile_snapshot_status env snapshot in
    ((s.state ≡ SnapshotState.succeeded)
      × (s.completed_at ≡ 100)
      × Backed env snapshot_container (found (job (pos 0))))
    ⊎ ((s.state ≡ SnapshotState.failed_snapshot) × (s.completed_at ≡ 100))
    ⊎ (((s.state ≡ SnapshotState.pending) ⊎ (s.state ≡ SnapshotState.running))
        × (s.completed_at ≡ 0))
snapshot_ends_example = snapshot_ends env snapshot
