-- ===== src/Manager/Jobs.antt =====
-- internal/manager/setup/setup.go and internal/manager/migration/migration.go: the two states in
-- which the operator waits for a job. Both handlers ask for the job and for the state of its
-- container in the same way; they differ in what they do with the answer.
pub mod Evidence
use shopware_operator.Prelude.{
  ℕ, String, not, ◌&&◌, Option, none, some, List, [], ◌∷◌, if◌then◌else◌,
}
use shopware_operator.Prelude.Int.{ℤ}
use shopware_operator.Prelude.Text.{concat, show}
use shopware_operator.Kube.{Reply, found, absent, failed, Job, Env, Result, ok, err}
use shopware_operator.Api.State.{
  AppState, setup, setup_error, initializing, migration, migration_error,
}
use shopware_operator.Api.Store.{StoreCondition, Store, store_add_condition}
use shopware_operator.Jobs.{JobState, has_errors, is_done, is_job_container_done}
use shopware_operator.Manager.Base.{
  Base, RecordedEvent, eventf, Handled, error_status, ready_status,
}

-- What the handler has learnt about the job.
pub data Progress : Type 0 where
  -- the job is not there
  missing : Progress
  -- the request for the job, or the check of its container, failed
  unreadable : String → Progress
  -- the container is done, with an exit code that is not 0
  broken : Job → ℤ → Progress
  finished : Job → Progress
  waiting : Job → Progress

abbrev pub progress_of : Job → Result JobState → Progress
progress_of j (err e) = unreadable e
progress_of j (ok s) =
    if is_done s && has_errors s
    then broken j s.exit_code
    else if is_done s && not (has_errors s)
    then finished j
    else waiting j

abbrev pub reply_progress : Env → String → Reply Job → Progress
reply_progress env container (absent e) = missing
reply_progress env container (failed e) = unreadable e
reply_progress env container (found j) =
    progress_of j (is_job_container_done env (some j) container)

abbrev pub setup_container : String
setup_container = "shopware-setup"

abbrev pub migration_container : String
migration_container = "shopware-migration"

-- GetSetupJobName
unfoldable pub setup_job_name : Store → String
setup_job_name s = concat (s.name ∷ "-setup" ∷ [])

-- MigrateJobName with GetMigrateHash
unfoldable pub migrate_job_name : Env → Store → String
migrate_job_name env s = concat (s.name ∷ "-migrate-" ∷ env.md5_hex s.status.current_image_tag ∷ [])

unfoldable pub setup_progress : Env → Store → Progress
unfolding setup_job_name
setup_progress env s =
    reply_progress env setup_container (env.get_job s.namespace (setup_job_name s))

unfoldable pub migration_progress : Env → Store → Progress
unfolding migrate_job_name
migration_progress env s =
    reply_progress env migration_container (env.get_job s.namespace (migrate_job_name env s))

-- A condition with the fields that the handlers set.
abbrev pub job_condition : String → ℕ → ℕ → String → String → String → StoreCondition
job_condition type transition now message reason status = record {
  type = type;
  last_transition_time = transition;
  last_update_time = now;
  message = message;
  reason = reason;
  status = status;
}

abbrev pub exit_reason : ℤ → String
exit_reason code = concat ("Exit code: " ∷ show code ∷ [])

-- The condition that the deferred call of the setup handler adds, ...
abbrev setup_condition : ℕ → Progress → StoreCondition
setup_condition now missing = job_condition "setup" 0 now "Waiting for setup job to finish" "" ""
setup_condition now (unreadable e) =
    job_condition "setup" 0 now "Waiting for setup job to finish" e error_status
setup_condition now (broken j code) =
    job_condition "setup_error" now now "Setup is Done but has Errors. Check logs for more details"
      (exit_reason code) error_status
setup_condition now (finished j) = job_condition "setup" now now "Setup finished" "" ready_status
setup_condition now (waiting j) =
    job_condition "setup" 0 now
      (concat (
        "Waiting for setup job to finish (Notice sidecars are counted). Active jobs: "
        ∷ show j.active
        ∷ ", Failed jobs: "
        ∷ show j.failed_pods
        ∷ []))
      "" ""

-- ... and the state that it returns.
abbrev pub setup_next : Progress → AppState
setup_next (broken j code) = setup_error
setup_next (finished j) = initializing
setup_next _ = setup

-- setup.StateHandler
unfoldable pub setup_handler : Base → Env → Store → Handled
setup_handler base env s =
    let p = setup_progress env s in
    record {
      store = store_add_condition (setup_condition env.now p) s;
      next = setup_next p;
      events = [];
    }

-- migrationDuration
abbrev job_end : ℕ → Option ℕ → ℕ
job_end now none = now
job_end now (some t) = t

abbrev migration_duration : Env → Job → String
migration_duration env j = elim j.start_time [
  | none ↦ ""
  | some start ↦
      concat
        (" (Duration " ∷ env.show_duration start (job_end env.now j.completion_time) ∷ ")" ∷ [])
]

abbrev migration_condition : Env → Progress → StoreCondition
migration_condition env missing =
    job_condition "migrating" 0 env.now "Waiting for migration job to finish" "" ""
migration_condition env (unreadable e) =
    job_condition "migrating" 0 env.now "Waiting for migration job to finish" e error_status
migration_condition env (broken j code) =
    job_condition "migrating_error" env.now env.now
      (concat (
        "Migration is Done but has Errors. Check logs for more details."
        ∷ migration_duration env j
        ∷ []))
      (exit_reason code) error_status
migration_condition env (finished j) =
    job_condition "migrating" env.now env.now
      (concat ("Migration finished." ∷ migration_duration env j ∷ [])) "" ready_status
migration_condition env (waiting j) =
    job_condition "migrating" 0 env.now
      (concat (
        "Waiting for migration job to finish. Active jobs: "
        ∷ show j.active
        ∷ ", Failed jobs: "
        ∷ show j.failed_pods
        ∷ []))
      "" ""

abbrev pub migration_next : Progress → AppState
migration_next (broken j code) = migration_error
migration_next (finished j) = initializing
migration_next _ = migration

-- `store.Status.CurrentImageTag = image`
abbrev pub set_image : String → Store → Store
set_image image s = record s { status = record s.status { current_image_tag = image } }

-- What the handler does when the migration is finished, before the deferred call.
abbrev pub migrated : Progress → Store → Store
migrated (finished j) s = set_image s.spec.container.image s
migrated _ s = s

abbrev migration_events : Base → Progress → Store → List RecordedEvent
migration_events base (finished j) s = eventf base "Finish Migration" (
    concat (
      "Migration in Store " ∷ s.namespace ∷ "/" ∷ s.name ∷ " finished. From tag "
      ∷ s.status.current_image_tag ∷ " to " ∷ s.spec.container.image ∷ " " ∷ []))
migration_events base _ s = []

-- migration.StateHandler
unfoldable pub migration_handler : Base → Env → Store → Handled
migration_handler base env s =
    let p = migration_progress env s in
    record {
      store = store_add_condition (migration_condition env p) (migrated p s);
      next = migration_next p;
      events = migration_events base p s;
    }
