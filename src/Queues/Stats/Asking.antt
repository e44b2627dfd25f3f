-- ===== src/Queues/Stats/Asking.antt =====
-- internal/deployment/queue.go: the command that is run in the admin pod, and its errors.
use shopware_operator.Prelude.{String, Option, none, some, List, [], ◌∷◌, ◌==◌, if◌then◌else◌}
use shopware_operator.Prelude.Text.{concat}
use shopware_operator.Kube.{Reply, found, absent, failed, Env, Result, ok, err}
use shopware_operator.Api.Store.{QueueTransportStats, Store}
use shopware_operator.Workloads.Deployments.{join}
use shopware_operator.Queues.Documents.{Json}
use shopware_operator.Queues.Stats.{
  trim_space, truncate, parse_messenger_stats, AdminPod, Pods, get_running_admin_pod,
}

-- QueueStatsError; `err` is the text of the error that it wraps.
pub record QueueStatsError : Type 0 where
  pub pod : String
  pub container : String
  pub command : String
  pub stdout : String
  pub stderr : String
  pub err : String

-- An error of GetAdminQueueStats: one that wraps a QueueStatsError, or another one
pub data StatsError : Type 0 where
  of_output : QueueStatsError → StatsError
  other : String → StatsError

abbrev pub admin_container : String
admin_container = "shopware-admin"

abbrev pub messenger_stats_command : List String
messenger_stats_command =
    "php" ∷ "bin/console" ∷ "messenger:stats" ∷ "--format=json" ∷ "--no-debug" ∷ []

-- selectStatsOutput
unfoldable pub select_stats_output : Json → String → String → String
unfolding trim_space
select_stats_output json stdout stderr = if trim_space json stdout == "" then stderr else stdout

-- QueueStatsError.Error
abbrev output_text : Json → String → String → String
output_text json label output =
    let trimmed = trim_space json output in
    if trimmed == "" then "" else concat (", " ∷ label ∷ ": " ∷ truncate trimmed 500 ∷ [])

unfoldable queue_stats_error_text : Env → Json → QueueStatsError → String
unfolding trim_space truncate
queue_stats_error_text env json e = concat (
    e.err
    ∷ " (pod: "
    ∷ e.pod
    ∷ ", container: "
    ∷ e.container
    ∷ ", command: "
    ∷ env.quote e.command
    ∷ output_text json "stderr" e.stderr
    ∷ output_text json "stdout" e.stdout
    ∷ ")"
    ∷ [])

-- The text of an error, and that of what RedactQueueStatsOutput makes of it
abbrev error_text : Env → Json → StatsError → String
error_text env json (of_output e) = queue_stats_error_text env json e
error_text env json (other e) = e

unfoldable pub redact_queue_stats_output : Env → StatsError → String
redact_queue_stats_output env (of_output e) = concat (
    e.err
    ∷ " (pod: "
    ∷ e.pod
    ∷ ", container: "
    ∷ e.container
    ∷ ", command: "
    ∷ env.quote e.command
    ∷ ", stdout and stderr omitted)"
    ∷ [])
redact_queue_stats_output env (other e) = e

-- A value or an error of GetAdminQueueStats.
pub data Asked : Type 0 where
  stats_of : List QueueTransportStats → List String → Asked
  stats_error : StatsError → Asked

abbrev stats_error_of : AdminPod → String → String → String → Asked
stats_error_of pod stdout stderr e = stats_error (
    of_output (record {
      pod = pod.name;
      container = admin_container;
      command = join " " messenger_stats_command;
      stdout = stdout;
      stderr = stderr;
      err = e;
    }))

abbrev after_parse :
    AdminPod → String → String → Result (List QueueTransportStats × List String) → Asked
after_parse pod stdout stderr (ok (stats, uncountable)) = stats_of stats uncountable
after_parse pod stdout stderr (err e) = stats_error_of pod stdout stderr e

abbrev after_exec : Json → AdminPod → String × String × Option String → Asked
after_exec json pod (stdout, stderr, some e) =
    stats_error_of pod stdout stderr (concat ("exec failed: " ∷ e ∷ []))
after_exec json pod (stdout, stderr, none) =
    after_parse pod stdout stderr
      (parse_messenger_stats json (select_stats_output json stdout stderr))

abbrev after_pod : Pods → Json → Reply AdminPod → Asked
after_pod pods json (absent e) =
    stats_error (other (concat ("find admin pod for queue stats: " ∷ e ∷ [])))
after_pod pods json (failed e) =
    stats_error (other (concat ("find admin pod for queue stats: " ∷ e ∷ [])))
after_pod pods json (found pod) =
    after_exec json pod (pods.exec pod.namespace pod.name admin_container messenger_stats_command)

-- GetAdminQueueStats
unfoldable pub get_admin_queue_stats : Pods → Json → Store → Asked
unfolding select_stats_output parse_messenger_stats get_running_admin_pod
get_admin_queue_stats pods json store = after_pod pods json (get_running_admin_pod pods store)

-- Its result as the store controller and the handler of the queue lengths take it
abbrev queue_stats : Env → Pods → Json → Store → Result (List QueueTransportStats × List String)
queue_stats env pods json store = elim (get_admin_queue_stats pods json store) [
  | stats_of stats uncountable ↦ ok (stats, uncountable)
  | stats_error e ↦ err (error_text env json e)
]
