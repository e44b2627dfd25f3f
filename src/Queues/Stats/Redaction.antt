-- ===== src/Queues/Stats/Redaction.antt =====
-- What of the output of the command gets into the traces.
use text.Mathlib.TextLemmas.{append_assoc, nil-append}
use shopware_operator.Prelude.{String, ◌≡◌, refl, false, none, [], ◌∷◌, ◌==◌}
use shopware_operator.Prelude.Text.{concat}
use shopware_operator.Kube.{Env, found, err}
use shopware_operator.Api.Store.{Store}
use shopware_operator.Workloads.Deployments.{join}
use shopware_operator.Queues.Documents.{Json}
use shopware_operator.Queues.Stats.{
  truncate, shape_error, transports_of, trim_space, read_transports, parse_messenger_stats,
  AdminPod, Pods, get_running_admin_pod,
}
use shopware_operator.Queues.Stats.Asking.{
  QueueStatsError, of_output, admin_container, messenger_stats_command, select_stats_output,
  redact_queue_stats_output, stats_error, get_admin_queue_stats,
}

-- The redacted error of a QueueStatsError depends neither on its standard output nor on its standard
-- error.
redact_omits_output :
    (env : Env) (e : QueueStatsError) (stdout stderr : String)
    → redact_queue_stats_output env (of_output (record e { stdout = stdout; stderr = stderr }))
      ≡ redact_queue_stats_output env (of_output e)
unfolding redact_queue_stats_output
redact_omits_output env e stdout stderr = refl

-- The output that parseMessengerStats reads
abbrev pub read_output : Json → String → String → String
read_output json stdout stderr = trim_space json (select_stats_output json stdout stderr)

-- No shape of the transports is known.
abbrev IsUnknown : Json → String → Type 0
IsUnknown json raw = (json.items raw ≡ none) × (json.objects raw ≡ none) × (json.counts raw ≡ none)

parse_unknown :
    (json : Json) (output : String)
    → (trim_space json output == "") ≡ false
    → IsUnknown json (transports_of json (trim_space json output)).0
    → parse_messenger_stats json output
      ≡ err (shape_error (transports_of json (trim_space json output)).0)
unfolding parse_messenger_stats read_transports
parse_unknown json output some_output (no_items, no_objects, no_counts) =
    simp (some_output, no_items, no_objects, no_counts)

-- If the command in the admin pod succeeds with output of which no shape is known, then GetAdminQueueStats
-- fails, and the error that RedactQueueStatsOutput makes of this for the traces, which says that the
-- output is omitted, contains the output: up to 500 bytes of what stands for the transports.
pub redact_keeps_output :
    (env : Env) (pods : Pods) (json : Json) (store : Store) (pod : AdminPod)
    (stdout stderr : String)
    → get_running_admin_pod pods store ≡ found pod
    → pods.exec pod.namespace pod.name admin_container messenger_stats_command
      ≡ (stdout, stderr, none)
    → (read_output json stdout stderr == "") ≡ false
    → IsUnknown json (transports_of json (read_output json stdout stderr)).0
    → (e : QueueStatsError) × (get_admin_queue_stats pods json store ≡ stats_error (of_output e))
      × (redact_queue_stats_output env (of_output e)
          ≡ concat (
              "unexpected messenger:stats output, no known json shape: "
              ∷ truncate (transports_of json (read_output json stdout stderr)).0 500
              ∷ " (pod: "
              ∷ pod.name
              ∷ ", container: "
              ∷ "shopware-admin"
              ∷ ", command: "
              ∷ env.quote "php bin/console messenger:stats --format=json --no-debug"
              ∷ ", stdout and stderr omitted)"
              ∷ []))
unfolding get_admin_queue_stats redact_queue_stats_output
redact_keeps_output env pods json store pod stdout stderr running ran some_output unknown =
    let e : QueueStatsError = record {
      pod = pod.name;
      container = admin_container;
      command = join " " messenger_stats_command;
      stdout = stdout;
      stderr = stderr;
      err = shape_error (transports_of json (read_output json stdout stderr)).0;
    } in
    let parsed = parse_unknown json (select_stats_output json stdout stderr) some_output unknown in
    (e, simp (running, ran, parsed), simp (append_assoc, nil-append) refl)
