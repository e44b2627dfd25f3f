-- ===== src/Queues/Stats.antt =====
-- internal/deployment/queue.go: the lengths of the queues as the admin pod reports them.
pub mod Reading
pub mod Asking
pub mod Redaction
use Prim.Native.Char.{Char, code}
use Prim.Native.String.{[], ◌∷◌, len, ◌++◌ as append}
use mathlib.Core.List as List
use shopware_operator.Prelude.{
  ℕ, String, Bool, true, false, not, ◌&&◌, ◌||◌, Option, none, some, List, map, ◌==◌, eqb, leb, any,
  if◌then◌else◌,
}
use shopware_operator.Prelude.Int.{ℤ, pos}
use shopware_operator.Prelude.Text.{concat}
use shopware_operator.Prelude.Assoc.{lookup, keys}
use shopware_operator.Kube.{
  Reply, found, absent, failed, wrap, ◌>>=◌, PodPhase, Env, Result, ok, err,
}
use shopware_operator.Api.Container.{value_or}
use shopware_operator.Api.Store.{QueueTransportStats, Store}
use shopware_operator.Cluster.Meta.{sort}
use shopware_operator.Deployments.{admin_name}
use shopware_operator.Deployments.Names.Cut.{first_bytes}
use shopware_operator.Queues.Documents.{Item, Counts, Json, extract_stats_document}

-- unicode.IsSpace, with the table beyond Latin-1 as a parameter
abbrev is_space : Json → Char → Bool
is_space json c =
    let n = code c in
    if leb 256 n
    then json.is_space_rune c
    else (leb 9 n && leb n 13) || eqb n 32 || eqb n 133 || eqb n 160

-- strings.TrimSpace and bytes.TrimSpace
abbrev trim_space_left : Json → String → String
trim_space_left json [] = []
trim_space_left json (c ∷ s) =
    let rest = trim_space_left json s in if is_space json c then rest else c ∷ s

abbrev trim_space_right : Json → String → String
trim_space_right json [] = []
trim_space_right json (c ∷ s) =
    let t = trim_space_right json s in if is_space json c && (t == "") then [] else c ∷ t

unfoldable pub trim_space : Json → String → String
trim_space json s = trim_space_right json (trim_space_left json s)

-- Truncate of internal/util/truncate.go: a text is valid UTF-8 here, and is cut before a character that does not
-- fit.
unfoldable pub truncate : String → ℕ → String
unfolding first_bytes
truncate s limit = if leb (len s) limit then s else append (first_bytes limit s) "..."

-- A count, or else the size, or else 0
abbrev pub count_or_size : Option ℤ → Option ℤ → ℤ
count_or_size count size = value_or count (value_or size (pos 0))

abbrev of_item : Item → QueueTransportStats
of_item item = record {
  name = if item.name == "" then item.transport else item.name;
  count = count_or_size item.count item.size;
}

-- `objects[name]` and `counts[name]`, which is the zero value of a key that is missing
abbrev pub of_object : List (String × Counts) → String → QueueTransportStats
of_object m name =
    let c = value_or (lookup name m) (record { count = none; size = none }) in
    record { name = name; count = count_or_size c.count c.size }

abbrev pub of_count : List (String × ℤ) → String → QueueTransportStats
of_count m name = record { name = name; count = value_or (lookup name m) (pos 0) }

-- The three shapes of the transports, tried one after the other
abbrev pub shape_error : String → String
shape_error raw = concat (
    List.◌∷◌ "unexpected messenger:stats output, no known json shape: "
      (List.◌∷◌ (truncate raw 500) List.[]))

abbrev by_counts : Json → String → Option (List (String × ℤ)) → Result (List QueueTransportStats)
by_counts json raw (some m) = ok (map (of_count m) (sort (keys m)))
by_counts json raw none = err (shape_error raw)

abbrev by_objects :
    Json → String → Option (List (String × Counts)) → Result (List QueueTransportStats)
by_objects json raw (some m) = ok (map (of_object m) (sort (keys m)))
by_objects json raw none = by_counts json raw (json.counts raw)

abbrev by_items : Json → String → Option (List Item) → Result (List QueueTransportStats)
by_items json raw (some items) = ok (map of_item items)
by_items json raw none = by_objects json raw (json.objects raw)

unfoldable pub read_transports : Json → String → Result (List QueueTransportStats)
unfolding sort
read_transports json raw = by_items json raw (json.items raw)

-- `raw = wrapper.Transports`, if the document wraps them
abbrev unwrap : String → Option (String × List String) → String × List String
unwrap raw none = (raw, List.[])
unwrap raw (some (transports, uncountable)) =
    if transports == "" then (raw, List.[]) else (transports, uncountable)

abbrev with_uncountable :
    List String
    → Result (List QueueTransportStats)
    → Result (List QueueTransportStats × List String)
with_uncountable uncountable (ok stats) = ok (stats, uncountable)
with_uncountable uncountable (err e) = err e

-- The transports that parseMessengerStats reads in the trimmed output, and what else is in the document
abbrev pub transports_of : Json → String → String × List String
transports_of json raw =
    let document = extract_stats_document json raw in unwrap document (json.wrapper document)

-- parseMessengerStats
unfoldable pub parse_messenger_stats :
    Json → String → Result (List QueueTransportStats × List String)
unfolding trim_space read_transports
parse_messenger_stats json output =
    let raw = trim_space json output in
    let (transports, uncountable) = transports_of json raw in
    let read = with_uncountable uncountable (read_transports json transports) in
    if raw == "" then err "empty messenger:stats output" else read

-- corev1.Pod, with its phase, whether it is being deleted, and its conditions by type
pub record AdminPod : Type 0 where
  pub namespace : String
  pub name : String
  pub phase : PodPhase
  pub is_deleted : Bool
  pub conditions : List (String × String)

-- What GetAdminQueueStats asks of the cluster: the namespace and the selector of a deployment, the
-- selector as client-go reads it, pods, and the standard output, the standard error and the error of a
-- command in a container.
pub record Pods : Type 0 where
  pub get_deployment : String → String → Reply (String × String)
  pub as_selector : String → Reply String
  pub list_pods : String → String → Reply (List AdminPod)
  pub exec : String → String → String → List String → String × String × Option String

abbrev pub is_ready : AdminPod → Bool
is_ready p = any (λ (c : String × String). c.0 == "Ready" && c.1 == "True") p.conditions

abbrev pub is_running : PodPhase → Bool
is_running PodPhase.running = true
is_running _ = false

-- The loops over the pods
unfoldable ready_pod : String → List AdminPod → Reply AdminPod
ready_pod e List.[] = failed e
ready_pod e (List.◌∷◌ p ps) =
    let rest = ready_pod e ps in
    if not (is_running p.phase) || p.is_deleted then rest else if is_ready p then found p else rest

-- getRunningAdminPod
unfoldable pub get_running_admin_pod : Pods → Store → Reply AdminPod
unfolding admin_name ready_pod
get_running_admin_pod pods store = do
  let deployment = (← pods.get_deployment store.namespace (admin_name store))
  let selector = (← pods.as_selector deployment.1)
  let list = (← pods.list_pods deployment.0 selector)
  ready_pod
      (concat (
        List.◌∷◌ "no ready admin pod found for store "
          (List.◌∷◌ store.namespace (List.◌∷◌ "/" (List.◌∷◌ store.name List.[])))))
      list
