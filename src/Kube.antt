-- ===== src/Kube.antt =====
-- The Kubernetes objects that the operator reads and writes (k8s.io/api), each with the fields that
-- the modelled code uses, and the replies of the API server. A field of which the code only passes
-- the value on is a text. Nothing of the API server is defined here: what it answers is an argument
-- of the definitions.
use Prim.Native.Char.{Char}
use shopware_operator.Prelude.{ℕ, String, ◌≡◌, Bool, Option, none, List, [], ◌∷◌}
use shopware_operator.Prelude.Text.{concat}
use shopware_operator.Prelude.Int.{ℤ}

-- The answer to a request: the object, the error that `k8serrors.IsNotFound` recognises, or any
-- other error; the text is `err.Error()`.
pub data Reply {ℓ} (A : Type ℓ) : Type ℓ where
  found : A → Reply A
  absent : String → Reply A
  failed : String → Reply A

-- corev1.EnvVarSource: a key of a secret, a field of the pod (its API version and path), or another
-- source, which the operator itself never writes.
pub data EnvVarSource : Type 0 where
  secret_key_ref : String → String → EnvVarSource
  field_ref : String → String → EnvVarSource
  other_source : String → EnvVarSource

-- corev1.EnvVar
pub record EnvVar : Type 0 where
  pub name : String
  pub value : String
  pub value_from : Option EnvVarSource

-- corev1.Volume and corev1.VolumeMount: the name, and in one text where it comes from or is mounted
pub record Volume : Type 0 where
  pub name : String
  pub source : String

-- corev1.SecurityContext of a container
pub record SecurityContext : Type 0 where
  pub allow_privilege_escalation : Option Bool
  pub drop : List String
  pub others : String

-- corev1.PodSecurityContext
pub record PodSecurityContext : Type 0 where
  pub fs_group : Option ℤ
  pub run_as_group : Option ℤ
  pub run_as_non_root : Option Bool
  pub run_as_user : Option ℤ
  pub seccomp_profile : Option String
  pub others : String

-- corev1.ResourceRequirements: quantities by resource name, in their base unit.
pub record Resources : Type 0 where
  pub requests : Option (List (String × ℕ))
  pub limits : Option (List (String × ℕ))

-- corev1.Probe: the path and the port of its request, and its times; 0 is a field that is not set.
pub record Probe : Type 0 where
  pub path : String
  pub port : ℤ
  pub initial_delay_seconds : ℕ
  pub timeout_seconds : ℕ
  pub period_seconds : ℕ
  pub failure_threshold : ℕ

-- corev1.ContainerPort
pub record ContainerPort : Type 0 where
  pub name : String
  pub container_port : ℤ
  pub protocol : String

-- corev1.Container; `pre_stop` is the command of its lifecycle hook.
pub record Container : Type 0 where
  pub name : String
  pub image : String
  pub image_pull_policy : String
  pub command : List String
  pub args : List String
  pub env : List EnvVar
  pub ports : List ContainerPort
  pub resources : Resources
  pub volume_mounts : List Volume
  pub startup_probe : Option Probe
  pub liveness_probe : Option Probe
  pub readiness_probe : Option Probe
  pub pre_stop : Option (List String)
  pub security_context : Option SecurityContext

abbrev pub empty_container : Container
empty_container = record {
  name = "";
  image = "";
  image_pull_policy = "";
  command = [];
  args = [];
  env = [];
  ports = [];
  resources = record { requests = none; limits = none };
  volume_mounts = [];
  startup_probe = none;
  liveness_probe = none;
  readiness_probe = none;
  pre_stop = none;
  security_context = none;
}

-- corev1.Affinity
pub record Affinity : Type 0 where
  pub node_affinity : Option String
  pub pod_affinity : Option String
  pub pod_anti_affinity : Option String

-- corev1.Secret: its `Data`
abbrev pub Secret : Type 0
Secret = List (String × String)

-- corev1.PodPhase
pub data PodPhase : Type 0 where
  pending running succeeded failed_phase unknown : PodPhase

-- corev1.ContainerStateTerminated
pub record Terminated : Type 0 where
  pub exit_code : ℤ
  pub reason : String

-- corev1.ContainerStatus: its name and `State.Terminated`
pub record ContainerStatus : Type 0 where
  pub name : String
  pub terminated : Option Terminated

pub record Pod : Type 0 where
  pub phase : PodPhase
  pub container_statuses : List ContainerStatus

-- batchv1.Job: the names of its containers, its namespace and selector, and its status.
pub record Job : Type 0 where
  pub namespace : String
  pub containers : List String
  pub selector : String
  pub active : ℤ
  pub succeeded : ℤ
  pub failed_pods : ℤ
  pub start_time : Option ℕ
  pub completion_time : Option ℕ

-- appsv1.DeploymentCondition
pub record DeploymentProgress : Type 0 where
  pub type : String
  pub status : String
  pub reason : String

-- appsv1.Deployment: its containers and its status. The counts are int32.
pub record Deployment : Type 0 where
  pub containers : List Container
  pub replicas : ℤ
  pub available_replicas : ℤ
  pub unavailable_replicas : ℤ
  pub conditions : List DeploymentProgress

-- A value or an error with its text.
pub data Result {ℓ} (A : Type ℓ) : Type ℓ where
  ok : A → Result A
  err : String → Result A

-- The data source name of a MySQL connection, and whether it uses TLS.
pub record SqlConfig : Type 0 where
  pub user : String
  pub passwd : String
  pub addr : String
  pub db_name : String
  pub tls : Bool

-- An error of the MySQL driver, with its number if the server sent it.
pub record SqlError : Type 0 where
  pub number : Option ℕ
  pub text : String

-- What the code asks of the world during one call: the API server, the clock, the database, the
-- object storage, and the libraries that talk to them.
pub record Env : Type 0 where
  -- `time.Now()`
  pub now : ℕ
  -- `client.Get` by namespace and name
  pub get_secret : String → String → Reply Secret
  pub get_job : String → String → Reply Job
  pub get_deployment : String → String → Reply Deployment
  pub get_pod : String → String → Reply Pod
  -- metav1.LabelSelectorAsSelector
  pub as_selector : String → Reply String
  -- `client.List` of pods by namespace and selector
  pub list_pods : String → String → Reply (List Pod)
  -- the lower-case letter of a character beyond ASCII, by the tables of package unicode
  pub lower_rune : Char → Char
  -- `strconv.Quote`, and a duration between two times, rounded to seconds, as `time.Duration` prints it
  pub quote : String → String
  pub show_duration : ℕ → ℕ → String
  -- crypto/sha256 and crypto/md5, printed in hexadecimal
  pub sha256_hex : String → String
  pub md5_hex : String → String
  -- x509: whether a PEM text holds a certificate, and whether two texts make a key pair
  pub append_certs : String → Bool
  pub key_pair : String → String → Result (Unit {0})
  -- go-sql-driver: `mysql.NewConnector`, and `PingContext` on what it opens
  pub new_connector : SqlConfig → Result (Unit {0})
  pub ping : SqlConfig → Option SqlError
  -- `url.Parse`: the endpoint's host and port; minio: a client for it, and its buckets
  pub parse_url : String → Result String
  pub new_client : String → String → String → Result (Unit {0})
  pub list_buckets : String → String → String → Result (List String)

pub eq_of_ok-eq {ℓ} : {A : Type ℓ} {a b : A} → ok a ≡ ok b → a ≡ b
eq_of_ok-eq e = cc

-- `if err != nil { return err }` after a request, and `fmt.Errorf("…: %w", err)`, which keeps
-- `IsNotFound`.
infixl 5 ◌>>=◌
abbrev pub ◌>>=◌ {ℓ κ} : {A : Type ℓ} {B : Type κ} → Reply A → (A → Reply B) → Reply B
found a >>= f = f a
absent e >>= f = absent e
failed e >>= f = failed e

abbrev pub wrap {ℓ} : {A : Type ℓ} → String → Reply A → Reply A
wrap prefix (found a) = found a
wrap prefix (absent e) = absent (concat (prefix ∷ e ∷ []))
wrap prefix (failed e) = failed (concat (prefix ∷ e ∷ []))
