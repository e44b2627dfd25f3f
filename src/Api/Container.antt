-- ===== src/Api/Container.antt =====
-- api/v1/store.go: the container specification, and how a component's override is merged into it.
-- A slice of the base that is nil is the empty list. A map of the base, and each slice or map of the
-- override, is `none` if it is nil, which the code tells from an empty one.
pub mod Merging
use shopware_operator.Prelude.{
  ℕ, zero, suc, String, Bool, ◌||◌, not, Option, none, some, List, [], ◌∷◌, ◌++◌, ◌==◌,
  if◌then◌else◌,
}
use shopware_operator.Prelude.Int.{ℤ, pos, eqb_ℤ}
use shopware_operator.Prelude.Assoc.{copy}
use shopware_operator.Kube.{EnvVar, Volume, PodSecurityContext, Container, Affinity, Resources}

pub record ContainerSpec : Type 0 where
  pub image : String
  pub image_pull_policy : String
  pub volumes : List Volume
  pub port : ℤ
  pub volume_mounts : List Volume
  pub image_pull_secrets : List String
  pub restart_policy : String
  pub security_context : Option PodSecurityContext
  pub extra_containers : List Container
  pub init_containers : List Container
  pub replicas : ℤ
  pub progress_deadline_seconds : ℤ
  pub termination_grace_period_seconds : ℤ
  pub annotations : Option (List (String × String))
  pub labels : Option (List (String × String))
  pub node_selector : List (String × String)
  pub topology_spread_constraints : List String
  pub tolerations : List String
  pub affinity : Affinity
  pub resources : Resources
  pub service_account_name : String
  pub enable_service_links : Option Bool
  pub extra_envs : List EnvVar

pub record ContainerMergeSpec : Type 0 where
  pub image : String
  pub image_pull_policy : String
  pub image_pull_secrets : Option (List String)
  pub volumes : Option (List Volume)
  pub volume_mounts : Option (List Volume)
  pub restart_policy : String
  pub security_context : Option PodSecurityContext
  pub extra_containers : Option (List Container)
  pub init_containers : Option (List Container)
  pub replicas : ℤ
  pub progress_deadline_seconds : ℤ
  pub termination_grace_period_seconds : ℤ
  pub annotations : Option (List (String × String))
  pub labels : Option (List (String × String))
  pub node_selector : Option (List (String × String))
  pub topology_spread_constraints : Option (List String)
  pub tolerations : Option (List String)
  pub affinity : Affinity
  pub requests : Option (List (String × ℕ))
  pub limits : Option (List (String × ℕ))
  pub extra_envs : Option (List EnvVar)
  pub service_account_name : String
  pub enable_service_links : Option Bool

-- `if from.F != "" { c.F = from.F }`, the same at 0 and at nil
abbrev text_or : String → String → String
text_or from c = if from == "" then c else from

abbrev int_or : ℤ → ℤ → ℤ
int_or from c = if eqb_ℤ from (pos 0) then c else from

abbrev pub value_or {ℓ} : {A : Type ℓ} → Option A → A → A
value_or none c = c
value_or (some a) c = a

abbrev pointer_or {ℓ} : {A : Type ℓ} → Option A → Option A → Option A
pointer_or none c = c
pointer_or (some a) c = some a

abbrev pub copy_over {ℓ} :
    {V : Type ℓ} → Option (List (String × V)) → List (String × V) → List (String × V)
copy_over none c = c
copy_over (some m) c = copy c m

-- The same into a map that is made first if it is nil
abbrev copy_into {ℓ} :
    {V : Type ℓ}
    → Option (List (String × V))
    → Option (List (String × V))
    → Option (List (String × V))
copy_into none c = c
copy_into (some m) c = some (copy (value_or c []) m)

-- `idx[m.Name] = i` for each entry in turn: the last entry of a name is the one that is found.
pub last_index : String → ℕ → List Volume → Option ℕ
last_index name i [] = none
last_index name i (m ∷ ms) =
    let later = last_index name (suc i) ms in
    elim later [ some j ↦ some j | none ↦ if m.name == name then some i else none ]

-- `base[i] = m`
pub replace_at : ℕ → Volume → List Volume → List Volume
replace_at i m [] = []
replace_at zero m (b ∷ bs) = m ∷ bs
replace_at (suc i) m (b ∷ bs) = b ∷ replace_at i m bs

-- One round of the loop of mergeVolumesByName. `idx` always maps a name to its last position in
-- `base`: an entry in place keeps its name, and an appended one is recorded.
abbrev pub put : Option ℕ → Volume → List Volume → List Volume
put (some i) m base = replace_at i m base
put none m base = base ++ m ∷ []

pub merge_one : List Volume → Volume → List Volume
merge_one base m = put (last_index m.name 0 base) m base

-- mergeVolumesByName and mergeVolumeMountsByName
unfoldable pub merge_by_name : List Volume → List Volume → List Volume
unfolding merge_one
merge_by_name base [] = base
merge_by_name base (m ∷ from) = merge_by_name (merge_one base m) from

abbrev merge_volumes : Option (List Volume) → List Volume → List Volume
merge_volumes none c = c
merge_volumes (some from) c = merge_by_name c from

abbrev is_set {ℓ} : {A : Type ℓ} → Option A → Bool
is_set o = elim o [ none ↦ Bool.false | some _ ↦ Bool.true ]

abbrev affinity_or : Affinity → Affinity → Affinity
affinity_or from c =
    if is_set from.node_affinity || is_set from.pod_affinity || is_set from.pod_anti_affinity
    then from
    else c

-- Merge
unfoldable pub merge : ContainerSpec → ContainerMergeSpec → ContainerSpec
merge c from = record {
  image = text_or from.image c.image;
  image_pull_policy = text_or from.image_pull_policy c.image_pull_policy;
  volumes = merge_volumes from.volumes c.volumes;
  port = c.port;
  volume_mounts = merge_volumes from.volume_mounts c.volume_mounts;
  image_pull_secrets = value_or from.image_pull_secrets c.image_pull_secrets;
  restart_policy = text_or from.restart_policy c.restart_policy;
  security_context = pointer_or from.security_context c.security_context;
  extra_containers = value_or from.extra_containers c.extra_containers;
  init_containers = value_or from.init_containers c.init_containers;
  replicas = int_or from.replicas c.replicas;
  progress_deadline_seconds = int_or from.progress_deadline_seconds c.progress_deadline_seconds;
  termination_grace_period_seconds =
      int_or from.termination_grace_period_seconds c.termination_grace_period_seconds;
  annotations = copy_into from.annotations c.annotations;
  labels = copy_into from.labels c.labels;
  node_selector = value_or from.node_selector c.node_selector;
  topology_spread_constraints =
      value_or from.topology_spread_constraints c.topology_spread_constraints;
  tolerations = value_or from.tolerations c.tolerations;
  affinity = affinity_or from.affinity c.affinity;
  resources = record {
    requests = some (copy_over from.requests (value_or c.resources.requests []));
    limits = some (copy_over from.limits (value_or c.resources.limits []));
  };
  service_account_name = text_or from.service_account_name c.service_account_name;
  enable_service_links = pointer_or from.enable_service_links c.enable_service_links;
  extra_envs = value_or from.extra_envs c.extra_envs;
}
