-- ===== src/Workloads/Containers.antt =====
-- What the containers of the deployments share: the merge of environments (internal/util/env.go), the
-- security contexts (internal/util/security.go), the process limits of PHP-FPM
-- (internal/deployment/util.go) and the volumes of the database's certificates (api/v1/store_env.go).
use shopware_operator.Prelude.{
  ℕ, ◌+◌, ◌*◌, ◌/◌, String, Bool, true, false, Option, none, some, List, [], ◌∷◌, ◌++◌, map, ◌==◌,
  if◌then◌else◌,
}
use shopware_operator.Prelude.Int.{pos, ℤ}
use shopware_operator.Prelude.Text.{concat, show}
use shopware_operator.Prelude.Assoc.{lookup}
use shopware_operator.Kube.{
  EnvVar, Volume, SecurityContext, PodSecurityContext, Resources, Probe, Container,
}
use shopware_operator.Api.Container.{value_or}
use shopware_operator.Api.Store.{Store}

-- The inner loop of MergeEnv: the first variable of the name is replaced; whether there is one
unfoldable pub overwrite_env : EnvVar → List EnvVar → List EnvVar
overwrite_env e [] = []
overwrite_env e (d ∷ dst) =
    let rest = overwrite_env e dst in if e.name == d.name then e ∷ dst else d ∷ rest

unfoldable pub has_env : String → List EnvVar → Bool
has_env name [] = false
has_env name (d ∷ dst) = let rest = has_env name dst in if name == d.name then true else rest

-- The outer loop, with `toAppend`
unfoldable pub merge_envs : List EnvVar → List EnvVar → List EnvVar → List EnvVar
unfolding overwrite_env has_env
merge_envs dst to_append [] = dst ++ to_append
merge_envs dst to_append (e ∷ src) =
    let in_place = merge_envs (overwrite_env e dst) to_append src in
    let later = merge_envs dst (to_append ++ e ∷ []) src in
    if has_env e.name dst then in_place else later

-- MergeEnv
unfoldable pub merge_env : List EnvVar → List EnvVar → List EnvVar
unfolding merge_envs
merge_env dst src = merge_envs dst [] src

-- RestrictedContainerSecurityContext
abbrev pub restricted_container_context : SecurityContext
restricted_container_context = record {
  allow_privilege_escalation = some false;
  drop = "ALL" ∷ [];
  others = "";
}

-- DefaultContainerSecurityContexts
abbrev with_context : Container → Container
with_context c = record c {
  security_context = some (value_or c.security_context restricted_container_context);
}

unfoldable pub default_container_contexts : List Container → List Container
default_container_contexts cs = map with_context cs

-- RestrictedPodSecurityContext
abbrev restricted_pod_context : PodSecurityContext
restricted_pod_context = record {
  fs_group = some (pos 82);
  run_as_group = some (pos 82);
  run_as_non_root = some true;
  run_as_user = some (pos 82);
  seccomp_profile = some "RuntimeDefault";
  others = "";
}

-- DefaultPodSecurityContext
abbrev pub default_pod_context : Option PodSecurityContext → PodSecurityContext
default_pod_context c = value_or c restricted_pod_context

abbrev pub env_var : String → String → EnvVar
env_var name value = record { name = name; value = value; value_from = none }

-- The counts of GetCalculatedPHPFPMValues. The products with 0.25, 0.2 and 0.375 are rounded to the
-- nearest integer, and a half upwards.
pub record PoolLimits : Type 0 where
  pub max_children : ℕ
  pub start_servers : ℕ
  pub min_spare_servers : ℕ
  pub max_spare_servers : ℕ

unfoldable pub pool_limits : ℕ → PoolLimits
pool_limits memory_limit_mib =
    let n = memory_limit_mib / 80 in
    record {
      max_children = n;
      start_servers = (n + 2) / 4;
      min_spare_servers = (2 * n + 5) / 10;
      max_spare_servers = (3 * n + 4) / 8 + 1;
    }

-- GetCalculatedPHPFPMValues
unfoldable pub php_fpm_values : ℕ → List EnvVar
unfolding pool_limits
php_fpm_values memory_limit_mib =
    let l = pool_limits memory_limit_mib in
    env_var "FPM_PM" "dynamic"
    ∷ env_var "FPM_PM_MAX_CHILDREN" (show (pos l.max_children))
    ∷ env_var "FPM_PM_START_SERVERS" (show (pos l.start_servers))
    ∷ env_var "FPM_PM_MIN_SPARE_SERVERS" (show (pos l.min_spare_servers))
    ∷ env_var "FPM_PM_MAX_SPARE_SERVERS" (show (pos l.max_spare_servers))
    ∷ []

-- `Resources.Limits.Memory().Value() / (1024 * 1024)`, and whether the value is 0
abbrev pub memory_limit : Resources → ℕ
memory_limit r = value_or (lookup "memory" (value_or r.limits [])) 0

abbrev pub memory_limit_mib : Resources → ℕ
memory_limit_mib r = memory_limit r / (1024 * 1024)

-- GetDatabaseTLSVolumes and GetDatabaseTLSVolumeMounts
abbrev pub tls_volumes : Store → List Volume
tls_volumes store =
    if store.spec.database.tls_secret_name == ""
    then []
    else record {
      name = "shopware-database-tls";
      source = concat ("secret " ∷ store.spec.database.tls_secret_name ∷ []);
    }
      ∷ []

abbrev pub tls_volume_mounts : Store → List Volume
tls_volume_mounts store =
    if store.spec.database.tls_secret_name == ""
    then []
    else record { name = "shopware-database-tls"; source = "/etc/shopware/database-tls, read-only" }
      ∷ []

-- An HTTP probe
abbrev pub probe : String → ℤ → ℕ → ℕ → ℕ → ℕ → Probe
probe path port initial_delay timeout period failures = record {
  path = path;
  port = port;
  initial_delay_seconds = initial_delay;
  timeout_seconds = timeout;
  period_seconds = period;
  failure_threshold = failures;
}

-- getCaddyGracefulShutdownLifecycleHook
abbrev pub graceful_shutdown : ℤ → List String
graceful_shutdown delay =
    "/bin/sh" ∷ "-c" ∷ concat ("/bin/sleep " ∷ show delay ∷ "; pkill -TERM caddy" ∷ []) ∷ []
