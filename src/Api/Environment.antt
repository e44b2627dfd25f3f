-- ===== src/Api/Environment.antt =====
-- api/v1/store_env.go: the environment of a store's containers.
pub mod Features
pub mod Overrides
pub mod Seen
use shopware_operator.Prelude.{
  String, Bool, true, false, not, ◌||◌, Option, none, some, List, [], ◌∷◌, ◌++◌, ◌==◌,
  if◌then◌else◌,
}
use shopware_operator.Prelude.Text.{concat}
use shopware_operator.Kube.{EnvVar}
use shopware_operator.Api.Store.{Store}
use Features.{
  env_value, env_secret, get_old_session_cache, get_session_cache, get_app_cache, get_lock,
  get_otel, get_blackfire, get_tideways, get_storage, get_worker, get_opensearch, get_fastly,
  get_fpm_configuration,
}

abbrev app_url : Store → String
app_url s = concat (
    "https://"
    ∷ (if s.spec.network.app_url_host == ""
        then s.spec.network.host
        else s.spec.network.app_url_host)
    ∷ [])

-- The variables that every store has; `operator_service_url` is the variable that
-- SetOperatorServiceURL sets.
abbrev fixed_env : String → Store → List EnvVar
fixed_env operator_service_url s =
    env_secret s "DATABASE_URL" "database-url"
    ∷ env_secret s "APP_SECRET" "app-secret"
    ∷ env_secret s "JWT_PRIVATE_KEY" "jwt-private-key"
    ∷ env_secret s "JWT_PUBLIC_KEY" "jwt-public-key"
    ∷ env_value "TRUSTED_PROXIES" "REMOTE_ADDR"
    ∷ env_value "SYMFONY_TRUSTED_PROXIES" "REMOTE_ADDR"
    ∷ env_value "SHOPWARE_DBAL_TIMEZONE_SUPPORT_ENABLED" "1"
    ∷ env_value "PHP_OPCACHE_MAX_ACCELERATED_FILES" "20000"
    ∷ env_value "PHP_OPCACHE_MEMORY_CONSUMPTION" "256"
    ∷ env_value "PHP_OPCACHE_INTERNED_STRINGS_BUFFER" "64"
    ∷ env_value "INSTALL_LOCALE" s.spec.shop_configuration.locale
    ∷ env_value "INSTALL_CURRENCY" s.spec.shop_configuration.currency
    ∷ env_value "APP_URL" (app_url s)
    ∷ env_value "DATABASE_PERSISTENT_CONNECTION" "0"
    ∷ env_value "SHOPWARE_OPERATOR_URL" operator_service_url
    ∷ env_value "SHOPWARE_DEPLOYMENT_TIMEOUT" "0"
    ∷ []

abbrev database_tls_mount_path : String
database_tls_mount_path = "/etc/shopware/database-tls"

abbrev tls_file : String → String
tls_file name = concat (database_tls_mount_path ∷ name ∷ [])

abbrev database_tls_env : Store → List EnvVar
database_tls_env s =
    let d = s.spec.database in
    if d.tls_secret_name == ""
    then []
    else env_value "DATABASE_SSL_CA" (tls_file "/ca.crt")
        ∷ (if d.tls_client_certificate
            then env_value "DATABASE_SSL_CERT" (tls_file "/tls.crt")
              ∷ env_value "DATABASE_SSL_KEY" (tls_file "/tls.key")
              ∷ []
            else [])
      ++ (if d.tls_dont_verify_server_certificate
          then env_value "DATABASE_SSL_DONT_VERIFY_SERVER_CERT" "1" ∷ []
          else [])

abbrev consent_env : Store → List EnvVar
consent_env s =
    if s.spec.shop_configuration.usage_data_consent == "revoked"
    then env_value "SHOPWARE_USAGE_DATA_CONSENT" "revoked" ∷ []
    else []

abbrev join : List (List EnvVar) → List EnvVar
join [] = []
join (es ∷ ess) = es ++ join ess

-- operatorEnv
unfoldable pub operator_env : String → Store → List EnvVar
operator_env operator_service_url s = join (
    fixed_env operator_service_url s
    ∷ database_tls_env s
    ∷ consent_env s
    ∷ get_old_session_cache s
    ∷ get_session_cache s
    ∷ get_app_cache s
    ∷ get_lock s
    ∷ get_otel s
    ∷ get_blackfire s
    ∷ get_tideways s
    ∷ get_storage s
    ∷ get_worker s
    ∷ get_opensearch s
    ∷ get_fastly s
    ∷ get_fpm_configuration s.spec.fpm
    ∷ [])

-- `slices.IndexFunc` by name, with the element at the index
unfoldable pub find_env : String → List EnvVar → Option EnvVar
find_env name [] = none
find_env name (c ∷ cs) = let rest = find_env name cs in if c.name == name then some c else rest

-- `if i > -1 { c[i] = e } else { c = append(c, e) }` with the index i of e's name
unfoldable pub put_env : EnvVar → List EnvVar → List EnvVar
put_env e [] = e ∷ []
put_env e (c ∷ cs) = let rest = put_env e cs in if c.name == e.name then e ∷ cs else c ∷ rest

-- The loop of GetEnv
unfoldable pub put_envs : List EnvVar → List EnvVar → List EnvVar
unfolding put_env
put_envs c [] = c
put_envs c (e ∷ extra) = put_envs (put_env e c) extra

-- GetEnv
unfoldable pub get_env : String → Store → List EnvVar
get_env operator_service_url s =
    put_envs (operator_env operator_service_url s) s.spec.container.extra_envs

pub record EnvOverride : Type 0 where
  pub operator : EnvVar
  pub extra : EnvVar

-- `overridden[i].Extra = extra` at the index i of the name, if there is one
abbrev pub set_extra : EnvVar → List EnvOverride → List EnvOverride
set_extra e [] = []
set_extra e (o ∷ os) =
    let rest = set_extra e os in
    if o.extra.name == e.name then record o { extra = e } ∷ os else o ∷ rest

abbrev pub has_extra : String → List EnvOverride → Bool
has_extra name [] = false
has_extra name (o ∷ os) = o.extra.name == name || has_extra name os

abbrev pub append_override : EnvVar → Option EnvVar → List EnvOverride → List EnvOverride
append_override e none os = os
append_override e (some c) os = os ++ record { operator = c; extra = e } ∷ []

-- The body of the loop of OverriddenOperatorEnvs
abbrev pub add_override : List EnvVar → List EnvOverride → EnvVar → List EnvOverride
add_override operator os e =
    if has_extra e.name os then set_extra e os else append_override e (find_env e.name operator) os

unfoldable pub add_overrides : List EnvVar → List EnvOverride → List EnvVar → List EnvOverride
add_overrides operator os [] = os
add_overrides operator os (e ∷ es) = add_overrides operator (add_override operator os e) es

-- OverriddenOperatorEnvs
unfoldable pub overridden_operator_envs : String → Store → List EnvOverride
overridden_operator_envs operator_service_url s =
    add_overrides (operator_env operator_service_url s) [] s.spec.container.extra_envs
