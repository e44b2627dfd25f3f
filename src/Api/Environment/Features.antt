-- ===== src/Api/Environment/Features.antt =====
-- api/v1/store_env.go: the environment variables of the services that a store can use. A variable of
-- a source other than a value has the empty value.
use shopware_operator.Prelude.{
  String, Bool, not, ◌&&◌, none, some, List, [], ◌∷◌, ◌++◌, ◌==◌, if◌then◌else◌,
}
use shopware_operator.Prelude.Text.{concat, show}
use shopware_operator.Kube.{EnvVarSource, secret_key_ref, field_ref, EnvVar}
use shopware_operator.Api.Features.{SecretRef, RedisSpec, FpmSpec}
use shopware_operator.Api.Store.{Store}

abbrev pub env_value : String → String → EnvVar
env_value name value = record { name = name; value = value; value_from = none }

abbrev env_from : String → EnvVarSource → EnvVar
env_from name source = record { name = name; value = ""; value_from = some source }

-- A variable whose value is a key of the store's own secret.
abbrev pub env_secret : Store → String → String → EnvVar
env_secret s name key = env_from name (secret_key_ref s.spec.secret_name key)

-- `fmt.Sprintf("<scheme>%s:%d/%d", …)`
abbrev redis_url : String → RedisSpec → String
redis_url scheme r =
    concat (scheme ∷ r.redis_host ∷ ":" ∷ show r.redis_port ∷ "/" ∷ show r.redis_index ∷ [])

abbrev redis_dsn_or : String → RedisSpec → String
redis_dsn_or scheme r = if r.redis_dsn == "" then redis_url scheme r else r.redis_dsn

-- getAppCache
unfoldable pub get_app_cache : Store → List EnvVar
get_app_cache s =
    let r = s.spec.app_cache.redis in
    if s.spec.app_cache.adapter == "redis"
    then (if not (r.redis_dsn == "")
        then env_value "K8S_CACHE_TYPE" "redis" ∷ env_value "K8S_REDIS_APP_DSN" r.redis_dsn ∷ []
        else env_value "K8S_CACHE_TYPE" "redis"
          ∷ env_value "K8S_CACHE_HOST" r.redis_host
          ∷ env_value "K8S_CACHE_PORT" (show r.redis_port)
          ∷ env_value "K8S_CACHE_INDEX" (show r.redis_index)
          ∷ env_value "K8S_CACHE_URL" (redis_url "redis://" r)
          ∷ [])
    else []

-- getOldSessionCache
unfoldable pub get_old_session_cache : Store → List EnvVar
get_old_session_cache s =
    let r = s.spec.session_cache.redis in
    if s.spec.session_cache.adapter == "redis"
    then (if not (r.redis_dsn == "")
        then env_value "REDIS_SESSION_DSN" r.redis_dsn
          ∷ env_value "PHP_SESSION_HANDLER" "redis"
          ∷ env_value "PHP_SESSION_SAVE_PATH" "tcp://127.0.0.1:6379"
          ∷ []
        else env_value "PHP_SESSION_HANDLER" "redis"
          ∷ env_value "PHP_SESSION_SAVE_PATH" (redis_url "tcp://" r)
          ∷ [])
    else env_value "PHP_SESSION_HANDLER" "files" ∷ []

-- getSessionCache
unfoldable pub get_session_cache : Store → List EnvVar
get_session_cache s =
    if s.spec.session_cache.adapter == "redis"
    then env_value "K8S_REDIS_SESSION_DSN" (redis_dsn_or "redis://" s.spec.session_cache.redis) ∷ []
    else env_value "PHP_SESSION_HANDLER" "files" ∷ []

-- getLock
unfoldable pub get_lock : Store → List EnvVar
get_lock s =
    if not (s.spec.lock.adapter == "redis")
    then []
    else env_value "LOCK_DSN" (redis_dsn_or "redis://" s.spec.lock.redis) ∷ []

-- getFPMConfiguration
unfoldable pub get_fpm_configuration : FpmSpec → List EnvVar
get_fpm_configuration f =
    if not (f.process_management == "dynamic") && not (f.process_management == "operator")
    then env_value "FPM_PM" f.process_management
      ∷ env_value "FPM_LISTEN" f.listen
      ∷ env_value "PHP_FPM_SCRAPE_URI" f.scrape_uri
      ∷ env_value "FPM_PM_STATUS_PATH" f.status_path
      ∷ env_value "FPM_PM_MAX_CHILDREN" (show f.max_children)
      ∷ env_value "FPM_PM_START_SERVERS" (show f.start_servers)
      ∷ env_value "FPM_PM_MIN_SPARE_SERVERS" (show f.min_spare_servers)
      ∷ env_value "FPM_PM_MAX_SPARE_SERVERS" (show f.max_spare_servers)
      ∷ []
    else if f.process_management == "operator"
    then env_value "FPM_PM" "dynamic" ∷ []
    else env_value "FPM_PM" f.process_management ∷ []

-- getWorker
unfoldable pub get_worker : Store → List EnvVar
get_worker s =
    let r = s.spec.worker.redis in
    let consumer = env_from "MESSENGER_CONSUMER_NAME" (field_ref "v1" "metadata.name") in
    if s.spec.worker.adapter == "redis"
    then (if not (r.redis_dsn == "")
        then env_value "MESSENGER_TRANSPORT_DSN" r.redis_dsn ∷ consumer ∷ []
        else env_value "MESSENGER_TRANSPORT_DSN" (
            concat (
              "redis://"
              ∷ r.redis_host
              ∷ ":"
              ∷ show r.redis_port
              ∷ "/messages/symfony?auto_setup=true&serializer=1&stream_max_entries=0&dbindex="
              ∷ show r.redis_index
              ∷ []))
          ∷ consumer
          ∷ [])
    else []

-- getOpensearch
unfoldable pub get_opensearch : Store → List EnvVar
get_opensearch s =
    let index = s.spec.opensearch_spec.index in
    if s.spec.opensearch_spec.enabled
    then env_secret s "OPENSEARCH_URL" "opensearch-url"
      ∷ env_secret s "ADMIN_OPENSEARCH_URL" "opensearch-url"
      ∷ env_value "SHOPWARE_ES_ENABLED" "1"
      ∷ env_value "SHOPWARE_ES_INDEXING_ENABLED" "1"
      ∷ env_value "SHOPWARE_ADMIN_ES_ENABLED" "1"
      ∷ env_value "SHOPWARE_ADMIN_ES_REFRESH_INDICES" "1"
      ∷ env_value "SHOPWARE_ES_THROW_EXCEPTION" "1"
      ∷ env_value "K8S_ES_NUMBER_OF_REPLICAS" (show index.replicas)
      ∷ env_value "K8S_ES_NUMBER_OF_SHARDS" (show index.shards)
      ∷ env_value "SHOPWARE_ES_INDEX_PREFIX" index.prefix
      ∷ env_value "SHOPWARE_ADMIN_ES_INDEX_PREFIX" (concat (index.prefix ∷ "-admin" ∷ []))
      ∷ []
    else []

-- getOtel
unfoldable pub get_otel : Store → List EnvVar
get_otel s =
    if s.spec.otel.enabled
    then env_value "OTEL_PHP_AUTOLOAD_ENABLED" "true"
      ∷ env_value "OTEL_SERVICE_NAME" s.spec.otel.service_name
      ∷ env_value "OTEL_TRACES_EXPORTER" s.spec.otel.traces_exporter
      ∷ env_value "OTEL_EXPORTER_OTLP_PROTOCOL" s.spec.otel.exporter_protocol
      ∷ env_value "OTEL_EXPORTER_OTLP_ENDPOINT" s.spec.otel.exporter_endpoint
      ∷ env_value "OTEL_PHP_EXCLUDED_URLS" "/api/_info/health-check,/-/fpm/"
      ∷ []
    else []

-- getBlackfire
unfoldable pub get_blackfire : Store → List EnvVar
get_blackfire s =
    let b = s.spec.blackfire in
    if b.enabled
    then env_value "BLACKFIRE_AGENT_SOCKET" (concat ("tcp://" ∷ b.host ∷ ":" ∷ show b.port ∷ []))
      ∷ []
    else []

abbrev only_if {ℓ} : {A : Type ℓ} → Bool → List A → List A
only_if b xs = if b then xs else []

abbrev ref_env : String → SecretRef → EnvVar
ref_env name ref = env_from name (secret_key_ref ref.name ref.key)

abbrev is_complete : SecretRef → Bool
is_complete ref = not (ref.name == "") && not (ref.key == "")

-- getTideways
unfoldable pub get_tideways : Store → List EnvVar
get_tideways s =
    let t = s.spec.tideways in
    if not t.enabled
    then []
    else env_value "TIDEWAYS_CONNECTION" (concat ("tcp://" ∷ t.host ∷ ":" ∷ show t.port ∷ []))
        ∷ only_if (not (t.service == "")) (env_value "TIDEWAYS_SERVICE" t.service ∷ [])
      ++ only_if (is_complete t.api_key_ref) (ref_env "TIDEWAYS_APIKEY" t.api_key_ref ∷ [])

-- getStorage: the first key is asked by its secret's name, the second one by its key.
unfoldable pub get_storage : Store → List EnvVar
get_storage s =
    let b = s.spec.s3_storage in
    (env_value "K8S_FILESYSTEM_PUBLIC_BUCKET" b.public_bucket_name
      ∷ env_value "K8S_FILESYSTEM_PRIVATE_BUCKET" b.private_bucket_name
      ∷ env_value "K8S_FILESYSTEM_PUBLIC_URL" s.spec.cdn_url
      ∷ env_value "K8S_FILESYSTEM_REGION" b.region
      ∷ env_value "K8S_FILESYSTEM_ENDPOINT" b.endpoint_url
      ∷ [])
    ++ (only_if (not (b.access_key_ref.name == ""))
          (ref_env "AWS_ACCESS_KEY_ID" b.access_key_ref ∷ [])
        ++ only_if (not (b.secret_access_key_ref.key == ""))
            (ref_env "AWS_SECRET_ACCESS_KEY" b.secret_access_key_ref ∷ []))

-- getFastly
unfoldable pub get_fastly : Store → List EnvVar
get_fastly s =
    let f = s.spec.fastly in
    if is_complete f.service_ref && is_complete f.token_ref
    then env_secret s "FASTLY_SERVICE_ID" "fastly-service-id"
      ∷ env_secret s "FASTLY_API_TOKEN" "fastly-token"
      ∷ only_if f.disable_on_setup_migration (env_value "FASTLY_DISABLE_SNIPPET_UPDATE" "1" ∷ [])
    else []
