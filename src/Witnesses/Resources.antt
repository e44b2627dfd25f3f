-- ===== src/Witnesses/Resources.antt =====
-- Objects of a concrete cluster, and the secret of the sample store.
use shopware_operator.Prelude.{
  String, ◌≡◌, refl, sym, ap, ◌↔◌, inl, inr, Bool, true, false, Option, none, some, [], ◌∷◌, ◌==◌,
  if◌then◌else◌, All, eq_of_some-eq,
}
use shopware_operator.Prelude.Int.{pos}
use shopware_operator.Prelude.Assoc.{lookup, insert, erase}
use shopware_operator.Prelude.Text.{show}
use shopware_operator.Secrets.Writes.{apply}
use shopware_operator.Kube.{Env, found, failed, Secret, ok, err, eq_of_ok-eq}
use shopware_operator.Api.State.{ready}
use shopware_operator.Manager.Resources.{reconcile_resources}
use shopware_operator.Manager.Resources.Steps.{Builders, World}
use shopware_operator.Manager.Resources.Kinds.{Typed, allowed}
use shopware_operator.Manager.Resources.Touching.{Touches}
use shopware_operator.Manager.Resources.Confined.{reconcile_resources_confined}
use shopware_operator.Samples.{env, base, store_in}
use shopware_operator.Cluster.{Kind, Object, Api, unchanged, detect_object_change}
use shopware_operator.Cluster.Requests.{ensure_object_with_hash}
use shopware_operator.Cluster.Requests.Convergence.{Settles, sent_is_unchanged}
use shopware_operator.Cluster.Requests.Quiet.{writes_nothing_iff}
use shopware_operator.Cluster.Requests.Reruns.{Replaces, job_runs_again}
use shopware_operator.Cluster.Redaction.{
  SecretContent, secret_values, redact_secrets, redact_secrets_hides,
}
use shopware_operator.Secrets.{
  database_url, Crypto, Inputs, ensure_app_secret, ensure_admin_password, ensure_jwt_keys,
  derived_writes, generate_store_secret, validate_store_secret,
}
use shopware_operator.Secrets.Stability.{SameSecret, generate_store_secret_twice}
use shopware_operator.Services.{DatabaseSpec, get_db_spec}
use shopware_operator.Secrets.Ensuring.{ensure_store_secret}
use shopware_operator.Secrets.Content.{Before, ensure_store_secret_content}
use shopware_operator.Secrets.Validation.{validate_store_secret_iff}

abbrev object : Kind → Object
object kind = record {
  kind = kind;
  type_meta = "";
  namespace = "shops";
  name = "demo";
  labels = ("app", "demo") ∷ [];
  annotations = ("team", "web") ∷ [];
  relevant = "{image: shop:2}";
  owner = none;
  resource_version = "";
  cluster_ip = "";
  is_load_balancer = false;
  health_check_node_port = pos 0;
  succeeded = pos 0;
}

-- A cluster in which an object of each type is deployed with a hash; a hash is the text itself.
abbrev api : String → Api
api hash = record {
  get = λ kind namespace name. found (record (object kind) {
    annotations = ("team", "web") ∷ ("shopware.com/last-config-hash", hash) ∷ [];
    resource_version = "7";
    succeeded = pos 1;
  });
  create_error = λ o. none;
  patch_error = λ o. none;
  delete_error = λ o. none;
  owner_error = λ owner o. none;
  polls = λ i. failed "no answer";
  marshal = λ o. o.name;
  md5_hex = λ s. s;
}

sent_is_unchanged_example :
    All
      (Settles (api "old") (object Kind.deployment))
      (ensure_object_with_hash (api "old") (some "demo") (object Kind.deployment)).requests
sent_is_unchanged_example =
    sent_is_unchanged (api "old") (some "demo") (object Kind.deployment) (inl (λ e. cc))

writes_nothing_iff_example :
    ((ensure_object_with_hash (api "old") (some "demo") (object Kind.service)).requests ≡ [])
    ↔ (detect_object_change (api "old") (object Kind.service) ≡ ok unchanged)
writes_nothing_iff_example =
    writes_nothing_iff (api "old") (some "demo") (object Kind.service) _ (inl (λ e. cc)) refl refl
      (λ e. cc) refl

-- The deployed job has succeeded, and is run again.
job_runs_again_example :
    Replaces
      (api "old")
      (object Kind.job)
      (ensure_object_with_hash (api "old") (some "demo") (object Kind.job)).requests
unfolding lookup
job_runs_again_example =
    job_runs_again (api "old") (some "demo") (object Kind.job) _ refl refl refl (λ e. cc) (λ e. cc)
      refl (λ p. refl)

abbrev content : String → Option SecretContent
content password = some (record { data_entries = ("password", password) ∷ []; string_data = [] })

-- The log of a change from `old` to `new` does not tell it from one from `alt` to `neu`.
redact_secrets_hides_example :
    lookup "data/password" (redact_secrets (content "old") (content "new")).1
    ≡ lookup "data/password" (redact_secrets (content "alt") (content "neu")).1
unfolding lookup insert
redact_secrets_hides_example =
    (redact_secrets_hides (content "old") (content "new") (content "alt") (content "neu")
      (λ k. same_keys "old" "alt" k) (λ k. same_keys "new" "neu" k)
      (λ k v w v' w' a b c d. both_differ k v w v' w' a b c d) "data/password").1
  where
    same_keys :
        (p q k : String)
        → (lookup k (secret_values (content p)) ≡ none)
          ↔ (lookup k (secret_values (content q)) ≡ none)
    same_keys p q k = by_test ("data/password" == k)
      where
        by_test :
            (b : Bool)
            → ((if b then some p else none) ≡ none) ↔ ((if b then some q else none) ≡ none)
        by_test true = (λ e. cc, λ e. cc)
        by_test false = (λ e. refl, λ e. refl)

    both_differ :
        (k v w v' w' : String)
        → lookup k (secret_values (content "old")) ≡ some v
        → lookup k (secret_values (content "new")) ≡ some w
        → lookup k (secret_values (content "alt")) ≡ some v'
        → lookup k (secret_values (content "neu")) ≡ some w'
        → (v == w) ≡ (v' == w')
    both_differ k v w v' w' a b c d = by_test ("data/password" == k) a b c d
      where
        by_test :
            (t : Bool)
            → (if t then some "old" else none) ≡ some v
            → (if t then some "new" else none) ≡ some w
            → (if t then some "alt" else none) ≡ some v'
            → (if t then some "neu" else none) ≡ some w'
            → (v == w) ≡ (v' == w')
        by_test true a b c d =
            rw (← eq_of_some-eq a, ← eq_of_some-eq b, ← eq_of_some-eq c, ← eq_of_some-eq d) refl
        by_test false a b c d = cc

abbrev crypto : Crypto
crypto = record {
  rand_int = λ i. ok 7;
  generate_key = ok "key";
  create_certificate = λ key. ok "certificate";
  pem_private_key = λ key. "private";
  pem_certificate = λ certificate. "public";
  base64 = λ s. s;
  query_escape = λ s. s;
}

abbrev inputs : Inputs
inputs = record {
  db_spec = record {
    host = "db";
    port = pos 3306;
    version = "8.0";
    user = "shopware";
    name = "shopware";
    options = "";
    password = "geheim";
    tls_ca = "";
    tls_cert = "";
    tls_key = "";
    tls_client_certificate = false;
    tls_dont_verify_server_certificate = false;
  };
  opensearch_password = "";
  fastly_service_id = "";
  fastly_token = "";
  admin_password = "";
}

-- A secret that has no keys for the tokens yet.
abbrev old_secret : Secret
old_secret = ("app-secret", "a") ∷ ("admin-password", "b") ∷ ("opensearch-url", "c") ∷ []

abbrev new_secret : Secret
new_secret =
    ("app-secret", "a")
    ∷ ("admin-password", "b")
    ∷ ("jwt-private-key", "private")
    ∷ ("jwt-public-key", "public")
    ∷ ("database-password", "geheim")
    ∷ ("database-user", "shopware")
    ∷ ("database-host", "db")
    ∷ ("database-url", "mysql://shopware:geheim@db:3306/shopware?serverVersion=8.0")
    ∷ []

generate_store_secret_twice_example :
    (s : Secret) × (generate_store_secret
        (record crypto {
          rand_int = λ i. err "no entropy";
          generate_key = err "no entropy";
          create_certificate = λ key. err "no entropy";
        })
        (store_in ready)
        inputs
        new_secret
      ≡ ok s)
    × SameSecret new_secret s
unfolding generate_store_secret ensure_app_secret ensure_admin_password ensure_jwt_keys
    derived_writes apply lookup insert erase show
generate_store_secret_twice_example =
    generate_store_secret_twice crypto (store_in ready) inputs (λ i. err "no entropy")
      (err "no entropy") (λ key. err "no entropy") old_secret new_secret refl

-- The cluster has the old secret of the store, and the password of the database.
abbrev secret_env : Env
secret_env = record env {
  get_secret = λ namespace name.
      if name == "store-secret" then found old_secret else found (("password", "geheim") ∷ []);
}

ensure_store_secret_content_example :
    (validate_store_secret (store_in ready) ≡ none)
    × ((spec : DatabaseSpec) × (get_db_spec secret_env (store_in ready) ≡ found spec)
        × (lookup "database-url" new_secret ≡ some (database_url crypto spec)))
    × ((before : Secret) × Before (found old_secret) before
        × ((v : String)
            → lookup "app-secret" before ≡ some v
            → lookup "app-secret" new_secret ≡ some v))
unfolding ensure_store_secret validate_store_secret get_db_spec generate_store_secret
    ensure_app_secret ensure_admin_password ensure_jwt_keys derived_writes apply lookup insert erase
    show
ensure_store_secret_content_example =
    ensure_store_secret_content secret_env crypto (store_in ready) new_secret refl

validate_store_secret_iff_example : validate_store_secret (store_in ready) ≡ none
validate_store_secret_iff_example =
    (validate_store_secret_iff (store_in ready)).1
      (inl (λ e. cc), inl refl, inr (refl, refl), inl (λ e. cc), inr (refl, refl), inl (refl, refl))

abbrev builders : Builders
builders = record {
  store_secret = λ s. ok (object Kind.secret);
  storefront_service = λ s. object Kind.service;
  admin_service = λ s. object Kind.service;
  ingress_name = λ s. "store-demo";
  store_ingress = λ s. object Kind.ingress;
  http_route_name = λ s. "store-demo";
  store_http_route = λ s. object Kind.http_route;
  admin_pdb = λ s. object Kind.disruption_budget;
  storefront_pdb = λ s. object Kind.disruption_budget;
  worker_pdb = λ s. object Kind.disruption_budget;
  storefront_deployment = λ s. object Kind.deployment;
  admin_deployment = λ s. object Kind.deployment;
  worker_deployments = λ s. ok (object Kind.deployment ∷ []);
  worker_scaled_objects = λ s. ok ((object Kind.scaled_object, "demo") ∷ []);
  store_hpa = λ s. object Kind.autoscaler;
  setup_job = λ s. object Kind.job;
  migration_job = λ s. object Kind.job;
  scheduled_task_job = λ s. object Kind.cron_job;
}

abbrev pub world : World
world = record {
  api = api "old";
  build = builders;
  list_worker_deployments = λ s. ok (object Kind.deployment ∷ []);
  list_scaled_objects = λ s. ok [];
  is_gone = λ o. false;
}

world_types : Typed world
world_types = record {
  secret = λ s o e. ap (λ p. p.kind) (eq_of_ok-eq (sym e));
  services = λ s. (refl, (refl, tt));
  ingress = λ s. refl;
  route = λ s. refl;
  budgets = λ s. (refl, (refl, (refl, tt)));
  storefront = λ s. refl;
  admin = λ s. refl;
  workers = λ s os e. rw (← eq_of_ok-eq e) (refl, tt);
  listed = λ s os e. rw (← eq_of_ok-eq e) (refl, tt);
  scaled = λ s os e. rw (← eq_of_ok-eq e) (refl, tt);
  listed_scaled = λ s os e. rw (← eq_of_ok-eq e) tt;
  autoscaler = λ s. refl;
  setup_job = λ s. refl;
  migration_job = λ s. refl;
  task = λ s. refl;
}

-- The sample store runs another image than it names, so its deployments are left alone.
reconcile_resources_confined_example :
    Touches (allowed ready false) (reconcile_resources world base (store_in ready))
reconcile_resources_confined_example =
    reconcile_resources_confined world world_types base (store_in ready)
