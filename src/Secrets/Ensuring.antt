-- ===== src/Secrets/Ensuring.antt =====
-- internal/secret/secret.go, EnsureStoreSecret: the secrets that a store names, read for its own.
use shopware_operator.Prelude.{String, not, Option, none, some, List, [], ◌∷◌, ◌==◌, if◌then◌else◌}
use shopware_operator.Prelude.Text.{concat}
use shopware_operator.Prelude.Assoc.{lookup}
use shopware_operator.Kube.{Reply, found, absent, failed, Secret, Env, Result, ok, err}
use shopware_operator.Api.Store.{SecretRef, Store}
use shopware_operator.Services.{DatabaseSpec, value_of, get_db_spec}
use shopware_operator.Manager.Base.{RecordedEvent}
use shopware_operator.Secrets.{
  Crypto, Inputs, secret_ref_complete, validate_store_secret, generate_store_secret,
}

-- A value, or an error with the events that were recorded before it.
pub data Attempt {ℓ} (A : Type ℓ) : Type ℓ where
  gave : A → Attempt A
  refused : List RecordedEvent → String → Attempt A

infixl 5 ◌>>=◌
abbrev pub ◌>>=◌ {ℓ κ} : {A : Type ℓ} {B : Type κ} → Attempt A → (A → Attempt B) → Attempt B
gave a >>= f = f a
refused events e >>= f = refused events e

abbrev warning : String → String → List RecordedEvent
warning reason message = record { reason = reason; message = message } ∷ []

abbrev missing_message : String → Store → String
missing_message what s =
    concat ("Missing " ∷ what ∷ " secret for Store " ∷ s.name ∷ " in namespace " ∷ s.namespace ∷ [])

abbrev pub validated : Option String → Attempt (Unit {0})
validated none = gave tt
validated (some e) = refused [] e

-- A secret of which a value is read, the empty one for a missing key; `reason` and `what` are the words
-- of the event, `name` that of the errors.
abbrev value_with_event : Store → String → String → String → String → Reply Secret → Attempt String
value_with_event s reason what name key (found data') = gave (value_of key data')
value_with_event s reason what name key (absent e) =
    refused (warning reason (missing_message what s))
      (concat ("can't find " ∷ name ∷ " secret: " ∷ e ∷ []))
value_with_event s reason what name key (failed e) =
    refused [] (concat ("can't read " ∷ name ∷ " secret: " ∷ e ∷ []))

abbrev pub opensearch_password : Env → Store → Attempt String
opensearch_password env s =
    let ref = s.spec.opensearch_spec.password_secret_ref in
    if not s.spec.opensearch_spec.enabled
    then gave ""
    else value_with_event s "Opensearch secret not found" "opensearch" "opensearch" ref.key
        (env.get_secret s.namespace ref.name)

abbrev value_in : SecretRef → String → Option String → Attempt String
value_in ref description (some v) = gave v
value_in ref description none =
    refused []
      (concat (description ∷ " secret " ∷ ref.name ∷ " does not contain key " ∷ ref.key ∷ []))

-- getSecretValue
abbrev get_secret_value : SecretRef → String → Reply Secret → Attempt String
get_secret_value ref description (absent e) =
    refused [] (concat ("can't find " ∷ description ∷ " secret " ∷ ref.name ∷ ": " ∷ e ∷ []))
get_secret_value ref description (failed e) =
    refused [] (concat ("can't read " ∷ description ∷ " secret " ∷ ref.name ∷ ": " ∷ e ∷ []))
get_secret_value ref description (found data') = value_in ref description (lookup ref.key data')

abbrev pub admin_password : Env → Store → Attempt String
admin_password env s =
    let ref = s.spec.admin_credentials.password_secret_ref in
    if ref.name == ""
    then gave ""
    else get_secret_value ref "Admin credentials" (env.get_secret s.namespace ref.name)

abbrev pub fastly_value : Env → Store → SecretRef → Attempt String
fastly_value env s ref =
    if secret_ref_complete ref
    then value_with_event s "Fastly secret not found" "Fastly" "Fastly" ref.key
        (env.get_secret s.namespace ref.name)
    else gave ""

abbrev pub database_of : Store → Reply DatabaseSpec → Attempt DatabaseSpec
database_of s (found spec) = gave spec
database_of s (absent e) =
    refused (warning "DB secret not found" (concat (missing_message "database" s ∷ ": " ∷ e ∷ [])))
      (concat ("can't find database secret: " ∷ e ∷ []))
database_of s (failed e) = refused [] (concat ("can't read database secret: " ∷ e ∷ []))

-- `client.IgnoreNotFound` of the request for the store's own secret
abbrev pub own_secret : Reply Secret → Attempt Secret
own_secret (found data') = gave data'
own_secret (absent e) = gave []
own_secret (failed e) = refused [] (concat ("get store secret: " ∷ e ∷ []))

abbrev pub filled_secret : Result Secret → Attempt Secret
filled_secret (ok secret) = gave secret
filled_secret (err e) = refused [] (concat ("fill store secret: " ∷ e ∷ []))

-- EnsureStoreSecret: the content of the secret
unfoldable pub ensure_store_secret : Env → Crypto → Store → Attempt Secret
ensure_store_secret env crypto s = do
  valid ← validated (validate_store_secret s)
  opensearch ← opensearch_password env s
  admin ← admin_password env s
  token ← fastly_value env s s.spec.fastly.token_ref
  service ← fastly_value env s s.spec.fastly.service_ref
  spec ← database_of s (get_db_spec env s)
  secret ← own_secret (env.get_secret s.namespace s.spec.secret_name)
  let inputs : Inputs = record {
    db_spec = spec;
    opensearch_password = opensearch;
    fastly_service_id = service;
    fastly_token = token;
    admin_password = admin;
  }
  filled_secret (generate_store_secret crypto s inputs secret)
