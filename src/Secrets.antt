-- ===== src/Secrets.antt =====
-- internal/secret/secret.go: the secret of a store, which holds what its containers read; with
-- internal/util/db.go and internal/util/opensearch.go for the URLs in it.
pub mod Writes
pub mod Filling
pub mod Validation
pub mod Ensuring
pub mod Content
pub mod Stability
use Prim.Native.String.{◌∷◌ as letter_before, char_at, len}
use shopware_operator.Prelude.{
  ℕ, zero, suc, String, Bool, true, false, not, ◌&&◌, ◌||◌, Option, none, some, List, [], ◌∷◌, ltb,
  ◌==◌, if◌then◌else◌,
}
use shopware_operator.Prelude.Int.{ℤ}
use shopware_operator.Prelude.Text.{concat, show}
use shopware_operator.Prelude.Assoc.{insert, lookup}
use shopware_operator.Kube.{Reply, found, absent, failed, Secret, Env, Result, ok, err}
use shopware_operator.Api.Store.{SecretRef, OpensearchSpec, Store}
use shopware_operator.Services.{DatabaseSpec, value_of, get_db_spec}
use Writes.{Write, set, remove, apply}

-- The libraries that secrets are made by: crypto/rand with the numbers below 62 that it draws,
-- crypto/rsa, crypto/x509, encoding/pem, encoding/base64 and `url.QueryEscape`.
pub record Crypto : Type 0 where
  pub rand_int : ℕ → Result ℕ
  pub generate_key : Result String
  pub create_certificate : String → Result String
  pub pem_private_key : String → String
  pub pem_certificate : String → String
  pub base64 : String → String
  pub query_escape : String → String

infixl 5 ◌>>=◌
-- `if err != nil { return err }`
abbrev pub ◌>>=◌ {ℓ κ} : {A : Type ℓ} {B : Type κ} → Result A → (A → Result B) → Result B
ok a >>= f = f a
err e >>= f = err e

-- `fmt.Errorf("text: %w", err)`
abbrev pub wrap {ℓ} : {A : Type ℓ} → String → Result A → Result A
wrap text (ok a) = ok a
wrap text (err e) = err (concat (text ∷ ": " ∷ e ∷ []))

abbrev pub pass_symbols : String
pass_symbols = "ABCDEFGHIJKLMNOPQRSTUVWXYZabcdefghijklmnopqrstuvwxyz0123456789"

-- generatePass, from the number of the next draw and the letters that are left
unfoldable pub generate_pass : Crypto → ℕ → ℕ → Result String
generate_pass crypto draw zero = ok ""
generate_pass crypto draw (suc left) = do
  n ← wrap "get rand int" (crypto.rand_int draw)
  rest ← generate_pass crypto (suc draw) left
  ok (letter_before (char_at pass_symbols n) rest)

-- generatePublicKey
abbrev generate_public_key : Crypto → String → Result String
generate_public_key crypto key = do
  der ← crypto.create_certificate key
  ok (crypto.pem_certificate der)

-- generatePrivatePublicKey
abbrev pub generate_private_public_key : Crypto → Result (String × String)
generate_private_public_key crypto = do
  key ← crypto.generate_key
  public ← wrap "unable to generate public key" (generate_public_key crypto key)
  ok (crypto.pem_private_key key, public)

-- GenerateDatabaseURLForShopware
abbrev pub database_url : Crypto → DatabaseSpec → String
database_url crypto spec = concat (
    "mysql://"
    ∷ spec.user
    ∷ ":"
    ∷ crypto.query_escape spec.password
    ∷ "@"
    ∷ spec.host
    ∷ ":"
    ∷ show spec.port
    ∷ "/"
    ∷ spec.name
    ∷ "?serverVersion="
    ∷ spec.version
    ∷ (if spec.options == "" then "" else concat ("&" ∷ spec.options ∷ []))
    ∷ [])

-- GenerateOpensearchURLForShopware
abbrev opensearch_url : Crypto → OpensearchSpec → String → String
opensearch_url crypto os password = concat (
    os.schema
    ∷ "://"
    ∷ os.username
    ∷ ":"
    ∷ crypto.query_escape password
    ∷ "@"
    ∷ os.host
    ∷ ":"
    ∷ show os.port
    ∷ [])

-- secretRefProvided
abbrev pub secret_ref_provided : SecretRef → Bool
secret_ref_provided ref = not (ref.name == "") || not (ref.key == "")

-- secretRefComplete
abbrev pub secret_ref_complete : SecretRef → Bool
secret_ref_complete ref = not (ref.name == "") && not (ref.key == "")

-- invalidSecretRef
abbrev pub invalid_secret_ref : SecretRef → Bool
invalid_secret_ref ref = secret_ref_provided ref && not (secret_ref_complete ref)

abbrev for_store : String → Store → Option String
for_store text store = some (concat (text ∷ store.name ∷ []))

-- validateStoreSecret: the error, if there is one
unfoldable pub validate_store_secret : Store → Option String
validate_store_secret store =
    let admin = store.spec.admin_credentials in
    let fastly = store.spec.fastly in
    if store.spec.database.host == "" && store.spec.database.host_ref.name == ""
    then some (
        concat (
          "database host is empty for store " ∷ store.name ∷ ". Either set host or a hostRef" ∷ []))
    else if store.spec.opensearch_spec.enabled
        && not (secret_ref_complete store.spec.opensearch_spec.password_secret_ref)
    then for_store "opensearch is enabled but passwordSecretRef key or name is empty for store "
        store
    else if invalid_secret_ref admin.username_secret_ref
    then for_store "admin usernameSecretRef key or name is empty for store " store
    else if admin.username == "" && not (secret_ref_complete admin.username_secret_ref)
    then for_store "admin username or a complete usernameSecretRef is required for store " store
    else if invalid_secret_ref admin.password_secret_ref
    then for_store "admin passwordSecretRef key or name is empty for store " store
    else if secret_ref_provided fastly.service_ref && not (secret_ref_complete fastly.token_ref)
    then some (
        concat (
          "fastly apiTokenSecretRef key or name is empty for store " ∷ store.name
          ∷ ". Unset the fastlyServiceID or provide a secret" ∷ []))
    else none

-- The values that EnsureStoreSecret reads for GenerateStoreSecret.
pub record Inputs : Type 0 where
  pub db_spec : DatabaseSpec
  pub opensearch_password : String
  pub fastly_service_id : String
  pub fastly_token : String
  pub admin_password : String

abbrev app_secret_from : Crypto → Secret → Option String → Result Secret
app_secret_from crypto secret (some v) = ok secret
app_secret_from crypto secret none = do
  pass ← wrap "generate app secret" (generate_pass crypto 0 128)
  ok (insert "app-secret" pass secret)

unfoldable pub ensure_app_secret : Crypto → Secret → Result Secret
unfolding generate_pass
ensure_app_secret crypto secret = app_secret_from crypto secret (lookup "app-secret" secret)

abbrev new_admin_password : Crypto → Store → Secret → Option String → Result Secret
new_admin_password crypto store secret (some v) = ok secret
new_admin_password crypto store secret none =
    if not (store.spec.admin_credentials.password == "")
    then ok (insert "admin-password" store.spec.admin_credentials.password secret)
    else (do
      pass ← wrap "generate admin secret" (generate_pass crypto 128 20)
      ok (insert "admin-password" pass secret))

unfoldable pub ensure_admin_password : Crypto → Store → Inputs → Secret → Result Secret
unfolding generate_pass
ensure_admin_password crypto store inputs secret =
    if secret_ref_complete store.spec.admin_credentials.password_secret_ref
    then ok (insert "admin-password" inputs.admin_password secret)
    else new_admin_password crypto store secret (lookup "admin-password" secret)

abbrev jwt_keys_from : Crypto → Secret → Option String → Result Secret
jwt_keys_from crypto secret (some v) = ok secret
jwt_keys_from crypto secret none = do
  keys ← wrap "create jwt keys" (generate_private_public_key crypto)
  ok (
      insert "jwt-public-key" (crypto.base64 keys.1)
        (insert "jwt-private-key" (crypto.base64 keys.0) secret))

unfoldable pub ensure_jwt_keys : Crypto → Secret → Result Secret
ensure_jwt_keys crypto secret = jwt_keys_from crypto secret (lookup "jwt-private-key" secret)

abbrev pub opensearch_write : Crypto → Store → Inputs → Bool → Write
opensearch_write crypto store inputs true =
    set "opensearch-url"
      (opensearch_url crypto store.spec.opensearch_spec inputs.opensearch_password)
opensearch_write crypto store inputs false = remove "opensearch-url"

abbrev pub fastly_writes : Inputs → Bool → List Write
fastly_writes inputs true =
    set "fastly-token" inputs.fastly_token ∷ set "fastly-service-id" inputs.fastly_service_id ∷ []
fastly_writes inputs false = []

-- What GenerateStoreSecret writes whatever the secret has.
unfoldable pub derived_writes : Crypto → Store → Inputs → List Write
derived_writes crypto store inputs =
    set "database-password" (crypto.query_escape inputs.db_spec.password)
    ∷ set "database-user" inputs.db_spec.user
    ∷ set "database-host" inputs.db_spec.host
    ∷ set "database-url" (database_url crypto inputs.db_spec)
    ∷ opensearch_write crypto store inputs store.spec.opensearch_spec.enabled
    ∷ fastly_writes inputs (ltb 0 (len inputs.fastly_service_id) && ltb 0 (len inputs.fastly_token))

-- GenerateStoreSecret
unfoldable pub generate_store_secret : Crypto → Store → Inputs → Secret → Result Secret
unfolding ensure_app_secret ensure_admin_password ensure_jwt_keys derived_writes apply
generate_store_secret crypto store inputs secret = do
  with_app ← ensure_app_secret crypto secret
  with_admin ← ensure_admin_password crypto store inputs with_app
  with_jwt ← ensure_jwt_keys crypto with_admin
  ok (apply (derived_writes crypto store inputs) with_jwt)
