-- ===== src/Services.antt =====
-- internal/util/db.go and the connection test of internal/util/s3.go: the services that a store
-- needs, as the operator looks for them.
mod Fold
pub mod Buckets
use Fold.{equal_fold, contains}
use shopware_operator.Prelude.{
  ℕ, String, Bool, true, false, not, ◌&&◌, ◌||◌, Option, none, some, List, [], ◌∷◌, eqb, ◌==◌,
  if◌then◌else◌,
}
use shopware_operator.Prelude.Int.{ℤ, pos, eqb_ℤ}
use shopware_operator.Prelude.Text.{concat, show}
use shopware_operator.Prelude.Assoc.{lookup}
use shopware_operator.Kube.{
  Reply, found, absent, failed, Secret, SqlConfig, SqlError, Env, Result, ok, err, ◌>>=◌, wrap,
}
use shopware_operator.Api.Store.{SecretRef, S3Storage, Store}

-- `util.DatabaseSpec`: the TLS fields are the contents of the secret.
pub record DatabaseSpec : Type 0 where
  pub host : String
  pub port : ℤ
  pub version : String
  pub user : String
  pub name : String
  pub options : String
  pub password : String
  pub tls_ca : String
  pub tls_cert : String
  pub tls_key : String
  pub tls_client_certificate : Bool
  pub tls_dont_verify_server_certificate : Bool

-- `m[k]` of a Go map of byte strings: the empty one for a missing key
abbrev pub value_of : String → Secret → String
value_of key data' = elim (lookup key data') [ none ↦ "" | some v ↦ v ]

-- `if v, ok = m[k]; !ok || len(v) == 0 { return error }`
abbrev pub filled : String → Option String → Reply String
filled e none = failed e
filled e (some v) = if v == "" then failed e else found v

abbrev pub present : String → Option String → Reply String
present e none = failed e
present e (some v) = found v

abbrev secret_of : Env → Store → String → Reply Secret
secret_of env store name = env.get_secret store.namespace name

abbrev db_host : Env → Store → Reply String
db_host env store =
    let ref = store.spec.database.host_ref in
    if ref.name == ""
    then found store.spec.database.host
    else (do data' ← secret_of env store ref.name; found (value_of ref.key data'))

abbrev db_password : Env → Store → Reply String
db_password env store = do
  let ref = store.spec.database.password_secret_ref
  data' ← secret_of env store ref.name
  present (concat ("password key " ∷ ref.key ∷ " not found in secret " ∷ ref.name ∷ []))
      (lookup ref.key data')

-- DatabaseSpec.RequiresTLSSecret, and `tlsRequired`
abbrev tls_required : Store → Bool
tls_required store =
    not (store.spec.database.tls_secret_name == "")
    || equal_fold store.spec.database.ssl_mode "REQUIRED"

abbrev plain_spec : Store → String → String → DatabaseSpec
plain_spec store host password = record {
  host = host;
  port = store.spec.database.port;
  version = store.spec.database.version;
  user = store.spec.database.user;
  name = store.spec.database.name;
  options = store.spec.database.options;
  password = password;
  tls_ca = "";
  tls_cert = "";
  tls_key = "";
  tls_client_certificate = store.spec.database.tls_client_certificate;
  tls_dont_verify_server_certificate = store.spec.database.tls_dont_verify_server_certificate;
}

abbrev missing_key : String → Store → String
missing_key key store =
    concat
      (key ∷ " key not found in database tls secret " ∷ store.spec.database.tls_secret_name ∷ [])

abbrev tls_spec : Env → Store → DatabaseSpec → Reply DatabaseSpec
tls_spec env store spec = do
  data' ← wrap "get database tls secret: " (secret_of env store store.spec.database.tls_secret_name)
  ca ← filled (missing_key "ca.crt" store) (lookup "ca.crt" data')
  if not spec.tls_client_certificate then found (record spec { tls_ca = ca }) else do
    cert ← filled (missing_key "tls.crt" store) (lookup "tls.crt" data')
    key ← filled (missing_key "tls.key" store) (lookup "tls.key" data')
    found (record spec { tls_ca = ca; tls_cert = cert; tls_key = key })

abbrev with_tls : Env → Store → DatabaseSpec → Reply DatabaseSpec
with_tls env store spec =
    if not (tls_required store)
    then found spec
    else if store.spec.database.tls_secret_name == ""
    then failed "database tls secretName is required when sslMode is REQUIRED"
    else tls_spec env store spec

-- GetDBSpec
unfoldable pub get_db_spec : Env → Store → Reply DatabaseSpec
unfolding equal_fold
get_db_spec env store = do
  host ← db_host env store
  password ← db_password env store
  let spec = plain_spec store host password
  with_tls env store spec

-- databaseTLSConfig, of which only the error is read
abbrev database_tls_config : Env → DatabaseSpec → Option String
database_tls_config env spec =
    if not (env.append_certs spec.tls_ca)
    then some "parse database TLS CA certificate"
    else if not spec.tls_client_certificate
    then none
    else elim (env.key_pair spec.tls_cert spec.tls_key) [
      | ok _ ↦ none
      | err e ↦ some (concat ("parse database TLS client certificate: " ∷ e ∷ []))
    ]

-- `net.JoinHostPort`
abbrev join_host_port : String → String → String
join_host_port host port =
    if contains b':' host || contains b'%' host
    then concat ("[" ∷ host ∷ "]:" ∷ port ∷ [])
    else concat (host ∷ ":" ∷ port ∷ [])

abbrev sql_config : DatabaseSpec → SqlConfig
sql_config spec = record {
  user = spec.user;
  passwd = spec.password;
  addr = join_host_port spec.host (show (if eqb_ℤ spec.port (pos 0) then pos 3306 else spec.port));
  db_name = spec.name;
  tls = not (spec.tls_ca == "");
}

-- Error 1049: an unknown database is no reason to wait, the setup creates it.
abbrev ping_error : Option SqlError → Option String
ping_error none = none
ping_error (some e) = elim e.number [
  | none ↦ some e.text
  | some n ↦ if eqb n 1049 then none else some e.text
]

abbrev connect : Env → SqlConfig → Option String
connect env config = elim (env.new_connector config) [
  | err e ↦ some e
  | ok _ ↦ ping_error (env.ping config)
]

-- TestSQLConnection: `none` is a nil error.
unfoldable pub test_sql_connection : Env → DatabaseSpec → Option String
test_sql_connection env spec =
    let connection = connect env (sql_config spec) in
    if spec.tls_ca == ""
    then connection
    else elim (database_tls_config env spec) [ some e ↦ some e | none ↦ connection ]

-- The loop of TestS3Connection over the buckets, with its variables `public` and `private`.
unfoldable pub scan_buckets : S3Storage → Bool → Bool → List String → Bool × Bool
scan_buckets s public private [] = (public, private)
scan_buckets s public private (b ∷ bs) =
    scan_buckets s (if b == s.public_bucket_name then true else public)
      (if not (b == s.private_bucket_name) then true else private) bs

abbrev pub check_buckets : S3Storage → List String → Option String
unfolding scan_buckets
check_buckets s buckets =
    let (public, private) = scan_buckets s false false buckets in
    if public && private then none else some "public bucket is not available yet"

-- TestS3Connection
unfoldable pub test_s3_connection : Env → S3Storage → String → String → Option String
test_s3_connection env s key_id secret_key = elim (env.parse_url s.endpoint_url) [
  | err e ↦ some (concat ("parsing url failed: " ∷ e ∷ []))
  | ok endpoint ↦ elim (env.new_client endpoint key_id secret_key) [
    | err e ↦ some e
    | ok _ ↦ elim (env.list_buckets endpoint key_id secret_key) [
      | err e ↦ some (concat ("listing buckets failed: " ∷ e ∷ []))
      | ok buckets ↦ check_buckets s buckets
    ]
  ]
]
