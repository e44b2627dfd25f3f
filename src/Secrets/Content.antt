-- ===== src/Secrets/Content.antt =====
-- What the secret of a store holds after EnsureStoreSecret.
use Prim.Native.String.{len}
use shopware_operator.Prelude.{
  String, ◌≡◌, refl, sym, ap, ◌∙◌, ◌⊎◌, inl, inr, Bool, true, false, ◌&&◌, Option, none, some, [],
  ◌∷◌, ltb,
}
use shopware_operator.Prelude.Assoc.{lookup}
use shopware_operator.Kube.{Reply, found, absent, failed, Secret, Env, Result, ok, err, eq_of_ok-eq}
use shopware_operator.Api.Store.{Store}
use shopware_operator.Services.{DatabaseSpec, get_db_spec}
use shopware_operator.Secrets.{
  Crypto, Inputs, database_url, validate_store_secret, opensearch_write, fastly_writes,
  derived_writes, ensure_app_secret, generate_store_secret,
}
use shopware_operator.Secrets.Writes.{written}
use shopware_operator.Secrets.Filling.{admin_password_frame, jwt_keys_frame}
use shopware_operator.Secrets.Stability.{KeptByDerived, Steps-of, lookup-derived, app_secret_kept}
use shopware_operator.Secrets.Ensuring.{
  Attempt, gave, refused, ◌>>=◌, validated, opensearch_password, admin_password, fastly_value,
  database_of, own_secret, filled_secret, ensure_store_secret,
}

bind_gave :
    {A B : Type 0} (r : Attempt A) (f : A → Attempt B) {b : B}
    → r >>= f ≡ gave b
    → (a : A) × (r ≡ gave a) × (f a ≡ gave b)
bind_gave (gave a) f h = (a, refl, h)
bind_gave (refused events e) f h = cc

eq_of_gave : {A : Type 0} {x y : A} → gave x ≡ gave y → x ≡ y
eq_of_gave e = cc

valid_of : (o : Option String) {u : Unit {0}} → validated o ≡ gave u → o ≡ none
valid_of none h = refl
valid_of (some e) h = cc

spec_of :
    (s : Store) (r : Reply DatabaseSpec) {spec : DatabaseSpec}
    → database_of s r ≡ gave spec
    → r ≡ found spec
spec_of s (found spec) h = ap found (eq_of_gave h)
spec_of s (absent e) h = cc
spec_of s (failed e) h = cc

-- The secret that the API server has, or an empty one where it has none.
abbrev pub Before : Reply Secret → Secret → Type 0
Before reply before = (reply ≡ found before) ⊎ ((e : String) × (reply ≡ absent e) × (before ≡ []))

Before-own_secret :
    (r : Reply Secret) {before : Secret} → own_secret r ≡ gave before → Before r before
Before-own_secret (found data') h = inl (ap found (eq_of_gave h))
Before-own_secret (absent e) h = inr (e, refl, sym (eq_of_gave h))
Before-own_secret (failed e) h = cc

filled_of : (r : Result Secret) {s : Secret} → filled_secret r ≡ gave s → r ≡ ok s
filled_of (ok secret) h = ap ok (eq_of_gave h)
filled_of (err e) h = cc

module _ (crypto : Crypto) (store : Store) (inputs : Inputs) where
  url_written :
      (o : Option String)
      → written "database-url" (derived_writes crypto store inputs) o
        ≡ some (database_url crypto inputs.db_spec)
  unfolding written derived_writes
  url_written o =
      by_cases store.spec.opensearch_spec.enabled
        (ltb 0 (len inputs.fastly_service_id) && ltb 0 (len inputs.fastly_token))
    where
      by_cases :
          (enabled fastly : Bool)
          → written "database-url"
              (opensearch_write crypto store inputs enabled ∷ fastly_writes inputs fastly)
              (some (database_url crypto inputs.db_spec))
            ≡ some (database_url crypto inputs.db_spec)
      by_cases true true = refl
      by_cases true false = refl
      by_cases false true = refl
      by_cases false false = refl

  app_secret_same :
      (m m' : Secret) (v : String)
      → lookup "app-secret" m ≡ some v
      → ensure_app_secret crypto m ≡ ok m'
      → lookup "app-secret" m' ≡ some v
  unfolding ensure_app_secret
  app_secret_same m m' v e h = ap (lookup "app-secret") (sym (eq_of_ok-eq (rw e at h))) ∙ e

  app_secret_survives :
      (s s' : Secret) (v : String)
      → generate_store_secret crypto store inputs s ≡ ok s'
      → lookup "app-secret" s ≡ some v
      → lookup "app-secret" s' ≡ some v
  unfolding KeptByDerived
  app_secret_survives s s' v h e =
      let st = Steps-of crypto store inputs s s' h in
      lookup-derived crypto store inputs s s' st "app-secret"
      ∙ app_secret_kept crypto store inputs (lookup "app-secret" st.with_jwt)
      ∙ jwt_keys_frame crypto store inputs "app-secret" st.with_admin st.with_jwt refl refl
          st.jwt_made
      ∙ admin_password_frame crypto store inputs "app-secret" st.with_app st.with_admin refl
          st.admin_made
      ∙ app_secret_same s st.with_app v e st.app_made

-- If EnsureStoreSecret gives a secret, then the store is valid, the database it names can be read, the
-- secret has the URL of that database, and the application secret that the API server has for the store,
-- if there is one, is still its application secret.
pub ensure_store_secret_content :
    (env : Env) (crypto : Crypto) (store : Store) (secret : Secret)
    → ensure_store_secret env crypto store ≡ gave secret
    → (validate_store_secret store ≡ none)
      × ((spec : DatabaseSpec) × (get_db_spec env store ≡ found spec)
          × (lookup "database-url" secret ≡ some (database_url crypto spec)))
      × ((before : Secret) × Before (env.get_secret store.namespace store.spec.secret_name) before
          × ((v : String)
              → lookup "app-secret" before ≡ some v
              → lookup "app-secret" secret ≡ some v))
unfolding ensure_store_secret
ensure_store_secret_content env crypto store secret h =
    let (u, valid, h1) = bind_gave (validated (validate_store_secret store)) _ h in
    let (opensearch, p, h2) = bind_gave (opensearch_password env store) _ h1 in
    let (admin, q, h3) = bind_gave (admin_password env store) _ h2 in
    let (token, t, h4) = bind_gave (fastly_value env store store.spec.fastly.token_ref) _ h3 in
    let (service, r, h5) = bind_gave (fastly_value env store store.spec.fastly.service_ref) _ h4 in
    let (spec, d, h6) = bind_gave (database_of store (get_db_spec env store)) _ h5 in
    let (before, o, h7) =
      bind_gave (own_secret (env.get_secret store.namespace store.spec.secret_name)) _ h6 in
    let inputs : Inputs = record {
      db_spec = spec;
      opensearch_password = opensearch;
      fastly_service_id = service;
      fastly_token = token;
      admin_password = admin;
    } in
    let made = filled_of (generate_store_secret crypto store inputs before) h7 in
    let st = Steps-of crypto store inputs before secret made in
    (
      valid_of (validate_store_secret store) valid,
      (
        spec,
        spec_of store (get_db_spec env store) d,
        lookup-derived crypto store inputs before secret st "database-url"
            ∙ url_written crypto store inputs (lookup "database-url" st.with_jwt),
      ),
      (
        before,
        Before-own_secret (env.get_secret store.namespace store.spec.secret_name) o,
        λ v e. app_secret_survives crypto store inputs before secret v made e,
      ),
    )
