-- ===== src/Secrets/Validation.antt =====
-- internal/secret/secret.go, validateStoreSecret: what a store must name before its secret is made.
use shopware_operator.Prelude.{
  String, ◌≡◌, refl, ◌≢◌, ◌↔◌, ◌⊎◌, Bool, true, false, not, ◌&&◌, Option, none, some, arith, ◌==◌,
  eq_iff, if◌then◌else◌,
}
use shopware_operator.Api.Store.{SecretRef, Store}
use shopware_operator.Secrets.{
  secret_ref_provided, secret_ref_complete, invalid_secret_ref, validate_store_secret,
}

-- The reference names a secret and a key in it.
abbrev Complete : SecretRef → Type 0
Complete ref = (ref.name ≢ "") × (ref.key ≢ "")

-- The reference names neither.
abbrev Blank : SecretRef → Type 0
Blank ref = (ref.name ≡ "") × (ref.key ≡ "")

first_passes :
    (b : Bool) (e : String) (rest : Option String)
    → ((if b then some e else rest) ≡ none) ↔ ((b ≡ false) × (rest ≡ none))
first_passes true e rest = (λ h. cc, λ h. cc)
first_passes false e rest = (λ h. (refl, h), λ h. h.1)

Complete-iff : (ref : SecretRef) → (secret_ref_complete ref ≡ true) ↔ Complete ref
Complete-iff ref = ground (arith, eq_iff ref.name "", eq_iff ref.key "")

valid_iff : (ref : SecretRef) → (invalid_secret_ref ref ≡ false) ↔ (Complete ref ⊎ Blank ref)
valid_iff ref = ground (arith, eq_iff ref.name "", eq_iff ref.key "")

named_iff :
    (host name : String) → ((host == "" && name == "") ≡ false) ↔ ((host ≢ "") ⊎ (name ≢ ""))
named_iff host name = ground (arith, eq_iff host "", eq_iff name "")

enabled_iff :
    (enabled : Bool) (ref : SecretRef)
    → ((enabled && not (secret_ref_complete ref)) ≡ false) ↔ ((enabled ≡ false) ⊎ Complete ref)
enabled_iff enabled ref = ground (arith, Complete-iff ref)

username_iff :
    (username : String) (ref : SecretRef)
    → ((username == "" && not (secret_ref_complete ref)) ≡ false) ↔ ((username ≢ "") ⊎ Complete ref)
username_iff username ref = ground (arith, eq_iff username "", Complete-iff ref)

token_iff :
    (service token : SecretRef)
    → ((secret_ref_provided service && not (secret_ref_complete token)) ≡ false)
      ↔ (Blank service ⊎ Complete token)
token_iff service token =
    ground (arith, eq_iff service.name "", eq_iff service.key "", Complete-iff token)

-- A store is valid exactly when it names the host of its database or a secret that has it, a complete
-- reference to a password if OpenSearch is enabled, references to the administrator's name and
-- password that are complete or blank, the administrator's name itself if it has no complete reference,
-- and a complete reference to a Fastly token unless the reference to the service is blank.
pub validate_store_secret_iff :
    (store : Store)
    → let admin = store.spec.admin_credentials in
      let fastly = store.spec.fastly in
      (validate_store_secret store ≡ none) ↔ (
        ((store.spec.database.host ≢ "") ⊎ (store.spec.database.host_ref.name ≢ ""))
        × ((store.spec.opensearch_spec.enabled ≡ false)
            ⊎ Complete store.spec.opensearch_spec.password_secret_ref)
        × (Complete admin.username_secret_ref ⊎ Blank admin.username_secret_ref)
        × ((admin.username ≢ "") ⊎ Complete admin.username_secret_ref)
        × (Complete admin.password_secret_ref ⊎ Blank admin.password_secret_ref)
        × (Blank fastly.service_ref ⊎ Complete fastly.token_ref))
unfolding validate_store_secret
validate_store_secret_iff store =
    let host = named_iff store.spec.database.host store.spec.database.host_ref.name in
    let os =
      enabled_iff store.spec.opensearch_spec.enabled
        store.spec.opensearch_spec.password_secret_ref in
    let admin = store.spec.admin_credentials in
    let user_ref = valid_iff admin.username_secret_ref in
    let user = username_iff admin.username admin.username_secret_ref in
    let password = valid_iff admin.password_secret_ref in
    let token = token_iff store.spec.fastly.service_ref store.spec.fastly.token_ref in
    (
      λ h.
          let (a, h1) = (first_passes _ _ _).0 h in
          let (b, h2) = (first_passes _ _ _).0 h1 in
          let (c, h3) = (first_passes _ _ _).0 h2 in
          let (d, h4) = (first_passes _ _ _).0 h3 in
          let (e, h5) = (first_passes _ _ _).0 h4 in
          let (f, h6) = (first_passes _ _ _).0 h5 in
          (host.0 a, os.0 b, user_ref.0 c, user.0 d, password.0 e, token.0 f),
      λ (a, b, c, d, e, f).
          rw (host.1 a, os.1 b, user_ref.1 c, user.1 d, password.1 e, token.1 f) refl,
    )
