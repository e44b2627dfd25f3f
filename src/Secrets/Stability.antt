-- ===== src/Secrets/Stability.antt =====
-- internal/secret/secret.go, GenerateStoreSecret: what a further reconcile does to the secret of a store.
use Prim.Native.String.{len}
use shopware_operator.Prelude.{
  eq_iff, ℕ, String, ◌≡◌, refl, sym, ap, ◌∙◌, Bool, true, false, ◌&&◌, Option, some, ◌∷◌, ltb, ◌==◌,
  inl, inr, Bool-cases,
}
use shopware_operator.Prelude.Assoc.{insert, lookup, lookup-insert}
use shopware_operator.Kube.{Secret, Result, ok, eq_of_ok-eq}
use shopware_operator.Api.Store.{Store}
use shopware_operator.Secrets.{
  Crypto, Inputs, database_url, secret_ref_complete, ensure_app_secret, ensure_admin_password,
  ensure_jwt_keys, opensearch_write, fastly_writes, derived_writes, generate_store_secret,
}
use shopware_operator.Secrets.Writes.{set, apply, written, lookup-apply, written_twice}
use shopware_operator.Secrets.Filling.{
  bind_ok, app_secret_filled, admin_password_filled, admin_password_frame,
  admin_password_referenced, jwt_keys_filled, jwt_keys_frame,
}

-- The two secrets have the same value, or none, at every key.
abbrev pub SameSecret : Secret → Secret → Type 0
SameSecret s t = (k : String) → lookup k s ≡ lookup k t

-- A key that only the generated credentials have: the derived values leave it alone.
unfoldable pub KeptByDerived : Crypto → Store → Inputs → String → Type 0
KeptByDerived crypto store inputs k =
    (o : Option String) → written k (derived_writes crypto store inputs) o ≡ o

-- The key is none of those of the derived values.
abbrev Foreign : String → Type 0
Foreign k =
    ("database-password" == k ≡ false)
    × ("database-user" == k ≡ false)
    × ("database-host" == k ≡ false)
    × ("database-url" == k ≡ false)
    × ("opensearch-url" == k ≡ false)
    × ("fastly-token" == k ≡ false)
    × ("fastly-service-id" == k ≡ false)

module _ (crypto : Crypto) (store : Store) (inputs : Inputs) where
  kept_by_derived : (k : String) → Foreign k → KeptByDerived crypto store inputs k
  unfolding KeptByDerived derived_writes written
  kept_by_derived k (password, user, host, url, opensearch, token, service) o =
      by_cases (crypto.query_escape inputs.db_spec.password) inputs.db_spec.user inputs.db_spec.host
        (database_url crypto inputs.db_spec) store.spec.opensearch_spec.enabled
        (ltb 0 (len inputs.fastly_service_id) && ltb 0 (len inputs.fastly_token))
    where
      by_cases :
          (a b c d : String) (enabled fastly : Bool)
          → written k
              (set "database-password" a
                ∷ set "database-user" b
                ∷ set "database-host" c
                ∷ set "database-url" d
                ∷ opensearch_write crypto store inputs enabled
                ∷ fastly_writes inputs fastly)
              o
            ≡ o
      by_cases a b c d true true = rw (password, user, host, url, opensearch, token, service) refl
      by_cases a b c d true false = rw (password, user, host, url, opensearch) refl
      by_cases a b c d false true = rw (password, user, host, url, opensearch, token, service) refl
      by_cases a b c d false false = rw (password, user, host, url, opensearch) refl

  pub app_secret_kept : KeptByDerived crypto store inputs "app-secret"
  app_secret_kept = kept_by_derived "app-secret" (refl, refl, refl, refl, refl, refl, refl)

  admin_password_kept : KeptByDerived crypto store inputs "admin-password"
  admin_password_kept = kept_by_derived "admin-password" (refl, refl, refl, refl, refl, refl, refl)

  pub private_key_kept : KeptByDerived crypto store inputs "jwt-private-key"
  private_key_kept = kept_by_derived "jwt-private-key" (refl, refl, refl, refl, refl, refl, refl)

  -- The secrets between the steps of a generation.
  pub record Steps (s s' : Secret) : Type 0 where
    pub with_app : Secret
    pub with_admin : Secret
    pub with_jwt : Secret
    pub app_made : ensure_app_secret crypto s ≡ ok with_app
    pub admin_made : ensure_admin_password crypto store inputs with_app ≡ ok with_admin
    pub jwt_made : ensure_jwt_keys crypto with_admin ≡ ok with_jwt
    pub derived : apply (derived_writes crypto store inputs) with_jwt ≡ s'

  pub Steps-of : (s s' : Secret) → generate_store_secret crypto store inputs s ≡ ok s' → Steps s s'
  unfolding generate_store_secret
  Steps-of s s' h =
      let (a, p, h1) = bind_ok (ensure_app_secret crypto s) _ h in
      let (b, q, h2) = bind_ok (ensure_admin_password crypto store inputs a) _ h1 in
      let (c, r, h3) = bind_ok (ensure_jwt_keys crypto b) _ h2 in
      record {
        with_app = a;
        with_admin = b;
        with_jwt = c;
        app_made = p;
        admin_made = q;
        jwt_made = r;
        derived = eq_of_ok-eq h3;
      }

  pub lookup-derived :
      (s s' : Secret) (st : Steps s s') (k : String)
      → lookup k s' ≡ written k (derived_writes crypto store inputs) (lookup k st.with_jwt)
  lookup-derived s s' st k =
      ap (lookup k) (sym st.derived)
      ∙ lookup-apply k (derived_writes crypto store inputs) st.with_jwt

  app_secret_there : (s s' : Secret) → Steps s s' → (v : String) × (lookup "app-secret" s' ≡ some v)
  unfolding KeptByDerived
  app_secret_there s s' st =
      let (v, e) = app_secret_filled crypto store inputs s st.with_app st.app_made in
      (
        v,
        lookup-derived s s' st "app-secret"
            ∙ app_secret_kept (lookup "app-secret" st.with_jwt)
            ∙ jwt_keys_frame crypto store inputs "app-secret" st.with_admin st.with_jwt refl refl
                st.jwt_made
            ∙ admin_password_frame crypto store inputs "app-secret" st.with_app st.with_admin refl
                st.admin_made
            ∙ e,
      )

  private_key_there :
      (s s' : Secret) → Steps s s' → (v : String) × (lookup "jwt-private-key" s' ≡ some v)
  unfolding KeptByDerived
  private_key_there s s' st =
      let (v, e) = jwt_keys_filled crypto store inputs st.with_admin st.with_jwt st.jwt_made in
      (
        v,
        lookup-derived s s' st "jwt-private-key"
            ∙ private_key_kept (lookup "jwt-private-key" st.with_jwt)
            ∙ e,
      )

  admin_password_at_end :
      (s s' : Secret) (st : Steps s s')
      → lookup "admin-password" s' ≡ lookup "admin-password" st.with_admin
  unfolding KeptByDerived
  admin_password_at_end s s' st =
      lookup-derived s s' st "admin-password"
      ∙ admin_password_kept (lookup "admin-password" st.with_jwt)
      ∙ jwt_keys_frame crypto store inputs "admin-password" st.with_admin st.with_jwt refl refl
          st.jwt_made

  -- Once a secret has been generated, generating it again with the same configuration succeeds without
  -- any new random number or key, whatever their sources would yield, and leaves the value of every key.
  pub generate_store_secret_twice :
      (draws : ℕ → Result ℕ) (key : Result String) (certificate : String → Result String)
      (s s' : Secret)
      → generate_store_secret crypto store inputs s ≡ ok s'
      → (s'' : Secret) × (generate_store_secret
            (record crypto {
              rand_int = draws;
              generate_key = key;
              create_certificate = certificate;
            })
            store
            inputs
            s'
          ≡ ok s'')
        × SameSecret s' s''
  unfolding generate_store_secret ensure_app_secret ensure_admin_password ensure_jwt_keys
  generate_store_secret_twice draws key certificate s s' h =
      let st = Steps-of s s' h in
      let (a, app) = app_secret_there s s' st in
      let (b, private) = private_key_there s s' st in
      elim (Bool-cases (secret_ref_complete store.spec.admin_credentials.password_secret_ref)) [
        | inl complete ↦
            let filled = insert "admin-password" inputs.admin_password s' in
            let private' =
              lookup-insert "admin-password" "jwt-private-key" inputs.admin_password s' ∙ private in
            (
              apply (derived_writes crypto store inputs) filled,
              rw (app, complete, private') refl,
              λ k. again st filled k (referenced st complete k),
            )
        | inr partial ↦
            let (c, admin) =
              admin_password_filled crypto store inputs st.with_app st.with_admin st.admin_made in
            let admin' = admin_password_at_end s s' st ∙ admin in
            (
              apply (derived_writes crypto store inputs) s',
              rw (app, partial, admin', private) refl,
              λ k. again st s' k refl,
            )
      ]
    where
      again :
          (st : Steps s s') (t : Secret) (k : String)
          → lookup k t ≡ lookup k s'
          → lookup k s' ≡ lookup k (apply (derived_writes crypto store inputs) t)
      again st t k e =
          let ws = derived_writes crypto store inputs in
          let first = lookup-derived s s' st k in
          sym (
            lookup-apply k ws t
            ∙ ap (written k ws) (e ∙ first)
            ∙ written_twice k ws (lookup k st.with_jwt)
            ∙ sym first)

      referenced :
          (st : Steps s s')
          → secret_ref_complete store.spec.admin_credentials.password_secret_ref ≡ true
          → (k : String) → lookup k (insert "admin-password" inputs.admin_password s') ≡ lookup k s'
      referenced st complete k = elim (Bool-cases ("admin-password" == k)) [
        | inr other ↦ lookup-insert "admin-password" k inputs.admin_password s' ∙ rw other refl
        | inl same ↦
            lookup-insert "admin-password" k inputs.admin_password s'
            ∙ rw (same, ← (eq_iff "admin-password" k).0 same)
                (sym (
                  admin_password_at_end s s' st
                  ∙ admin_password_referenced crypto store inputs st.with_app st.with_admin complete
                      st.admin_made))
      ]
