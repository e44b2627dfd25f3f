-- ===== src/Secrets/Filling.antt =====
-- internal/secret/secret.go: what each step of GenerateStoreSecret fills in and what it leaves alone.
use Prim.Native.String.{count, char_at}
use Prim.Native.String.count
use shopware_operator.Prelude.{
  ℕ, zero, suc, String, ◌≡◌, refl, sym, ap, ◌∙◌, true, false, some, ◌==◌, inl, inr, Bool-cases,
  Option-cases,
}
use shopware_operator.Prelude.Assoc.{insert, lookup, lookup-insert}
use shopware_operator.Kube.{Secret, Result, ok, err, eq_of_ok-eq}
use shopware_operator.Api.Store.{Store}
use shopware_operator.Secrets.{
  Crypto, Inputs, pass_symbols, ◌>>=◌, wrap, generate_pass, generate_private_public_key,
  secret_ref_complete, ensure_app_secret, ensure_admin_password, ensure_jwt_keys,
}

pub bind_ok :
    {A B : Type 0} (r : Result A) (f : A → Result B) {b : B}
    → r >>= f ≡ ok b
    → (a : A) × (r ≡ ok a) × (f a ≡ ok b)
bind_ok (ok a) f h = (a, refl, h)
bind_ok (err e) f h = cc

wrap_ok : {A : Type 0} (text : String) (r : Result A) {a : A} → wrap text r ≡ ok a → r ≡ ok a
wrap_ok text (ok a) h = h
wrap_ok text (err e) h = cc

-- A password has the number of letters that it is generated for.
count-generate_pass :
    (crypto : Crypto) (draw long : ℕ) (pass : String)
    → generate_pass crypto draw long ≡ ok pass
    → count pass ≡ long
unfolding generate_pass
count-generate_pass crypto draw zero pass h = ap count (sym (eq_of_ok-eq h))
count-generate_pass crypto draw (suc long) pass h =
    let (n, drawn, g) = bind_ok (wrap "get rand int" (crypto.rand_int draw)) _ h in
    let (rest, tail, e) = bind_ok (generate_pass crypto (suc draw) long) _ g in
    ap count (sym (eq_of_ok-eq e))
    ∙ (λ i. count.cons (char_at pass_symbols n) rest i)
    ∙ ap suc (count-generate_pass crypto (suc draw) long rest tail)

module _ (crypto : Crypto) (store : Store) (inputs : Inputs) where
  -- ensure_app_secret
  pub app_secret_filled :
      (m m' : Secret)
      → ensure_app_secret crypto m ≡ ok m'
      → (v : String) × (lookup "app-secret" m' ≡ some v)
  unfolding ensure_app_secret
  app_secret_filled m m' h = elim (Option-cases (lookup "app-secret" m)) [
    | inr (v, e) ↦ (v, ap (lookup "app-secret") (sym (eq_of_ok-eq (rw e at h))) ∙ e)
    | inl e ↦
        let (pass, made, g) =
          bind_ok (wrap "generate app secret" (generate_pass crypto 0 128)) _ (rw e at h) in
        (
          pass,
          ap (lookup "app-secret") (sym (eq_of_ok-eq g))
              ∙ lookup-insert "app-secret" "app-secret" pass m,
        )
  ]

  pub app_secret_frame :
      (k : String) (m m' : Secret)
      → "app-secret" == k ≡ false
      → ensure_app_secret crypto m ≡ ok m'
      → lookup k m' ≡ lookup k m
  unfolding ensure_app_secret
  app_secret_frame k m m' other h = elim (Option-cases (lookup "app-secret" m)) [
    | inr (v, e) ↦ ap (lookup k) (sym (eq_of_ok-eq (rw e at h)))
    | inl e ↦
        let (pass, made, g) =
          bind_ok (wrap "generate app secret" (generate_pass crypto 0 128)) _ (rw e at h) in
        ap (lookup k) (sym (eq_of_ok-eq g)) ∙ lookup-insert "app-secret" k pass m ∙ rw other refl
  ]

  -- ensure_admin_password
  pub admin_password_filled :
      (m m' : Secret)
      → ensure_admin_password crypto store inputs m ≡ ok m'
      → (v : String) × (lookup "admin-password" m' ≡ some v)
  unfolding ensure_admin_password
  admin_password_filled m m' h =
      let own = store.spec.admin_credentials.password in
      elim (Bool-cases (secret_ref_complete store.spec.admin_credentials.password_secret_ref)) [
        | inl complete ↦ set_to inputs.admin_password (rw complete at h)
        | inr partial ↦ elim (Option-cases (lookup "admin-password" m)) [
          | inr (v, e) ↦
              (v, ap (lookup "admin-password") (sym (eq_of_ok-eq (rw (partial, e) at h))) ∙ e)
          | inl e ↦ elim (Bool-cases (own == "")) [
            | inr given ↦ set_to own (rw (partial, e, given) at h)
            | inl blank ↦
                let (pass, made, g) =
                  bind_ok (wrap "generate admin secret" (generate_pass crypto 128 20)) _
                    (rw (partial, e, blank) at h) in
                set_to pass g
          ]
        ]
      ]
    where
      set_to :
          (v : String)
          → ok (insert "admin-password" v m) ≡ ok m'
          → (w : String) × (lookup "admin-password" m' ≡ some w)
      set_to v h = (
        v,
        ap (lookup "admin-password") (sym (eq_of_ok-eq h))
            ∙ lookup-insert "admin-password" "admin-password" v m,
      )

  pub admin_password_frame :
      (k : String) (m m' : Secret)
      → "admin-password" == k ≡ false
      → ensure_admin_password crypto store inputs m ≡ ok m'
      → lookup k m' ≡ lookup k m
  unfolding ensure_admin_password
  admin_password_frame k m m' other h =
      let own = store.spec.admin_credentials.password in
      elim (Bool-cases (secret_ref_complete store.spec.admin_credentials.password_secret_ref)) [
        | inl complete ↦ set_to inputs.admin_password (rw complete at h)
        | inr partial ↦ elim (Option-cases (lookup "admin-password" m)) [
          | inr (v, e) ↦ ap (lookup k) (sym (eq_of_ok-eq (rw (partial, e) at h)))
          | inl e ↦ elim (Bool-cases (own == "")) [
            | inr given ↦ set_to own (rw (partial, e, given) at h)
            | inl blank ↦
                let (pass, made, g) =
                  bind_ok (wrap "generate admin secret" (generate_pass crypto 128 20)) _
                    (rw (partial, e, blank) at h) in
                set_to pass g
          ]
        ]
      ]
    where
      set_to : (v : String) → ok (insert "admin-password" v m) ≡ ok m' → lookup k m' ≡ lookup k m
      set_to v h =
          ap (lookup k) (sym (eq_of_ok-eq h)) ∙ lookup-insert "admin-password" k v m ∙ rw other refl

  pub admin_password_referenced :
      (m m' : Secret)
      → secret_ref_complete store.spec.admin_credentials.password_secret_ref ≡ true
      → ensure_admin_password crypto store inputs m ≡ ok m'
      → lookup "admin-password" m' ≡ some inputs.admin_password
  unfolding ensure_admin_password
  admin_password_referenced m m' complete h =
      ap (lookup "admin-password") (sym (eq_of_ok-eq (rw complete at h)))
      ∙ lookup-insert "admin-password" "admin-password" inputs.admin_password m

  -- ensure_jwt_keys
  pub jwt_keys_filled :
      (m m' : Secret)
      → ensure_jwt_keys crypto m ≡ ok m'
      → (v : String) × (lookup "jwt-private-key" m' ≡ some v)
  unfolding ensure_jwt_keys
  jwt_keys_filled m m' h = elim (Option-cases (lookup "jwt-private-key" m)) [
    | inr (v, e) ↦ (v, ap (lookup "jwt-private-key") (sym (eq_of_ok-eq (rw e at h))) ∙ e)
    | inl e ↦
        let (keys, made, g) =
          bind_ok (wrap "create jwt keys" (generate_private_public_key crypto)) _ (rw e at h) in
        (
          crypto.base64 keys.0,
          ap (lookup "jwt-private-key") (sym (eq_of_ok-eq g))
              ∙ lookup-insert "jwt-public-key" "jwt-private-key" (crypto.base64 keys.1)
                  (insert "jwt-private-key" (crypto.base64 keys.0) m)
              ∙ lookup-insert "jwt-private-key" "jwt-private-key" (crypto.base64 keys.0) m,
        )
  ]

  pub jwt_keys_frame :
      (k : String) (m m' : Secret)
      → "jwt-private-key" == k ≡ false
      → "jwt-public-key" == k ≡ false
      → ensure_jwt_keys crypto m ≡ ok m'
      → lookup k m' ≡ lookup k m
  unfolding ensure_jwt_keys
  jwt_keys_frame k m m' private public h = elim (Option-cases (lookup "jwt-private-key" m)) [
    | inr (v, e) ↦ ap (lookup k) (sym (eq_of_ok-eq (rw e at h)))
    | inl e ↦
        let (keys, made, g) =
          bind_ok (wrap "create jwt keys" (generate_private_public_key crypto)) _ (rw e at h) in
        ap (lookup k) (sym (eq_of_ok-eq g))
        ∙ lookup-insert "jwt-public-key" k (crypto.base64 keys.1)
            (insert "jwt-private-key" (crypto.base64 keys.0) m)
        ∙ rw (public, lookup-insert "jwt-private-key" k (crypto.base64 keys.0) m, private) refl
  ]
