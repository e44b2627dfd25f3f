-- ===== src/Stores/Watched.antt =====
-- Which stores a change of a secret wakes up.
use shopware_operator.Prelude.{
  ℕ, ◌-◌, String, ◌≡◌, refl, ap, ◌∙◌, ◌&&◌, some, List, [], ◌∷◌, ◌++◌, ◌==◌, if◌then◌else◌, inl,
  inr, Bool-cases, map, arith, length, get_last?, get_last?-append, get_last?-drop, ltb, ltb→lt,
  All, eq_refl, eq_iff, ◌⊎◌, true, ◌↔◌,
}
use shopware_operator.Api.Store.{Store}
use shopware_operator.Kube.{ok}
use shopware_operator.Trigger.{NamespacedName, Trigger, Recorder, add, stamp, same_key, keep_newest}
use shopware_operator.Stores.{
  refers_to, key_of, secret_trigger, map_secret, find_store_for_reconcile,
}

-- A store of the namespace in which one of six references is the name of the secret: the password and
-- the certificates of the database, the password of OpenSearch, the token of Fastly, and the name and
-- the password of the administrator.
unfoldable pub Names : String → String → Store → Type 0
Names namespace name s =
    (s.namespace ≡ namespace)
    × ((s.spec.database.password_secret_ref.name ≡ name)
        ⊎ (s.spec.database.tls_secret_name ≡ name)
        ⊎ (s.spec.opensearch_spec.password_secret_ref.name ≡ name)
        ⊎ (s.spec.fastly.token_ref.name ≡ name)
        ⊎ (s.spec.admin_credentials.username_secret_ref.name ≡ name)
        ⊎ (s.spec.admin_credentials.password_secret_ref.name ≡ name))

-- The keys are those of the stores that satisfy a predicate, in the order of the list.
unfoldable pub KeysOf : (Store → Type 0) → List Store → List NamespacedName → Type 0
KeysOf P [] ks = ks ≡ []
KeysOf P (s ∷ ss) ks =
    (P s × (rest : List NamespacedName) × (ks ≡ key_of s ∷ rest) × KeysOf P ss rest)
    ⊎ ((¬ P s) × KeysOf P ss ks)

named_by_iff :
    (namespace name : String) (s : Store)
    → ((s.namespace == namespace && refers_to name s) ≡ true) ↔ Names namespace name s
unfolding Names
named_by_iff namespace name s = ground (
  arith,
  eq_iff s.namespace namespace,
  eq_iff s.spec.database.password_secret_ref.name name,
  eq_iff s.spec.database.tls_secret_name name,
  eq_iff s.spec.opensearch_spec.password_secret_ref.name name,
  eq_iff s.spec.fastly.token_ref.name name,
  eq_iff s.spec.admin_credentials.username_secret_ref.name name,
  eq_iff s.spec.admin_credentials.password_secret_ref.name name,
)

-- The stores of the namespace that refer to the secret.
abbrev referring : String → String → List Store → List Store
referring namespace name [] = []
referring namespace name (s ∷ ss) =
    let rest = referring namespace name ss in
    if s.namespace == namespace && refers_to name s then s ∷ rest else rest

KeysOf-referring :
    (namespace name : String) (ss : List Store)
    → KeysOf (Names namespace name) ss (map key_of (referring namespace name ss))
unfolding KeysOf
KeysOf-referring namespace name [] = refl
KeysOf-referring namespace name (s ∷ ss) =
    elim (Bool-cases (s.namespace == namespace && refers_to name s)) [
      | inl named ↦ rw named (
          inl
            ((named_by_iff namespace name s).0 named, _, refl, KeysOf-referring namespace name ss))
      | inr other ↦ rw other (
          inr (
            λ h. let named = (named_by_iff namespace name s).1 h in cc,
            KeysOf-referring namespace name ss,
          ))
    ]

keys-map_secret :
    (now : ℕ) (namespace name : String) (ss : List Store) (r : Recorder)
    → (map_secret now namespace name ss r).0 ≡ map key_of (referring namespace name ss)
keys-map_secret now namespace name [] r = refl
keys-map_secret now namespace name (s ∷ ss) r = elim (Bool-cases (s.namespace == namespace)) [
  | inr elsewhere ↦ rw elsewhere (keys-map_secret now namespace name ss r)
  | inl here ↦ elim (Bool-cases (refers_to name s)) [
    | inr other ↦ rw (here, other) (keys-map_secret now namespace name ss r)
    | inl refers ↦
        rw (here, refers)
          (ap (λ ks. key_of s ∷ ks)
            (keys-map_secret now namespace name ss (add now (key_of s) (secret_trigger name) r)))
  ]
]

last-keep_newest :
    (ts : List Trigger) (t : Trigger) → get_last? (keep_newest (ts ++ t ∷ [])) ≡ some t
last-keep_newest ts t = elim (Bool-cases (ltb 20 (length (ts ++ t ∷ [])))) [
  | inr few ↦ rw few (get_last?-append ts t)
  | inl many ↦ rw many (
      get_last?-drop (length (ts ++ t ∷ []) - 20) (ts ++ t ∷ [])
        (omega (arith, ltb→lt 20 (length (ts ++ t ∷ [])) many))
      ∙ get_last?-append ts t)
]

-- The newest pending trigger of the key is that of the secret.
Woken : ℕ → String → Recorder → NamespacedName → Type 0
Woken now name r k = get_last? (r.pending k) ≡ some (stamp now (secret_trigger name))

module _ (now : ℕ) (namespace name : String) where
  Woken-add :
      (r : Recorder) (key k : NamespacedName)
      → Woken now name r k
      → Woken now name (add now key (secret_trigger name) r) k
  unfolding Woken add
  Woken-add r key k h = elim (Bool-cases (same_key key k)) [
    | inl same ↦ rw same (last-keep_newest (r.pending key) (stamp now (secret_trigger name)))
    | inr other ↦ rw other h
  ]

  Woken-add_self :
      (r : Recorder) (key : NamespacedName)
      → Woken now name (add now key (secret_trigger name) r) key
  unfolding Woken add
  Woken-add_self r key =
      rw (eq_refl key.namespace, eq_refl key.name)
        (last-keep_newest (r.pending key) (stamp now (secret_trigger name)))

  Woken-map_secret :
      (ss : List Store) (r : Recorder) (k : NamespacedName)
      → Woken now name r k
      → Woken now name (map_secret now namespace name ss r).1 k
  Woken-map_secret [] r k h = h
  Woken-map_secret (s ∷ ss) r k h = elim (Bool-cases (s.namespace == namespace)) [
    | inr elsewhere ↦ rw elsewhere (Woken-map_secret ss r k h)
    | inl here ↦ elim (Bool-cases (refers_to name s)) [
      | inr other ↦ rw (here, other) (Woken-map_secret ss r k h)
      | inl refers ↦
          rw (here, refers)
            (Woken-map_secret ss (add now (key_of s) (secret_trigger name) r) k
              (Woken-add r (key_of s) k h))
    ]
  ]

  All-Woken :
      (ss : List Store) (r : Recorder)
      → let result = map_secret now namespace name ss r in All (Woken now name result.1) result.0
  All-Woken [] r = tt
  All-Woken (s ∷ ss) r = elim (Bool-cases (s.namespace == namespace)) [
    | inr elsewhere ↦ rw elsewhere (All-Woken ss r)
    | inl here ↦ elim (Bool-cases (refers_to name s)) [
      | inr other ↦ rw (here, other) (All-Woken ss r)
      | inl refers ↦
          let r' = add now (key_of s) (secret_trigger name) r in
          rw (here, refers)
            (Woken-map_secret ss r' (key_of s) (Woken-add_self r (key_of s)), All-Woken ss r')
    ]
  ]

  -- On a change of a secret, findStoreForReconcile asks for a reconcile of the stores of its namespace
  -- that name it as the password or the certificates of their database, as the password of OpenSearch,
  -- as the token of Fastly, or as the name or the password of their administrator, in the order of the
  -- list, and of nothing else; and for each of these the change of the secret is the newest trigger that
  -- the recorder keeps.
  pub find_store_for_reconcile_woken :
      (stores : List Store) (r : Recorder)
      → let result = find_store_for_reconcile now (ok stores) namespace name r in
        KeysOf (Names namespace name) stores result.0
        × All
            (λ k. get_last? (result.1.pending k) ≡ some (stamp now (secret_trigger name)))
            result.0
  unfolding find_store_for_reconcile Woken
  find_store_for_reconcile_woken stores r = (
    rw (keys-map_secret now namespace name stores r) (KeysOf-referring namespace name stores),
    All-Woken stores r,
  )
