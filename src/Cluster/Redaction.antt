-- ===== src/Cluster/Redaction.antt =====
-- internal/k8s/utils.go, secretValues and redactSecrets: what the log shows of a secret that changes.
use shopware_operator.Prelude.{
  String, ◌≡◌, refl, sym, ◌∙◌, ◌↔◌, not, Option, none, some, [], ◌∷◌, ◌==◌, eq_iff, if◌then◌else◌,
  inl, inr, Bool-cases,
}
use shopware_operator.Prelude.Text.{concat}
use shopware_operator.Prelude.Assoc.{insert, lookup}
use shopware_operator.Cluster.Meta.{Map}

-- corev1.Secret: `Data`, whose values are read as text, and `StringData`
pub record SecretContent : Type 0 where
  pub data_entries : Map
  pub string_data : Map

abbrev redacted_value : String
redacted_value = "<redacted>"

abbrev redacted_changed_value : String
redacted_changed_value = "<redacted, changed>"

abbrev add_prefixed : String → Map → Map → Map
add_prefixed prefix [] values = values
add_prefixed prefix (entry ∷ m) values =
    add_prefixed prefix m (insert (concat (prefix ∷ entry.0 ∷ [])) entry.1 values)

-- secretValues
abbrev pub secret_values : Option SecretContent → Map
secret_values none = []
secret_values (some s) =
    add_prefixed "stringData/" s.string_data (add_prefixed "data/" s.data_entries [])

abbrev redact_old : Map → Map
redact_old [] = []
redact_old (entry ∷ m) = (entry.0, redacted_value) ∷ redact_old m

abbrev mark : Option String → String → String
mark none value = redacted_value
mark (some old) value = if not (old == value) then redacted_changed_value else redacted_value

abbrev redact_new : Map → Map → Map
redact_new old [] = []
redact_new old (entry ∷ m) = (entry.0, mark (lookup entry.0 old) entry.1) ∷ redact_new old m

-- redactSecrets
unfoldable pub redact_secrets : Option SecretContent → Option SecretContent → Map × Map
redact_secrets old new =
    (redact_old (secret_values old), redact_new (secret_values old) (secret_values new))

hidden_old : Option String → Option String
hidden_old none = none
hidden_old (some v) = some redacted_value

hidden_new : Option String → Option String → Option String
hidden_new old none = none
hidden_new old (some v) = some (mark old v)

lookup-redact_old : (k : String) (m : Map) → lookup k (redact_old m) ≡ hidden_old (lookup k m)
unfolding lookup hidden_old
lookup-redact_old k [] = refl
lookup-redact_old k (entry ∷ m) = elim (Bool-cases (entry.0 == k)) [
  | inl here ↦ rw here refl
  | inr there ↦ rw there (lookup-redact_old k m)
]

lookup-redact_new :
    (k : String) (old m : Map)
    → lookup k (redact_new old m) ≡ hidden_new (lookup k old) (lookup k m)
unfolding lookup hidden_new
lookup-redact_new k old [] = refl
lookup-redact_new k old (entry ∷ m) = elim (Bool-cases (entry.0 == k)) [
  | inl here ↦ rw (here, (eq_iff entry.0 k).0 here) refl
  | inr there ↦ rw there (lookup-redact_new k old m)
]

-- Two maps that have the same keys.
abbrev SameKeys : Map → Map → Type 0
SameKeys m n = (k : String) → (lookup k m ≡ none) ↔ (lookup k n ≡ none)

-- The two pairs of values agree on which keys have changed.
abbrev SameChanges : Map → Map → Map → Map → Type 0
SameChanges old new old' new' =
    (k v w v' w' : String)
    → lookup k old ≡ some v
    → lookup k new ≡ some w
    → lookup k old' ≡ some v'
    → lookup k new' ≡ some w'
    → (v == w) ≡ (v' == w')

clash : {A : Type 0} {a : A} → some a ≡ none → ⊥
clash e = cc

hidden_old_same : (o p : Option String) → (o ≡ none) ↔ (p ≡ none) → hidden_old o ≡ hidden_old p
unfolding hidden_old
hidden_old_same none none h = refl
hidden_old_same none (some w) h = absurd (clash (h.0 refl))
hidden_old_same (some v) none h = absurd (clash (h.1 refl))
hidden_old_same (some v) (some w) h = refl

hidden_new_same :
    (o n o' n' : Option String)
    → (o ≡ none) ↔ (o' ≡ none)
    → (n ≡ none) ↔ (n' ≡ none)
    → ((v w v' w' : String)
        → o ≡ some v
        → n ≡ some w
        → o' ≡ some v'
        → n' ≡ some w'
        → (v == w) ≡ (v' == w'))
    → hidden_new o n ≡ hidden_new o' n'
unfolding hidden_new
hidden_new_same o none o' none h i same = refl
hidden_new_same o none o' (some w') h i same = absurd (clash (i.0 refl))
hidden_new_same o (some w) o' none h i same = absurd (clash (i.1 refl))
hidden_new_same none (some w) none (some w') h i same = refl
hidden_new_same none (some w) (some v') (some w') h i same = absurd (clash (h.0 refl))
hidden_new_same (some v) (some w) none (some w') h i same = absurd (clash (h.1 refl))
hidden_new_same (some v) (some w) (some v') (some w') h i same =
    rw (same v w v' w' refl refl refl refl) refl

-- What is shown of a changed secret depends on its keys and on which of the values that both versions
-- have differ, and on nothing else of the values: two changes of secrets that agree in these are shown
-- the same at every key.
pub redact_secrets_hides :
    (old new old' new' : Option SecretContent)
    → SameKeys (secret_values old) (secret_values old')
    → SameKeys (secret_values new) (secret_values new')
    → SameChanges (secret_values old) (secret_values new) (secret_values old') (secret_values new')
    → (k : String)
    → (lookup k (redact_secrets old new).0 ≡ lookup k (redact_secrets old' new').0)
      × (lookup k (redact_secrets old new).1 ≡ lookup k (redact_secrets old' new').1)
unfolding redact_secrets
redact_secrets_hides old new old' new' olds news same k = (
  lookup-redact_old k (secret_values old)
      ∙ hidden_old_same _ _ (olds k)
      ∙ sym (lookup-redact_old k (secret_values old')),
  lookup-redact_new k (secret_values old) (secret_values new)
      ∙ hidden_new_same _ _ _ _ (olds k) (news k) (same k)
      ∙ sym (lookup-redact_new k (secret_values old') (secret_values new')),
)
