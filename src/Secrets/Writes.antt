-- ===== src/Secrets/Writes.antt =====
-- A sequence of assignments to the entries of a map and deletions from it.
use shopware_operator.Prelude.{
  String, ◌≡◌, refl, ◌∙◌, Option, none, some, List, [], ◌∷◌, ◌==◌, if◌then◌else◌, inl, inr,
  Bool-cases, ◌⊎◌,
}
use shopware_operator.Prelude.Assoc.{insert, lookup, erase, lookup-insert, lookup-erase}
use shopware_operator.Kube.{Secret}

-- `m[key] = value` and `delete(m, key)`
pub data Write : Type 0 where
  set : String → String → Write
  remove : String → Write

unfoldable pub apply : List Write → Secret → Secret
unfolding insert erase
apply [] m = m
apply (set key value ∷ ws) m = apply ws (insert key value m)
apply (remove key ∷ ws) m = apply ws (erase key m)

-- What the writes leave at a key on which they find `before`.
unfoldable pub written : String → List Write → Option String → Option String
written k [] before = before
written k (set key value ∷ ws) before = written k ws (if key == k then some value else before)
written k (remove key ∷ ws) before = written k ws (if key == k then none else before)

pub lookup-apply :
    (k : String) (ws : List Write) (m : Secret) → lookup k (apply ws m) ≡ written k ws (lookup k m)
unfolding apply written
lookup-apply k [] m = refl
lookup-apply k (set key value ∷ ws) m =
    lookup-apply k ws (insert key value m) ∙ rw (lookup-insert key k value m) refl
lookup-apply k (remove key ∷ ws) m =
    lookup-apply k ws (erase key m) ∙ rw (lookup-erase key k m) refl

-- Writing a second time leaves what the first time left.
pub written_twice :
    (k : String) (ws : List Write) (before : Option String)
    → written k ws (written k ws before) ≡ written k ws before
unfolding written
written_twice k ws before = elim (written-cases ws) [
  | inl keeps ↦ keeps (written k ws before)
  | inr (value, sets) ↦ sets (written k ws before) ∙ sym' (sets before)
]
  where
    sym' : {o p : Option String} → o ≡ p → p ≡ o
    sym' e = cc

    written-cases :
        (vs : List Write)
        → ((o : Option String) → written k vs o ≡ o)
          ⊎ ((value : Option String) × ((o : Option String) → written k vs o ≡ value))
    written-cases [] = inl (λ o. refl)
    written-cases (set key value ∷ vs) = elim (written-cases vs) [
      | inr (later, sets) ↦ inr (later, λ o. sets (if key == k then some value else o))
      | inl keeps ↦ elim (Bool-cases (key == k)) [
        | inl here ↦ inr (some value, λ o. rw here (keeps (some value)))
        | inr there ↦ inl (λ o. rw there (keeps o))
      ]
    ]
    written-cases (remove key ∷ vs) = elim (written-cases vs) [
      | inr (later, sets) ↦ inr (later, λ o. sets (if key == k then none else o))
      | inl keeps ↦ elim (Bool-cases (key == k)) [
        | inl here ↦ inr (none, λ o. rw here (keeps none))
        | inr there ↦ inl (λ o. rw there (keeps o))
      ]
    ]
