-- ===== src/Cluster/Meta/Differences.antt =====
-- diffKeys finds no key exactly when the two maps are the same.
use Prim.Native.Nat.{Ordering}
use Prim.Native.String.{compare}
use shopware_operator.Prelude.{
  String, ◌≡◌, refl, sym, ap, ◌∙◌, ◌↔◌, ◌≢◌, Bool, true, false, not, Option, none, some, List, [],
  ◌∷◌, ◌++◌, arith, ◌==◌, eq_iff, eq_refl, inl, inr, Bool-cases, Option-cases, All,
}
use shopware_operator.Prelude.Assoc.{lookup, keys}
use shopware_operator.Cluster.Meta.{
  Map, same_value, tagged, is_missing, insert_sorted, sort, changed_keys,
}

insert_sorted-ne-nil : (s : String) (ts : List String) → insert_sorted s ts ≢ []
insert_sorted-ne-nil s [] h = cc
insert_sorted-ne-nil s (t ∷ ts) h = by_order (compare t s) h
  where
    by_order :
        (o : Ordering) → (elim o [ Ordering.lt ↦ t ∷ insert_sorted s ts | _ ↦ s ∷ t ∷ ts ]) ≡ [] → ⊥
    by_order Ordering.lt h = cc
    by_order Ordering.eq h = cc
    by_order Ordering.gt h = cc

nil-sort : (ss : List String) → sort ss ≡ [] → ss ≡ []
unfolding sort
nil-sort [] h = refl
nil-sort (s ∷ ss) h = absurd (insert_sorted-ne-nil s (sort ss) h)

nil-append : (ss ts : List String) → ss ++ ts ≡ [] → (ss ≡ []) × (ts ≡ [])
nil-append [] ts h = (refl, h)
nil-append (s ∷ ss) ts h = cc

tagged-nil :
    (prefix : String) (test : String → Bool) (ks : List String)
    → All (λ k. test k ≡ false) ks
    → tagged prefix test ks ≡ []
tagged-nil prefix test [] h = refl
tagged-nil prefix test (k ∷ ks) h = rw (h.0, tagged-nil prefix test ks h.1) refl

nil-tagged :
    (prefix : String) (test : String → Bool) (ks : List String)
    → tagged prefix test ks ≡ []
    → All (λ k. test k ≡ false) ks
nil-tagged prefix test [] h = tt
nil-tagged prefix test (k ∷ ks) h = elim (Bool-cases (test k)) [
  | inl hit ↦ let h' = rw hit at h in cc
  | inr miss ↦ (miss, nil-tagged prefix test ks (rw miss at h))
]

-- A key that a map has is among its keys.
All-lookup :
    (P : String → Type 0) (k : String) (m : Map) {v : String}
    → All P (keys m)
    → lookup k m ≡ some v
    → P k
unfolding lookup
All-lookup P k [] h e = cc
All-lookup P k (entry ∷ m) h e = elim (Bool-cases (entry.0 == k)) [
  | inl here ↦ rw (← (eq_iff entry.0 k).0 here) h.0
  | inr there ↦ All-lookup P k m h.1 (rw there at e)
]

All-map :
    (P Q : String → Type 0) (ks : List String) → ((k : String) → P k → Q k) → All P ks → All Q ks
All-map P Q [] f h = tt
All-map P Q (k ∷ ks) f h = (f k h.0, All-map P Q ks f h.1)

found_further :
    (entry : String × String) (m : Map) (k : String)
    → is_missing (lookup k m) ≡ false
    → is_missing (lookup k (entry ∷ m)) ≡ false
unfolding lookup
found_further entry m k h = ground arith

found_keys : (m : Map) → All (λ k. is_missing (lookup k m) ≡ false) (keys m)
unfolding lookup
found_keys [] = tt
found_keys (entry ∷ m) = (
  rw (eq_refl entry.0) refl,
  All-map (λ k. is_missing (lookup k m) ≡ false) (λ k. is_missing (lookup k (entry ∷ m)) ≡ false)
      (keys m) (found_further entry m) (found_keys m),
)

same_value_refl : (o : Option String) → same_value o o ≡ true
same_value_refl none = refl
same_value_refl (some v) = eq_refl v

eq_of_same_value : (o p : Option String) → same_value o p ≡ true → o ≡ p
eq_of_same_value none none h = refl
eq_of_same_value (some v) (some w) h = ap some ((eq_iff v w).0 h)
eq_of_same_value none (some w) h = cc
eq_of_same_value (some v) none h = cc

All-every : (P : String → Type 0) (ks : List String) → ((k : String) → P k) → All P ks
All-every P [] f = tt
All-every P (k ∷ ks) f = (f k, All-every P ks f)

-- The two maps have the same value, or none, at every key.
abbrev pub SameMap : Map → Map → Type 0
SameMap old new = (k : String) → lookup k old ≡ lookup k new

missing_none : (o : Option String) → is_missing o ≡ true → o ≡ none
missing_none none h = refl
missing_none (some v) h = cc

-- diffKeys returns no key exactly when the two maps have the same keys with the same values.
pub changed_keys-nil_iff :
    (prefix : String) (old new : Map) → (changed_keys prefix old new ≡ []) ↔ SameMap old new
unfolding changed_keys
changed_keys-nil_iff prefix old new = (
  λ h k.
      let (changed, gone) = nil-append _ _ (nil-sort _ h) in
      let same = nil-tagged prefix _ (keys new) changed in
      let kept = nil-tagged prefix _ (keys old) gone in
      elim (Option-cases (lookup k new)) [
        | inr (v, e) ↦ eq_of_same_value (lookup k old) (lookup k new) (
            not_false (same_value (lookup k old) (lookup k new)) (
              All-lookup (λ j. not (same_value (lookup j old) (lookup j new)) ≡ false) k new same
                e))
        | inl e ↦ elim (Option-cases (lookup k old)) [
          | inl f ↦ f ∙ sym e
          | inr (w, f) ↦
              let hit = All-lookup (λ j. is_missing (lookup j new) ≡ false) k old kept f in
              let hit' = rw e at hit in cc
        ]
      ],
  λ same.
      rw
        (
          tagged-nil prefix (λ k. not (same_value (lookup k old) (lookup k new))) (keys new)
              (All-every _ (keys new) (λ k. rw (same k, same_value_refl (lookup k new)) refl)),
          tagged-nil prefix (λ k. is_missing (lookup k new)) (keys old)
              (All-map (λ k. is_missing (lookup k old) ≡ false)
                (λ k. is_missing (lookup k new) ≡ false) (keys old) (λ k h. rw (← same k) h)
                (found_keys old)),
        )
        (nil_sorted),
)
  where
    not_false : (b : Bool) → not b ≡ false → b ≡ true
    not_false true h = refl
    not_false false h = cc

    nil_sorted : sort ([] ++ []) ≡ []
    nil_sorted = refl
