-- ===== src/Cluster/Meta.antt =====
-- internal/k8s/utils.go, diffKeys: where two maps of labels or annotations differ.
pub mod Differences
pub mod Sorting
use Prim.Native.Nat.{Ordering}
use Prim.Native.String.{compare}
use shopware_operator.Prelude.{
  String, ◌≡◌, refl, ◌↔◌, Bool, true, false, not, ◌||◌, Option, none, some, List, [], ◌∷◌, ◌++◌,
  arith, ◌==◌, eq_iff, if◌then◌else◌, inl, inr, Bool-cases,
}
use shopware_operator.Prelude.Text.{concat}
use shopware_operator.Prelude.Assoc.{lookup, keys}

-- `map[string]string`
abbrev pub Map : Type 0
Map = List (String × String)

abbrev pub is_empty {ℓ} : {A : Type ℓ} → List A → Bool
is_empty [] = true
is_empty (x ∷ xs) = false

abbrev pub same_value : Option String → Option String → Bool
same_value none none = true
same_value (some v) (some w) = v == w
same_value _ _ = false

-- The keys at which a test holds, each behind the prefix.
abbrev pub tagged : String → (String → Bool) → List String → List String
tagged prefix test [] = []
tagged prefix test (k ∷ ks) =
    let rest = tagged prefix test ks in
    if test k then concat (prefix ∷ ":" ∷ k ∷ []) ∷ rest else rest

abbrev pub is_missing : Option String → Bool
is_missing none = true
is_missing (some v) = false

-- `slices.Sort`, as an insertion sort
abbrev pub insert_sorted : String → List String → List String
insert_sorted s [] = s ∷ []
insert_sorted s (t ∷ ts) =
    let rest = insert_sorted s ts in elim (compare t s) [ Ordering.lt ↦ t ∷ rest | _ ↦ s ∷ t ∷ ts ]

unfoldable pub sort : List String → List String
sort [] = []
sort (s ∷ ss) = insert_sorted s (sort ss)

-- diffKeys: the keys of the new map whose value is another or new, and those of the old map that the
-- new one does not have
unfoldable pub changed_keys : String → Map → Map → List String
unfolding sort
changed_keys prefix old new = sort (
    tagged prefix (λ k. not (same_value (lookup k old) (lookup k new))) (keys new)
    ++ tagged prefix (λ k. is_missing (lookup k new)) (keys old))
