-- ===== src/Prelude/Assoc.antt =====
-- Go's `map[string]V` as an association list, of which the first entry of a key counts.
use Prim.Native.String.{String}
use mathlib.Core.Path.{◌≡◌, refl}
use mathlib.Core.Bool.{Bool, true, false}
use mathlib.Core.Option.{Option, none, some}
use mathlib.Core.List.{List, [], ◌∷◌}
use native.Mathlib.Omega.{arith}
use text.Mathlib.Text.{◌==◌}
use text.Mathlib.TextEquality.{eq_iff}
use shopware_operator.Prelude.Tests.{if◌then◌else◌}

-- `m[key] = value`
unfoldable pub insert {ℓ} : {V : Type ℓ} → String → V → List (String × V) → List (String × V)
insert key value (entry ∷ m) =
    let rest = insert key value m in if entry.0 == key then (key, value) ∷ m else entry ∷ rest
insert key value [] = (key, value) ∷ []

-- `value, ok := m[key]`
unfoldable pub lookup {ℓ} : {V : Type ℓ} → String → List (String × V) → Option V
lookup key (entry ∷ m) = let rest = lookup key m in if entry.0 == key then some entry.1 else rest
lookup key [] = none

-- `delete(m, key)`
unfoldable pub erase {ℓ} : {V : Type ℓ} → String → List (String × V) → List (String × V)
erase key (entry ∷ m) = let rest = erase key m in if entry.0 == key then rest else entry ∷ rest
erase key [] = []

-- `maps.Copy(dst, src)`
unfoldable pub copy {ℓ} : {V : Type ℓ} → List (String × V) → List (String × V) → List (String × V)
unfolding insert
copy dst (entry ∷ src) = copy (insert entry.0 entry.1 dst) src
copy dst [] = dst

-- The keys of a map, in some order.
abbrev pub keys {ℓ} : {V : Type ℓ} → List (String × V) → List String
keys [] = []
keys (entry ∷ m) = entry.0 ∷ keys m

pub lookup-insert {ℓ} :
    {V : Type ℓ} (key asked : String) (value : V) (m : List (String × V))
    → lookup asked (insert key value m) ≡ (if key == asked then some value else lookup asked m)
unfolding lookup insert
lookup-insert key asked value (entry ∷ m) = ground (
  arith,
  lookup-insert key asked value m,
  eq_iff entry.0 key,
  eq_iff entry.0 asked,
  eq_iff key asked,
)
lookup-insert key asked value [] = refl

pub lookup-erase {ℓ} :
    {V : Type ℓ} (key asked : String) (m : List (String × V))
    → lookup asked (erase key m) ≡ (if key == asked then none else lookup asked m)
unfolding lookup erase
lookup-erase key asked (entry ∷ m) =
    ground
      (arith, lookup-erase key asked m, eq_iff entry.0 key, eq_iff entry.0 asked, eq_iff key asked)
lookup-erase key asked [] = ground arith

abbrev pub or_else {ℓ} : {A : Type ℓ} → Option A → Option A → Option A
or_else (some a) b = some a
or_else none b = b

-- The value of the last entry of a key.
abbrev pub last_lookup {ℓ} : {V : Type ℓ} → String → List (String × V) → Option V
last_lookup key [] = none
last_lookup key (entry ∷ m) =
    or_else (last_lookup key m) (if entry.0 == key then some entry.1 else none)

or_else_if {ℓ} :
    {A : Type ℓ} (later here : Option A) (t : Bool) (v : A)
    → or_else later (if t then some v else here)
      ≡ or_else (or_else later (if t then some v else none)) here
or_else_if none here true v = refl
or_else_if none here false v = refl
or_else_if (some a) here t v = refl

pub lookup-copy {ℓ} :
    {V : Type ℓ} (key : String) (dst src : List (String × V))
    → lookup key (copy dst src) ≡ or_else (last_lookup key src) (lookup key dst)
unfolding copy
lookup-copy key dst [] = refl
lookup-copy key dst (entry ∷ src) =
    rw (lookup-copy key (insert entry.0 entry.1 dst) src, lookup-insert)
      (or_else_if (last_lookup key src) (lookup key dst) (entry.0 == key) entry.1)
