-- ===== src/Queues/Stats/Reading.antt =====
-- The order and the counts of the transports that are read.
use mathlib.Core.List.{Perm}
use shopware_operator.Prelude.{String, ◌≡◌, Option, none, some, List, map, All}
use shopware_operator.Prelude.Int.{ℤ, pos}
use shopware_operator.Prelude.Assoc.{lookup, keys}
use shopware_operator.Api.Container.{value_or}
use shopware_operator.Api.Store.{QueueTransportStats}
use shopware_operator.Cluster.Meta.Sorting.{IsSorted}
use shopware_operator.Queues.Documents.{Counts, Json}
use shopware_operator.Queues.Stats.{count_or_size}

abbrev names : List QueueTransportStats → List String
names ts = map (λ (t : QueueTransportStats). t.name) ts

-- The transports are those of the keys, in order, with the counts that the function gives.
abbrev pub Lists : List String → (String → ℤ) → List QueueTransportStats → Type 0
Lists ks count ts =
    IsSorted (names ts)
    × Perm (names ts) ks
    × All (λ (t : QueueTransportStats). t.count ≡ count t.name) ts

-- A map of the transports, of objects or of plain counts.
pub data Shape : Type 0 where
  objects : List (String × Counts) → Shape
  counts : List (String × ℤ) → Shape

-- The text is read as the shape.
abbrev Reads : Json → String → Shape → Type 0
Reads json raw (objects m) = (json.items raw ≡ none) × (json.objects raw ≡ some m)
Reads json raw (counts m) =
    (json.items raw ≡ none) × (json.objects raw ≡ none) × (json.counts raw ≡ some m)

abbrev pub shape_keys : Shape → List String
shape_keys (objects m) = keys m
shape_keys (counts m) = keys m

-- The count of an object, or else its size, or else 0
abbrev object_count : Option Counts → ℤ
object_count none = pos 0
object_count (some c) = count_or_size c.count c.size

abbrev pub shape_count : Shape → String → ℤ
shape_count (objects m) name = object_count (lookup name m)
shape_count (counts m) name = value_or (lookup name m) (pos 0)
