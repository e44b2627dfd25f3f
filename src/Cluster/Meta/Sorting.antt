-- ===== src/Cluster/Meta/Sorting.antt =====
-- The order of `slices.Sort` and `slices.Sorted`.
use Prim.Native.Char.{code}
use Prim.Native.Nat.{Ordering, compare as compare_ℕ}
use Prim.Native.String.compare
use Prim.Native.String.{[], ◌∷◌, then as decide, compare}
use mathlib.Core.List.{Perm}
use mathlib.Core.List.Perm
use shopware_operator.Prelude.{ℕ, String, ◌≡◌, ◌≢◌, refl, sym, ◌∙◌, List, arith}
use shopware_operator.Cluster.Meta.{insert_sorted, sort}

flipped_lt : (m n : ℕ) → compare_ℕ m n ≡ Ordering.lt → compare_ℕ n m ≡ Ordering.gt
flipped_lt m n h = ground arith

flipped_eq : (m n : ℕ) → compare_ℕ m n ≡ Ordering.eq → compare_ℕ n m ≡ Ordering.eq
flipped_eq m n h = ground arith

-- If one pair of first letters decides, the other way round it decides otherwise.
then_asym :
    (m n : ℕ) (o p : Ordering)
    → (o ≡ Ordering.lt → p ≢ Ordering.lt)
    → decide (compare_ℕ m n) o ≡ Ordering.lt
    → decide (compare_ℕ n m) p ≢ Ordering.lt
then_asym m n o p rest h k = by_letters (compare_ℕ m n) refl
  where
    by_letters : (q : Ordering) → compare_ℕ m n ≡ q → ⊥
    by_letters Ordering.lt e = let f = flipped_lt m n e in let k' = rw f at k in cc k'
    by_letters Ordering.eq e =
        let f = flipped_eq m n e in let h' = rw e at h in let k' = rw f at k in rest h' k'
    by_letters Ordering.gt e = let h' = rw e at h in cc h'

-- Two texts do not stand before each other.
compare_asym : (s t : String) → compare s t ≡ Ordering.lt → compare t s ≢ Ordering.lt
compare_asym [] [] h = λ k. cc (sym compare.nil-nil ∙ k)
compare_asym [] (d ∷ t) h = λ k. cc (sym (compare.cons-nil d t) ∙ k)
compare_asym (c ∷ s) [] h = λ k. cc (sym (compare.cons-nil c s) ∙ h)
compare_asym (c ∷ s) (d ∷ t) h = λ k.
    then_asym (code c) (code d) (compare s t) (compare t s) (compare_asym s t)
      (sym (compare.cons-cons c d s t) ∙ h) (sym (compare.cons-cons d c t s) ∙ k)

-- No text of the list stands before the one in front of it.
abbrev pub IsSorted : List String → Type 0
IsSorted List.[] = Unit
IsSorted (List.◌∷◌ s List.[]) = Unit
IsSorted (List.◌∷◌ s (List.◌∷◌ t ts)) = (compare t s ≢ Ordering.lt) × IsSorted (List.◌∷◌ t ts)

-- An element that stands before none of the list may stand in front of it.
module _ (s t : String) (later : compare s t ≢ Ordering.lt) where
  IsSorted-front :
      (ts : List String)
      → IsSorted (List.◌∷◌ t ts)
      → IsSorted (insert_sorted s ts)
      → IsSorted (List.◌∷◌ t (insert_sorted s ts))
  IsSorted-front List.[] h k = (later, tt)
  IsSorted-front (List.◌∷◌ u us) h k = by_order (compare u s) k
    where
      by_order :
          (o : Ordering)
          → IsSorted (elim o [
            | Ordering.lt ↦ List.◌∷◌ u (insert_sorted s us)
            | _ ↦ List.◌∷◌ s (List.◌∷◌ u us)
          ])
          → IsSorted (
              List.◌∷◌ t (elim o [
                | Ordering.lt ↦ List.◌∷◌ u (insert_sorted s us)
                | _ ↦ List.◌∷◌ s (List.◌∷◌ u us)
              ]))
      by_order Ordering.lt k = (h.0, k)
      by_order Ordering.eq k = (later, k)
      by_order Ordering.gt k = (later, k)

insert_sorted-IsSorted :
    (s : String) (ts : List String) → IsSorted ts → IsSorted (insert_sorted s ts)
insert_sorted-IsSorted s List.[] h = tt
insert_sorted-IsSorted s (List.◌∷◌ t ts) h =
    by_order (insert_sorted-IsSorted s ts (tail ts h)) (compare t s) refl
  where
    tail : (ts : List String) → IsSorted (List.◌∷◌ t ts) → IsSorted ts
    tail List.[] h = tt
    tail (List.◌∷◌ u us) h = h.1

    by_order :
        IsSorted (insert_sorted s ts)
        → (o : Ordering) → compare t s ≡ o
        → IsSorted (elim o [
          | Ordering.lt ↦ List.◌∷◌ t (insert_sorted s ts)
          | _ ↦ List.◌∷◌ s (List.◌∷◌ t ts)
        ])
    by_order r Ordering.lt e = IsSorted-front s t (compare_asym t s e) ts h r
    by_order r Ordering.eq e = ((λ k. cc (sym e ∙ k)), h)
    by_order r Ordering.gt e = ((λ k. cc (sym e ∙ k)), h)

insert_sorted-Perm : (s : String) (ts : List String) → Perm (insert_sorted s ts) (List.◌∷◌ s ts)
insert_sorted-Perm s List.[] = Perm.refl _
insert_sorted-Perm s (List.◌∷◌ t ts) = by_order (insert_sorted-Perm s ts) (compare t s)
  where
    by_order :
        Perm (insert_sorted s ts) (List.◌∷◌ s ts)
        → (o : Ordering)
        → Perm
            (elim o [
              | Ordering.lt ↦ List.◌∷◌ t (insert_sorted s ts)
              | _ ↦ List.◌∷◌ s (List.◌∷◌ t ts)
            ])
            (List.◌∷◌ s (List.◌∷◌ t ts))
    by_order r Ordering.lt = Perm.trans (Perm.cons t r) (Perm.swap s t ts)
    by_order r Ordering.eq = Perm.refl _
    by_order r Ordering.gt = Perm.refl _

-- The sorted list is in order and has the elements of the list, each as often.
pub sort-IsSorted : (ss : List String) → IsSorted (sort ss)
unfolding sort
sort-IsSorted List.[] = tt
sort-IsSorted (List.◌∷◌ s ss) = insert_sorted-IsSorted s (sort ss) (sort-IsSorted ss)

pub sort-Perm : (ss : List String) → Perm (sort ss) ss
unfolding sort
sort-Perm List.[] = Perm.refl _
sort-Perm (List.◌∷◌ s ss) = Perm.trans (insert_sorted-Perm s (sort ss)) (Perm.cons s (sort-Perm ss))
