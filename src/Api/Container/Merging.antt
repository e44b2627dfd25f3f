-- ===== src/Api/Container/Merging.antt =====
-- Which entry mergeVolumesByName leaves for a name.
use shopware_operator.Prelude.{
  ℕ, suc, ◌+◌, String, ◌≡◌, refl, sym, ap, ◌⊎◌, inl, inr, true, false, Option, none, some, List, [],
  ◌∷◌, ◌++◌, arith, ◌==◌, eq_iff, if◌then◌else◌, Bool-cases,
}
use shopware_operator.Prelude.Assoc.{lookup, or_else, last_lookup, lookup-copy}
use shopware_operator.Kube.{Volume}
use shopware_operator.Api.Container.{
  value_or, copy_over, last_index, replace_at, merge_one, merge_by_name,
}

abbrev pub named : String → Volume → Option Volume
named k v = if v.name == k then some v else none

-- The last entry of a name.
abbrev pub last_named : String → List Volume → Option Volume
last_named k [] = none
last_named k (b ∷ bs) = or_else (last_named k bs) (named k b)

or_else_assoc : {A : Type 0} (a b c : Option A) → or_else (or_else a b) c ≡ or_else a (or_else b c)
or_else_assoc none b c = refl
or_else_assoc (some a) b c = refl

or_else-none : {A : Type 0} (a : Option A) → or_else a none ≡ a
or_else-none none = refl
or_else-none (some a) = refl

last_named-append :
    (k : String) (m : Volume) (bs : List Volume)
    → last_named k (bs ++ m ∷ []) ≡ or_else (named k m) (last_named k bs)
last_named-append k m [] = sym (or_else-none (named k m))
last_named-append k m (b ∷ bs) =
    rw (last_named-append k m bs) (or_else_assoc (named k m) (last_named k bs) (named k b))

-- What the index of the loop finds: nothing if the name does not occur, and otherwise the place at
-- which an entry with the name takes the place of the last one.
abbrev IsPlaced : Volume → List Volume → ℕ → Type 0
IsPlaced m bs p =
    (k : String) → last_named k (replace_at p m bs) ≡ or_else (named k m) (last_named k bs)

replace_first :
    (k : String) (m b : Volume) (bs : List Volume)
    → b.name == m.name ≡ true
    → last_named m.name bs ≡ none
    → or_else (last_named k bs) (named k m)
      ≡ or_else (named k m) (or_else (last_named k bs) (named k b))
replace_first k m b bs same fresh = elim (Bool-cases (m.name == k)) [
  | inl here ↦
      let is_here : m.name ≡ k = (eq_iff m.name k).0 here in
      let gone : last_named k bs ≡ none = rw (← is_here) fresh in rw (gone, here) refl
  | inr other ↦
      let other' : b.name == k ≡ false = rw ((eq_iff b.name m.name).0 same) other in
      rw (other, other') refl
]

last_index_cases :
    (m : Volume) (i : ℕ) (bs : List Volume)
    → ((last_index m.name i bs ≡ none) × (last_named m.name bs ≡ none))
      ⊎ ((p : ℕ) × (last_index m.name i bs ≡ some (i + p)) × IsPlaced m bs p)
unfolding last_index replace_at
last_index_cases m i [] = inl (refl, refl)
last_index_cases m i (b ∷ bs) = elim (last_index_cases m (suc i) bs) [
  | inr (p, e, placed) ↦ inr (
    suc p,
    rw e (ap some (omega arith)),
    λ k. rw (placed k) (or_else_assoc (named k m) (last_named k bs) (named k b)),
  )
  | inl (e, fresh) ↦ elim (Bool-cases (b.name == m.name)) [
    | inl same ↦
        inr (0, rw (e, same) (ap some (omega arith)), λ k. replace_first k m b bs same fresh)
    | inr differs ↦ inl (rw (e, differs) refl, rw (fresh, differs) refl)
  ]
]

last_named-merge_one :
    (k : String) (base : List Volume) (m : Volume)
    → last_named k (merge_one base m) ≡ or_else (named k m) (last_named k base)
unfolding merge_one
last_named-merge_one k base m = elim (last_index_cases m 0 base) [
  | inl (e, fresh) ↦ rw e (last_named-append k m base)
  | inr (p, e, placed) ↦ let from_start : 0 + p ≡ p = omega arith in rw (e, from_start) (placed k)
]

-- In what mergeVolumesByName returns, the last entry of any name is the last entry that the override
-- has of that name, and where the override has none, the one of the base.
pub last_named-merge_by_name :
    (k : String) (base from : List Volume)
    → last_named k (merge_by_name base from) ≡ or_else (last_named k from) (last_named k base)
unfolding merge_by_name
last_named-merge_by_name k base [] = refl
last_named-merge_by_name k base (m ∷ from) =
    rw (last_named-merge_by_name k (merge_one base m) from, last_named-merge_one k base m)
      (sym (or_else_assoc (last_named k from) (named k m) (last_named k base)))

-- A key of a map after a merge: the last value that the override gives it, or else the one it had.
pub lookup-copy_over :
    (key : String) (o : Option (List (String × String))) (c : List (String × String))
    → lookup key (copy_over o c) ≡ or_else (last_lookup key (value_or o [])) (lookup key c)
lookup-copy_over key none c = refl
lookup-copy_over key (some m) c = lookup-copy key c m
