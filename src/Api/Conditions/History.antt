-- ===== src/Api/Conditions/History.antt =====
-- What a condition list holds after any number of calls of AddCondition.
use shopware_operator.Prelude.{
  ℕ, zero, suc, ◌+◌, ◌-◌, ◌≤◌, ◌<◌, ◌≡◌, refl, ◌∙◌, inl, inr, Bool, true, false, List, [], ◌∷◌,
  ◌++◌, arith, ltb, if◌then◌else◌, length, drop, drop_last, length-append, length-drop,
  length-drop_last, Bool-cases,
}
use shopware_operator.Api.Conditions.{
  Condition, max_statuses_quantity, last_type, cut, add_condition, get_last_condition,
}

module _ {T : Type 0} (same : T → T → Bool) where
  -- No two neighbours have the same type.
  abbrev pub Alternates : List (Condition T) → Type 0
  Alternates [] = Unit
  Alternates (x ∷ []) = Unit
  Alternates (x ∷ y ∷ ys) = (same x.type y.type ≡ false) × Alternates (y ∷ ys)

  pub record IsWellFormed (cs : List (Condition T)) : Type 0 where
    pub bounded : length cs ≤ max_statuses_quantity
    pub alternates : Alternates cs

  Alternates-tail :
      (x : Condition T) (xs : List (Condition T)) → Alternates (x ∷ xs) → Alternates xs
  Alternates-tail x [] h = tt
  Alternates-tail x (y ∷ ys) h = h.1

  Alternates-drop : (n : ℕ) (xs : List (Condition T)) → Alternates xs → Alternates (drop n xs)
  Alternates-drop zero xs h = h
  Alternates-drop (suc n) [] h = tt
  Alternates-drop (suc n) (x ∷ xs) h = Alternates-drop n xs (Alternates-tail x xs h)

  Alternates-append :
      (c x : Condition T) (xs : List (Condition T))
      → same (last_type same x xs) c.type ≡ false
      → Alternates (x ∷ xs)
      → Alternates (x ∷ xs ++ c ∷ [])
  Alternates-append c x [] e h = (e, tt)
  Alternates-append c x (y ∷ ys) e h = (h.0, Alternates-append c y ys e h.1)

  module _ (same_eq : (s t : T) → same s t ≡ true → s ≡ t) where
    Alternates-replace :
        (c x : Condition T) (xs : List (Condition T))
        → same (last_type same x xs) c.type ≡ true
        → Alternates (x ∷ xs)
        → Alternates (drop_last (x ∷ xs) ++ c ∷ [])
    Alternates-replace c x [] e h = tt
    Alternates-replace c x (y ∷ []) e h = (rw (← same_eq y.type c.type e) h.0, tt)
    Alternates-replace c x (y ∷ z ∷ zs) e h = (h.0, Alternates-replace c y (z ∷ zs) e h.1)

    cut-IsWellFormed :
        (xs : List (Condition T))
        → length xs ≤ suc max_statuses_quantity
        → Alternates xs
        → IsWellFormed (cut same xs)
    cut-IsWellFormed xs h a = elim (Bool-cases (ltb max_statuses_quantity (length xs))) [
      | inl long ↦ rw long (record {
        bounded = omega (arith, length-drop (length xs - max_statuses_quantity) xs);
        alternates = Alternates-drop (length xs - max_statuses_quantity) xs a;
      })
      | inr short ↦ rw short (record { bounded = ground arith; alternates = a })
    ]

    -- A list of at most six conditions, no two neighbours of which have one type, is such a list
    -- again after AddCondition.
    pub add_condition-IsWellFormed :
        (c : Condition T) (cs : List (Condition T))
        → IsWellFormed cs
        → IsWellFormed (add_condition same c cs)
    unfolding add_condition
    add_condition-IsWellFormed c [] w = record { bounded = omega arith; alternates = tt }
    add_condition-IsWellFormed c (x ∷ xs) w =
        elim (Bool-cases (same (last_type same x xs) c.type)) [
          | inl equal ↦ rw equal (record {
            bounded = omega (
              arith,
              w.bounded,
              length-append (drop_last (x ∷ xs)) (c ∷ []),
              length-drop_last x xs,
            );
            alternates = Alternates-replace c x xs equal w.alternates;
          })
          | inr differs ↦ rw differs (
              cut-IsWellFormed (x ∷ xs ++ c ∷ [])
                (omega (arith, w.bounded, length-append (x ∷ xs) (c ∷ [])))
                (Alternates-append c x xs differs w.alternates))
        ]

  last-append :
      (z c : Condition T) (xs : List (Condition T)) → get_last_condition z (xs ++ c ∷ []) ≡ c
  unfolding get_last_condition
  last-append z c [] = refl
  last-append z c (x ∷ []) = refl
  last-append z c (x ∷ y ∷ ys) = last-append z c (y ∷ ys)

  last-drop :
      (n : ℕ) (z : Condition T) (xs : List (Condition T))
      → n < length xs
      → get_last_condition z (drop n xs) ≡ get_last_condition z xs
  unfolding get_last_condition
  last-drop zero z xs h = refl
  last-drop (suc n) z [] h = refl
  last-drop (suc zero) z (x ∷ []) h = absurd (omega arith)
  last-drop (suc (suc n)) z (x ∷ []) h = absurd (omega arith)
  last-drop (suc n) z (x ∷ y ∷ ys) h = last-drop n z (y ∷ ys) (omega arith)

  last-cut :
      (z : Condition T) (xs : List (Condition T))
      → get_last_condition z (cut same xs) ≡ get_last_condition z xs
  last-cut z xs = elim (Bool-cases (ltb max_statuses_quantity (length xs))) [
    | inl long ↦ rw long (last-drop (length xs - max_statuses_quantity) z xs (ground arith))
    | inr short ↦ rw short
  ]

  -- The condition that AddCondition was given is the one that GetLastCondition returns, whether it
  -- was appended, took the place of the last one or pushed the oldest ones out.
  pub last-add_condition :
      (z c : Condition T) (cs : List (Condition T))
      → get_last_condition z (add_condition same c cs) ≡ c
  unfolding add_condition get_last_condition
  last-add_condition z c [] = refl
  last-add_condition z c (x ∷ xs) = elim (Bool-cases (same (last_type same x xs) c.type)) [
    | inl equal ↦ rw equal (last-append z c (drop_last (x ∷ xs)))
    | inr differs ↦ rw differs (last-cut z (x ∷ xs ++ c ∷ []) ∙ last-append z c (x ∷ xs))
  ]

  -- AddCondition keeps the newest six of all conditions, counting the new one in place of the last one
  -- if they have the same type and behind it if they have not.
  pub add_condition_newest :
      (c x : Condition T) (xs : List (Condition T))
      → add_condition same c (x ∷ xs) ≡ (
          if same (last_type same x xs) c.type
          then drop_last (x ∷ xs) ++ c ∷ []
          else drop (length (x ∷ xs) + 1 - max_statuses_quantity) (x ∷ xs ++ c ∷ []))
  unfolding add_condition
  add_condition_newest c x xs = elim (Bool-cases (same (last_type same x xs) c.type)) [
    | inl equal ↦ rw equal
    | inr differs ↦ rw differs (newest (x ∷ xs))
  ]
    where
      newest :
          (cs : List (Condition T))
          → cut same (cs ++ c ∷ []) ≡ drop (length cs + 1 - max_statuses_quantity) (cs ++ c ∷ [])
      newest cs = elim (Bool-cases (ltb max_statuses_quantity (length (cs ++ c ∷ [])))) [
        | inl long ↦ rw (long, length-append cs (c ∷ []))
        | inr short ↦
            let none_over : length cs + 1 - max_statuses_quantity ≡ 0 =
              ground (arith, length-append cs (c ∷ [])) in
            rw (short, none_over)
      ]
