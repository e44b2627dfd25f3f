-- ===== src/Api/Conditions.antt =====
-- The condition lists of api/v1 (store_status.go, execstatus.go, storedebuginstance_status.go).
-- The three `AddCondition` methods have one body over three types of `Type` field, so the list is
-- generic in that type and in its `==`. The list runs from the oldest condition to the newest.
pub mod History
use shopware_operator.Prelude.{
  ℕ, ◌-◌, String, Bool, not, List, [], ◌∷◌, ◌++◌, ltb, if◌then◌else◌, length, drop, drop_last,
}

-- Times are nanoseconds; the zero time is 0.
pub record Condition (T : Type 0) : Type 0 where
  pub type : T
  pub last_transition_time : ℕ
  pub last_update_time : ℕ
  pub message : String
  pub reason : String
  pub status : String

abbrev pub max_statuses_quantity : ℕ
max_statuses_quantity = 6

module _ {T : Type 0} (same : T → T → Bool) where
  -- `s.Conditions[len(s.Conditions)-1].Type`
  abbrev last_type : Condition T → List (Condition T) → T
  last_type x [] = x.type
  last_type x (y ∷ ys) = last_type y ys

  -- "Remove oldest conditions if the length exceeds maxStatusesQuantity"
  abbrev cut : List (Condition T) → List (Condition T)
  cut cs =
      if ltb max_statuses_quantity (length cs)
      then drop (length cs - max_statuses_quantity) cs
      else cs

  -- AddCondition
  unfoldable pub add_condition : Condition T → List (Condition T) → List (Condition T)
  add_condition c [] = c ∷ []
  add_condition c (x ∷ xs) =
      let latest = last_type x xs in
      if same latest c.type
      then drop_last (x ∷ xs) ++ c ∷ []
      else cut (if not (same latest c.type) then (x ∷ xs) ++ c ∷ [] else x ∷ xs)

-- GetLastCondition; `zero` is the zero value of the condition's type.
unfoldable pub get_last_condition : {T : Type 0} → Condition T → List (Condition T) → Condition T
get_last_condition zero [] = zero
get_last_condition zero (x ∷ []) = x
get_last_condition zero (x ∷ y ∷ ys) = get_last_condition zero (y ∷ ys)
