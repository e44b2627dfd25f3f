-- ===== src/Services/Fold.antt =====
-- internal/util/db.go: searching in texts, and `strings.EqualFold(s, "REQUIRED")`. Of the letters of that word no character
-- but the other case folds to one, so the comparison of codes is exact.
use Prim.Native.Char.{code}
use Prim.Native.String.{[], ◌∷◌}
use shopware_operator.Prelude.{ℕ, ◌+◌, String, ◌≡◌, refl, Bool, true, false, ◌&&◌, ◌||◌, eqb}

-- `t` is a word of upper-case ASCII letters.
unfoldable pub equal_fold : String → String → Bool
equal_fold [] [] = true
equal_fold (c ∷ s) (d ∷ t) = (eqb (code c) (code d) || eqb (code c) (code d + 32)) && equal_fold s t
equal_fold _ _ = false

equal_fold_example : equal_fold "Required" "REQUIRED" ≡ true
unfolding equal_fold
equal_fold_example = refl

-- A character of this code occurs.
pub contains : ℕ → String → Bool
contains n [] = false
contains n (c ∷ s) = eqb (code c) n || contains n s
