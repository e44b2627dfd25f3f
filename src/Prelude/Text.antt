-- ===== src/Prelude/Text.antt =====
-- The text that status messages are made of: concatenation, and integers by `%d`.
use Prim.Native.Nat.{ℕ, zero, suc, ◌/◌, ◌%◌}
use Prim.Native.String.{String, ◌++◌ as append}
use mathlib.Core.Path.{◌≡◌, refl}
use mathlib.Core.List.{List, [], ◌∷◌}
use shopware_operator.Prelude.Tests.{eqb, ltb, if◌then◌else◌}
use shopware_operator.Prelude.Int.{ℤ, pos, negsuc}

-- `fmt.Sprintf` at a format whose verbs are filled in: its pieces in order.
abbrev pub concat : List String → String
concat [] = ""
concat (s ∷ ss) = append s (concat ss)

digit : ℕ → String
digit n =
    if eqb n 0
    then "0"
    else if eqb n 1
    then "1"
    else if eqb n 2
    then "2"
    else if eqb n 3
    then "3"
    else if eqb n 4
    then "4"
    else if eqb n 5
    then "5"
    else if eqb n 6
    then "6"
    else if eqb n 7
    then "7"
    else if eqb n 8
    then "8"
    else "9"

-- A number below the fuel has fewer digits than the fuel.
decimal : ℕ → ℕ → String
unfolding digit
decimal zero n = ""
decimal (suc f) n =
    let more = append (decimal f (n / 10)) (digit (n % 10)) in if ltb n 10 then digit n else more

-- `%d`
unfoldable pub show : ℤ → String
unfolding decimal
show (pos n) = decimal (suc n) n
show (negsuc n) = append "-" (decimal (suc (suc n)) (suc n))

show_example : concat ("Exit code: " ∷ show (negsuc 403) ∷ []) ≡ "Exit code: -404"
unfolding show
show_example = refl
