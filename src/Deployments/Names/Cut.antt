-- ===== src/Deployments/Names/Cut.antt =====
-- internal/deployment/worker.go: the string operations behind the names. Kubernetes names are ASCII, so
-- a byte of Go's string is a character here; a character of more bytes is never cut in two.
use Prim.Native.Char.{Char, char, code, IsScalar, len_utf8}
use Prim.Native.Nat.{compare, Ordering}
use Prim.Native.String.{[], ◌∷◌, len}
use Prim.Native.String.len
use shopware_operator.Kube.{Env}
use shopware_operator.Prelude.{
  Bool-cases, inl, inr, ltb, leb→le, ℕ, ◌+◌, ◌-◌, ◌≤◌, String, ◌≡◌, refl, ◌&&◌, arith, leb, eqb,
  ◌==◌, if◌then◌else◌,
}

-- The character of a small code.
of_code : (n : ℕ) → (o : Ordering) → compare n 55296 ≡ o → Char
of_code n Ordering.lt e = char n (rw (e, IsScalar) tt)
of_code n _ e = char 0 tt

ascii_char : ℕ → Char
unfolding of_code
ascii_char n = of_code n (compare n 55296) refl

-- `strings.ToLower`, with the table of the other letters as `env.lower_rune`, and
-- `strings.ReplaceAll(_, "_", "-")`
lower_char : Env → Char → Char
unfolding ascii_char
lower_char env c =
    if ltb (code c) 128
    then (if leb b'A' (code c) && leb (code c) b'Z' then ascii_char (code c + 32) else c)
    else env.lower_rune c

unfoldable pub to_lower : Env → String → String
unfolding lower_char
to_lower env [] = []
to_lower env (c ∷ s) = lower_char env c ∷ to_lower env s

unfoldable pub dash_for_underscore : String → String
unfolding ascii_char
dash_for_underscore [] = []
dash_for_underscore (c ∷ s) =
    (if eqb (code c) b'_' then ascii_char b'-' else c) ∷ dash_for_underscore s

-- `s[:n]`
unfoldable pub first_bytes : ℕ → String → String
first_bytes n [] = []
first_bytes n (c ∷ s) = if leb (len_utf8 c) n then c ∷ first_bytes (n - len_utf8 c) s else []

-- `strings.TrimRight(s, "-")`
unfoldable pub trim_right : String → String
trim_right [] = []
trim_right (c ∷ s) = let t = trim_right s in if eqb (code c) b'-' && (t == "") then [] else c ∷ t

pub len-first_bytes : (n : ℕ) (s : String) → len (first_bytes n s) ≤ n
unfolding first_bytes
len-first_bytes n [] = rw len.nil (omega arith)
len-first_bytes n (c ∷ s) = elim (Bool-cases (leb (len_utf8 c) n)) [
  | inl fits ↦
      rw (fits, len.cons)
        (omega (arith, len-first_bytes (n - len_utf8 c) s, leb→le (len_utf8 c) n fits))
  | inr over ↦ rw (over, len.nil) (omega arith)
]

pub len-trim_right : (s : String) → len (trim_right s) ≤ len s
unfolding trim_right
len-trim_right [] = omega arith
len-trim_right (c ∷ s) = elim (Bool-cases (eqb (code c) b'-' && (trim_right s == ""))) [
  | inl cut ↦ rw (cut, len.nil) (omega arith)
  | inr kept ↦ rw (kept, len.cons, len.cons) (omega (arith, len-trim_right s))
]
