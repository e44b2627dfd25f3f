-- ===== src/Workloads/Limits/Variables.antt =====
-- What MergeEnv makes of two environments.
use shopware_operator.Prelude.{
  String, ◌≡◌, refl, sym, Bool, true, false, Option, none, some, List, [], ◌∷◌, ◌++◌, arith, ◌==◌,
  eq_iff, if◌then◌else◌, inl, inr, Bool-cases,
}
use shopware_operator.Prelude.Assoc.{or_else}
use shopware_operator.Kube.{EnvVar}
use shopware_operator.Workloads.Containers.{overwrite_env, has_env, merge_envs, merge_env}

abbrev env_if : String → EnvVar → Option EnvVar
env_if name e = if e.name == name then some e else none

-- The variable that counts: the last one of the name.
abbrev pub last_env : String → List EnvVar → Option EnvVar
last_env name [] = none
last_env name (e ∷ es) = or_else (last_env name es) (env_if name e)

-- No name occurs twice.
abbrev IsUnique : List EnvVar → Type 0
IsUnique [] = Unit
IsUnique (e ∷ es) = (has_env e.name es ≡ false) × IsUnique es

or_else_assoc : (a b c : Option EnvVar) → or_else (or_else a b) c ≡ or_else a (or_else b c)
or_else_assoc none b c = refl
or_else_assoc (some a) b c = refl

or_else-none : (a : Option EnvVar) → or_else a none ≡ a
or_else-none none = refl
or_else-none (some a) = refl

last_env-append :
    (name : String) (es : List EnvVar) (fs : List EnvVar)
    → last_env name (es ++ fs) ≡ or_else (last_env name fs) (last_env name es)
last_env-append name [] fs = sym (or_else-none (last_env name fs))
last_env-append name (e ∷ es) fs =
    rw (last_env-append name es fs)
      (or_else_assoc (last_env name fs) (last_env name es) (env_if name e))

-- A name that does not occur has no variable.
last_env_absent :
    (name : String) (es : List EnvVar) → has_env name es ≡ false → last_env name es ≡ none
unfolding has_env
last_env_absent name [] h = refl
last_env_absent name (e ∷ es) h =
    ground (arith, eq_iff name e.name, eq_iff e.name name, last_env_absent name es)

has_env-overwrite_env :
    (name : String) (e : EnvVar) (dst : List EnvVar)
    → has_env name (overwrite_env e dst) ≡ has_env name dst
unfolding has_env overwrite_env
has_env-overwrite_env name e [] = refl
has_env-overwrite_env name e (d ∷ dst) = ground (
  arith,
  eq_iff e.name d.name,
  eq_iff name e.name,
  eq_iff name d.name,
  has_env-overwrite_env name e dst,
)

overwrite_env-IsUnique :
    (e : EnvVar) (dst : List EnvVar) → IsUnique dst → IsUnique (overwrite_env e dst)
unfolding overwrite_env
overwrite_env-IsUnique e [] u = tt
overwrite_env-IsUnique e (d ∷ dst) u = elim (Bool-cases (e.name == d.name)) [
  | inl same ↦ rw (same, (eq_iff e.name d.name).0 same) u
  | inr other ↦
      rw (other, has_env-overwrite_env d.name e dst) (u.0, overwrite_env-IsUnique e dst u.1)
]

overwritten :
    (name : String) (e d : EnvVar) (dst : List EnvVar)
    → e.name ≡ d.name
    → has_env d.name dst ≡ false
    → or_else (last_env name dst) (env_if name e)
      ≡ (if e.name == name then some e else or_else (last_env name dst) (env_if name d))
overwritten name e d dst same fresh = elim (Bool-cases (e.name == name)) [
  | inr other ↦ rw (← same, other) refl
  | inl here ↦
      let gone : last_env name dst ≡ none =
        last_env_absent name dst (rw (← (eq_iff e.name name).0 here, same) fresh) in
      rw (here, gone) refl
]

or_else-some :
    (a : Option EnvVar) (e : EnvVar) (b : Option EnvVar)
    → or_else a (some e) ≡ or_else (or_else a (some e)) b
or_else-some none e b = refl
or_else-some (some a) e b = refl

or_else_if :
    (t : Bool) (e : EnvVar) (a b : Option EnvVar)
    → or_else (if t then some e else a) b ≡ (if t then some e else or_else a b)
or_else_if true e a b = refl
or_else_if false e a b = refl

last_env-overwrite_env :
    (name : String) (e : EnvVar) (dst : List EnvVar)
    → IsUnique dst
    → has_env e.name dst ≡ true
    → last_env name (overwrite_env e dst) ≡ (if e.name == name then some e else last_env name dst)
unfolding has_env overwrite_env
last_env-overwrite_env name e [] u h = absurd (ground arith)
last_env-overwrite_env name e (d ∷ dst) u h = elim (Bool-cases (e.name == d.name)) [
  | inl same ↦ rw same (overwritten name e d dst ((eq_iff e.name d.name).0 same) u.0)
  | inr other ↦
      let there : has_env e.name dst ≡ true = rw other at h in
      rw (other, last_env-overwrite_env name e dst u.1 there)
        (or_else_if (e.name == name) e (last_env name dst) (env_if name d))
]

-- The variables that wait for the end have names that do not occur.
Waiting : List EnvVar → List EnvVar → Type 0
Waiting dst later = (name : String) → has_env name dst ≡ true → last_env name later ≡ none

Waiting-append :
    (e : EnvVar) (dst later : List EnvVar)
    → has_env e.name dst ≡ false
    → Waiting dst later
    → Waiting dst (later ++ e ∷ [])
unfolding Waiting
Waiting-append e dst later new w n h = elim (Bool-cases (e.name == n)) [
  | inl same ↦
      let absent : has_env n dst ≡ false = rw (← (eq_iff e.name n).0 same) new in
      absurd (cc (absent, h))
  | inr other ↦ rw (last_env-append n later (e ∷ []), other) (w n h)
]

in_place :
    (name : String) (e : EnvVar) (later dst src : List EnvVar)
    → Waiting dst later
    → has_env e.name dst ≡ true
    → or_else
        (last_env name src)
        (or_else (last_env name later) (if e.name == name then some e else last_env name dst))
      ≡ or_else
          (or_else (last_env name src) (env_if name e))
          (or_else (last_env name later) (last_env name dst))
unfolding Waiting
in_place name e later dst src w found = elim (Bool-cases (e.name == name)) [
  | inl same ↦
      let gone : last_env name later ≡ none = w name (rw (← (eq_iff e.name name).0 same) found) in
      rw (same, gone) (or_else-some (last_env name src) e (last_env name dst))
  | inr other ↦ rw (other, or_else-none) refl
]

at_end :
    (s v l d : Option EnvVar)
    → or_else s (or_else (or_else (or_else none v) l) d) ≡ or_else (or_else s v) (or_else l d)
at_end (some a) v l d = refl
at_end none (some b) l d = refl
at_end none none l d = refl

merge_envs_last :
    (name : String) (dst later src : List EnvVar)
    → IsUnique dst
    → Waiting dst later
    → last_env name (merge_envs dst later src)
      ≡ or_else (last_env name src) (or_else (last_env name later) (last_env name dst))
unfolding merge_envs Waiting
merge_envs_last name dst later [] u w = last_env-append name dst later
merge_envs_last name dst later (e ∷ src) u w = elim (Bool-cases (has_env e.name dst)) [
  | inl found ↦
      rw
        (
          found,
          merge_envs_last name (overwrite_env e dst) later src (overwrite_env-IsUnique e dst u)
              (λ n h. w n (rw (has_env-overwrite_env n e dst) at h)),
          last_env-overwrite_env name e dst u found,
        )
        (in_place name e later dst src w found)
  | inr new ↦
      rw
        (
          new,
          merge_envs_last name dst (later ++ e ∷ []) src u (Waiting-append e dst later new w),
          last_env-append name later (e ∷ []),
        )
        (at_end (last_env name src) (env_if name e) (last_env name later) (last_env name dst))
]

-- After MergeEnv(dst, src), where no name occurs twice in dst, the variable that counts for a name is
-- that of src, if src has one, and else that of dst.
pub merge_env_last :
    (name : String) (dst src : List EnvVar)
    → IsUnique dst
    → last_env name (merge_env dst src) ≡ or_else (last_env name src) (last_env name dst)
unfolding merge_env Waiting
merge_env_last name dst src u = merge_envs_last name dst [] src u (λ n h. refl)
