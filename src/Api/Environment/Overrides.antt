-- ===== src/Api/Environment/Overrides.antt =====
-- Which entry GetEnv and OverriddenOperatorEnvs find when the user's variables meet the operator's: the
-- first of a name, by slices.IndexFunc. Seen says which one a container gets.
use shopware_operator.Prelude.{
  String, ◌≡◌, refl, sym, ◌∙◌, Bool, true, false, Option, none, some, List, [], ◌∷◌, ◌++◌, arith,
  ◌==◌, eq_iff, if◌then◌else◌, inl, inr, Bool-cases,
}
use mathlib.Core.Path.{subst}
use shopware_operator.Kube.{EnvVar}
use shopware_operator.Api.Store.{Store}
use shopware_operator.Api.Environment.{
  operator_env, find_env, put_env, put_envs, get_env, EnvOverride, set_extra, has_extra,
  append_override, add_override, add_overrides, overridden_operator_envs,
}

-- The last variable of a name.
abbrev pub last_env : String → Option EnvVar → List EnvVar → Option EnvVar
last_env k o [] = o
last_env k o (e ∷ es) = last_env k (if e.name == k then some e else o) es

find-put_env :
    (k : String) (e : EnvVar) (cs : List EnvVar)
    → find_env k (put_env e cs) ≡ (if e.name == k then some e else find_env k cs)
unfolding find_env put_env
find-put_env k e [] = refl
find-put_env k e (c ∷ cs) =
    ground (arith, eq_iff c.name e.name, eq_iff e.name k, eq_iff c.name k, find-put_env k e cs)

find-put_envs :
    (k : String) (cs es : List EnvVar) → find_env k (put_envs cs es) ≡ last_env k (find_env k cs) es
unfolding put_envs
find-put_envs k cs [] = refl
find-put_envs k cs (e ∷ es) = rw (find-put_envs k (put_env e cs) es, find-put_env k e cs) refl

-- The first entry of a name in the result of GetEnv is the last of the user's variables of that name, and
-- the operator's first where the user has none.
pub find-get_env :
    (url : String) (s : Store) (k : String)
    → find_env k (get_env url s)
      ≡ last_env k (find_env k (operator_env url s)) s.spec.container.extra_envs
unfolding get_env
find-get_env url s k = find-put_envs k (operator_env url s) s.spec.container.extra_envs

-- The entry of a name.
abbrev find_override : String → List EnvOverride → Option EnvOverride
find_override k [] = none
find_override k (o ∷ os) =
    let rest = find_override k os in if o.extra.name == k then some o else rest

abbrev paired : Option EnvVar → Option EnvVar → Option EnvOverride
paired (some c) (some e) = some (record { operator = c; extra = e })
paired _ _ = none

abbrev with_extra : EnvVar → Option EnvOverride → Option EnvOverride
with_extra e none = none
with_extra e (some o) = some (record o { extra = e })

abbrev is_some : {A : Type 0} → Option A → Bool
is_some none = false
is_some (some a) = true

has_extra_lem : (k : String) (os : List EnvOverride) → has_extra k os ≡ is_some (find_override k os)
has_extra_lem k [] = refl
has_extra_lem k (o ∷ os) = ground (arith, has_extra_lem k os)

find-set_extra_self :
    (e : EnvVar) (os : List EnvOverride)
    → find_override e.name (set_extra e os) ≡ with_extra e (find_override e.name os)
find-set_extra_self e [] = refl
find-set_extra_self e (o ∷ os) = ground (arith, eq_iff e.name e.name, find-set_extra_self e os)

find-set_extra_ne :
    (k : String) (e : EnvVar) (os : List EnvOverride)
    → e.name == k ≡ false
    → find_override k (set_extra e os) ≡ find_override k os
find-set_extra_ne k e [] h = refl
find-set_extra_ne k e (o ∷ os) h = ground (
  arith,
  eq_iff o.extra.name e.name,
  eq_iff e.name k,
  eq_iff o.extra.name k,
  find-set_extra_ne k e os h,
)

find-append_ne :
    (k : String) (e c : EnvVar) (os : List EnvOverride)
    → e.name == k ≡ false
    → find_override k (os ++ record { operator = c; extra = e } ∷ []) ≡ find_override k os
find-append_ne k e c [] h = rw h refl
find-append_ne k e c (o ∷ os) h = ground (arith, find-append_ne k e c os h)

find-append_self :
    (e c : EnvVar) (os : List EnvOverride)
    → find_override e.name os ≡ none
    → find_override e.name (os ++ record { operator = c; extra = e } ∷ [])
      ≡ some (record { operator = c; extra = e })
find-append_self e c [] h = ground (arith, eq_iff e.name e.name)
find-append_self e c (o ∷ os) h = ground (arith, find-append_self e c os)

find-append_override_ne :
    (k : String) (e : EnvVar) (c : Option EnvVar) (os : List EnvOverride)
    → e.name == k ≡ false
    → find_override k (append_override e c os) ≡ find_override k os
find-append_override_ne k e none os h = refl
find-append_override_ne k e (some c) os h = find-append_ne k e c os h

find-append_override_self :
    (e : EnvVar) (c : Option EnvVar) (os : List EnvOverride)
    → find_override e.name os ≡ none
    → find_override e.name (append_override e c os) ≡ paired c (some e)
find-append_override_self e none os h = h
find-append_override_self e (some c) os h = find-append_self e c os h

replaced :
    (e : EnvVar) (c l : Option EnvVar)
    → is_some (paired c l) ≡ true
    → with_extra e (paired c l) ≡ paired c (some e)
replaced e (some c) (some l) h = refl
replaced e (some c) none h = cc
replaced e none l h = cc

empty_pair : {A : Type 0} (o : Option A) → is_some o ≡ false → o ≡ none
empty_pair none h = refl
empty_pair (some a) h = cc

find-add_override_self :
    (operator : List EnvVar) (os : List EnvOverride) (e : EnvVar) (l : Option EnvVar)
    → find_override e.name os ≡ paired (find_env e.name operator) l
    → find_override e.name (add_override operator os e) ≡ paired (find_env e.name operator) (some e)
find-add_override_self operator os e l h = elim (Bool-cases (has_extra e.name os)) [
  | inl old ↦
      let there : is_some (paired (find_env e.name operator) l) ≡ true =
        rw (← h) (sym (has_extra_lem e.name os) ∙ old) in
      rw (old, find-set_extra_self e os, h) (replaced e (find_env e.name operator) l there)
  | inr new ↦
      let missing : find_override e.name os ≡ none =
        empty_pair (find_override e.name os) (sym (has_extra_lem e.name os) ∙ new) in
      rw new (find-append_override_self e (find_env e.name operator) os missing)
]

find-add_override_ne :
    (k : String) (operator : List EnvVar) (os : List EnvOverride) (e : EnvVar)
    → e.name == k ≡ false
    → find_override k (add_override operator os e) ≡ find_override k os
find-add_override_ne k operator os e h = elim (Bool-cases (has_extra e.name os)) [
  | inl old ↦ rw old (find-set_extra_ne k e os h)
  | inr new ↦ rw new (find-append_override_ne k e (find_env e.name operator) os h)
]

find-add_override :
    (k : String) (operator : List EnvVar) (os : List EnvOverride) (e : EnvVar) (l : Option EnvVar)
    → find_override k os ≡ paired (find_env k operator) l
    → find_override k (add_override operator os e)
      ≡ paired (find_env k operator) (if e.name == k then some e else l)
find-add_override k operator os e l h = elim (Bool-cases (e.name == k)) [
  | inl same ↦
      let name : e.name ≡ k = (eq_iff e.name k).0 same in
      rw same (
        subst
          (λ j.
            find_override j (add_override operator os e) ≡ paired (find_env j operator) (some e))
          name (find-add_override_self operator os e l (rw name h)))
  | inr differs ↦ rw (differs, find-add_override_ne k operator os e differs) h
]

find-add_overrides :
    (k : String) (operator : List EnvVar) (os : List EnvOverride) (l : Option EnvVar)
    (es : List EnvVar)
    → find_override k os ≡ paired (find_env k operator) l
    → find_override k (add_overrides operator os es)
      ≡ paired (find_env k operator) (last_env k l es)
unfolding add_overrides
find-add_overrides k operator os l [] h = h
find-add_overrides k operator os l (e ∷ es) h =
    find-add_overrides k operator (add_override operator os e) (if e.name == k then some e else l)
      es (find-add_override k operator os e l h)

none-paired : (c : Option EnvVar) → none ≡ paired c none
none-paired none = refl
none-paired (some c) = refl

-- OverriddenOperatorEnvs has an entry for a name exactly when the operator and the user both set it,
-- and the entry shows the operator's first variable and the last of the user's.
find-overridden_operator_envs :
    (url : String) (s : Store) (k : String)
    → find_override k (overridden_operator_envs url s)
      ≡ paired (find_env k (operator_env url s)) (last_env k none s.spec.container.extra_envs)
unfolding overridden_operator_envs
find-overridden_operator_envs url s k =
    find-add_overrides k (operator_env url s) [] none s.spec.container.extra_envs
      (none-paired (find_env k (operator_env url s)))
