-- ===== src/Api/Environment/Seen.antt =====
-- Which variable a container gets: of several of a name in its list, the last.
use shopware_operator.Prelude.{
  ℕ, suc, ◌≤◌, String, ◌≡◌, refl, sym, ap, ◌∙◌, true, false, Option, none, some, List, [], ◌∷◌,
  arith, ltb, ◌==◌, eq_iff, if◌then◌else◌, inl, inr, Bool-cases, ◌⊎◌, ◌&&◌, eqb,
}
use shopware_operator.Kube.{EnvVar}
use shopware_operator.Api.Store.{Store}
use shopware_operator.Api.Environment.{operator_env, put_env, put_envs, get_env}
use shopware_operator.Api.Environment.Overrides.{last_env}

-- How often a name is set
unfoldable pub count_env : String → List EnvVar → ℕ
count_env k [] = 0
count_env k (c ∷ cs) = let rest = count_env k cs in if c.name == k then suc rest else rest

put_env-same :
    (e c : EnvVar) (cs : List EnvVar) → c.name == e.name ≡ true → put_env e (c ∷ cs) ≡ e ∷ cs
unfolding put_env
put_env-same e c cs h = rw h refl

put_env-other :
    (e c : EnvVar) (cs : List EnvVar)
    → c.name == e.name ≡ false
    → put_env e (c ∷ cs) ≡ c ∷ put_env e cs
unfolding put_env
put_env-other e c cs h = rw h refl

last_env-set :
    (k : String) (o : Option EnvVar) (e : EnvVar) (cs : List EnvVar)
    → e.name == k ≡ true
    → last_env k o (e ∷ cs) ≡ last_env k (some e) cs
last_env-set k o e cs h = rw h refl

last_env-skip :
    (k : String) (o : Option EnvVar) (e : EnvVar) (cs : List EnvVar)
    → e.name == k ≡ false
    → last_env k o (e ∷ cs) ≡ last_env k o cs
last_env-skip k o e cs h = rw h refl

module _ (k : String) where
  last_env-absent :
      (o : Option EnvVar) (cs : List EnvVar) → count_env k cs ≡ 0 → last_env k o cs ≡ o
  unfolding count_env
  last_env-absent o [] h = refl
  last_env-absent o (c ∷ cs) h = elim (Bool-cases (c.name == k)) [
    | inl same ↦ let h' = rw same at h in absurd (ground arith)
    | inr other ↦ rw other (last_env-absent o cs (rw other at h))
  ]

  -- A list that sets the name decides alone.
  last_env-present :
      (o p : Option EnvVar) (cs : List EnvVar)
      → 1 ≤ count_env k cs
      → last_env k o cs ≡ last_env k p cs
  unfolding count_env
  last_env-present o p [] h = absurd (ground arith)
  last_env-present o p (c ∷ cs) h = elim (Bool-cases (c.name == k)) [
    | inl same ↦ rw same refl
    | inr other ↦ rw other (last_env-present o p cs (rw other at h))
  ]

  last-put_env_other :
      (e : EnvVar) (o : Option EnvVar) (cs : List EnvVar)
      → e.name == k ≡ false
      → last_env k o (put_env e cs) ≡ last_env k o cs
  unfolding put_env
  last-put_env_other e o [] h = rw h refl
  last-put_env_other e o (c ∷ cs) h = elim (Bool-cases (c.name == e.name)) [
    | inl same ↦
        let other : c.name == k ≡ false = rw ((eq_iff c.name e.name).0 same) h in
        ap (last_env k o) (put_env-same e c cs same)
        ∙ last_env-skip k o e cs h
        ∙ sym (last_env-skip k o c cs other)
    | inr other ↦
        ap (last_env k o) (put_env-other e c cs other)
        ∙ last-put_env_other e (if c.name == k then some c else o) cs h
  ]

  apart : (e c : EnvVar) → e.name == k ≡ true → c.name == e.name ≡ false → c.name == k ≡ false
  apart e c h other = ground (arith, eq_iff c.name e.name, eq_iff e.name k, eq_iff c.name k)

  last-put_env_single :
      (e : EnvVar) (o : Option EnvVar) (cs : List EnvVar)
      → e.name == k ≡ true
      → count_env k cs ≤ 1
      → last_env k o (put_env e cs) ≡ some e
  unfolding put_env count_env
  last-put_env_single e o [] h few = rw h refl
  last-put_env_single e o (c ∷ cs) h few = elim (Bool-cases (c.name == e.name)) [
    | inl same ↦
        let here : c.name == k ≡ true = rw ((eq_iff c.name e.name).0 same) h in
        let few' = rw here at few in
        ap (last_env k o) (put_env-same e c cs same)
        ∙ last_env-set k o e cs h
        ∙ last_env-absent (some e) cs (omega (arith, few'))
    | inr other ↦
        let elsewhere = apart e c h other in
        ap (last_env k o) (put_env-other e c cs other)
        ∙ last-put_env_single e (if c.name == k then some c else o) cs h (rw elsewhere at few)
  ]

  last-put_env_repeated :
      (e : EnvVar) (o : Option EnvVar) (cs : List EnvVar)
      → e.name == k ≡ true
      → 2 ≤ count_env k cs
      → last_env k o (put_env e cs) ≡ last_env k o cs
  unfolding put_env count_env
  last-put_env_repeated e o [] h many = absurd (ground arith)
  last-put_env_repeated e o (c ∷ cs) h many = elim (Bool-cases (c.name == e.name)) [
    | inl same ↦
        let here : c.name == k ≡ true = rw ((eq_iff c.name e.name).0 same) h in
        let many' = rw here at many in
        ap (last_env k o) (put_env-same e c cs same)
        ∙ last_env-set k o e cs h
        ∙ last_env-present (some e) (some c) cs (omega (arith, many'))
        ∙ sym (last_env-set k o c cs here)
    | inr other ↦
        let elsewhere = apart e c h other in
        ap (last_env k o) (put_env-other e c cs other)
        ∙ last-put_env_repeated e (if c.name == k then some c else o) cs h (rw elsewhere at many)
  ]

  -- Setting a variable keeps the number of its name, but from 0 to 1.
  count-put_env :
      (e : EnvVar) (cs : List EnvVar)
      → count_env k (put_env e cs)
        ≡ (if e.name == k && eqb (count_env k cs) 0 then 1 else count_env k cs)
  unfolding put_env count_env
  count-put_env e [] = ground arith
  count-put_env e (c ∷ cs) =
      ground (arith, eq_iff c.name e.name, eq_iff e.name k, eq_iff c.name k, count-put_env e cs)

  last-put_envs_repeated :
      (cs es : List EnvVar)
      → 2 ≤ count_env k cs
      → last_env k none (put_envs cs es) ≡ last_env k none cs
  unfolding put_envs
  last-put_envs_repeated cs [] many = refl
  last-put_envs_repeated cs (e ∷ es) many =
      let many' : 2 ≤ count_env k (put_env e cs) = rw (count-put_env e cs) (ground arith) in
      last-put_envs_repeated (put_env e cs) es many' ∙ kept (Bool-cases (e.name == k))
    where
      kept :
          (e.name == k ≡ true) ⊎ (e.name == k ≡ false)
          → last_env k none (put_env e cs) ≡ last_env k none cs
      kept (inl same) = last-put_env_repeated e none cs same many
      kept (inr other) = last-put_env_other e none cs other

  last-put_envs_single :
      (cs es : List EnvVar)
      → count_env k cs ≤ 1
      → last_env k none (put_envs cs es) ≡ last_env k (last_env k none cs) es
  unfolding put_envs
  last-put_envs_single cs [] few = refl
  last-put_envs_single cs (e ∷ es) few =
      let few' : count_env k (put_env e cs) ≤ 1 = rw (count-put_env e cs) (ground arith) in
      last-put_envs_single (put_env e cs) es few'
      ∙ ap (λ o. last_env k o es) (set (Bool-cases (e.name == k)))
    where
      set :
          (e.name == k ≡ true) ⊎ (e.name == k ≡ false)
          → last_env k none (put_env e cs) ≡ (if e.name == k then some e else last_env k none cs)
      set (inl same) = rw same (last-put_env_single e none cs same few)
      set (inr other) = rw other (last-put_env_other e none cs other)

-- Of the variables of a name in the list of GetEnv a container gets the last. If the operator sets the
-- name at most once, this is the last of the user's variables of the name, and the operator's where the
-- user has none. If the operator sets the name more often, it is the operator's last one, whatever the
-- user sets.
pub last-get_env :
    (url : String) (s : Store) (k : String)
    → let own = last_env k none (operator_env url s) in
      last_env k none (get_env url s) ≡ (
        if ltb 1 (count_env k (operator_env url s))
        then own
        else last_env k own s.spec.container.extra_envs)
unfolding get_env
last-get_env url s k = elim (Bool-cases (ltb 1 (count_env k (operator_env url s)))) [
  | inl many ↦
      rw many
        (last-put_envs_repeated k (operator_env url s) s.spec.container.extra_envs (ground arith))
  | inr few ↦
      rw few
        (last-put_envs_single k (operator_env url s) s.spec.container.extra_envs (ground arith))
]
