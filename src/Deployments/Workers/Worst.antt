-- ===== src/Deployments/Workers/Worst.antt =====
-- The joint condition of the worker deployments is the worst of theirs.
use shopware_operator.Prelude.{
  ◌≤◌, ◌≡◌, refl, sym, ◌∙◌, ◌↔◌, ◌⊎◌, inl, inr, List, [], ◌∷◌, arith, ltb, if◌then◌else◌, All,
  Bool-cases,
}
use mathlib.Core.Path.{subst}
use shopware_operator.Kube.{Env, ok}
use shopware_operator.Api.State.{DeploymentState, running}
use shopware_operator.Api.Store.{Store}
use shopware_operator.Deployments.Workers.{
  Worker, worker_deployments, rank, worker_condition, Totals, add_worker, add_workers, no_totals,
  get_worker_deployment_condition,
}

module _ (env : Env) (store : Store) where
  -- The state of one worker deployment.
  abbrev pub state_of : Worker → DeploymentState
  state_of w = (worker_condition env.now w (env.get_deployment store.namespace w.name)).state

  abbrev worse : DeploymentState → DeploymentState → DeploymentState
  worse s t = if ltb (rank s) (rank t) then t else s

  -- The worst state of a list, from the running state on.
  abbrev pub worst_from : DeploymentState → List Worker → DeploymentState
  worst_from s [] = s
  worst_from s (w ∷ ws) = worst_from (worse s (state_of w)) ws

  state-add_workers :
      (t : Totals) (ws : List Worker) → (add_workers env store t ws).state ≡ worst_from t.state ws
  unfolding add_workers
  state-add_workers t [] = refl
  state-add_workers t (w ∷ ws) = state-add_workers (add_worker env store t w) ws

  -- At least as bad as the start and as every worker, and the state of one of them.
  le-worst_from : (s : DeploymentState) (ws : List Worker) → rank s ≤ rank (worst_from s ws)
  le-worst_from s [] = omega arith
  le-worst_from s (w ∷ ws) = ground (arith, le-worst_from (worse s (state_of w)) ws)

  worst_from_upper :
      (s : DeploymentState) (ws : List Worker)
      → All (λ w. rank (state_of w) ≤ rank (worst_from s ws)) ws
  worst_from_upper s [] = tt
  worst_from_upper s (w ∷ ws) = (
    ground (arith, le-worst_from (worse s (state_of w)) ws),
    worst_from_upper (worse s (state_of w)) ws,
  )

  -- A worker of the list is in this state.
  abbrev pub Some : DeploymentState → List Worker → Type 0
  Some s [] = ⊥
  Some s (w ∷ ws) = (state_of w ≡ s) ⊎ Some s ws

  worse_cases : (s t : DeploymentState) → (worse s t ≡ s) ⊎ (worse s t ≡ t)
  worse_cases s t = elim (Bool-cases (ltb (rank s) (rank t))) [
    | inl e ↦ inr (rw e)
    | inr e ↦ inl (rw e)
  ]

  worst_from_attained :
      (s : DeploymentState) (ws : List Worker) → (worst_from s ws ≡ s) ⊎ Some (worst_from s ws) ws
  worst_from_attained s [] = inl refl
  worst_from_attained s (w ∷ ws) = elim (worst_from_attained (worse s (state_of w)) ws) [
    | inr there ↦ inr (inr there)
    | inl p ↦ elim (worse_cases s (state_of w)) [
      | inl q ↦ inl (p ∙ q)
      | inr q ↦ inr (inl (sym (p ∙ q)))
    ]
  ]

  module _ (w : Worker) (ws : List Worker)
      (built : worker_deployments env store ≡ ok (w ∷ ws)) where
    state-get_worker :
        (get_worker_deployment_condition env store).state ≡ worst_from running (w ∷ ws)
    unfolding get_worker_deployment_condition
    state-get_worker = rw built (state-add_workers no_totals (w ∷ ws))

    -- The state of a store's workers, if it has any, is at least as bad as the state of each of them,
    -- and is the state of one of them unless it is the running state.
    pub worst_worker :
        All
          (λ x. rank (state_of x) ≤ rank (get_worker_deployment_condition env store).state)
          (w ∷ ws)
        × (((get_worker_deployment_condition env store).state ≡ running)
            ⊎ Some (get_worker_deployment_condition env store).state (w ∷ ws))
    worst_worker =
        subst
          (λ s. All (λ x. rank (state_of x) ≤ rank s) (w ∷ ws) × ((s ≡ running) ⊎ Some s (w ∷ ws)))
          (sym state-get_worker)
          (worst_from_upper running (w ∷ ws), worst_from_attained running (w ∷ ws))

    running_of_rank : (s : DeploymentState) → rank s ≤ 0 → s ≡ running
    running_of_rank s h = ground arith

    All-running :
        (s : DeploymentState) (xs : List Worker)
        → s ≡ running
        → All (λ x. rank (state_of x) ≤ rank s) xs
        → All (λ x. state_of x ≡ running) xs
    All-running s [] e h = tt
    All-running s (x ∷ xs) e h =
        (running_of_rank (state_of x) (rw e at h.0), All-running s xs e h.1)

    worst_from_running :
        (xs : List Worker) → All (λ x. state_of x ≡ running) xs → worst_from running xs ≡ running
    worst_from_running [] h = refl
    worst_from_running (x ∷ xs) h = rw h.0 (worst_from_running xs h.1)

    -- The workers of a store that has some are running exactly when every one of them is.
    pub workers_running_iff :
        ((get_worker_deployment_condition env store).state ≡ running)
        ↔ All (λ x. state_of x ≡ running) (w ∷ ws)
    workers_running_iff = (
      λ e. All-running (get_worker_deployment_condition env store).state (w ∷ ws) e worst_worker.0,
      λ h. state-get_worker ∙ worst_from_running (w ∷ ws) h,
    )
