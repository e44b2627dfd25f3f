-- ===== src/Deployments/States.antt =====
-- When a deployment counts as running, scaling or broken.
use shopware_operator.Prelude.{
  ℕ, ◌≡◌, refl, ◌≢◌, ◌↔◌, ◌⊎◌, inl, inr, true, false, arith, Bool-cases,
}
use shopware_operator.Prelude.Int.{ℤ, pos, eqb_ℤ, is_pos, eqb_ℤ_iff}
use shopware_operator.Kube.{Deployment}
use shopware_operator.Api.State.{unknown, error, not_found, running}
use shopware_operator.Deployments.{progress_deadline_exceeded, get_deployment_condition}

module _ (now : ℕ) (d : Deployment) (replicas : ℤ) where
  -- getDeploymentCondition calls a deployment running exactly when all its replicas are available, or
  -- one is, or the store wants none.
  pub running_iff : ((get_deployment_condition now d replicas).state ≡ running) ↔ (
      (d.available_replicas ≡ d.replicas)
      ⊎ (is_pos d.available_replicas ≡ true)
      ⊎ (replicas ≡ pos 0))
  unfolding get_deployment_condition
  running_iff = (
    λ h. ground (arith, eqb_ℤ_iff d.available_replicas d.replicas, eqb_ℤ_iff replicas (pos 0)),
    λ h. ground (arith, eqb_ℤ_iff d.available_replicas d.replicas, eqb_ℤ_iff replicas (pos 0)),
  )

  -- getDeploymentCondition reports an error exactly when the store wants replicas, none is available
  -- though the deployment has some, and the deployment says that its progress deadline is exceeded.
  pub error_iff : ((get_deployment_condition now d replicas).state ≡ error) ↔ (
      (d.available_replicas ≢ d.replicas)
      × (is_pos d.available_replicas ≡ false)
      × (replicas ≢ pos 0)
      × (progress_deadline_exceeded d.conditions ≡ true))
  unfolding get_deployment_condition
  error_iff = (
    λ h. (
      λ e. ground (arith, eqb_ℤ_iff d.available_replicas d.replicas),
      ground arith,
      λ e. ground (arith, eqb_ℤ_iff replicas (pos 0)),
      ground arith,
    ),
    λ h. ground (arith, eqb_ℤ_iff d.available_replicas d.replicas, eqb_ℤ_iff replicas (pos 0)),
  )

  -- The branches for unavailable replicas and for an unknown state are never taken: the result does
  -- not depend on the count of unavailable replicas, and its state is neither unknown nor not-found.
  pub unavailable_ignored :
      (n : ℤ)
      → (get_deployment_condition now (record d { unavailable_replicas = n }) replicas
          ≡ get_deployment_condition now d replicas)
        × ((get_deployment_condition now d replicas).state ≢ unknown)
        × ((get_deployment_condition now d replicas).state ≢ not_found)
  unfolding get_deployment_condition
  unavailable_ignored n = elim (Bool-cases (eqb_ℤ d.available_replicas d.replicas)) [
    | inl e ↦ rw e (refl, λ h. ground arith, λ h. ground arith)
    | inr e ↦ rw e (refl, λ h. ground arith, λ h. ground arith)
  ]
