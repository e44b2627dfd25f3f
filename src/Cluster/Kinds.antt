-- ===== src/Cluster/Kinds.antt =====
-- internal/k8s/utils.go, EnsureService to EnsureDeployment: each asks for an object of some type under the
-- name first, and then goes on to EnsureObjectWithHash.
use shopware_operator.Prelude.{String, ◌≡◌, refl, Option, some, [], inl, inr, Option-cases}
use shopware_operator.Kube.{Reply, found, absent, failed}
use shopware_operator.Cluster.{Kind, Object, Api}
use shopware_operator.Cluster.Requests.{
  Outcome, quiet, wrapped, owner_refused, ensure_object_with_hash,
}

abbrev pub after_get : Api → Option String → Object → Reply Object → Outcome
after_get api owner o (failed e) = quiet (wrapped "get object" (some e))
after_get api owner o (absent e) = ensure_object_with_hash api owner o
after_get api owner o (found old) = ensure_object_with_hash api owner o

-- The body that they share, with the type that is asked for.
abbrev pub ensure_as : Kind → Api → Option String → Object → Outcome
ensure_as asked api owner o = after_get api owner o (api.get asked o.namespace o.name)

abbrev pub ensure_service : Api → Option String → Object → Outcome
ensure_service = ensure_as Kind.service

-- EnsureHPA asks for a service.
abbrev pub ensure_hpa : Api → Option String → Object → Outcome
ensure_hpa = ensure_as Kind.service

-- EnsureCronJob asks for a job.
abbrev pub ensure_cron_job : Api → Option String → Object → Outcome
ensure_cron_job = ensure_as Kind.job

abbrev ensure_pod : Api → Option String → Object → Outcome
ensure_pod = ensure_as Kind.pod

abbrev pub ensure_job : Api → Option String → Object → Outcome
ensure_job = ensure_as Kind.job

abbrev pub ensure_pdb : Api → Option String → Object → Outcome
ensure_pdb = ensure_as Kind.disruption_budget

-- EnsureIngress asks for a deployment.
abbrev pub ensure_ingress : Api → Option String → Object → Outcome
ensure_ingress = ensure_as Kind.deployment

abbrev pub ensure_http_route : Api → Option String → Object → Outcome
ensure_http_route = ensure_as Kind.http_route

abbrev pub ensure_deployment : Api → Option String → Object → Outcome
ensure_deployment = ensure_as Kind.deployment

module _ (api : Api) (owner : Option String) (o : Object) where
  quiet_without_answer :
      (e : String)
      → api.get o.kind o.namespace o.name ≡ failed e
      → (ensure_object_with_hash api owner o).requests ≡ []
  unfolding ensure_object_with_hash
  quiet_without_answer e g = elim (Option-cases (owner_refused api owner o)) [
    | inl set ↦ rw (set, g) refl
    | inr (t, refused) ↦ rw refused refl
  ]

  by_answer :
      (r : Reply Object)
      → api.get o.kind o.namespace o.name ≡ r
      → (after_get api owner o r).requests ≡ (ensure_object_with_hash api owner o).requests
  by_answer (absent e) g = refl
  by_answer (found old) g = refl
  by_answer (failed e) g = rw (quiet_without_answer e g) refl

  -- If the type that it asks for is that of the object, as for services, pods, jobs, disruption budgets,
  -- routes and deployments, an Ensure function sends the requests of EnsureObjectWithHash, whatever the
  -- API server answers.
  pub requests-ensure_as :
      (asked : Kind)
      → o.kind ≡ asked
      → (ensure_as asked api owner o).requests ≡ (ensure_object_with_hash api owner o).requests
  requests-ensure_as asked e = rw (← e) (by_answer (api.get o.kind o.namespace o.name) refl)
