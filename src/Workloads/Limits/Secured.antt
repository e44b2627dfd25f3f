-- ===== src/Workloads/Limits/Secured.antt =====
-- The security contexts of the pods.
use shopware_operator.Prelude.{
  String, ◌≡◌, refl, Bool, true, false, none, some, List, [], ◌∷◌, ◌++◌, all,
}
use shopware_operator.Kube.{Container, Env}
use shopware_operator.Api.Store.{Store}
use shopware_operator.Workloads.{BuiltDeployment}
use shopware_operator.Workloads.Containers.{default_container_contexts}
use shopware_operator.Workloads.Deployments.{
  admin_deployment, storefront_deployment, worker_deployment,
}

abbrev is_secured : Container → Bool
is_secured c = elim c.security_context [ none ↦ false | some s ↦ true ]

-- No container of the pod is without a security context.
abbrev IsSecured : BuiltDeployment → Type 0
IsSecured d =
    (all is_secured d.template.spec.containers ≡ true)
    × (all is_secured d.template.spec.init_containers ≡ true)

all_secured :
    (cs ds : List Container)
    → all is_secured ds ≡ true
    → all is_secured (default_container_contexts cs ++ ds) ≡ true
unfolding default_container_contexts
all_secured [] ds h = h
all_secured (c ∷ cs) ds h = all_secured cs ds h

all_secured_init : (cs : List Container) → all is_secured (default_container_contexts cs) ≡ true
unfolding default_container_contexts
all_secured_init [] = refl
all_secured_init (c ∷ cs) = all_secured_init cs

-- In the three deployments of a store no container is without a security context, be it the main one,
-- an extra one or an init container, whatever the store and its overrides ask for.
deployments-IsSecured :
    (env : Env) (url : String) (store : Store) (queues : List String)
    → IsSecured (admin_deployment url store).0
      × IsSecured (storefront_deployment url store).0
      × IsSecured (worker_deployment env url store queues).0
unfolding admin_deployment storefront_deployment worker_deployment
deployments-IsSecured env url store queues = (
  (all_secured _ _ refl, all_secured_init _),
  (all_secured _ _ refl, all_secured_init _),
  (all_secured _ _ refl, all_secured_init _),
)
