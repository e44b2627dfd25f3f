-- ===== src/Workloads/Selection/Owned.antt =====
-- A deployment selects its own pods, and the clean-up of a store selects what the store has built.
use shopware_operator.Prelude.{
  String, ◌≡◌, refl, ◌↔◌, ◌⊎◌, true, false, ◌&&◌, Option, none, some, List, [], arith, ◌==◌, eq_iff,
  eq_refl, inl, inr, Bool-cases,
}
use shopware_operator.Prelude.Assoc.{insert, lookup, lookup-insert, last_lookup, lookup-copy}
use shopware_operator.Kube.{Env}
use shopware_operator.Api.Container.{value_or}
use shopware_operator.Api.Store.{Store}
use shopware_operator.Cluster.Meta.{Map}
use shopware_operator.Deployments.Names.{truncate_with_hash}
use shopware_operator.Deployments.Workers.{single_queue}
use shopware_operator.Workloads.Labels.{shopware_key, App, selects}
use App.{admin, storefront}
use shopware_operator.Workloads.Deployments.{
  worker_match_labels, worker_labels, admin_deployment, storefront_deployment, worker_deployment,
}
use shopware_operator.Workloads.Selection.{lookup-worker_labels, lookup-pod_labels}

abbrev queue_key : String
queue_key = shopware_key "worker.queue"

abbrev name_key : String
name_key = shopware_key "store.name"

lookup-worker_labels_queue :
    (env : Env) (store : Store) (queues : List String)
    → (single_queue queues == "") ≡ false
    → lookup queue_key (worker_labels env store queues)
      ≡ some (truncate_with_hash env (single_queue queues))
unfolding worker_labels worker_match_labels insert
lookup-worker_labels_queue env store queues one = rw (one, lookup-insert, lookup-copy) refl

one_queue_iff :
    (env : Env) (q r : String)
    → (q == "") ≡ false
    → (((truncate_with_hash env r == truncate_with_hash env q) && true) ≡ true)
      ↔ ((q ≡ "") ⊎ (truncate_with_hash env r ≡ truncate_with_hash env q))
one_queue_iff env q r one =
    ground (arith, one, eq_iff q "", eq_iff (truncate_with_hash env r) (truncate_with_hash env q))

-- The selector of one worker deployment and the pods of another one that has a single queue: they are
-- selected if the first has several queues, and otherwise if the label values of the queues are equal.
worker_selects_iff :
    (env : Env) (store : Store) (queues others : List String)
    → (single_queue others == "") ≡ false
    → (selects (worker_match_labels env queues) (worker_labels env store others) ≡ true) ↔ (
        (single_queue queues ≡ "")
        ⊎ (truncate_with_hash env (single_queue others)
            ≡ truncate_with_hash env (single_queue queues)))
unfolding selects worker_match_labels insert
worker_selects_iff env store queues others h = elim (Bool-cases (single_queue queues == "")) [
  | inl many ↦
      rw (many, lookup-worker_labels env others store)
        (λ _. inl ((eq_iff (single_queue queues) "").0 many), λ _. refl)
  | inr one ↦
      rw (one, lookup-worker_labels env others store, lookup-worker_labels_queue env store others h)
        (one_queue_iff env (single_queue queues) (single_queue others) one)
]

worker_selects_own :
    (env : Env) (store : Store) (queues : List String)
    → selects (worker_match_labels env queues) (worker_labels env store queues) ≡ true
unfolding selects worker_match_labels insert
worker_selects_own env store queues = elim (Bool-cases (single_queue queues == "")) [
  | inl many ↦ rw (many, lookup-worker_labels env queues store) refl
  | inr one ↦
      rw
        (
          one,
          lookup-worker_labels env queues store,
          lookup-worker_labels_queue env store queues one,
        )
        (rw eq_refl refl)
]

-- Each of the three deployments of a store selects its own pods, whatever labels the store and the
-- overrides put on them and whatever queues a worker consumes.
deployment_selects_own :
    (env : Env) (url : String) (queues : List String) (store : Store)
    → (let d = (admin_deployment url store).0 in selects d.match_labels d.template.labels ≡ true)
      × (let d = (storefront_deployment url store).0 in
          selects d.match_labels d.template.labels ≡ true)
      × (let d = (worker_deployment env url store queues).0 in
          selects d.match_labels d.template.labels ≡ true)
unfolding selects admin_deployment storefront_deployment worker_deployment
deployment_selects_own env url queues store = (
  rw (lookup-pod_labels env url queues admin store) refl,
  rw (lookup-pod_labels env url queues storefront store) refl,
  worker_selects_own env store queues,
)

-- No label of the key is asked for.
abbrev pub Leaves : String → Option Map → Type 0
Leaves key o = last_lookup key (value_or o []) ≡ none
