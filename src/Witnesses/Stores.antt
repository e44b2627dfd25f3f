-- ===== src/Witnesses/Stores.antt =====
-- A reconcile of the sample store, and a change of a secret of it.
use shopware_operator.Prelude.{◌≡◌, ◌≢◌, ◌↔◌, none, some, [], ◌∷◌, All, get_last?}
use shopware_operator.Prelude.Int.{pos}
use shopware_operator.Kube.{found, ok}
use shopware_operator.Api.State.{ready, wait, not_found}
use shopware_operator.Api.Store.{Store}
use shopware_operator.Samples.{base, env, store_in, key}
use shopware_operator.Trigger.{new_recorder, stamp}
use shopware_operator.Manager.Resources.{reconcile_resources}
use shopware_operator.Stores.{
  QueueStats, long_requeue, reconcile_status, reconcile, find_store_for_reconcile, secret_trigger,
}
use shopware_operator.Stores.Requeue.{long_requeue_iff}
use shopware_operator.Stores.Watched.{Names, KeysOf, find_store_for_reconcile_woken}
use shopware_operator.Witnesses.Resources.{world}

abbrev stats : QueueStats
stats s = ok (record { name = "async"; count = pos 3 } ∷ [], [])

long_requeue_iff_example :
    ((reconcile
        (λ d. "15m")
        world
        base
        env
        stats
        key
        (found (store_in ready))
        new_recorder).0.requeue_after
      ≡ long_requeue)
    ↔ ((s : Store) × (found (store_in ready) ≡ found s)
        × (s.deletion_timestamp ≡ none)
        × ((reconcile_resources world base s).error ≡ none)
        × (let t = reconcile_status base env stats none s in
            (t.status.state ≡ ready)
            × (t.status.queue_state.transports ≢ [])
            × (t.status.worker_state.state ≢ not_found)))
long_requeue_iff_example =
    long_requeue_iff (λ d. "15m") world base env stats key new_recorder (found (store_in ready))

find_store_for_reconcile_woken_example :
    let result =
      find_store_for_reconcile 5
        (ok (store_in ready ∷ store_in wait ∷ []))
        "shops"
        "db"
        new_recorder in
    KeysOf (Names "shops" "db") (store_in ready ∷ store_in wait ∷ []) result.0
    × All (λ k. get_last? (result.1.pending k) ≡ some (stamp 5 (secret_trigger "db"))) result.0
find_store_for_reconcile_woken_example =
    find_store_for_reconcile_woken 5 "shops" "db" (store_in ready ∷ store_in wait ∷ []) new_recorder
