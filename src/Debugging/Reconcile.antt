-- ===== src/Debugging/Reconcile.antt =====
-- internal/controller/storedebuginstance_controller.go: what the controller does with a debug instance.
-- The templates of its pod and of its service are not modelled; what the API server answers is.
pub mod Cleaning
use shopware_operator.Prelude.{
  ℕ, ◌+◌, ◌-◌, ◌*◌, ◌^◌, Bool, true, false, not, ◌&&◌, Option, none, some, List, [], ◌∷◌, ltb,
  if◌then◌else◌,
}
use shopware_operator.Prelude.Int.{ℤ, pos, negsuc, is_pos}
use shopware_operator.Kube.{Reply, found, absent, failed, Result, ok, err}
use shopware_operator.Api.State.{ready}
use shopware_operator.Api.Store.{Store, store_is_state}
use shopware_operator.Debugging.{
  being_deleted, unspecified, done, error, StoreDebugInstance, debug_is_state,
}

pub data DebugObject : Type 0 where
  pod service instance : DebugObject

-- The requests that change something, in their order; an event is recorded for the store.
pub data DebugRequest : Type 0 where
  deletes : DebugObject → DebugRequest
  ensures : DebugObject → DebugRequest
  records_event : DebugObject → DebugRequest

-- What the API server answers during one reconcile: to GetStore, to the request for the pod, to
-- HasObjectChanged for the service, to EnsurePod and EnsureService, and to Delete.
pub record DebugReplies : Type 0 where
  pub get_store : Reply Store
  pub get_pod : Reply (Unit {0})
  pub service_changed : Result Bool
  pub ensure : DebugObject → Result (Unit {0})
  pub delete : DebugObject → Reply (Unit {0})

-- A finished reconcile: its requests, the store that the deferred update of the status gets if it is
-- not skipped, and after which time the controller is called again, where 0 is never.
pub record DebugOutcome : Type 0 where
  pub requests : List DebugRequest
  pub skips_status : Bool
  pub store : Option Store
  pub requeue_after : ℤ

abbrev pub asking : DebugRequest → DebugOutcome → DebugOutcome
asking q o = record o { requests = q ∷ o.requests }

abbrev returning : Option Store → ℤ → DebugOutcome
returning store after = record {
  requests = [];
  skips_status = false;
  store = store;
  requeue_after = after;
}

abbrev pub skipping : Option Store → ℤ → DebugOutcome
skipping store after = record (returning store after) { skips_status = true }

abbrev pub seconds : ℕ → ℤ
seconds n = pos (n * 10 ^ 9)

-- isStoreDebugInstanceCleanupEligible
unfoldable pub is_cleanup_eligible : StoreDebugInstance → Bool
is_cleanup_eligible d =
    is_pos d.duration
    && not (being_deleted d.deletion_timestamp)
    && debug_is_state d (done ∷ error ∷ [])

-- storeDebugInstanceCleanupRemaining, with 0 for a time that is over; it is asked only for a positive
-- duration.
abbrev pub remaining_of : ℕ → ℕ → ℤ → ℕ
remaining_of now created (pos n) = created + n - now
remaining_of now created (negsuc n) = 0

unfoldable pub cleanup_remaining : ℕ → StoreDebugInstance → ℕ
cleanup_remaining now d = remaining_of now d.creation_timestamp d.duration

-- The end of the reconcile after deleteSuccessfulStoreDebugInstance: after an error, or after the
-- deletion
abbrev pub on_delete : Reply (Unit {0}) → DebugOutcome → DebugOutcome → DebugOutcome
on_delete (failed e) bad good = bad
on_delete (absent e) bad good = good
on_delete (found x) bad good = good

-- reconcileSuccessfulStoreDebugInstanceCleanup and what follows it in the reconcile
unfoldable pub clean_up : ℕ → StoreDebugInstance → DebugReplies → Store → DebugOutcome
unfolding is_cleanup_eligible cleanup_remaining
clean_up now d r store =
    let left = cleanup_remaining now d in
    if not (is_cleanup_eligible d)
    then returning (some store) (pos 0)
    else if ltb 0 left
    then skipping (some store) (pos left)
    else asking (deletes instance) (
        on_delete (r.delete instance) (returning (some store) (seconds 10))
          (skipping (some store) (pos 0)))

-- The reconcile of an instance that is done
abbrev when_done : ℕ → StoreDebugInstance → DebugReplies → Store → DebugOutcome
when_done now d r store =
    let bad = returning (some store) (seconds 10) in
    asking (deletes pod) (
      on_delete (r.delete pod) bad
        (asking (deletes service) (on_delete (r.delete service) bad (clean_up now d r store))))

abbrev on_ensure : Result (Unit {0}) → DebugOutcome → DebugOutcome → DebugOutcome
on_ensure (err e) bad good = bad
on_ensure (ok x) bad good = good

abbrev on_pod : Reply (Unit {0}) → Result (Unit {0}) → DebugOutcome → DebugOutcome → DebugOutcome
on_pod (found p) made bad good = good
on_pod (absent e) made bad good =
    asking (records_event pod) (asking (ensures pod) (on_ensure made bad good))
on_pod (failed e) made bad good = bad

abbrev on_service : Result Bool → Result (Unit {0}) → DebugOutcome → DebugOutcome → DebugOutcome
on_service (err e) made bad good = bad
on_service (ok false) made bad good = good
on_service (ok true) made bad good =
    asking (records_event service) (asking (ensures service) (on_ensure made bad good))

-- reconcilePod and reconcileService
abbrev when_alive : DebugReplies → Store → DebugOutcome
when_alive r store =
    let bad = returning (some store) (seconds 10) in
    on_pod r.get_pod (r.ensure pod) bad
      (on_service r.service_changed (r.ensure service) bad (returning (some store) (seconds 20)))

abbrev pub reconcile_with : ℕ → StoreDebugInstance → DebugReplies → Reply Store → DebugOutcome
reconcile_with now d r (absent e) = returning none (seconds 10)
reconcile_with now d r (failed e) = returning none (seconds 10)
reconcile_with now d r (found store) =
    if debug_is_state d (done ∷ [])
    then when_done now d r store
    else if not d.ignore_store_status && not (store_is_state store (ready ∷ []))
    then returning (some store) (seconds 10)
    else if debug_is_state d (unspecified ∷ [])
    then returning (some store) (seconds 10)
    else if debug_is_state d (done ∷ error ∷ [])
    then returning (some store) (pos 0)
    else when_alive r store

-- Reconcile, on the instance that the API server gives. The clock is read at the start, and again after
-- the pod and the service of a finished instance are deleted.
unfoldable pub debug_reconcile : ℕ → ℕ → StoreDebugInstance → DebugReplies → DebugOutcome
unfolding is_cleanup_eligible cleanup_remaining clean_up
debug_reconcile now later d r =
    if is_cleanup_eligible d && not (ltb 0 (cleanup_remaining now d))
    then asking (deletes instance)
        (on_delete (r.delete instance) (skipping none (seconds 10)) (skipping none (pos 0)))
    else reconcile_with later d r r.get_store
