-- ===== src/Debugging.antt =====
-- api/v1/storedebuginstance_status.go and internal/controller/storedebuginstance_status.go: a pod of a
-- store that is kept for debugging.
pub mod Reconcile
pub mod Waiting
use shopware_operator.Prelude.{
  ℕ, ◌+◌, String, Bool, true, false, ◌&&◌, ◌||◌, Option, none, some, List, [], ◌∷◌, ltb, ◌==◌,
  if◌then◌else◌,
}
use shopware_operator.Prelude.Int.{ℤ, pos, negsuc, is_pos}
use shopware_operator.Prelude.Text.{concat}
use shopware_operator.Kube.{Reply, found, absent, failed, PodPhase, Pod, Env}
use shopware_operator.Api.Conditions.{Condition, add_condition}
use shopware_operator.Api.Store.{Store}
use shopware_operator.Manager.Base.{error_status}

-- StoreDebugInstanceState; `other` is every text that is no constant.
pub data DebugState : Type 0 where
  unspecified wait pending running done error : DebugState
  other : String → DebugState

-- `==` on states
abbrev same_debug_state : DebugState → DebugState → Bool
same_debug_state unspecified unspecified = true
same_debug_state wait wait = true
same_debug_state pending pending = true
same_debug_state running running = true
same_debug_state done done = true
same_debug_state error error = true
same_debug_state (other s) (other t) = s == t
same_debug_state _ _ = false

abbrev DebugCondition : Type 0
DebugCondition = Condition DebugState

-- StoreDebugInstance: the fields of its specification that are read stand beside its status.
pub record StoreDebugInstance : Type 0 where
  pub namespace : String
  pub name : String
  pub creation_timestamp : ℕ
  pub deletion_timestamp : Option ℕ
  pub store_ref : String
  pub duration : ℤ
  pub ignore_store_status : Bool
  pub state : DebugState
  pub conditions : List DebugCondition

-- AddCondition
unfoldable pub debug_add_condition : DebugCondition → StoreDebugInstance → StoreDebugInstance
unfolding add_condition
debug_add_condition c d = record d { conditions = add_condition same_debug_state c d.conditions }

-- IsState
abbrev pub debug_is_state : StoreDebugInstance → List DebugState → Bool
debug_is_state d [] = false
debug_is_state d (t ∷ ts) = same_debug_state t d.state || debug_is_state d ts

-- `time.Now().After(creation.Add(duration))` for a positive duration
abbrev pub is_expired : ℕ → ℕ → ℤ → Bool
is_expired now created (pos n) = ltb 0 n && ltb (created + n) now
is_expired now created (negsuc n) = false

-- A branch of stateRunning: the state that it returns, and what it sets of the condition that the
-- deferred call adds. A field that the branch does not set has the value that the condition starts
-- with.
pub record Verdict : Type 0 where
  pub next : DebugState
  pub message : String
  pub reason : String
  pub status : String
  pub has_transition : Bool

abbrev pends : String → Verdict
pends message = record {
  next = pending;
  message = message;
  reason = "";
  status = "True";
  has_transition = false;
}

abbrev phase_text : PodPhase → String
phase_text PodPhase.pending = "Pending"
phase_text PodPhase.running = "Running"
phase_text PodPhase.succeeded = "Succeeded"
phase_text PodPhase.failed_phase = "Failed"
phase_text PodPhase.unknown = "Unknown"

abbrev pub by_phase : PodPhase → Verdict
by_phase PodPhase.pending = pends "Pod is pending, waiting for resources"
by_phase PodPhase.running = record {
  next = running;
  message = "Pod is running successfully";
  reason = "";
  status = "True";
  has_transition = true;
}
by_phase PodPhase.failed_phase = record {
  next = error;
  message = "Pod failed to start";
  reason = "PodFailed";
  status = error_status;
  has_transition = false;
}
by_phase phase = pends (concat ("Pod in unknown state: " ∷ phase_text phase ∷ []))

abbrev pub by_pod : Reply Pod → Verdict
by_pod (absent e) = pends "Pod not found, waiting for creation"
by_pod (failed e) = record {
  next = error;
  message = "Waiting for pod to get started";
  reason = e;
  status = error_status;
  has_transition = false;
}
by_pod (found p) = by_phase p.phase

abbrev expired : Verdict
expired = record {
  next = done;
  message = "Store debug instance expired";
  reason = "";
  status = "done";
  has_transition = false;
}

-- GetDebugPod asks for the pod with the name and the namespace of the instance.
unfoldable pub debug_verdict : Env → StoreDebugInstance → Verdict
debug_verdict env d =
    if is_expired env.now d.creation_timestamp d.duration
    then expired
    else by_pod (env.get_pod d.namespace d.name)

abbrev debug_condition : ℕ → Verdict → DebugCondition
debug_condition now v = record {
  type = running;
  last_transition_time = if v.has_transition then now else 0;
  last_update_time = now;
  message = v.message;
  reason = v.reason;
  status = v.status;
}

-- `storeDebugInstance.Status.State = r.stateRunning(…)`
unfoldable pub run_debug_instance : Env → StoreDebugInstance → StoreDebugInstance
run_debug_instance env d =
    let v = debug_verdict env d in
    record (debug_add_condition (debug_condition env.now v) d) { state = v.next }

abbrev error_condition : DebugState → ℕ → String → String → DebugCondition
error_condition state now message reason = record {
  type = state;
  last_transition_time = 0;
  last_update_time = now;
  message = message;
  reason = reason;
  status = error_status;
}

abbrev pub note_debug_error : ℕ → Option String → StoreDebugInstance → StoreDebugInstance
note_debug_error now none d = d
note_debug_error now (some e) d =
    debug_add_condition (error_condition d.state now e "ReconcileError") d

-- The state that the presence of the store leads to
abbrev pub admit_debug : ℕ → Option Store → StoreDebugInstance → StoreDebugInstance
admit_debug now none d =
    debug_add_condition
      (error_condition wait now
        (concat
          ("StoreRef not found (stores/" ∷ d.store_ref ∷ "), waiting for store to be created" ∷ []))
        "StoreRef error")
      (record d { state = wait })
admit_debug now (some store) d =
    if debug_is_state d (unspecified ∷ []) then record d { state = pending } else d

abbrev update_debug_status :
    Env → Option Store → Option String → StoreDebugInstance → StoreDebugInstance
update_debug_status env store e d =
    let admitted = admit_debug env.now store (note_debug_error env.now e d) in
    if debug_is_state admitted (running ∷ pending ∷ [])
    then run_debug_instance env admitted
    else admitted

abbrev pub being_deleted : Option ℕ → Bool
being_deleted none = false
being_deleted (some t) = true

-- reconcileCRStatus: the instance with the status that it writes, or with the one that it has if it
-- writes none. stateRunning reads a store only through the name and the namespace of the pod, which
-- are those of the instance.
unfoldable pub reconcile_debug_status :
    Env → Option Store → Option String → StoreDebugInstance → StoreDebugInstance
reconcile_debug_status env store e d =
    if being_deleted d.deletion_timestamp then d else update_debug_status env store e d
