-- ===== src/Manager/Resources/Steps.antt =====
-- internal/manager/base/resources.go: what the functions that reconcile resources are made of.
use shopware_operator.Prelude.{
  String, Bool, true, false, Option, none, some, List, [], ◌∷◌, ◌++◌, if◌then◌else◌,
}
use shopware_operator.Prelude.Text.{concat}
use shopware_operator.Kube.{Reply, found, absent, failed, Result, ok, err}
use shopware_operator.Api.Store.{Store}
use shopware_operator.Cluster.{Kind, Object, Api, has_object_changed}
use shopware_operator.Cluster.Requests.{Request, delete, Outcome, wrapped}
use shopware_operator.Manager.Base.{RecordedEvent}

-- The objects that are built from a store by internal/service, internal/ingress, internal/httproute,
-- internal/pdb, internal/deployment, internal/hpa, internal/job and internal/cronjob, each a parameter
-- here; `store_secret` is the object with what EnsureStoreSecret gives (Secrets/Ensuring). A scaled object stands with the name of the deployment that it scales.
pub record Builders : Type 0 where
  pub store_secret : Store → Result Object
  pub storefront_service : Store → Object
  pub admin_service : Store → Object
  pub ingress_name : Store → String
  pub store_ingress : Store → Object
  pub http_route_name : Store → String
  pub store_http_route : Store → Object
  pub admin_pdb : Store → Object
  pub storefront_pdb : Store → Object
  pub worker_pdb : Store → Object
  pub storefront_deployment : Store → Object
  pub admin_deployment : Store → Object
  pub worker_deployments : Store → Result (List Object)
  pub worker_scaled_objects : Store → Result (List (Object × String))
  pub store_hpa : Store → Object
  pub setup_job : Store → Object
  pub migration_job : Store → Object
  pub scheduled_task_job : Store → Object

-- What a reconcile deals with: the API server, with its lists of the objects that have the labels of the
-- worker deployments and whether the error of a deletion is that the object is not there, and the built
-- objects. The requests of one reconcile concern different objects, so what an earlier one has changed
-- is not read by a later one.
pub record World : Type 0 where
  pub api : Api
  pub build : Builders
  pub list_worker_deployments : Store → Result (List Object)
  pub list_scaled_objects : Store → Result (List Object)
  pub is_gone : Object → Bool

-- The requests and the events of a part of a reconcile, and its error.
pub record Effects : Type 0 where
  pub requests : List Request
  pub events : List RecordedEvent
  pub error : Option String

abbrev pub nothing : Effects
nothing = record { requests = []; events = []; error = none }

abbrev pub fails : String → Effects
fails e = record { requests = []; events = []; error = some e }

abbrev pub join : Effects → Effects → Effects
join a b = record {
  requests = a.requests ++ b.requests;
  events = a.events ++ b.events;
  error = b.error;
}

abbrev pub unless_failed : Option String → Effects → Effects → Effects
unless_failed none a b = join a b
unless_failed (some e) a b = a

infixr 4 ◌and_then◌
-- `if err := a(); err != nil { return err }`, and then b
unfoldable pub ◌and_then◌ : Effects → Effects → Effects
a and_then b = unless_failed a.error a b

-- `fmt.Errorf("text: %w", err)`
unfoldable pub within : String → Effects → Effects
within text a = record a { error = wrapped text a.error }

abbrev pub with_events : List RecordedEvent → Outcome → Effects
with_events events o = record { requests = o.requests; events = events; error = o.error }

-- One of the Ensure functions.
abbrev pub Ensure : Type 0
Ensure = Api → Option String → Object → Outcome

unfoldable pub by_change :
    World → List RecordedEvent → Store → Ensure → String → String → Object → Result Bool → Effects
by_change w events s ensure seen text o (err e) = fails (concat (seen ∷ ": " ∷ e ∷ []))
by_change w events s ensure seen text o (ok true) =
    within text (with_events events (ensure w.api (some s.name) o))
by_change w events s ensure seen text o (ok false) = nothing

-- HasObjectChanged, and for a changed object the event and the Ensure function, with the texts that the
-- errors of the two get
unfoldable pub reconcile_object :
    World → List RecordedEvent → Store → Ensure → String → String → Object → Effects
reconcile_object w events s ensure seen text o =
    by_change w events s ensure seen text o (has_object_changed w.api o)

-- The loop over objects, of which each has its event
unfoldable pub reconcile_objects :
    World → (Object → List RecordedEvent) → Store → Ensure → String → String → List Object → Effects
reconcile_objects w events s ensure seen text [] = nothing
reconcile_objects w events s ensure seen text (o ∷ os) =
    reconcile_object w (events o) s ensure seen text o
    and_then reconcile_objects w events s ensure seen text os

unfoldable pub delete_found : World → Kind → String → Reply Object → Effects
delete_found w kind text (absent e) = nothing
delete_found w kind text (failed e) = fails (concat (text ∷ ": " ∷ e ∷ []))
delete_found w kind text (found old) =
    let gone = record old { kind = kind } in
    record {
      requests = delete gone ∷ [];
      events = [];
      error = wrapped text (w.api.delete_error gone);
    }

-- `client.IgnoreNotFound(Delete(…))`
unfoldable pub delete_if_there : World → String → Object → Effects
delete_if_there w text o = record {
  requests = delete o ∷ [];
  events = [];
  error = if w.is_gone o then none else wrapped text (w.api.delete_error o);
}

unfoldable pub delete_all : World → String → List Object → Effects
delete_all w text [] = nothing
delete_all w text (o ∷ os) =
    delete_if_there w (concat (text ∷ " " ∷ o.name ∷ [])) o and_then delete_all w text os
