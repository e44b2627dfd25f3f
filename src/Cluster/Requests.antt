-- ===== src/Cluster/Requests.antt =====
-- internal/k8s/utils.go, EnsureObjectWithHash: what the operator asks the API server for so that an
-- object is there as it should be.
pub mod Sent
pub mod Convergence
pub mod Quiet
pub mod Deletion
pub mod Reruns
use shopware_operator.Prelude.{
  ℕ, zero, suc, String, Bool, true, false, not, ◌&&◌, ◌||◌, Option, none, some, List, [], ◌∷◌, eqb,
  ◌==◌, if◌then◌else◌,
}
use shopware_operator.Prelude.Int.{ℤ, pos, eqb_ℤ}
use shopware_operator.Prelude.Text.{concat}
use shopware_operator.Prelude.Assoc.{insert, lookup, erase}
use shopware_operator.Kube.{Reply, found, absent, failed, Result, ok, err}
use shopware_operator.Cluster.{
  Kind, Object, Api, last_config_hash_annotation, ignored_annotation, object_hash, without_hash,
  changed_meta_keys,
}
use shopware_operator.Cluster.Meta.{Map, is_empty}

-- client.MergeFrom and client.StrategicMergeFrom
pub data PatchType : Type 0 where
  merge strategic_merge : PatchType

-- A request to the API server that changes something.
pub data Request : Type 0 where
  create : Object → Request
  patch : PatchType → Object → Request
  delete : Object → Request

-- The requests that a call has sent, and its error.
pub record Outcome : Type 0 where
  pub requests : List Request
  pub error : Option String

abbrev pub quiet : Option String → Outcome
quiet e = record { requests = []; error = e }

-- `if err := f(); err != nil { return errors.Wrapf(err, text) }`
abbrev pub wrapped : String → Option String → Option String
wrapped text none = none
wrapped text (some e) = some (concat (text ∷ ": " ∷ e ∷ []))

abbrev full_name : Object → String
full_name o = concat (o.namespace ∷ "/" ∷ o.name ∷ [])

abbrev pub is_deployment : Kind → Bool
is_deployment Kind.deployment = true
is_deployment _ = false

abbrev pub is_service : Kind → Bool
is_service Kind.service = true
is_service _ = false

abbrev pub is_job : Kind → Bool
is_job Kind.job = true
is_job _ = false

-- controllerutil.SetControllerReference
abbrev pub owner_refused : Api → Option String → Object → Option String
owner_refused api none o = none
owner_refused api (some owner) o = api.owner_error owner o

abbrev pub with_owner : Option String → Object → Object
with_owner none o = o
with_owner (some owner) o = record o { owner = some owner }

-- The object with its hash among the annotations. The hash is taken of the object without one.
abbrev pub with_hash : Api → Object → Object
with_hash api o = record o {
  annotations =
      insert last_config_hash_annotation (object_hash api (without_hash o))
        (erase last_config_hash_annotation o.annotations);
}

abbrev pub keep_annotation : Option String → Map → Map
keep_annotation none m = m
keep_annotation (some v) m = insert ignored_annotation v m

-- The annotations of a deployment that the cluster itself writes are taken from the deployed one.
abbrev pub with_kept : Object → Object → Object
with_kept old o =
    if is_deployment o.kind
    then record o {
      annotations = keep_annotation (lookup ignored_annotation old.annotations) o.annotations;
    }
    else o

abbrev with_service_fields : Object → Object → Object
with_service_fields old o =
    if is_service o.kind
    then record o {
      cluster_ip = old.cluster_ip;
      health_check_node_port =
          if o.is_load_balancer then old.health_check_node_port else o.health_check_node_port;
    }
    else o

-- What a patch sends: the object with the version and the fields that the deployed one has.
abbrev pub with_deployed : Object → Object → Object
with_deployed old o = with_service_fields old (record o { resource_version = old.resource_version })

-- `oldObject.GetAnnotations()[key]`
abbrev pub text_of : Option String → String
text_of none = ""
text_of (some v) = v

abbrev pub patch_type : Kind → PatchType
patch_type Kind.certificate = merge
patch_type Kind.http_route = merge
patch_type Kind.scaled_object = merge
patch_type _ = strategic_merge

-- The loop that waits for the end of a deletion, with the number of the next poll and of those that are
-- left: how many polls it has made.
unfoldable pub wait_deleted : (ℕ → Reply Object) → String → ℕ → ℕ → Result ℕ
wait_deleted polls text i zero = ok i
wait_deleted polls text i (suc left) =
    let rest = wait_deleted polls text (suc i) left in
    elim (polls i) [
      | absent e ↦ ok (suc i)
      | failed e ↦ (if eqb i 10 then err (concat (text ∷ ": " ∷ e ∷ [])) else rest)
      | found o ↦ rest
    ]

abbrev pub create_job : Api → Object → Object → Result ℕ → Outcome
create_job api old o (err e) = record {
  requests = delete (with_deployed old o) ∷ [];
  error = some e;
}
create_job api old o (ok n) =
    let fresh = record (with_deployed old o) { resource_version = "" } in
    record {
      requests = delete (with_deployed old o) ∷ create fresh ∷ [];
      error = wrapped (concat ("create job " ∷ full_name o ∷ [])) (api.create_error fresh);
    }

-- A job is deleted and created again, since it can not be changed.
unfoldable pub replace_job : Api → Object → Object → Outcome
replace_job api old o =
    let text = concat ("delete job " ∷ full_name o ∷ []) in
    elim (wrapped text (api.delete_error (with_deployed old o))) [
      | some e ↦ record { requests = delete (with_deployed old o) ∷ []; error = some e }
      | none ↦ create_job api old o (wait_deleted api.polls text 0 10)
    ]

-- `obj.TypeMeta = oldObj.DeepCopy().TypeMeta`
abbrev pub with_type : PatchType → Object → Object → Object
with_type merge old o = record o { type_meta = old.type_meta }
with_type strategic_merge old o = o

abbrev patch_object : Api → Object → Object → Outcome
patch_object api old o =
    let sent = with_type (patch_type o.kind) old (with_deployed old o) in
    record {
      requests = patch (patch_type o.kind) sent ∷ [];
      error = wrapped (concat ("patch " ∷ full_name o ∷ [])) (api.patch_error sent);
    }

abbrev pub has_succeeded : Object → Bool
has_succeeded o = not (eqb_ℤ o.succeeded (pos 0))

unfoldable pub update : Api → Object → Object → Outcome
update api old o =
    if is_job o.kind
    then (if has_succeeded o then quiet none else replace_job api old o)
    else patch_object api old o

-- Whether the deployed object differs from the one that is to be there.
unfoldable pub differs : String → Object → Object → Bool
differs hash old o =
    not (text_of (lookup last_config_hash_annotation old.annotations) == hash)
    || not (is_empty (changed_meta_keys o old))

-- The hash is that of the object before it was written to the annotations.
abbrev ensure_deployed : Api → String → Object → Object → Outcome
ensure_deployed api hash old o =
    let kept = with_kept old o in if differs hash old kept then update api old kept else quiet none

abbrev create_object : Api → Object → Outcome
create_object api o = record {
  requests = create o ∷ [];
  error = wrapped (concat ("create " ∷ full_name o ∷ [])) (api.create_error o);
}

abbrev pub ensure_reply : Api → String → Object → Reply Object → Outcome
ensure_reply api hash o (absent e) = create_object api o
ensure_reply api hash o (failed e) = quiet (wrapped (concat ("get " ∷ full_name o ∷ [])) (some e))
ensure_reply api hash o (found old) = ensure_deployed api hash old o

abbrev ensure_owned : Api → Option String → Object → Option String → Outcome
ensure_owned api owner o (some e) =
    quiet
      (wrapped (concat ("set controller reference to " ∷ o.type_meta ∷ "/" ∷ o.name ∷ [])) (some e))
ensure_owned api owner o none =
    let p = with_owner owner o in
    ensure_reply api (object_hash api (without_hash p)) (with_hash api p)
      (api.get o.kind o.namespace o.name)

-- EnsureObjectWithHash
unfoldable pub ensure_object_with_hash : Api → Option String → Object → Outcome
ensure_object_with_hash api owner o = ensure_owned api owner o (owner_refused api owner o)
