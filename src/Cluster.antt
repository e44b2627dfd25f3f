-- ===== src/Cluster.antt =====
-- internal/k8s/utils.go: how the operator compares an object with the one that is deployed, and brings
-- the deployed one up to date.
pub mod Meta
pub mod Requests
pub mod Redaction
pub mod Kinds
use shopware_operator.Prelude.{
  ℕ, zero, suc, String, Bool, true, false, not, ◌&&◌, ◌||◌, Option, none, some, List, [], ◌∷◌, ◌++◌,
  ◌==◌, if◌then◌else◌,
}
use shopware_operator.Prelude.Int.{ℤ, pos, eqb_ℤ}
use shopware_operator.Prelude.Text.{concat}
use shopware_operator.Prelude.Assoc.{insert, lookup, erase}
use shopware_operator.Kube.{Reply, found, absent, failed, Result, ok, err}
use Meta.{Map, changed_keys, is_empty}

-- The types of the objects that the operator writes.
pub data Kind : Type 0 where
  deployment service job cron_job pod secret ingress http_route disruption_budget autoscaler : Kind
  scaled_object certificate : Kind

-- `type_meta` is the kind that the object names itself, `relevant` the
-- JSON text of what extractRelevantData picks from the object, of a type that it knows; it does not know
-- pods. The fields after it are
-- those that EnsureObjectWithHash reads or writes: of a service, its cluster IP, whether it is a load
-- balancer and its health check port, which it copies after it has taken the hash, and of a job, how
-- often it has succeeded.
pub record Object : Type 0 where
  pub kind : Kind
  pub type_meta : String
  pub namespace : String
  pub name : String
  pub labels : Map
  pub annotations : Map
  pub relevant : String
  pub owner : Option String
  pub resource_version : String
  pub cluster_ip : String
  pub is_load_balancer : Bool
  pub health_check_node_port : ℤ
  pub succeeded : ℤ

-- The API server: what it answers to requests, with the text of the error where one fails. `owner_error`
-- is that of controllerutil.SetControllerReference, which sets the owner otherwise.
pub record Api : Type 0 where
  pub get : Kind → String → String → Reply Object
  pub create_error : Object → Option String
  pub patch_error : Object → Option String
  pub delete_error : Object → Option String
  pub owner_error : String → Object → Option String
  -- what the polls for the end of a deletion are answered, by their number from 0
  pub polls : ℕ → Reply Object
  -- the text of a whole object, by encoding/json
  pub marshal : Object → String
  -- the hash of a text, by crypto/md5
  pub md5_hex : String → String

abbrev pub last_config_hash_annotation : String
last_config_hash_annotation = "shopware.com/last-config-hash"

abbrev pub ignored_annotation : String
ignored_annotation = "deployment.kubernetes.io/revision"

-- The default branch of extractRelevantData: the object as a whole, with its metadata
abbrev pub is_hashed_whole : Kind → Bool
is_hashed_whole Kind.pod = true
is_hashed_whole _ = false

-- ObjectHash
abbrev pub object_hash : Api → Object → String
object_hash api o = api.md5_hex (if is_hashed_whole o.kind then api.marshal o else o.relevant)

-- filteredAnnotations
unfoldable pub filtered_annotations : Object → Map
filtered_annotations o = erase ignored_annotation (erase last_config_hash_annotation o.annotations)

-- ChangedMetaKeys
unfoldable pub changed_meta_keys : Object → Object → List String
unfolding filtered_annotations
changed_meta_keys old new =
    changed_keys "label" old.labels new.labels
    ++ changed_keys "annotation" (filtered_annotations old) (filtered_annotations new)

-- ObjectChange
pub record ObjectChange : Type 0 where
  pub reason : String
  pub changed_keys : List String

abbrev pub unchanged : ObjectChange
unchanged = record { reason = ""; changed_keys = [] }

abbrev changed_by : String → List String → ObjectChange
changed_by reason keys = record { reason = reason; changed_keys = keys }

-- Changed
abbrev is_change : ObjectChange → Bool
is_change c = not (c.reason == "")

-- objectHashChanged: the reason, if there is one
abbrev pub hash_change : Option String → String → Option String
hash_change none hash = some "deployed object has no config hash annotation"
hash_change (some old) hash =
    if not (old == hash)
    then some "desired config differs from deployed config (config hash changed)"
    else none

abbrev meta_change : List String → ObjectChange
meta_change [] = unchanged
meta_change (k ∷ ks) = changed_by "labels or annotations differ from deployed object" (k ∷ ks)

abbrev pub hash_or_meta : Option String → List String → ObjectChange
hash_or_meta (some reason) keys = changed_by reason []
hash_or_meta none keys = meta_change keys

-- `delete(objAnnotations, lastConfigHashAnnotation)`
abbrev pub without_hash : Object → Object
without_hash o = record o { annotations = erase last_config_hash_annotation o.annotations }

-- The comparison of DetectObjectChange with the object that is deployed.
unfoldable pub compare_deployed : Api → Object → Object → ObjectChange
unfolding changed_meta_keys
compare_deployed api old o =
    hash_or_meta
      (hash_change (lookup last_config_hash_annotation old.annotations)
        (object_hash api (without_hash o)))
      (changed_meta_keys old (without_hash o))

abbrev detect_reply : Api → Object → Reply Object → Result ObjectChange
detect_reply api o (absent e) = ok (changed_by "object does not exist yet" [])
detect_reply api o (failed e) = err (concat ("get " ∷ o.namespace ∷ "/" ∷ o.name ∷ ": " ∷ e ∷ []))
detect_reply api o (found old) = ok (compare_deployed api old o)

-- DetectObjectChange
unfoldable pub detect_object_change : Api → Object → Result ObjectChange
detect_object_change api o = detect_reply api o (api.get o.kind o.namespace o.name)

abbrev change_of : Result ObjectChange → Result Bool
change_of (ok c) = ok (is_change c)
change_of (err e) = err e

-- HasObjectChanged
unfoldable pub has_object_changed : Api → Object → Result Bool
has_object_changed api o = change_of (detect_object_change api o)
