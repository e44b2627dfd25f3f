-- ===== src/Cluster/Requests/Sent.antt =====
-- What holds of every object that EnsureObjectWithHash sends: a predicate that the steps of the
-- preparation keep.
use shopware_operator.Prelude.{ℕ, String, Option, inl, inr, Bool-cases, Option-cases, All}
use shopware_operator.Kube.{Reply, found, absent, failed, Result, ok, err}
use shopware_operator.Cluster.{Object, Api}
use shopware_operator.Cluster.Requests.{
  Request, create, patch, delete, PatchType, Outcome, owner_refused, with_owner, with_hash,
  with_kept, with_deployed, with_type, is_job, patch_type, wait_deleted, create_job, replace_job,
  update, differs, ensure_reply, ensure_object_with_hash, has_succeeded,
}

-- The object that a request is about.
abbrev pub object_of : Request → Object
object_of (create p) = p
object_of (patch t p) = p
object_of (delete p) = p

-- The predicate holds of the object of each request.
abbrev pub AllSent : (Object → Type 0) → Outcome → Type 0
AllSent P outcome = All (λ r. P (object_of r)) outcome.requests

module _ (api : Api) (P : Object → Type 0) (kept : (old p : Object) → P p → P (with_kept old p))
    (deployed : (old p : Object) → P p → P (with_deployed old p))
    (typed : (t : PatchType) (old p : Object) → P p → P (with_type t old p))
    (fresh : (p : Object) → P p → P (record p { resource_version = "" })) where
  create_job-AllSent : (old p : Object) (r : Result ℕ) → P p → AllSent P (create_job api old p r)
  create_job-AllSent old p (err e) h = (deployed old p h, tt)
  create_job-AllSent old p (ok n) h = (deployed old p h, (fresh _ (deployed old p h), tt))

  replace_job-AllSent : (old p : Object) → P p → AllSent P (replace_job api old p)
  unfolding replace_job
  replace_job-AllSent old p h = elim (Option-cases (api.delete_error (with_deployed old p))) [
    | inl e ↦ rw (replace_job, e) (create_job-AllSent old p (wait_deleted api.polls _ 0 10) h)
    | inr (t, e) ↦ rw (replace_job, e) (deployed old p h, tt)
  ]

  update-AllSent : (old p : Object) → P p → AllSent P (update api old p)
  unfolding update
  update-AllSent old p h = elim (Bool-cases (is_job p.kind)) [
    | inr other ↦ rw other (typed (patch_type p.kind) old _ (deployed old p h), tt)
    | inl job ↦ rw job (elim (Bool-cases (has_succeeded p)) [
      | inl over ↦ rw over tt
      | inr first ↦ rw first (replace_job-AllSent old p h)
    ])
  ]

  ensure_reply-AllSent :
      (hash : String) (p : Object) (r : Reply Object) → P p → AllSent P (ensure_reply api hash p r)
  ensure_reply-AllSent hash p (absent e) h = (h, tt)
  ensure_reply-AllSent hash p (failed e) h = tt
  ensure_reply-AllSent hash p (found old) h =
      elim (Bool-cases (differs hash old (with_kept old p))) [
        | inl changed ↦ rw changed (update-AllSent old (with_kept old p) (kept old p h))
        | inr same ↦ rw same tt
      ]

  pub ensure_object_with_hash-AllSent :
      (owner : Option String) (o : Object)
      → P (with_hash api (with_owner owner o))
      → AllSent P (ensure_object_with_hash api owner o)
  unfolding ensure_object_with_hash
  ensure_object_with_hash-AllSent owner o h = elim (Option-cases (owner_refused api owner o)) [
    | inl e ↦ rw e (ensure_reply-AllSent _ (with_hash api (with_owner owner o)) _ h)
    | inr (t, e) ↦ rw e tt
  ]
