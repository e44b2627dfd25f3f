-- ===== src/Cluster/Requests/Reruns.antt =====
-- What EnsureObjectWithHash does to a job that has already succeeded.
use shopware_operator.Prelude.{
  ℕ, String, ◌≡◌, refl, ap, ◌∙◌, ◌≢◌, true, false, Option, none, some, List, [], ◌∷◌, ◌==◌, eq_iff,
  inl, inr, Bool-cases,
}
use shopware_operator.Prelude.Assoc.{lookup}
use shopware_operator.Kube.{found, Result, ok, err}
use shopware_operator.Cluster.{
  Kind, Object, Api, last_config_hash_annotation, object_hash, without_hash,
}
use shopware_operator.Cluster.Requests.{
  is_deployment, is_service, Request, create, delete, owner_refused, is_job, update, replace_job,
  differs, ensure_object_with_hash, text_of, has_succeeded, with_deployed, create_job,
}
use shopware_operator.Cluster.Requests.Deletion.{wait_deleted_ends}
use shopware_operator.Cluster.Requests.Convergence.{OwnerApart, known, Like, with_deployed-Like}
use shopware_operator.Cluster.Requests.Quiet.{
  prepared, prepared-Like, ensure_found, has_succeeded-prepared,
}

-- The object is the desired one, but for its annotations, its owner and what the API server writes.
abbrev Copies : Object → Object → Type 0
Copies o p =
    (p.kind ≡ o.kind)
    × (p.namespace ≡ o.namespace)
    × (p.name ≡ o.name)
    × (p.labels ≡ o.labels)
    × (p.relevant ≡ o.relevant)

-- A job of the same namespace and name is deleted, and then the desired one is created, with its hash and
-- without a version.
unfoldable pub Replaces : Api → Object → List Request → Type 0
Replaces api o rs =
    (gone : Object) × (fresh : Object) × (rs ≡ delete gone ∷ create fresh ∷ [])
    × Copies o gone
    × Copies o fresh
    × (fresh.resource_version ≡ "")
    × (lookup last_config_hash_annotation fresh.annotations ≡ some (api.md5_hex o.relevant))

module _ (api : Api) where
  Copies-prepared : (owner : Option String) (o old : Object) → Copies o (prepared api owner o old)
  unfolding prepared
  Copies-prepared none o old = elim (Bool-cases (is_deployment o.kind)) [
    | inl d ↦ rw d (refl, refl, refl, refl, refl)
    | inr d ↦ rw d (refl, refl, refl, refl, refl)
  ]
  Copies-prepared (some owner) o old = elim (Bool-cases (is_deployment o.kind)) [
    | inl d ↦ rw d (refl, refl, refl, refl, refl)
    | inr d ↦ rw d (refl, refl, refl, refl, refl)
  ]

  Copies-with_deployed : (old o p : Object) → Copies o p → Copies o (with_deployed old p)
  Copies-with_deployed old o p h = elim (Bool-cases (is_service p.kind)) [
    | inl s ↦ rw s h
    | inr s ↦ rw s h
  ]

  create_job-ok :
      (old o p : Object) (r : Result ℕ) (n : ℕ)
      → r ≡ ok n
      → Copies o p
      → lookup last_config_hash_annotation (with_deployed old p).annotations
        ≡ some (api.md5_hex o.relevant)
      → Replaces api o (create_job api old p r).requests
  unfolding Replaces
  create_job-ok old o p (ok m) n h copies hash =
      let sent = Copies-with_deployed old o p copies in (_, _, refl, sent, sent, refl, hash)
  create_job-ok old o p (err e) n h copies hash = cc

  replace_job_requests :
      (old o p : Object)
      → api.delete_error (with_deployed old p) ≡ none
      → Copies o p
      → lookup last_config_hash_annotation (with_deployed old p).annotations
        ≡ some (api.md5_hex o.relevant)
      → Replaces api o (replace_job api old p).requests
  unfolding replace_job
  replace_job_requests old o p e copies hash =
      let (n, ends, bound) = wait_deleted_ends api.polls _ in
      rw (replace_job, e) (create_job-ok old o p _ n ends copies hash)

  job_apart : (k : Kind) → is_job k ≡ true → k ≢ Kind.pod
  job_apart k h e = let h' = rw e at h in cc

  job_hash :
      (o : Object)
      → is_job o.kind ≡ true
      → object_hash api (without_hash o) ≡ api.md5_hex o.relevant
  job_hash o job = rw (object_hash, known o.kind (job_apart o.kind job)) refl

  other_text :
      (old : Option String) (hash : String)
      → old ≢ some hash
      → hash ≢ ""
      → text_of old == hash ≡ false
  other_text none hash h full = elim (Bool-cases ("" == hash)) [
    | inl e ↦ absurd (full (sym' ((eq_iff "" hash).0 e)))
    | inr e ↦ e
  ]
    where
      sym' : {a b : String} → a ≡ b → b ≡ a
      sym' p = cc
  other_text (some v) hash h full = elim (Bool-cases (v == hash)) [
    | inl e ↦ absurd (h (ap some ((eq_iff v hash).0 e)))
    | inr e ↦ e
  ]

  differs_by_hash :
      (hash : String) (old o : Object)
      → text_of (lookup last_config_hash_annotation old.annotations) == hash ≡ false
      → differs hash old o ≡ true
  unfolding differs
  differs_by_hash hash old o h = rw h refl

  -- A job that is deployed under another hash, also one that has succeeded there, is deleted, and the
  -- desired one is created under its name with its own hash, if its owner can be set, the desired object
  -- itself counts no success, the hash is not the empty text and the API server accepts the deletion.
  pub job_runs_again :
      (owner : Option String) (o old : Object)
      → is_job o.kind ≡ true
      → owner_refused api owner o ≡ none
      → api.get o.kind o.namespace o.name ≡ found old
      → api.md5_hex o.relevant ≢ ""
      → lookup last_config_hash_annotation old.annotations ≢ some (api.md5_hex o.relevant)
      → has_succeeded o ≡ false
      → ((p : Object) → api.delete_error p ≡ none)
      → Replaces api o (ensure_object_with_hash api owner o).requests
  unfolding update Like
  job_runs_again owner o old job e g full h first accepted =
      let p = prepared api owner o old in
      let apart : OwnerApart owner o = inl (job_apart o.kind job) in
      let hash = job_hash o job in
      let copies = Copies-prepared owner o old in
      let changed : differs (object_hash api (without_hash o)) old p ≡ true =
        rw hash (differs_by_hash (api.md5_hex o.relevant) old p (other_text _ _ h full)) in
      let job' : is_job p.kind ≡ true = ap is_job copies.0 ∙ job in
      let first' : has_succeeded p ≡ false = has_succeeded-prepared api owner o old ∙ first in
      let like = with_deployed-Like api old o p (prepared-Like api owner o old apart) in
      rw (ensure_found api owner o old apart e g, changed, job', first')
        (replace_job_requests old o p (accepted _) copies (like.0 ∙ ap some hash))
