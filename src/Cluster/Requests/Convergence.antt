-- ===== src/Cluster/Requests/Convergence.antt =====
-- Whether the operator comes to rest: what it writes is what it compares with at the next reconcile.
use shopware_operator.Prelude.{
  String, List, [], ◌∷◌, ◌≡◌, ◌≢◌, ◌⊎◌, refl, ap, ◌∙◌, Bool, true, false, Option, none, some, ◌==◌,
  eq_refl, if◌then◌else◌, inl, inr, Bool-cases, All,
}
use shopware_operator.Prelude.Assoc.{insert, lookup, erase, lookup-insert, lookup-erase}
use shopware_operator.Cluster.{
  Kind, is_hashed_whole, Object, Api, last_config_hash_annotation, ignored_annotation, object_hash,
  filtered_annotations, changed_meta_keys, unchanged, without_hash, compare_deployed,
}
use shopware_operator.Cluster.Meta.{Map}
use shopware_operator.Cluster.Meta.Differences.{SameMap, changed_keys-nil_iff}
use shopware_operator.Cluster.Requests.Sent.{object_of, ensure_object_with_hash-AllSent}
use shopware_operator.Cluster.Requests.{
  Request, create, patch, delete, PatchType, merge, strategic_merge, with_owner, with_hash,
  keep_annotation, with_kept, with_deployed, with_type, is_service, is_deployment,
  ensure_object_with_hash,
}

lookup-filtered :
    (k : String) (m : Map)
    → lookup k (erase ignored_annotation (erase last_config_hash_annotation m)) ≡ (
        if ignored_annotation == k
        then none
        else if last_config_hash_annotation == k
        then none
        else lookup k m)
lookup-filtered k m =
    rw
      (
        lookup-erase ignored_annotation k (erase last_config_hash_annotation m),
        lookup-erase last_config_hash_annotation k m,
      )
      refl

-- The object is of a type of which only a part is hashed, or it gets no owner.
abbrev pub OwnerApart : Option String → Object → Type 0
OwnerApart owner o = (o.kind ≢ Kind.pod) ⊎ (owner ≡ none)

pub known : (k : Kind) → k ≢ Kind.pod → is_hashed_whole k ≡ false
known Kind.pod h = absurd (h refl)
known Kind.deployment h = refl
known Kind.service h = refl
known Kind.job h = refl
known Kind.cron_job h = refl
known Kind.secret h = refl
known Kind.ingress h = refl
known Kind.http_route h = refl
known Kind.disruption_budget h = refl
known Kind.autoscaler h = refl
known Kind.scaled_object h = refl
known Kind.certificate h = refl

-- The deployed object has the hash, the labels and the annotations of the desired one.
unfoldable pub Like : Api → Object → Object → Type 0
Like api o p =
    (lookup last_config_hash_annotation p.annotations ≡ some (object_hash api (without_hash o)))
    × SameMap p.labels o.labels
    × ((k : String)
        → lookup k (filtered_annotations p) ≡ lookup k (filtered_annotations (without_hash o)))

module _ (api : Api) where
  pub compare-Like : (o p : Object) → Like api o p → compare_deployed api p o ≡ unchanged
  unfolding compare_deployed changed_meta_keys Like
  compare-Like o p (hash, labels, annotations) =
      let l = (changed_keys-nil_iff "label" p.labels o.labels).1 labels in
      let a =
        (changed_keys-nil_iff "annotation" (filtered_annotations p)
            (filtered_annotations (without_hash o))).1
          annotations in
      rw (hash, l, a, eq_refl (object_hash api (without_hash o))) refl

  -- Erasing the hash, or writing it, changes none of the annotations that are compared.
  filtered_hash :
      (v k : String) (m : Map)
      → lookup k (
          erase ignored_annotation (
            erase last_config_hash_annotation
              (insert last_config_hash_annotation v (erase last_config_hash_annotation m))))
        ≡ lookup k (
            erase ignored_annotation
              (erase last_config_hash_annotation (erase last_config_hash_annotation m)))
  filtered_hash v k m =
      rw
        (
          lookup-filtered k
              (insert last_config_hash_annotation v (erase last_config_hash_annotation m)),
          lookup-filtered k (erase last_config_hash_annotation m),
          lookup-insert last_config_hash_annotation k v (erase last_config_hash_annotation m),
        )
        (by_cases (ignored_annotation == k) (last_config_hash_annotation == k))
    where
      by_cases :
          (b c : Bool)
          → (if b
              then none
              else if c
              then none
              else if c
              then some v
              else lookup k (erase last_config_hash_annotation m))
            ≡ (if b
                then none
                else if c
                then none
                else lookup k (erase last_config_hash_annotation m))
      by_cases true c = refl
      by_cases false true = refl
      by_cases false false = refl

  filtered_kept :
      (v k : String) (m : Map)
      → lookup k (
          erase ignored_annotation
            (erase last_config_hash_annotation (insert ignored_annotation v m)))
        ≡ lookup k (erase ignored_annotation (erase last_config_hash_annotation m))
  filtered_kept v k m =
      rw
        (
          lookup-filtered k (insert ignored_annotation v m),
          lookup-filtered k m,
          lookup-insert ignored_annotation k v m,
        )
        (by_cases (ignored_annotation == k) (last_config_hash_annotation == k))
    where
      by_cases :
          (b c : Bool)
          → (if b then none else if c then none else if b then some v else lookup k m)
            ≡ (if b then none else if c then none else lookup k m)
      by_cases true c = refl
      by_cases false true = refl
      by_cases false false = refl

  -- The owner is not part of what is hashed, but of a pod.
  pub object_hash-with_owner :
      (owner : Option String) (o : Object)
      → OwnerApart owner o
      → object_hash api (without_hash (with_owner owner o)) ≡ object_hash api (without_hash o)
  object_hash-with_owner none o apart = refl
  object_hash-with_owner (some owner) o (inr e) = cc
  object_hash-with_owner (some owner) o (inl typed) = rw (object_hash, known o.kind typed) refl

  pub with_hash-Like :
      (owner : Option String) (o : Object)
      → OwnerApart owner o
      → Like api o (with_hash api (with_owner owner o))
  unfolding Like filtered_annotations
  with_hash-Like none o apart = (
    lookup-insert last_config_hash_annotation last_config_hash_annotation
        (object_hash api (without_hash o)) (erase last_config_hash_annotation o.annotations),
    λ k. refl,
    λ k. filtered_hash (object_hash api (without_hash o)) k o.annotations,
  )
  with_hash-Like (some owner) o apart =
      let hash = object_hash api (without_hash (with_owner (some owner) o)) in
      (
        lookup-insert last_config_hash_annotation last_config_hash_annotation hash
              (erase last_config_hash_annotation o.annotations)
            ∙ ap some (object_hash-with_owner (some owner) o apart),
        λ k. refl,
        λ k. filtered_hash hash k o.annotations,
      )

  -- Like looks at the labels and the annotations only.
  Like-same :
      (o p q : Object)
      → q.labels ≡ p.labels
      → q.annotations ≡ p.annotations
      → Like api o p
      → Like api o q
  unfolding Like filtered_annotations
  Like-same o p q l a (hash, labels, annotations) =
      (rw a hash, λ k. rw l (labels k), λ k. rw a (annotations k))

  kept-Like :
      (o p : Object) (v : Option String)
      → Like api o p
      → Like api o (record p { annotations = keep_annotation v p.annotations })
  unfolding Like filtered_annotations
  kept-Like o p none h = h
  kept-Like o p (some v) (hash, labels, annotations) = (
    lookup-insert ignored_annotation last_config_hash_annotation v p.annotations ∙ hash,
    labels,
    λ k. filtered_kept v k p.annotations ∙ annotations k,
  )

  pub with_kept-Like : (old o p : Object) → Like api o p → Like api o (with_kept old p)
  with_kept-Like old o p h = elim (Bool-cases (is_deployment p.kind)) [
    | inl d ↦ rw d (kept-Like o p (lookup ignored_annotation old.annotations) h)
    | inr d ↦ rw d h
  ]

  pub with_deployed-Like : (old o p : Object) → Like api o p → Like api o (with_deployed old p)
  with_deployed-Like old o p h = elim (Bool-cases (is_service p.kind)) [
    | inl s ↦ rw s (Like-same o p _ refl refl h)
    | inr s ↦ rw s (Like-same o p _ refl refl h)
  ]

  with_type-Like :
      (t : PatchType) (old o p : Object) → Like api o p → Like api o (with_type t old p)
  with_type-Like merge old o p h = Like-same o p _ refl refl h
  with_type-Like strategic_merge old o p h = h

  -- What a request leaves in the cluster counts as unchanged when it is compared with the object.
  unfoldable pub Settles : Object → Request → Type 0
  Settles o (create p) = compare_deployed api p o ≡ unchanged
  Settles o (patch t p) = compare_deployed api p o ≡ unchanged
  Settles o (delete p) = Unit

  settles :
      (o : Object) (rs : List Request) → All (λ r. Like api o (object_of r)) rs → All (Settles o) rs
  unfolding Settles
  settles o [] h = tt
  settles o (create p ∷ rs) h = (compare-Like o p h.0, settles o rs h.1)
  settles o (patch t p ∷ rs) h = (compare-Like o p h.0, settles o rs h.1)
  settles o (delete p ∷ rs) h = (tt, settles o rs h.1)

  -- Of every type but pods, and of a pod that gets no owner, whatever is deployed and whatever the API
  -- server answers, each object that EnsureObjectWithHash creates or patches is one that
  -- DetectObjectChange takes for unchanged when it finds it deployed and compares it with the same
  -- desired object.
  pub sent_is_unchanged :
      (owner : Option String) (o : Object)
      → (o.kind ≢ Kind.pod) ⊎ (owner ≡ none)
      → All (Settles o) (ensure_object_with_hash api owner o).requests
  sent_is_unchanged owner o apart = settles o _ (
      ensure_object_with_hash-AllSent api (Like api o) (λ old p h. with_kept-Like old o p h)
        (λ old p h. with_deployed-Like old o p h) (λ t old p h. with_type-Like t old o p h)
        (λ p h. Like-same o p _ refl refl h) owner o (with_hash-Like owner o apart))
