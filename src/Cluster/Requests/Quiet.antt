-- ===== src/Cluster/Requests/Quiet.antt =====
-- When the operator writes nothing: DetectObjectChange and EnsureObjectWithHash agree.
use shopware_operator.Prelude.{
  ℕ, String, ◌≡◌, refl, sym, ap, ◌∙◌, ◌↔◌, ◌≢◌, ◌⊎◌, Bool, true, false, not, ◌||◌, Option, none,
  some, List, [], ◌∷◌, ◌++◌, ◌==◌, eq_iff, eq_refl, if◌then◌else◌, inl, inr, Bool-cases,
  Option-cases,
}
use shopware_operator.Kube.{found, Result, ok, err, eq_of_ok-eq}
use shopware_operator.Cluster.{
  Kind, Object, Api, object_hash, filtered_annotations, changed_meta_keys, unchanged, hash_change,
  hash_or_meta, without_hash, compare_deployed, detect_object_change,
}
use shopware_operator.Cluster.Meta.{is_empty}
use shopware_operator.Cluster.Meta.Differences.{changed_keys-nil_iff}
use shopware_operator.Cluster.Requests.{
  is_deployment, owner_refused, with_owner, with_hash, with_kept, is_job, update, replace_job,
  differs, ensure_object_with_hash, text_of, has_succeeded, with_deployed, create_job,
}
use shopware_operator.Cluster.Requests.Convergence.{
  OwnerApart, object_hash-with_owner, Like, with_hash-Like, with_kept-Like, compare-Like,
}

nil_append : (ss ts : List String) → ss ++ ts ≡ [] → (ss ≡ []) × (ts ≡ [])
nil_append [] ts h = (refl, h)
nil_append (s ∷ ss) ts h = cc

clash : false ≡ true → ⊥
clash e = cc

unchanged_hash :
    (old : Option String) (hash : String) (keys : List String)
    → hash_or_meta (hash_change old hash) keys ≡ unchanged
    → (old ≡ some hash) × (keys ≡ [])
unchanged_hash none hash keys h = absurd (clash (ap (λ c. c.reason == "") h))
unchanged_hash (some v) hash [] h = elim (Bool-cases (v == hash)) [
  | inl same ↦ (ap some ((eq_iff v hash).0 same), refl)
  | inr other ↦ absurd (clash (ap (λ c. c.reason == "") (rw other at h)))
]
unchanged_hash (some v) hash (k ∷ ks) h = elim (Bool-cases (v == hash)) [
  | inl same ↦ absurd (clash (ap (λ c. c.reason == "") (rw same at h)))
  | inr other ↦ absurd (clash (ap (λ c. c.reason == "") (rw other at h)))
]

same_text :
    (old : Option String) (hash : String) → hash ≢ "" → text_of old == hash ≡ true → old ≡ some hash
same_text none hash h e = absurd (h (sym ((eq_iff "" hash).0 e)))
same_text (some v) hash h e = ap some ((eq_iff v hash).0 e)

empty_nil : (ks : List String) → is_empty ks ≡ true → ks ≡ []
empty_nil [] h = refl
empty_nil (k ∷ ks) h = cc

both_false : (a b : Bool) → not a || not b ≡ false → (a ≡ true) × (b ≡ true)
both_false true true h = (refl, refl)
both_false true false h = cc
both_false false b h = cc

module _ (api : Api) where
  Like-compare : (o old : Object) → compare_deployed api old o ≡ unchanged → Like api o old
  unfolding compare_deployed changed_meta_keys Like
  Like-compare o old h =
      let (hash, keys) = unchanged_hash _ _ _ h in
      let (labels, annotations) = nil_append _ _ keys in
      (
        hash,
        (changed_keys-nil_iff "label" old.labels o.labels).0 labels,
        (changed_keys-nil_iff "annotation" (filtered_annotations old)
              (filtered_annotations (without_hash o))).0
            annotations,
      )

  -- Of two objects of which one is like the desired one, the other is too exactly when nothing differs.
  Like-differs :
      (o old p : Object)
      → Like api o p
      → object_hash api (without_hash o) ≢ ""
      → differs (object_hash api (without_hash o)) old p ≡ false
      → Like api o old
  unfolding Like differs changed_meta_keys
  Like-differs o old p (hash, labels, annotations) full h =
      let (text, keys) = both_false _ _ h in
      let (l, a) = nil_append _ _ (empty_nil _ keys) in
      (
        same_text _ _ full text,
        λ k. sym ((changed_keys-nil_iff "label" p.labels old.labels).0 l k) ∙ labels k,
        λ k.
            sym (
              (changed_keys-nil_iff "annotation" (filtered_annotations p)
                  (filtered_annotations old)).0
                a k)
            ∙ annotations k,
      )

  differs-Like :
      (o old p : Object)
      → Like api o p
      → Like api o old
      → differs (object_hash api (without_hash o)) old p ≡ false
  unfolding Like differs changed_meta_keys
  differs-Like o old p (hash, labels, annotations) (hash', labels', annotations') =
      let l =
        (changed_keys-nil_iff "label" p.labels old.labels).1 (λ k. labels k ∙ sym (labels' k)) in
      let a =
        (changed_keys-nil_iff "annotation" (filtered_annotations p) (filtered_annotations old)).1
          (λ k. annotations k ∙ sym (annotations' k)) in
      rw (hash', l, a, eq_refl (object_hash api (without_hash o))) refl

  update_not_quiet : (old p : Object) → has_succeeded p ≡ false → (update api old p).requests ≢ []
  unfolding update replace_job
  update_not_quiet old p first h = elim (Bool-cases (is_job p.kind)) [
    | inr other ↦ let h' = rw other at h in cc
    | inl job ↦ job_not_quiet (rw (job, first) at h)
  ]
    where
      job_created : (r : Result ℕ) → (create_job api old p r).requests ≡ [] → ⊥
      job_created (ok n) h = cc
      job_created (err e) h = cc

      job_not_quiet : (replace_job api old p).requests ≡ [] → ⊥
      job_not_quiet h = elim (Option-cases (api.delete_error (with_deployed old p))) [
        | inl e ↦ job_created _ (rw (replace_job, e) at h)
        | inr (t, e) ↦ let h' = rw (replace_job, e) at h in cc
      ]

  unfoldable pub prepared : Option String → Object → Object → Object
  prepared owner o old = with_kept old (with_hash api (with_owner owner o))

  pub prepared-Like :
      (owner : Option String) (o old : Object)
      → OwnerApart owner o
      → Like api o (prepared owner o old)
  unfolding prepared
  prepared-Like owner o old apart = with_kept-Like api old o _ (with_hash-Like api owner o apart)

  pub has_succeeded-prepared :
      (owner : Option String) (o old : Object)
      → has_succeeded (prepared owner o old) ≡ has_succeeded o
  unfolding prepared
  has_succeeded-prepared none o old = elim (Bool-cases (is_deployment o.kind)) [
    | inl d ↦ rw d refl
    | inr d ↦ rw d refl
  ]
  has_succeeded-prepared (some owner) o old = elim (Bool-cases (is_deployment o.kind)) [
    | inl d ↦ rw d refl
    | inr d ↦ rw d refl
  ]

  pub ensure_found :
      (owner : Option String) (o old : Object)
      → OwnerApart owner o
      → owner_refused api owner o ≡ none
      → api.get o.kind o.namespace o.name ≡ found old
      → ensure_object_with_hash api owner o ≡ (
          if differs (object_hash api (without_hash o)) old (prepared owner o old)
          then update api old (prepared owner o old)
          else record { requests = []; error = none })
  unfolding ensure_object_with_hash prepared
  ensure_found owner o old apart e g = rw (e, g, object_hash-with_owner api owner o apart) refl

  detect_found :
      (o old : Object)
      → api.get o.kind o.namespace o.name ≡ found old
      → detect_object_change api o ≡ ok (compare_deployed api old o)
  unfolding detect_object_change
  detect_found o old g = rw g refl

  -- For an object that is deployed, of another type than pods or without an owner, with an owner that can
  -- be set and that is no job which has succeeded, EnsureObjectWithHash sends no request exactly when DetectObjectChange reports no change. The hash of
  -- the object is assumed not to be the empty text.
  pub writes_nothing_iff :
      (owner : Option String) (o old : Object)
      → (o.kind ≢ Kind.pod) ⊎ (owner ≡ none)
      → owner_refused api owner o ≡ none
      → api.get o.kind o.namespace o.name ≡ found old
      → object_hash api (without_hash o) ≢ ""
      → has_succeeded o ≡ false
      → ((ensure_object_with_hash api owner o).requests ≡ [])
        ↔ (detect_object_change api o ≡ ok unchanged)
  writes_nothing_iff owner o old apart e g full first =
      let p = prepared owner o old in
      let run = ensure_found owner o old apart e g in
      (
        λ h. elim (Bool-cases (differs (object_hash api (without_hash o)) old p)) [
          | inl changed ↦ absurd (
              update_not_quiet old p (has_succeeded-prepared owner o old ∙ first)
                (rw (run, changed) at h))
          | inr same ↦
              detect_found o old g
              ∙ ap ok (
                  compare-Like api o old
                    (Like-differs o old p (prepared-Like owner o old apart) full same))
        ],
        λ d.
            let like = Like-compare o old (eq_of_ok-eq (sym (detect_found o old g) ∙ d)) in
            ap (λ r. r.requests) run
            ∙ rw (differs-Like o old p (prepared-Like owner o old apart) like) refl,
      )
