-- ===== src/Manager/Resources/Touching.antt =====
-- The types of the objects that requests are about, for each step of a reconcile.
use shopware_operator.Prelude.{
  String, ◌≡◌, refl, Bool, true, false, Option, none, some, List, [], ◌∷◌, ◌++◌, if◌then◌else◌, inl,
  inr, Bool-cases, All,
}
use shopware_operator.Prelude.Text.{concat}
use shopware_operator.Kube.{Reply, found, absent, failed, Result, ok, err}
use shopware_operator.Api.Store.{Store}
use shopware_operator.Cluster.{Kind, Object, Api, has_object_changed}
use shopware_operator.Cluster.Kinds.{after_get, ensure_as}
use shopware_operator.Cluster.Requests.{
  Request, PatchType, merge, strategic_merge, Outcome, with_owner, with_hash, with_kept,
  with_deployed, with_type, is_deployment, is_service, ensure_object_with_hash,
}
use shopware_operator.Cluster.Requests.Sent.{object_of, AllSent, ensure_object_with_hash-AllSent}
use shopware_operator.Manager.Base.{RecordedEvent}
use shopware_operator.Manager.Resources.Steps.{
  World, Effects, nothing, fails, unless_failed, ◌and_then◌, within, with_events, by_change,
  reconcile_object, reconcile_objects, delete_found, delete_if_there, delete_all,
}

-- The type is one for which the test holds.
unfoldable pub OfKind : (Kind → Bool) → Object → Type 0
OfKind test o = test o.kind ≡ true

module _ (api : Api) (test : Kind → Bool) where
  OfKind-with_hash :
      (owner : Option String) (o : Object)
      → OfKind test o
      → OfKind test (with_hash api (with_owner owner o))
  unfolding OfKind
  OfKind-with_hash none o h = h
  OfKind-with_hash (some owner) o h = h

  OfKind-with_kept : (old p : Object) → OfKind test p → OfKind test (with_kept old p)
  unfolding OfKind
  OfKind-with_kept old p h = elim (Bool-cases (is_deployment p.kind)) [
    | inl d ↦ rw d h
    | inr d ↦ rw d h
  ]

  OfKind-with_deployed : (old p : Object) → OfKind test p → OfKind test (with_deployed old p)
  unfolding OfKind
  OfKind-with_deployed old p h = elim (Bool-cases (is_service p.kind)) [
    | inl d ↦ rw d h
    | inr d ↦ rw d h
  ]

  OfKind-with_type :
      (t : PatchType) (old p : Object) → OfKind test p → OfKind test (with_type t old p)
  unfolding OfKind
  OfKind-with_type merge old p h = h
  OfKind-with_type strategic_merge old p h = h

  OfKind-fresh : (p : Object) → OfKind test p → OfKind test (record p { resource_version = "" })
  unfolding OfKind
  OfKind-fresh p h = h

  pub sent_kinds :
      (owner : Option String) (o : Object)
      → OfKind test o
      → AllSent (OfKind test) (ensure_object_with_hash api owner o)
  sent_kinds owner o h =
      ensure_object_with_hash-AllSent api (OfKind test) (λ old p i. OfKind-with_kept old p i)
        (λ old p i. OfKind-with_deployed old p i) (λ t old p i. OfKind-with_type t old p i)
        (λ p i. OfKind-fresh p i) owner o (OfKind-with_hash owner o h)

  pub ensure_as_kinds :
      (asked : Kind) (owner : Option String) (o : Object)
      → OfKind test o
      → AllSent (OfKind test) (ensure_as asked api owner o)
  ensure_as_kinds asked owner o h = by_answer (api.get asked o.namespace o.name)
    where
      by_answer : (r : Reply Object) → AllSent (OfKind test) (after_get api owner o r)
      by_answer (failed e) = tt
      by_answer (absent e) = sent_kinds owner o h
      by_answer (found old) = sent_kinds owner o h

-- Every request of the effects is about an object of such a type.
unfoldable pub Touches : (Kind → Bool) → Effects → Type 0
Touches test e = All (λ r. OfKind test (object_of r)) e.requests

All-append : (P : Request → Type 0) (rs qs : List Request) → All P rs → All P qs → All P (rs ++ qs)
All-append P [] qs h i = i
All-append P (r ∷ rs) qs h i = (h.0, All-append P rs qs h.1 i)

module _ (w : World) (test : Kind → Bool) where
  pub Touches-nothing : Touches test nothing
  unfolding Touches
  Touches-nothing = tt

  pub Touches-fails : (e : String) → Touches test (fails e)
  unfolding Touches
  Touches-fails e = tt

  pub Touches-if :
      (c : Bool) (a b : Effects)
      → (c ≡ true → Touches test a)
      → (c ≡ false → Touches test b)
      → Touches test (if c then a else b)
  Touches-if true a b h i = h refl
  Touches-if false a b h i = i refl

  pub Touches-within : (text : String) (a : Effects) → Touches test a → Touches test (within text a)
  unfolding Touches within
  Touches-within text a h = h

  pub Touches-with_events :
      (events : List RecordedEvent) (o : Outcome)
      → AllSent (OfKind test) o
      → Touches test (with_events events o)
  unfolding Touches
  Touches-with_events events o h = h

  pub Touches-and_then :
      (a b : Effects) → Touches test a → Touches test b → Touches test (a and_then b)
  unfolding Touches ◌and_then◌
  Touches-and_then a b h i = by_error a.error
    where
      by_error : (e : Option String) → Touches test (unless_failed e a b)
      by_error none = All-append (λ r. OfKind test (object_of r)) a.requests b.requests h i
      by_error (some e) = h

  pub Touches-reconcile_object :
      (events : List RecordedEvent) (s : Store) (asked : Kind) (seen text : String) (o : Object)
      → OfKind test o
      → Touches test (reconcile_object w events s (ensure_as asked) seen text o)
  unfolding Touches reconcile_object by_change within
  Touches-reconcile_object events s asked seen text o h = by_answer (has_object_changed w.api o)
    where
      by_answer :
          (r : Result Bool) → Touches test (by_change w events s (ensure_as asked) seen text o r)
      by_answer (err e) = tt
      by_answer (ok false) = tt
      by_answer (ok true) = ensure_as_kinds w.api test asked (some s.name) o h

  pub Touches-reconcile_objects :
      (events : Object → List RecordedEvent) (s : Store) (asked : Kind) (seen text : String)
      (os : List Object)
      → All (OfKind test) os
      → Touches test (reconcile_objects w events s (ensure_as asked) seen text os)
  unfolding reconcile_objects
  Touches-reconcile_objects events s asked seen text [] h = Touches-nothing
  Touches-reconcile_objects events s asked seen text (o ∷ os) h =
      Touches-and_then (reconcile_object w (events o) s (ensure_as asked) seen text o)
        (reconcile_objects w events s (ensure_as asked) seen text os)
        (Touches-reconcile_object (events o) s asked seen text o h.0)
        (Touches-reconcile_objects events s asked seen text os h.1)

  pub Touches-delete_found :
      (kind : Kind) (text : String) (r : Reply Object)
      → test kind ≡ true
      → Touches test (delete_found w kind text r)
  unfolding OfKind Touches delete_found
  Touches-delete_found kind text (absent e) h = tt
  Touches-delete_found kind text (failed e) h = tt
  Touches-delete_found kind text (found old) h = (h, tt)

  pub Touches-delete_if_there :
      (text : String) (o : Object) → OfKind test o → Touches test (delete_if_there w text o)
  unfolding Touches delete_if_there
  Touches-delete_if_there text o h = (h, tt)

  pub Touches-delete_all :
      (text : String) (os : List Object)
      → All (OfKind test) os
      → Touches test (delete_all w text os)
  unfolding delete_all
  Touches-delete_all text [] h = Touches-nothing
  Touches-delete_all text (o ∷ os) h =
      Touches-and_then (delete_if_there w (concat (text ∷ " " ∷ o.name ∷ [])) o)
        (delete_all w text os) (Touches-delete_if_there _ o h.0) (Touches-delete_all text os h.1)
