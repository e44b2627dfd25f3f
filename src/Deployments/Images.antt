-- ===== src/Deployments/Images.antt =====
-- Which image GetStoreDeploymentImage reads (internal/deployment/storefront.go).
use shopware_operator.Prelude.{
  String, ◌≡◌, ◌≢◌, refl, sym, ap, ◌↔◌, List, [], ◌∷◌, ◌++◌, ◌==◌, eq_iff, All, inl, inr,
  Bool-cases,
}
use shopware_operator.Kube.{Reply, found, absent, failed, Container, Deployment}
use shopware_operator.Deployments.{image_of, deployed_image}

-- The first container of the name has the image.
unfoldable pub FirstImage : String → List Container → String → Type 0
FirstImage name cs image =
    (before : List Container) × (c : Container) × (after : List Container) × (cs
      ≡ before ++ c ∷ after)
    × All (λ d. d.name ≢ name) before
    × (c.name ≡ name)
    × (c.image ≡ image)

found_inj : {A : Type 0} (a b : A) → found a ≡ found b → a ≡ b
found_inj a b h = cc

image_of-FirstImage :
    (cs : List Container) (image : String)
    → image_of cs ≡ found image
    → FirstImage "shopware-storefront" cs image
unfolding FirstImage
image_of-FirstImage [] image h = cc
image_of-FirstImage (c ∷ cs) image h = elim (Bool-cases (c.name == "shopware-storefront")) [
  | inl same ↦
      let e : found c.image ≡ found image = rw same at h in
      ([], c, cs, refl, tt, (eq_iff c.name "shopware-storefront").0 same, found_inj _ _ e)
  | inr other ↦
      let (before, d, after, e, others, name, i) = image_of-FirstImage cs image (rw other at h) in
      (
        c ∷ before,
        d,
        after,
        ap (λ ds. c ∷ ds) e,
        (λ q. let same = (eq_iff c.name "shopware-storefront").1 q in cc, others),
        name,
        i,
      )
]

image_of_first :
    (before : List Container) (c : Container) (after : List Container)
    → All (λ (d : Container). d.name ≢ "shopware-storefront") before
    → c.name ≡ "shopware-storefront"
    → image_of (before ++ c ∷ after) ≡ found c.image
image_of_first [] c after others name = rw ((eq_iff c.name "shopware-storefront").1 name) refl
image_of_first (d ∷ ds) c after others name = elim (Bool-cases (d.name == "shopware-storefront")) [
  | inl same ↦ absurd (others.0 ((eq_iff d.name "shopware-storefront").0 same))
  | inr other ↦ rw other (image_of_first ds c after others.1 name)
]

pub deployed_image_iff :
    (r : Reply Deployment) (image : String)
    → (deployed_image r ≡ found image)
      ↔ ((d : Deployment) × (r ≡ found d) × FirstImage "shopware-storefront" d.containers image)
unfolding FirstImage
deployed_image_iff (absent e) image = (λ h. cc, λ (d, g, first). cc)
deployed_image_iff (failed e) image = (λ h. cc, λ (d, g, first). cc)
deployed_image_iff (found d) image = (
  λ h. (d, refl, image_of-FirstImage d.containers image h),
  λ (d', g, (before, c, after, e, others, name, i)).
      let same : d' ≡ d = found_inj d' d (sym g) in
      rw (← same, e, ← i) (image_of_first before c after others name),
)
