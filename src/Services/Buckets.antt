-- ===== src/Services/Buckets.antt =====
-- What the test of the object storage finds out about the buckets.
use shopware_operator.Prelude.{
  String, ◌≡◌, refl, ◌↔◌, Bool, true, false, not, ◌&&◌, ◌||◌, none, some, List, [], ◌∷◌, arith,
  ◌==◌, eq_iff, if◌then◌else◌, any,
}
use shopware_operator.Api.Store.{S3Storage}
use shopware_operator.Services.{scan_buckets, check_buckets}

module _ (s : S3Storage) where
  abbrev pub is_public : String → Bool
  is_public b = b == s.public_bucket_name

  -- The test of the loop that should find the private bucket.
  abbrev pub is_other : String → Bool
  is_other b = not (b == s.private_bucket_name)

  scan_lem :
      (public private : Bool) (bs : List String)
      → scan_buckets s public private bs ≡ (public || any is_public bs, private || any is_other bs)
  unfolding scan_buckets
  scan_lem public private [] = ground arith
  scan_lem public private (b ∷ bs) = ground (
    arith,
    scan_lem (if is_public b then true else public) (if is_other b then true else private) bs,
  )

  both_iff :
      (p q : Bool) (e : String)
      → ((if p && q then none else some e) ≡ none) ↔ ((p ≡ true) × (q ≡ true))
  both_iff true true e = (λ h. (refl, refl), λ h. refl)
  both_iff true false e = (λ h. cc, λ h. cc)
  both_iff false q e = (λ h. cc, λ h. cc)

  -- The test of the buckets passes exactly when one is the public bucket and one is not the private
  -- bucket.
  pub check_buckets_iff :
      (bs : List String)
      → (check_buckets s bs ≡ none) ↔ ((any is_public bs ≡ true) × (any is_other bs ≡ true))
  unfolding check_buckets
  check_buckets_iff bs =
      rw (scan_lem false false bs, check_buckets)
        (both_iff (any is_public bs) (any is_other bs) "public bucket is not available yet")

  -- If the two buckets have different names, the test passes for every list with the public bucket,
  -- also for one without the private bucket.
  pub private_bucket_unchecked :
      (bs : List String)
      → (s.public_bucket_name == s.private_bucket_name) ≡ false
      → any is_public bs ≡ true
      → check_buckets s bs ≡ none
  private_bucket_unchecked bs h p = (check_buckets_iff bs).1 (p, others bs p)
    where
      others : (cs : List String) → any is_public cs ≡ true → any is_other cs ≡ true
      others [] p = cc
      others (c ∷ cs) p = ground (
        arith,
        others cs,
        eq_iff c s.public_bucket_name,
        eq_iff c s.private_bucket_name,
        eq_iff s.public_bucket_name s.private_bucket_name,
      )
