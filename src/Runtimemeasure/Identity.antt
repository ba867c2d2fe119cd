-- ===== src/Runtimemeasure/Identity.antt =====
-- runtimemeasure/identity.go and result.go: the identity of a pinned image, and its check against a
-- verified result.
pub mod Observed
use attestation_go.Base.{
  ℤ, pos, Bool, true, false, not, ◌||◌, Option, none, some, List, [], ◌∷◌, ◌++◌, map, Bytes, codes,
  bytes_eq, contains, length, ◌==◌, if◌then◌else◌, Result, ok, err, ◌>>=◌, ◌>>◌, refuse_if, map_err,
  Stdlib,
}
use attestation_go.Base.Decimal.{decimal}
use attestation_go.Teetypes.Text.{trim_space}
use attestation_go.Teetypes.Platform.{
  PlatformType, Family, family_unknown, family_snp, family_tdx, is_family, family,
}
use attestation_go.Teetypes.Digest.{hex_encode}
use attestation_go.Teetypes.Claims.{
  ClaimError, Pins, rtmr, sort_pins, check_rtmrs, launch_measurement,
}
use attestation_go.Teetypes.Verdict.{VerificationResult, CheckError, check}

-- tdxImagePins
pub record TdxImagePins : Type 0 where
  pub mrtd : Bytes
  pub rtmr1 : Bytes
  pub rtmr2 : Bytes

-- snpImagePins: a digest for each vCPU count.
pub record SnpImagePins : Type 0 where
  pub by_smp : Pins
  pub observed : Bool

-- ImageIdentity
pub data ImageIdentity : Type 0 where
  tdx_image : TdxImagePins → ImageIdentity
  snp_image : SnpImagePins → ImageIdentity

pub record LaunchVariant : Type 0 where
  pub label : Bytes
  pub variant_digest : Bytes

pub data IdentityError : Type 0 where
  unchecked : CheckError → IdentityError
  wrong_family unknown_platform : PlatformType → IdentityError
  no_launch_digest launch_mismatch : IdentityError
  bad_launch_digest image_mismatch bad_register : ClaimError → IdentityError

-- ImageIdentity.Family
unfoldable pub family_of : ImageIdentity → Family
family_of (tdx_image p) = family_tdx
family_of (snp_image p) = family_snp

abbrev label_of : Bool → ℤ → Bytes
label_of true smp = []
label_of false smp = codes "smp" ++ decimal smp

unfoldable pub variants : Bool → Pins → List LaunchVariant
unfolding decimal
variants observed [] = []
variants observed ((smp, d) ∷ pins) =
    record { label = label_of observed smp; variant_digest = d } ∷ variants observed pins

-- ImageIdentity.LaunchDigests
unfoldable pub launch_digests : ImageIdentity → List LaunchVariant
unfolding variants sort_pins
launch_digests (tdx_image p) = record { label = []; variant_digest = p.mrtd } ∷ []
launch_digests (snp_image p) = variants p.observed (sort_pins p.by_smp)

-- ImageIdentity.RTMRs
unfoldable pub rtmrs : ImageIdentity → Pins
rtmrs (tdx_image p) = (pos 1, p.rtmr1) ∷ (pos 2, p.rtmr2) ∷ []
rtmrs (snp_image p) = []

-- snpImagePins.has
unfoldable pub has : SnpImagePins → Bytes → Bool
unfolding contains
has p digest = contains (map (λ e. e.1) p.by_smp) digest

module _ ⦃lib : Stdlib⦄ where
  unfoldable pub check_family : PlatformType → Family → Result IdentityError (Unit {0})
  check_family p want = refuse_if (not (is_family (family p) want)) (wrong_family p)

  -- What the two Verify methods share: the verdict, the family and the launch measurement.
  verified_launch : VerificationResult → Family → Result IdentityError Bytes
  unfolding check_family
  verified_launch r want = do
    map_err unchecked (check (some r))
    check_family r.platform want
    refuse_if (length (trim_space r.claims.launch_digest) == 0) no_launch_digest
    map_err bad_launch_digest (launch_measurement r.claims)

  verify_result : ImageIdentity → VerificationResult → Result IdentityError (Unit {0})
  unfolding verified_launch has
  verify_result (tdx_image p) r = do
    launch ← verified_launch r family_tdx
    refuse_if (not (bytes_eq launch p.mrtd)) launch_mismatch
    map_err image_mismatch (check_rtmrs r.claims ((pos 1, p.rtmr1) ∷ (pos 2, p.rtmr2) ∷ []))
  verify_result (snp_image p) r = do
    launch ← verified_launch r family_snp
    refuse_if (not (has p launch)) launch_mismatch

  -- ImageIdentity.Verify; the result is behind a pointer, and `none` is nil.
  unfoldable pub verify :
      ImageIdentity → Option VerificationResult → Result IdentityError (Unit {0})
  unfolding verify_result
  verify id none = map_err unchecked (check none)
  verify id (some r) = verify_result id r

  observed_as : Family → VerificationResult → Bytes → Result IdentityError ImageIdentity
  observed_as family_snp r launch =
      ok (snp_image (record { by_smp = (pos 0, launch) ∷ []; observed = true }))
  observed_as f r launch = do
    one ← map_err bad_register (rtmr r.claims (pos 1))
    two ← map_err bad_register (rtmr r.claims (pos 2))
    ok (tdx_image (record { mrtd = launch; rtmr1 = one; rtmr2 = two }))

  observe : VerificationResult → Result IdentityError ImageIdentity
  unfolding observed_as
  observe r = do
    map_err unchecked (check (some r))
    refuse_if (is_family (family r.platform) family_unknown) (unknown_platform r.platform)
    launch ← map_err bad_launch_digest (launch_measurement r.claims)
    observed_as (family r.platform) r launch

  abbrev no_identity : Result CheckError (Unit {0}) → Result IdentityError ImageIdentity
  no_identity (ok _) = err (unchecked CheckError.no_result)
  no_identity (err e) = err (unchecked e)

  -- IdentityFromResult
  unfoldable pub identity_from_result :
      Option VerificationResult → Result IdentityError ImageIdentity
  unfolding observe
  identity_from_result none = no_identity (check none)
  identity_from_result (some r) = observe r
