-- ===== src/Remote/Checks.antt =====
-- remote/verify.go: the verdict, the verified platform, the launch measurement and the registers.
pub mod Verdicts
use attestation_go.Base.{
  ℕ, ◌+◌, ℤ, pos, Bool, true, false, not, ◌&&◌, ◌||◌, Option, none, some, List, [], ◌∷◌, Bytes,
  bytes_eq, contains, length, ◌==◌, if◌then◌else◌, Result, ok, ◌>>=◌, ◌>>◌, refuse_if, map_err,
  Stdlib,
}
use attestation_go.Teetypes.Text.{trim_space}
use attestation_go.Teetypes.Platform.{PlatformType, normalize_platform}
use attestation_go.Teetypes.Claims.{Claims, ClaimError, Pins, check_rtmrs, launch_measurement}
use attestation_go.Teetypes.Verdict.{VerificationResult, check}
use attestation_go.Runtimemeasure.Binding.{BindingError}
use attestation_go.Runtimemeasure.LaunchFile.{LaunchFileError}
use attestation_go.Tpm.Quote.{TpmError}

-- Why a launch binding of an image pin does not hold.
pub data ReplayError : Type 0 where
  not_bound : BindingError → ReplayError
  extensions_not_accepted : ℕ → ReplayError
  extension_refused : Bytes → Bytes → ReplayError

pub data PcrError : Type 0 where
  no_vtpm_quote : ℕ → PcrError
  bad_evidence : Bytes → PcrError
  no_tpm_quote bad_message_hex : PcrError
  bad_message : TpmError → PcrError
  not_signed : ℤ → PcrError
  unreadable : ClaimError → PcrError
  pcr_differs : ℤ → PcrError

-- The sentinel errors, with what they wrap.
pub data RemoteError : Type 0 where
  signature_invalid report_data_mismatch init_data_mismatch : RemoteError
  measurement_missing measurement_not_allowed no_such_image : RemoteError
  invalid_launch_digest registers_not_allowed : ClaimError → RemoteError
  no_registers : ℕ → RemoteError
  platform_mismatch : PlatformType → PlatformType → RemoteError
  anchor_not_allowed launch_file_not_allowed : ReplayError → RemoteError
  several_bindings empty_launch_file unused_accept : RemoteError
  bad_launch_file_digest : LaunchFileError → RemoteError
  pcr_not_allowed : PcrError → RemoteError
  of_image : Bytes → RemoteError → RemoteError

-- The fields of VerifyParams that EnforceVerdict reads; an absent field is empty.
pub record VerifyParams : Type 0 where
  pub expected_report_data : Bytes
  pub expected_init_data_hash : Bytes
  pub expected_launch_digest : Bytes
  pub expected_mrtd : Bytes
  pub expected_rtmr0 : Bytes
  pub expected_rtmr1 : Bytes
  pub expected_rtmr2 : Bytes
  pub expected_rtmr3 : Bytes

-- `match == nil || !*match`
abbrev pub not_affirmed : Option Bool → Bool
not_affirmed (some true) = false
not_affirmed _ = true

abbrev pub is_set : Bytes → Bool
is_set [] = false
is_set (b ∷ s) = true

-- Those of the values that are not empty.
unfoldable pub nonempty : List Bytes → List Bytes
nonempty [] = []
nonempty (m ∷ ms) = if is_set m then m ∷ nonempty ms else nonempty ms

-- Those of the registers from `idx` on that are not empty.
unfoldable pub pinned_from : ℕ → List Bytes → Pins
pinned_from idx [] = []
pinned_from idx (m ∷ ms) =
    let rest = pinned_from (idx + 1) ms in if is_set m then (pos idx, m) ∷ rest else rest

-- enforceRTMRsAgainst
unfoldable pub enforce_rtmrs_against : Claims → Pins → Result RemoteError (Unit {0})
enforce_rtmrs_against c pinned = map_err registers_not_allowed (check_rtmrs c pinned)

-- EnforceRTMRs, on the result of a response.
unfoldable pub enforce_rtmrs : VerificationResult → Pins → Result RemoteError (Unit {0})
unfolding enforce_rtmrs_against
enforce_rtmrs r [] = ok tt
enforce_rtmrs r (p ∷ ps) = enforce_rtmrs_against r.claims (p ∷ ps)

module _ ⦃lib : Stdlib⦄ where
  -- checkVerifiedPlatform
  unfoldable pub check_verified_platform :
      VerificationResult → PlatformType → Result RemoteError (Unit {0})
  check_verified_platform r platform =
      refuse_if
        (not (
          length r.platform == 0
          || bytes_eq (normalize_platform platform) (normalize_platform r.platform)))
        (platform_mismatch r.platform platform)

  -- launchDigest
  unfoldable pub launch_digest_of : VerificationResult → Result RemoteError Bytes
  launch_digest_of r = do
    refuse_if (length (trim_space r.claims.launch_digest) == 0) measurement_missing
    map_err invalid_launch_digest (launch_measurement r.claims)

  -- EnforceLaunchMeasurement; MeasurementAllowed is `contains`.
  unfoldable pub enforce_launch_measurement :
      VerificationResult → List Bytes → Result RemoteError (Unit {0})
  enforce_launch_measurement r allowed =
      if length r.claims.launch_digest == 0
      then refuse_if (not (length allowed == 0)) measurement_missing
      else (launch_digest_of r >>= λ measurement.
          refuse_if (not (length allowed == 0) && not (contains allowed measurement))
            measurement_not_allowed)

  -- enforceExpectedMeasurements
  unfoldable pub enforce_expected_measurements :
      VerifyParams → VerificationResult → Result RemoteError (Unit {0})
  unfolding nonempty pinned_from
  enforce_expected_measurements params r = do
    let allowed = nonempty (params.expected_launch_digest ∷ params.expected_mrtd ∷ [])
    if length allowed == 0 then ok tt else enforce_launch_measurement r allowed
    enforce_rtmrs r (
        pinned_from 0 (
          params.expected_rtmr0 ∷ params.expected_rtmr1 ∷ params.expected_rtmr2
          ∷ params.expected_rtmr3 ∷ []))

  enforce_params : VerifyParams → VerificationResult → Result RemoteError (Unit {0})
  enforce_params params r = do
    refuse_if (is_set params.expected_report_data && not_affirmed r.report_data_match)
        report_data_mismatch
    refuse_if (is_set params.expected_init_data_hash && not_affirmed r.init_data_match)
        init_data_mismatch
    enforce_expected_measurements params r

  -- EnforceVerdict
  unfoldable pub enforce_verdict :
      Option VerifyParams → VerificationResult → Result RemoteError (Unit {0})
  unfolding enforce_params
  enforce_verdict none r = map_err (λ e. signature_invalid) (check (some r))
  enforce_verdict (some params) r =
      map_err (λ e. signature_invalid) (check (some r)) >> enforce_params params r
