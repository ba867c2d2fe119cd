-- ===== src/Remote/Policies.antt =====
-- remote/verify.go: the pins of a policy, the vTPM registers among them.
pub mod Pcrs
pub mod Flat
use attestation_go.Base.{
  ℕ, suc, ◌≡◌, ℤ, pos, negsuc, Bool, true, false, not, Option, none, some, List, [], ◌∷◌, Bytes,
  bytes_eq, length, ◌==◌, if◌then◌else◌, Result, ok, err, ◌>>=◌, ◌>>◌, refuse_if, map_err, Stdlib,
}
use attestation_go.Teetypes.Platform.{PlatformType, has_vtpm_quote, has_registers}
use attestation_go.Teetypes.Digest.{hex_decode}
use attestation_go.Teetypes.Claims.{Claims, Pins, pcr, sort_pins}
use attestation_go.Teetypes.Verdict.{VerificationResult}
use attestation_go.Tpm.Quote.{RawTpmQuote, TpmError, has_index, signed_pcr_selection}
use attestation_go.Remote.Checks.{
  PcrError, no_vtpm_quote, bad_evidence, no_tpm_quote, bad_message_hex, bad_message, not_signed,
  unreadable, pcr_differs, RemoteError, no_registers, pcr_not_allowed, enforce_rtmrs,
  check_verified_platform, enforce_launch_measurement,
}
use attestation_go.Remote.Images.{ImagePin, enforce_images_with_runtime_log}

-- AttestationEvidence: the tag, and the JSON text of the evidence.
pub record AttestationEvidence : Type 0 where
  pub evidence_platform : PlatformType
  pub evidence : Bytes

-- The pins of a Policy.
pub record Policy : Type 0 where
  pub images : List ImagePin
  pub measurements : List Bytes
  pub policy_registers : Pins
  pub policy_pcrs : Pins

-- slices.Contains(signed, idx), of an index that may be negative.
abbrev pub is_signed : List ℕ → ℤ → Bool
is_signed signed (pos i) = has_index signed i
is_signed signed (negsuc n) = false

unfoldable pub check_pcrs : List ℕ → Claims → Pins → Result PcrError (Unit {0})
unfolding has_index
check_pcrs signed c [] = ok tt
check_pcrs signed c ((idx, want) ∷ rest) =
    refuse_if (not (is_signed signed idx)) (not_signed idx)
    >> (map_err unreadable (pcr c idx) >>= λ got.
        refuse_if (not (bytes_eq got want)) (pcr_differs idx) >> check_pcrs signed c rest)

abbrev message_of : Option RawTpmQuote → Result PcrError Bytes
message_of none = err no_tpm_quote
message_of (some q) = ok q.raw_message

abbrev decoded_message : Option Bytes → Result PcrError Bytes
decoded_message none = err bad_message_hex
decoded_message (some m) = ok m

-- What encoding/json reads as the tpm_quote of the evidence, or its error.
module _ ⦃lib : Stdlib⦄ (unmarshal : Bytes → Result Bytes (Option RawTpmQuote)) where
  -- signedPCRSelection
  unfoldable pub signed_pcr_selection_of : Bytes → Result PcrError (List ℕ)
  unfolding hex_decode
  signed_pcr_selection_of evidence = do
    quote ← map_err bad_evidence (unmarshal evidence)
    text ← message_of quote
    message ← decoded_message (hex_decode text)
    map_err bad_message (signed_pcr_selection message)

  -- EnforcePCRs
  unfoldable pub enforce_pcrs : AttestationEvidence → Claims → Pins → Result RemoteError (Unit {0})
  unfolding check_pcrs
  enforce_pcrs ev c [] = ok tt
  enforce_pcrs ev c (p ∷ ps) = map_err pcr_not_allowed (do
    refuse_if (not (has_vtpm_quote ev.evidence_platform)) (no_vtpm_quote (length (p ∷ ps)))
    signed ← signed_pcr_selection_of ev.evidence
    check_pcrs signed c (sort_pins (p ∷ ps)))

  pub flat_pins : VerificationResult → Policy → PlatformType → Result RemoteError (Unit {0})
  flat_pins r policy platform = do
    enforce_launch_measurement r policy.measurements
    (if has_registers platform
        then enforce_rtmrs r policy.policy_registers
        else refuse_if (not (length policy.policy_registers == 0))
            (no_registers (length policy.policy_registers)))

  -- EnforcePinsWithRuntimeLog
  unfoldable pub enforce_pins_with_runtime_log :
      VerificationResult → Policy → AttestationEvidence → List Bytes → Result RemoteError (Unit {0})
  unfolding flat_pins
  enforce_pins_with_runtime_log r policy ev claimed = do
    check_verified_platform r ev.evidence_platform
    enforce_pcrs ev r.claims policy.policy_pcrs
    (if length policy.images == 0
        then flat_pins r policy ev.evidence_platform
        else enforce_images_with_runtime_log r policy.images ev.evidence_platform claimed)
