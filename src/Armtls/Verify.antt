-- ===== src/Armtls/Verify.antt =====
-- armtls/verify.go: the evidence of an extension is verified and must bind the key.
pub mod Bound
use attestation_go.Base.{
  Bool, not, ◌&&◌, Option, none, some, List, [], ◌∷◌, ℕ, Bytes, bytes_eq, length, ltb, take, Result,
  ok, err, ◌>>=◌, ◌>>◌, refuse_if, map_err, Stdlib,
}
use attestation_go.Teetypes.Platform.{Family, family_tdx, family_unknown, family_snp}
use attestation_go.Teetypes.Verdict.{VerificationResult, CheckError, check}
use attestation_go.Tpm.Quote.{RawTpmQuote}
use attestation_go.Remote.Checks.{not_affirmed}
use attestation_go.Remote.Policies.{AttestationEvidence}
use attestation_go.Remote.Client.{
  FullPolicy, VerifyRequest, ClientError, verify_evidence_with_runtime_log,
}
use attestation_go.Armtls.Extension.{
  ArmtlsError, other_report_data, Attestation, ExtensionCodec, check_runtime_extensions,
}
use attestation_go.Armtls.Evidence.{EvidenceCodec, envelope}
use attestation_go.Armtls.Keys.{
  Curve, CertKey, Certificate, report_data_for_key, public_key_from_cert, extract_attestation,
}

pub data VerifyError : Type 0 where
  unusable : ArmtlsError → VerifyError
  verifier : Bytes → VerifyError
  unchecked : CheckError → VerifyError
  key_not_bound : VerifyError
  client : ClientError → VerifyError

-- A pointer to a result, once it has been checked.
abbrev present : Option VerificationResult → Result VerifyError VerificationResult
present none = err (unchecked CheckError.no_result)
present (some r) = ok r

-- The list that a TDX guest claims; it is ignored on another family.
claimed_of : Family → List Bytes → Result ArmtlsError (List Bytes)
claimed_of family_tdx list = check_runtime_extensions family_tdx list >> ok list
claimed_of family_snp list = ok []
claimed_of family_unknown list = ok []

module _ ⦃lib : Stdlib⦄ (extension : ExtensionCodec) (codec : EvidenceCodec)
    (marshal_pkix : Curve → Bytes → Result Bytes Bytes) where
  unfoldable pub binding_anchor : CertKey → Bytes → Bytes → Result ArmtlsError Bytes
  binding_anchor key nonce supplied = do
    data_field ← report_data_for_key marshal_pkix key nonce
    let anchor = take 48 data_field
    refuse_if (ltb 0 (length supplied) && not (bytes_eq supplied anchor)) other_report_data
    ok anchor

  unfoldable pub attestation_and_key :
      Certificate → List ℕ → Result ArmtlsError (Attestation × CertKey)
  attestation_and_key cert oid = do
    att ← extract_attestation extension cert oid
    key ← public_key_from_cert cert
    ok (att, key)

  -- teeverify.VerifyEnvelope, under the caller's policy, as a function of the evidence and of the report
  -- data that is expected.
  module _ (verify : AttestationEvidence → Bytes → Result Bytes (Option VerificationResult)) where
    -- VerifyOffline
    unfoldable pub verify_offline :
        Attestation → CertKey → Bytes → Bytes → Result VerifyError VerificationResult
    verify_offline att key nonce supplied = do
      env ← map_err unusable (envelope codec att)
      anchor ← map_err unusable (binding_anchor key nonce supplied)
      result ← map_err verifier (verify env anchor)
      map_err unchecked (check result)
      r ← present result
      refuse_if (not_affirmed r.report_data_match) key_not_bound
      ok r

    -- VerifyCertOffline
    unfoldable pub verify_cert_offline :
        Certificate → List ℕ → Bytes → Bytes → Result VerifyError VerificationResult
    unfolding attestation_and_key verify_offline
    verify_cert_offline cert oid nonce supplied = do
      parts ← map_err unusable (attestation_and_key cert oid)
      verify_offline parts.0 parts.1 nonce supplied

  module _ (post : VerifyRequest → Result Bytes VerificationResult)
      (unmarshal : Bytes → Result Bytes (Option RawTpmQuote)) where
    -- VerifyWithService
    unfoldable pub verify_with_service :
        Attestation → CertKey → Bytes → FullPolicy → Result VerifyError VerificationResult
    unfolding claimed_of
    verify_with_service att key nonce p = do
      env ← map_err unusable (envelope codec att)
      anchor ← map_err unusable (binding_anchor key nonce p.expected_report_data)
      claimed ← map_err unusable (claimed_of att.of_family att.runtime_extensions)
      map_err client (
          verify_evidence_with_runtime_log post unmarshal env
            (record p { expected_report_data = anchor }) claimed)

    -- VerifyCertWithService
    unfoldable pub verify_cert_with_service :
        Certificate → List ℕ → Bytes → FullPolicy → Result VerifyError VerificationResult
    unfolding attestation_and_key verify_with_service
    verify_cert_with_service cert oid nonce p = do
      parts ← map_err unusable (attestation_and_key cert oid)
      verify_with_service parts.0 parts.1 nonce p
