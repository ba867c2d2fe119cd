-- ===== src/Remote/Client.antt =====
-- remote/verify.go: VerifyEnforced and VerifyEvidence of the client, over the answer of the service.
pub mod Verified
use attestation_go.Base.{
  Bool, not, ◌&&◌, Option, none, some, List, [], Bytes, Result, ok, err, ◌>>=◌, ◌>>◌, refuse_if,
  map_err, Stdlib,
}
use attestation_go.Teetypes.Platform.{PlatformType, family_unknown, family_snp, is_family, family}
use attestation_go.Teetypes.Verdict.{VerificationResult}
use attestation_go.Tpm.Quote.{RawTpmQuote}
use attestation_go.Remote.Checks.{RemoteError, VerifyParams, enforce_verdict}
use attestation_go.Remote.Images.{is_some}
use attestation_go.Remote.Policies.{AttestationEvidence, Policy, enforce_pins_with_runtime_log}

-- The fields of Policy beside its pins; the floor of the TCB is only passed on.
pub record FullPolicy : Type 0 where
  pub pins : Policy
  pub expected_report_data : Bytes
  pub allow_debug : Bool
  pub min_tcb : Option Bytes
  pub expected_init_data_hash : Bytes

-- VerifyRequest: the evidence, and the parameters with those that EnforceVerdict does not read.
pub record VerifyRequest : Type 0 where
  pub evidence : AttestationEvidence
  pub params : Option VerifyParams
  pub debug_allowed : Bool
  pub tcb_floor : Option Bytes

pub data ClientError : Type 0 where
  unsupported_platform min_tcb_not_allowed : PlatformType → ClientError
  service : Bytes → ClientError
  refused : RemoteError → ClientError

-- The parameters that VerifyEvidence sends: the binding and the init data, and no measurement.
abbrev pub params_of : FullPolicy → VerifyParams
params_of p = record {
  expected_report_data = p.expected_report_data;
  expected_init_data_hash = p.expected_init_data_hash;
  expected_launch_digest = [];
  expected_mrtd = [];
  expected_rtmr0 = [];
  expected_rtmr1 = [];
  expected_rtmr2 = [];
  expected_rtmr3 = [];
}

abbrev pub request_of : AttestationEvidence → FullPolicy → VerifyRequest
request_of ev p = record {
  evidence = ev;
  params = some (params_of p);
  debug_allowed = p.allow_debug;
  tcb_floor = p.min_tcb;
}

-- Client.Verify, the post to the service, and the reading of a vTPM quote.
module _ ⦃lib : Stdlib⦄ (post : VerifyRequest → Result Bytes VerificationResult)
    (unmarshal : Bytes → Result Bytes (Option RawTpmQuote)) where
  -- Client.VerifyEnforced
  unfoldable pub verify_enforced : VerifyRequest → Result ClientError VerificationResult
  verify_enforced req = do
    r ← map_err service (post req)
    map_err refused (enforce_verdict req.params r)
    ok r

  -- Client.VerifyEvidenceWithRuntimeLog
  unfoldable pub verify_evidence_with_runtime_log :
      AttestationEvidence → FullPolicy → List Bytes → Result ClientError VerificationResult
  unfolding verify_enforced
  verify_evidence_with_runtime_log ev p claimed = do
    refuse_if (is_family (family ev.evidence_platform) family_unknown)
        (unsupported_platform ev.evidence_platform)
    refuse_if (is_some p.min_tcb && not (is_family (family ev.evidence_platform) family_snp))
        (min_tcb_not_allowed ev.evidence_platform)
    r ← verify_enforced (request_of ev p)
    map_err refused (enforce_pins_with_runtime_log unmarshal r p.pins ev claimed)
    ok r

  -- Client.VerifyEvidence
  unfoldable pub verify_evidence :
      AttestationEvidence → FullPolicy → Result ClientError VerificationResult
  unfolding verify_evidence_with_runtime_log
  verify_evidence ev p = verify_evidence_with_runtime_log ev p []
