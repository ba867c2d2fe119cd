-- ===== src/Teetypes/Verdict.antt =====
-- VerificationResult of attestation/teetypes/teetypes.go, and its Check.
use attestation_go.Base.{Bool, not, Option, none, some, List, Bytes, codes, Result, err, refuse_if}
use attestation_go.Teetypes.Platform.{PlatformType}
use attestation_go.Teetypes.Claims.{Claims}

-- A status is any string; the seven that Intel defines have names.
abbrev pub TdxTcbStatus : Type 0
TdxTcbStatus = Bytes

abbrev pub up_to_date : TdxTcbStatus
up_to_date = codes "UpToDate"

abbrev pub sw_hardening_needed : TdxTcbStatus
sw_hardening_needed = codes "SWHardeningNeeded"

abbrev pub configuration_needed : TdxTcbStatus
configuration_needed = codes "ConfigurationNeeded"

abbrev pub configuration_and_sw_hardening_needed : TdxTcbStatus
configuration_and_sw_hardening_needed = codes "ConfigurationAndSWHardeningNeeded"

abbrev pub out_of_date : TdxTcbStatus
out_of_date = codes "OutOfDate"

abbrev pub out_of_date_configuration_needed : TdxTcbStatus
out_of_date_configuration_needed = codes "OutOfDateConfigurationNeeded"

abbrev pub revoked : TdxTcbStatus
revoked = codes "Revoked"

pub record DcapVerificationStatus : Type 0 where
  pub tcb_status : TdxTcbStatus
  pub fmspc : Bytes
  pub advisory_ids : List Bytes
  pub collateral_expired : Bool

pub record VerificationResult : Type 0 where
  pub signature_valid : Bool
  pub platform : PlatformType
  pub claims : Claims
  pub report_data_match : Option Bool
  pub init_data_match : Option Bool
  pub launch_digest_match : Option Bool
  pub mrtd_match : Option Bool
  pub rtmr0_match : Option Bool
  pub rtmr1_match : Option Bool
  pub rtmr2_match : Option Bool
  pub rtmr3_match : Option Bool
  pub collateral_verified : Bool
  pub eventlog_verified : Option Bool
  pub rtmr3_replay_match : Option Bool
  pub tcb_status : Option DcapVerificationStatus

pub data CheckError : Type 0 where
  no_result signature_unverified : CheckError

-- VerificationResult.Check; the receiver is a pointer, and `none` is nil.
unfoldable pub check : Option VerificationResult → Result CheckError (Unit {0})
check none = err no_result
check (some r) = refuse_if (not r.signature_valid) signature_unverified
