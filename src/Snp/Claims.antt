-- ===== src/Snp/Claims.antt =====
-- attestation/snp/snp.go: the fields of a report, and the claims that extractClaims makes of them.
use attestation_go.Base.{ℕ, Bool, none, some, [], Bytes, codes}
use attestation_go.Teetypes.Digest.{hex_encode}
use attestation_go.Teetypes.Claims.{text, flag, number, object, no_fields, field, Claims}
use attestation_go.Tpm.Hcl.{strip_trailing_nulls}

-- spb.Report, by its getters
pub record Report : Type 0 where
  pub version : ℕ
  pub signer_info : ℕ
  pub cpuid_fms : ℕ
  pub chip_id : Bytes
  pub reported_tcb : ℕ
  pub guest_policy : ℕ
  pub platform_info : ℕ
  pub vmpl : ℕ
  pub current_build : ℕ
  pub current_minor : ℕ
  pub current_major : ℕ
  pub committed_build : ℕ
  pub committed_minor : ℕ
  pub committed_major : ℕ
  pub guest_svn : ℕ
  pub signature_algo : ℕ
  pub measurement : Bytes
  pub report_field : Bytes
  pub host_data : Bytes

-- abi.SnpPolicy
pub record SnpPolicy : Type 0 where
  pub abi_major : ℕ
  pub abi_minor : ℕ
  pub smt : Bool
  pub migrate_ma : Bool
  pub debug : Bool
  pub single_socket : Bool

-- kds.TCBParts, as far as they are read
pub record TcbParts : Type 0 where
  pub bl_spl : ℕ
  pub tee_spl : ℕ
  pub snp_spl : ℕ
  pub ucode_spl : ℕ

-- abi.ParseSnpPolicy, the TSME and the SMT flag of abi.ParseSnpPlatformInfo, and kds.DecomposeTCBVersion;
-- the errors of the first two are ignored.
pub record Decoder : Type 0 where
  pub parse_policy : ℕ → SnpPolicy
  pub tsme_enabled : ℕ → Bool
  pub smt_enabled_in : ℕ → Bool
  pub decompose_tcb : ℕ → TcbParts

unfoldable pub extract_claims : Decoder → Report → Claims
unfolding hex_encode strip_trailing_nulls
extract_claims d r =
    let policy = d.parse_policy r.guest_policy in
    let tcb = d.decompose_tcb r.reported_tcb in
    record {
      launch_digest = hex_encode r.measurement;
      report_data = r.report_field;
      signed_data = strip_trailing_nulls r.report_field;
      init_data = r.host_data;
      tcb = record {
        kind = codes "Snp";
        bootloader = some tcb.bl_spl;
        tee = some tcb.tee_spl;
        snp = some tcb.snp_spl;
        microcode = some tcb.ucode_spl;
        fmc = none;
        tcb_svn = [];
      };
      platform_data =
          field (codes "policy")
            (object (
              field (codes "abi_major") (number policy.abi_major) (
                field (codes "abi_minor") (number policy.abi_minor) (
                  field (codes "smt_allowed") (flag policy.smt) (
                    field (codes "migrate_ma") (flag policy.migrate_ma) (
                      field (codes "debug_allowed") (flag policy.debug)
                        (field (codes "single_socket") (flag policy.single_socket) no_fields)))))))
            (field (codes "platform_info")
              (object (
                field (codes "tsme_enabled") (flag (d.tsme_enabled r.platform_info)) (
                  field (codes "smt_enabled") (flag (d.smt_enabled_in r.platform_info)) no_fields)))
              (field (codes "vmpl") (number r.vmpl) (
                field (codes "chip_id") (text (hex_encode r.chip_id)) (
                  field (codes "current_build") (number r.current_build) (
                    field (codes "current_minor") (number r.current_minor) (
                      field (codes "current_major") (number r.current_major) (
                        field (codes "committed_build") (number r.committed_build) (
                          field (codes "committed_minor") (number r.committed_minor) (
                            field (codes "committed_major") (number r.committed_major) (
                              field (codes "guest_svn") (number r.guest_svn) (
                                field (codes "signature_algo") (number r.signature_algo)
                                  no_fields)))))))))));
    }
