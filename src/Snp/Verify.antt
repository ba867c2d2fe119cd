-- ===== src/Snp/Verify.antt =====
-- attestation/snp/snp.go: VerifyReport and VerifyEvidence, over go-sev-guest.
pub mod Verified
use attestation_go.Base.{
  ℕ, ◌-◌, Bool, true, false, not, ◌&&◌, ◌||◌, Option, none, some, [], ◌∷◌, Bytes, codes, length,
  leb, ltb, ◌==◌, if◌then◌else◌, Result, ok, err, ◌>>=◌, ◌>>◌, refuse_if, map_err,
}
use attestation_go.Teetypes.Platform.{PlatformType, platform_snp}
use attestation_go.Teetypes.Claims.{Claims}
use attestation_go.Teetypes.Verdict.{VerificationResult}
use attestation_go.Tpm.Hcl.{strip_trailing_nulls}
use attestation_go.Snp.Claims.{Report, Decoder, extract_claims}
use attestation_go.Snp.Validate.{
  SnpError, bad_report, bad_signer, collateral_unavailable, bad_vcek, bad_vcek_extension,
  bad_version, unsupported_signer, no_cpuid, no_chip_id, no_product_line, not_verified, not_valid,
  no_vcek, bad_base64, SnpParams, ValidateOptions, validate_options,
}

pub data SigningKey : Type 0 where
  vcek_signer vlek_signer other_signer : SigningKey

-- spb.CertificateChain
pub record CertChain : Type 0 where
  pub vcek_cert : Bytes
  pub vlek_cert : Bytes

-- trust.HTTPSGetter
abbrev pub Getter : Type 0
Getter = Bytes → Result Bytes Bytes

-- Options of the package
pub record SnpOptions : Type 0 where
  pub check_revocations : Bool
  pub getter : Option Getter

-- verify.Options; certificate fetching is off, and roots stand under a product line.
pub record ChainOptions : Type 0 where
  pub revocations_checked : Bool
  pub product : Option ℕ
  pub disable_cert_fetching : Bool
  pub crl_getter : Option Getter
  pub trusted_roots : Option (Bytes × Bytes)

-- What the package calls of go-sev-guest and of crypto/x509: ReportToProto, ParseSignerInfo, the name
-- of a known product line, ProductLineFromFms, FmsFromCpuid1Eax, VCEKCertURL, GetDefaultRootCerts,
-- ParseCertificate with VcekCertificateExtensions and ProductLineOfProductName, SnpAttestationContext,
-- and validate.SnpAttestation.
pub record SevGuest : Type 0 where
  pub report_to_proto : Bytes → Result Bytes Report
  pub parse_signer_info : ℕ → Result Bytes SigningKey
  pub is_known_product : ℕ → Bool
  pub product_line_from_fms : ℕ → Bytes
  pub family_model : ℕ → ℕ × ℕ
  pub vcek_cert_url : Bytes → Bytes → ℕ → Bytes
  pub default_root_certs : Bytes → Option Bytes
  pub parse_certificate : Bytes → Result Bytes Bytes
  pub vcek_product_line : Bytes → Result Bytes Bytes
  pub snp_attestation : Report → CertChain → ChainOptions → Result Bytes (Unit {0})
  pub validate_attestation : Report → CertChain → ValidateOptions → Result Bytes (Unit {0})
  pub decoder : Decoder

abbrev pub max_report_version : ℕ
max_report_version = 5

abbrev pub min_report_version : ℕ
min_report_version = 3

-- A flag that is set once the expectation is; a mismatch has been refused before.
abbrev pub matched : Option Bytes → Option Bool
matched none = none
matched (some d) = some true

abbrev has_text : Option Bytes → Bool
has_text (some (c ∷ s)) = true
has_text _ = false

abbrev has_getter : Option Getter → Bool
has_getter (some get) = true
has_getter none = false

abbrev vcek_bytes : (Bytes → Result Bytes Bytes) → Option Bytes → Result SnpError Bytes
vcek_bytes decode_base64 (some (c ∷ s)) = map_err bad_base64 (decode_base64 (c ∷ s))
vcek_bytes decode_base64 _ = ok []

module _ (sev : SevGuest) where
  abbrev zen4c : ℕ → ℕ → Result SnpError Bytes
  zen4c family model =
      if family == 25 && (leb 160 model && leb model 175)
      then ok (codes "Genoa")
      else err (no_product_line family model)

  unfoldable pub kds_product_line : ℕ → Result SnpError Bytes
  kds_product_line fms =
      if sev.is_known_product fms
      then ok (sev.product_line_from_fms fms)
      else zen4c ((sev.family_model fms).0) ((sev.family_model fms).1)

  -- fetchVCEK; a chip id is all zeros when nothing is left without its trailing zeros.
  unfoldable pub fetch_vcek : Report → Getter → Result SnpError Bytes
  unfolding kds_product_line strip_trailing_nulls
  fetch_vcek r get = do
    refuse_if (r.cpuid_fms == 0) no_cpuid
    line ← kds_product_line r.cpuid_fms
    refuse_if (length (strip_trailing_nulls r.chip_id) == 0) no_chip_id
    map_err collateral_unavailable (get (sev.vcek_cert_url line r.chip_id r.reported_tcb))

  -- The key that is given, or the one that is fetched for a report that a VCEK signed.
  endorsement : Report → SigningKey → Bytes → Option Getter → Result SnpError Bytes
  unfolding fetch_vcek
  endorsement r vcek_signer [] (some get) = fetch_vcek r get
  endorsement r key vcek get = ok vcek

  chain_of : SigningKey → Bytes → Result SnpError CertChain
  chain_of vcek_signer vcek = ok (record { vcek_cert = vcek; vlek_cert = [] })
  chain_of vlek_signer vcek = ok (record { vcek_cert = []; vlek_cert = vcek })
  chain_of other_signer vcek = err unsupported_signer

  abbrev under : Bytes → Option Bytes → Option (Bytes × Bytes)
  under line none = none
  under line (some root) = some (line, root)

  -- The roots for a report line that go-sev-guest does not know.
  abbrev back_fill : Bytes → Option Bytes → Bytes → Result SnpError (Option (Bytes × Bytes))
  back_fill line (some root) vcek = ok none
  back_fill line none vcek = map_err bad_vcek (sev.parse_certificate vcek) >>= λ cert.
      map_err bad_vcek_extension (sev.vcek_product_line cert) >>= λ of_cert.
      ok (under line (sev.default_root_certs of_cert))

  unfoldable pub vcek_product_roots : Report → Bytes → Result SnpError (Option (Bytes × Bytes))
  vcek_product_roots r vcek =
      if r.cpuid_fms == 0 || length vcek == 0
      then ok none
      else (back_fill (sev.product_line_from_fms r.cpuid_fms)
          (sev.default_root_certs (sev.product_line_from_fms r.cpuid_fms)) vcek)

  roots_for : SigningKey → Report → Bytes → Result SnpError (Option (Bytes × Bytes))
  unfolding vcek_product_roots
  roots_for vcek_signer r vcek = vcek_product_roots r vcek
  roots_for _ r vcek = ok none

  abbrev pub chain_options : Report → SnpOptions → Option (Bytes × Bytes) → ChainOptions
  chain_options r opts roots = record {
    revocations_checked = opts.check_revocations;
    product = if r.cpuid_fms == 0 then none else some r.cpuid_fms;
    disable_cert_fetching = true;
    crl_getter = opts.getter;
    trusted_roots = roots;
  }

  abbrev pub result_of : Report → SnpParams → PlatformType → SnpOptions → VerificationResult
  result_of r params platform opts = record {
    signature_valid = true;
    platform = platform;
    claims = extract_claims sev.decoder r;
    report_data_match = matched params.wanted_report_data;
    init_data_match = matched params.wanted_init_data_hash;
    launch_digest_match = matched params.wanted_launch_digest;
    mrtd_match = none;
    rtmr0_match = none;
    rtmr1_match = none;
    rtmr2_match = none;
    rtmr3_match = none;
    collateral_verified = opts.check_revocations;
    eventlog_verified = none;
    rtmr3_replay_match = none;
    tcb_status = none;
  }

  -- VerifyReportContext
  unfoldable pub verify_report :
      Bytes → Bytes → SnpParams → PlatformType → ℕ → SnpOptions → Result SnpError VerificationResult
  unfolding endorsement chain_of roots_for validate_options
  verify_report report_bytes supplied params platform min_version opts = do
    r ← map_err bad_report (sev.report_to_proto report_bytes)
    refuse_if (ltb r.version min_version || ltb max_report_version r.version)
        (bad_version r.version)
    key ← map_err bad_signer (sev.parse_signer_info r.signer_info)
    vcek ← endorsement r key supplied opts.getter
    chain ← chain_of key vcek
    roots ← roots_for key r vcek
    map_err not_verified (sev.snp_attestation r chain (chain_options r opts roots))
    v_opts ← validate_options params
    map_err not_valid (sev.validate_attestation r chain v_opts)
    ok (result_of r params platform opts)

  -- VerifyEvidenceContext; the texts of the evidence are those of attestation_report and cert_chain.vcek.
  unfoldable pub verify_snp_evidence :
      (Bytes → Result Bytes Bytes)
      → Bytes
      → Option Bytes
      → SnpParams
      → SnpOptions
      → Result SnpError VerificationResult
  unfolding verify_report
  verify_snp_evidence decode_base64 report_text inline params opts = do
    refuse_if (not (has_text inline) && not (has_getter opts.getter)) no_vcek
    report_bytes ← map_err bad_base64 (decode_base64 report_text)
    vcek ← vcek_bytes decode_base64 inline
    verify_report report_bytes vcek params platform_snp min_report_version opts
