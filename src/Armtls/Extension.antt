-- ===== src/Armtls/Extension.antt =====
-- armtls/extension.go and snpreport.go: the certificate extension that carries the evidence.
pub mod Parsed
pub mod RoundTrip
use attestation_go.Base.{
  ℕ, ◌+◌, ◌*◌, ℤ, pos, negsuc, int_eq, Bool, true, false, not, ◌&&◌, ◌||◌, Option, none, some, List,
  [], ◌∷◌, Bytes, length, ltb, slice, ◌==◌, if◌then◌else◌, Result, ok, err, ◌>>=◌, ◌>>◌, refuse_if,
  map_err, Stdlib,
}
use attestation_go.Teetypes.Text.{trim_space}
use attestation_go.Teetypes.Platform.{
  PlatformType, Family, family_unknown, family_snp, family_tdx, is_family, family, platform_snp,
  normalize_platform,
}
use attestation_go.Runtimemeasure.Binding.{first_uncanonical}
use attestation_go.Tpm.Hcl.{HclError, HclReport, parse_hcl_report}
use attestation_go.Remote.Policies.{AttestationEvidence}

pub data ArmtlsError : Type 0 where
  unsupported_family : Family → ArmtlsError
  unsupported_wire : ℤ → ArmtlsError
  unsupported_platform : PlatformType → ArmtlsError
  no_oid no_attestation raw_tdx incomplete_envelope no_report : ArmtlsError
  bad_asn1 bad_envelope bad_evidence bad_base64 bad_key : Bytes → ArmtlsError
  trailing_bytes not_tdx too_many : ℕ → ArmtlsError
  not_canonical : ℕ → Bytes → ArmtlsError
  other_family : Family → PlatformType → ArmtlsError
  not_snp_report : HclError → ArmtlsError
  wrong_report_type : ℕ → ArmtlsError
  unsupported_key other_report_data : ArmtlsError

abbrev pub wire_snp : ℤ
wire_snp = pos 1

abbrev pub wire_tdx : ℤ
wire_tdx = pos 2

unfoldable pub wire_tee_type : Family → Result ArmtlsError ℤ
wire_tee_type family_snp = ok wire_snp
wire_tee_type family_tdx = ok wire_tdx
wire_tee_type family_unknown = err (unsupported_family family_unknown)

unfoldable pub family_from_wire : ℤ → Result ArmtlsError Family
family_from_wire v =
    if int_eq v wire_snp
    then ok family_snp
    else if int_eq v wire_tdx
    then ok family_tdx
    else err (unsupported_wire v)

-- Attestation
pub record Attestation : Type 0 where
  pub of_family : Family
  pub report : Bytes
  pub cert_chain : Bytes
  pub runtime_extensions : List Bytes
  pub embedded : Option AttestationEvidence

-- attestationASN1
pub record AttestationAsn1 : Type 0 where
  pub tee_type : ℤ
  pub raw_report : Bytes
  pub raw_chain : Bytes
  pub raw_extensions : List Bytes

-- pkix.Extension
pub record Extension : Type 0 where
  pub id : List ℕ
  pub critical : Bool
  pub value : Bytes

-- asn1.Marshal, asn1.Unmarshal with the bytes that it leaves, and json.Unmarshal into an envelope.
pub record ExtensionCodec : Type 0 where
  pub asn1_marshal : AttestationAsn1 → Result Bytes Bytes
  pub asn1_unmarshal : Bytes → Result Bytes (AttestationAsn1 × Bytes)
  pub read_envelope : Bytes → Result Bytes AttestationEvidence

abbrev pub max_runtime_extensions : ℕ
max_runtime_extensions = 256

abbrev pub snp_report_size : ℕ
snp_report_size = 1184

abbrev pub report_data_offset : ℕ
report_data_offset = 80

abbrev pub hcl_report_type_snp : ℕ
hcl_report_type_snp = 2

abbrev refuse_at : Option (ℕ × Bytes) → Result ArmtlsError (Unit {0})
refuse_at none = ok tt
refuse_at (some (i, d)) = err (not_canonical i d)

unfoldable pub check_runtime_extensions : Family → List Bytes → Result ArmtlsError (Unit {0})
check_runtime_extensions fam list = do
  refuse_if (ltb 0 (length list) && not (is_family fam family_tdx)) (not_tdx (length list))
  refuse_if (ltb max_runtime_extensions (length list)) (too_many (length list))
  refuse_at (first_uncanonical 0 list)

-- The list that MarshalExtension encodes: none off TDX.
listed : Family → List Bytes → Result ArmtlsError (List Bytes)
listed fam list =
    if ltb 0 (length list) && is_family fam family_tdx
    then (check_runtime_extensions fam list >> ok list)
    else ok []

-- NormalizeSEVSNPReport
unfoldable pub normalize_sevsnp_report : Bytes → Result ArmtlsError Bytes
normalize_sevsnp_report raw =
    if length raw == snp_report_size
    then ok raw
    else (map_err not_snp_report (parse_hcl_report raw) >>= λ hcl.
        refuse_if (not (hcl.report_type == hcl_report_type_snp)) (wrong_report_type hcl.report_type)
        >> ok hcl.tee_report)

-- Attestation.EmbeddedEvidence
unfoldable pub embedded_evidence : Attestation → Option AttestationEvidence
embedded_evidence a = a.embedded

abbrev data_of : Option AttestationEvidence → Family → Bytes → Option Bytes
data_of none family_snp report =
    if ltb (length report) (report_data_offset + 64)
    then none
    else some (slice report report_data_offset 64)
data_of _ _ report = none

-- Attestation.ReportData
unfoldable pub report_data : Attestation → Option Bytes
report_data a = data_of a.embedded a.of_family a.report

module _ ⦃lib : Stdlib⦄ (codec : ExtensionCodec) where
  complete : AttestationEvidence → Result ArmtlsError (Option AttestationEvidence)
  complete envelope = do
    refuse_if (length envelope.evidence_platform == 0 || length envelope.evidence == 0)
        incomplete_envelope
    ok (
        some
          (record envelope { evidence_platform = normalize_platform envelope.evidence_platform }))

  envelope_in : Bytes → Result ArmtlsError (Option AttestationEvidence)
  unfolding complete
  envelope_in [] = ok none
  envelope_in (c ∷ s) =
      if c == b'{'
      then (map_err bad_envelope (codec.read_envelope (c ∷ s)) >>= λ envelope. complete envelope)
      else ok none

  -- parseEmbeddedEvidence
  unfoldable pub parse_embedded_evidence : Bytes → Result ArmtlsError (Option AttestationEvidence)
  unfolding envelope_in
  parse_embedded_evidence raw = envelope_in (trim_space raw)

  -- The envelope that the caller has, or the one that the payload is probed for.
  abbrev probe :
      Option AttestationEvidence → Bytes → Result ArmtlsError (Option AttestationEvidence)
  probe (some e) report = ok (some e)
  probe none report = parse_embedded_evidence report

  shaped : Family → Bytes → Bytes → Option AttestationEvidence → Result ArmtlsError Attestation
  shaped fam report chain (some e) = do
    refuse_if (not (is_family (family e.evidence_platform) fam))
        (other_family fam e.evidence_platform)
    ok (record {
      of_family = fam;
      report = report;
      cert_chain = chain;
      runtime_extensions = [];
      embedded = some e;
    })
  shaped family_snp report chain none = do
    normal ← normalize_sevsnp_report report
    ok (record {
      of_family = family_snp;
      report = normal;
      cert_chain = chain;
      runtime_extensions = [];
      embedded = none;
    })
  shaped _ report chain none = err raw_tdx

  -- newAttestation
  unfoldable pub new_attestation :
      Family → Bytes → Bytes → Option AttestationEvidence → Result ArmtlsError Attestation
  unfolding shaped
  new_attestation fam report chain embedded = do
    _ ← wire_tee_type fam
    found ← probe embedded report
    shaped fam report chain found

  -- Attestation.MarshalExtension
  unfoldable pub marshal_extension : Attestation → List ℕ → Result ArmtlsError Extension
  unfolding listed
  marshal_extension a oid = do
    refuse_if (length oid == 0) no_oid
    tee_type ← wire_tee_type a.of_family
    list ← listed a.of_family a.runtime_extensions
    value ← map_err bad_asn1 (
        codec.asn1_marshal (record {
          tee_type = tee_type;
          raw_report = a.report;
          raw_chain = a.cert_chain;
          raw_extensions = list;
        }))
    ok (record { id = oid; critical = false; value = value })

  -- UnmarshalExtension
  unfoldable pub unmarshal_extension : Bytes → Result ArmtlsError Attestation
  unfolding new_attestation
  unmarshal_extension der = do
    parsed ← map_err bad_asn1 (codec.asn1_unmarshal der)
    let raw = parsed.0
    refuse_if (ltb 0 (length parsed.1)) (trailing_bytes (length parsed.1))
    fam ← family_from_wire raw.tee_type
    check_runtime_extensions fam raw.raw_extensions
    att ← new_attestation fam raw.raw_report raw.raw_chain none
    ok (record att { runtime_extensions = raw.raw_extensions })
