-- ===== src/Armtls/Evidence.antt =====
-- armtls/evidence.go and ExtractSNPReport of snpreport.go: the payload for evidence from a service.
use attestation_go.Base.{
  Option, none, some, [], ◌∷◌, Bytes, if◌then◌else◌, Result, ok, err, ◌>>=◌, ◌>>◌, refuse_if,
  map_err, Stdlib,
}
use attestation_go.Teetypes.Platform.{
  PlatformType, Family, family_unknown, family_snp, is_family, family, is_snp, normalize_platform,
  has_vtpm_quote, platform_snp,
}
use attestation_go.Remote.Policies.{AttestationEvidence}
use attestation_go.Armtls.Extension.{
  ArmtlsError, unsupported_platform, bad_evidence, bad_base64, bad_envelope, no_report, raw_tdx,
  Attestation, ExtensionCodec, normalize_sevsnp_report, new_attestation,
}

-- snpEvidenceFields; the chain is that of SnpEvidence, by its VCEK.
pub record SnpFields : Type 0 where
  pub attestation_report : Bytes
  pub hcl_report : Bytes
  pub vcek : Option Bytes

-- encoding/json and encoding/base64, as the package uses them.
pub record EvidenceCodec : Type 0 where
  pub read_snp_fields : Bytes → Result Bytes SnpFields
  pub read_quote : Bytes → Result Bytes Bytes
  pub write_quote : Bytes → Result Bytes Bytes
  pub write_snp_evidence : Bytes → Option Bytes → Result Bytes Bytes
  pub write_envelope : AttestationEvidence → Result Bytes Bytes
  pub decode_base64 : Bytes → Result Bytes Bytes
  pub decode_base64_url : Bytes → Result Bytes Bytes
  pub encode_base64 : Bytes → Bytes

module _ (codec : EvidenceCodec) where
  report_in : Bytes → Bytes → Result ArmtlsError Bytes
  report_in (c ∷ s) hcl = map_err bad_base64 (codec.decode_base64 (c ∷ s))
  report_in [] (c ∷ s) =
      map_err bad_base64 (codec.decode_base64_url (c ∷ s)) >>= λ hcl. normalize_sevsnp_report hcl
  report_in [] [] = err no_report

  -- ExtractSNPReport
  unfoldable pub extract_snp_report : AttestationEvidence → Result ArmtlsError Bytes
  unfolding report_in
  extract_snp_report env = do
    fields ← map_err bad_evidence (codec.read_snp_fields env.evidence)
    report_in fields.attestation_report fields.hcl_report

  unfoldable pub strip_tdx_eventlog : Bytes → Result ArmtlsError Bytes
  strip_tdx_eventlog raw = do
    quote ← map_err bad_evidence (codec.read_quote raw)
    map_err bad_evidence (codec.write_quote quote)

  abbrev chain_in : Option Bytes → Result ArmtlsError Bytes
  chain_in none = ok []
  chain_in (some []) = ok []
  chain_in (some (c ∷ s)) = map_err bad_base64 (codec.decode_base64 (c ∷ s))

  abbrev inline_chain : Bytes → Option Bytes
  inline_chain [] = none
  inline_chain (c ∷ s) = some (codec.encode_base64 (c ∷ s))

  wrap_snp : Attestation → Result ArmtlsError AttestationEvidence
  wrap_snp a = do
    raw ←
        map_err bad_evidence
          (codec.write_snp_evidence (codec.encode_base64 a.report) (inline_chain a.cert_chain))
    ok (record { evidence_platform = platform_snp; evidence = raw })

  abbrev enveloped :
      Option AttestationEvidence → Family → Attestation → Result ArmtlsError AttestationEvidence
  enveloped (some e) fam a = ok e
  enveloped none family_snp a = wrap_snp a
  enveloped none _ a = err raw_tdx

  -- Attestation.Envelope
  unfoldable pub envelope : Attestation → Result ArmtlsError AttestationEvidence
  unfolding wrap_snp
  envelope a = enveloped a.embedded a.of_family a

  module _ ⦃lib : Stdlib⦄ where
    -- The payload and the envelope that it encodes.
    kept : AttestationEvidence → Result ArmtlsError (Bytes × Option AttestationEvidence)
    kept env = do payload ← map_err bad_envelope (codec.write_envelope env); ok (payload, some env)

    abbrev native :
        Family
        → AttestationEvidence
        → PlatformType
        → Result ArmtlsError (Bytes × Option AttestationEvidence)
    native family_snp env platform = extract_snp_report env >>= λ report. ok (report, none)
    native _ env platform = strip_tdx_eventlog env.evidence >>= λ stripped.
        kept (record { evidence_platform = platform; evidence = stripped })

    -- evidenceForExtension
    unfoldable pub evidence_for_extension :
        AttestationEvidence → Result ArmtlsError (Bytes × Option AttestationEvidence)
    unfolding kept
    evidence_for_extension env = do
      let platform = normalize_platform env.evidence_platform
      refuse_if (is_family (family platform) family_unknown)
          (unsupported_platform env.evidence_platform)
      (if has_vtpm_quote platform
          then kept (record { evidence_platform = platform; evidence = env.evidence })
          else native (family platform) env platform)

    abbrev collateral : Option AttestationEvidence → AttestationEvidence → Result ArmtlsError Bytes
    collateral (some e) env = ok []
    collateral none env =
        if is_snp env.evidence_platform
        then (map_err bad_evidence (codec.read_snp_fields env.evidence) >>= λ fields.
            chain_in fields.vcek)
        else ok []

    -- NewAttestation
    unfoldable pub attestation_of :
        ExtensionCodec → AttestationEvidence → Result ArmtlsError Attestation
    unfolding evidence_for_extension
    attestation_of extension env = do
      payload ← evidence_for_extension env
      chain ← collateral payload.1 env
      new_attestation extension (family env.evidence_platform) payload.0 chain payload.1
