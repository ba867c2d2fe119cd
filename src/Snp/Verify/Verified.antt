-- ===== src/Snp/Verify/Verified.antt =====
-- What a report that verifies has passed.
use attestation_go.Base.{
  ℕ, ◌≤◌, ◌≡◌, Option, none, some, [], Bytes, length, ok, Bool, ◌⊎◌, true, codes,
}
use attestation_go.Teetypes.Platform.{PlatformType}
use attestation_go.Teetypes.Verdict.{VerificationResult}
use attestation_go.Teetypes.Digest.{hex_encode}
use attestation_go.Teetypes.Claims.{debug_enabled, smt_enabled}
use attestation_go.Snp.Claims.{Report, TcbParts}
use attestation_go.Snp.Validate.{SnpParams, ValidateOptions, pad, SnpTcb}
use attestation_go.Snp.Verify.{
  SigningKey, vcek_signer, vlek_signer, other_signer, CertChain, SnpOptions, SevGuest, Getter,
  ChainOptions,
}

-- The value that validation compares with: the expectation, padded with zeros to the width of the field.
abbrev pub IsPadded : ℕ → Option Bytes → Option Bytes → Type 0
IsPadded n none o = o ≡ none
IsPadded n (some d) o = (length d ≤ n) × (o ≡ some (pad d n))

abbrev pub IsDigest : Option Bytes → Option Bytes → Type 0
IsDigest none o = o ≡ none
IsDigest (some d) o = (length d ≡ 48) × (o ≡ some d)

-- The floor that validation compares with has the components of the caller's, which has no FMC.
abbrev pub IsFloor : Option SnpTcb → Option TcbParts → Type 0
IsFloor none o = o ≡ none
IsFloor (some t) o =
    (t.floor_fmc ≡ none)
    × (o
        ≡ some (record {
          bl_spl = t.floor_bootloader;
          tee_spl = t.floor_tee;
          snp_spl = t.floor_snp;
          ucode_spl = t.floor_microcode;
        }))

-- The options of validation ask for what the parameters want, and for VMPL 0.
abbrev pub IsAsked : SnpParams → ValidateOptions → Type 0
IsAsked p v =
    IsPadded 64 p.wanted_report_data v.report_data_is
    × IsPadded 32 p.wanted_init_data_hash v.host_data_is
    × IsDigest p.wanted_launch_digest v.measurement_is
    × IsFloor p.min_tcb v.minimum_tcb
    × (v.policy_maximum.debug ≡ p.debug_allowed)
    × (v.at_vmpl ≡ some 0)

-- The chain holds one certificate, under the kind of key that signed the report.
abbrev pub IsChain : SigningKey → Bytes → CertChain → Type 0
IsChain vcek_signer cert c = (c.vcek_cert ≡ cert) × (c.vlek_cert ≡ [])
IsChain vlek_signer cert c = (c.vcek_cert ≡ []) × (c.vlek_cert ≡ cert)
IsChain other_signer cert c = ⊥

-- A verdict is affirmative where a value is expected, and missing where none is.
abbrev pub IsAffirmed : Option Bytes → Option Bool → Type 0
IsAffirmed none m = m ≡ none
IsAffirmed (some d) m = m ≡ some true

-- The chain is verified offline, with the revocation checks and the getter that the caller asks for.
abbrev pub IsOffline : SnpOptions → ChainOptions → Type 0
IsOffline opts o =
    (o.disable_cert_fetching ≡ true)
    × (o.revocations_checked ≡ opts.check_revocations)
    × (o.crl_getter ≡ opts.getter)

module _ (sev : SevGuest) where
  -- The product line of a CPUID signature: that of a product that the library knows, or Genoa for Zen4c.
  abbrev pub IsLine : ℕ → Bytes → Type 0
  IsLine fms line =
      ((sev.is_known_product fms ≡ true) × (line ≡ sev.product_line_from_fms fms))
      ⊎ (((sev.family_model fms).0 ≡ 25)
          × (160 ≤ (sev.family_model fms).1)
          × ((sev.family_model fms).1 ≤ 175)
          × (line ≡ codes "Genoa"))

  -- Roots that are given to the library are its own, those of some product line.
  abbrev pub IsRooted : Option (Bytes × Bytes) → Type 0
  IsRooted none = Unit {0}
  IsRooted (some (line, root)) = (other : Bytes) × (sev.default_root_certs other ≡ some root)

  -- The certificate is the one that was supplied, or, for a report that a VCEK signed and that came with
  -- none, the answer of the getter for the URL of the report's chip and TCB.
  abbrev pub IsEndorsement : Report → SigningKey → Bytes → Option Getter → Bytes → Type 0
  IsEndorsement r key supplied getter cert =
      (cert ≡ supplied)
      ⊎ ((supplied ≡ [])
          × (key ≡ vcek_signer)
          × (get : Getter) × (getter ≡ some get)
          × (line : Bytes) × IsLine r.cpuid_fms line
          × (get (sev.vcek_cert_url line r.chip_id r.reported_tcb) ≡ ok cert))

  -- What a result says of a report under parameters.
  abbrev pub IsResultOf :
      Report → SnpParams → PlatformType → SnpOptions → VerificationResult → Type 0
  IsResultOf r params platform opts result =
      (result.signature_valid ≡ true)
      × (result.platform ≡ platform)
      × (result.collateral_verified ≡ opts.check_revocations)
      × IsAffirmed params.wanted_report_data result.report_data_match
      × IsAffirmed params.wanted_init_data_hash result.init_data_match
      × IsAffirmed params.wanted_launch_digest result.launch_digest_match
      × (result.claims.launch_digest ≡ hex_encode r.measurement)
      × (result.claims.report_data ≡ r.report_field)
      × (result.claims.init_data ≡ r.host_data)
      × (debug_enabled result.claims ≡ ok ((sev.decoder.parse_policy r.guest_policy).debug))
      × (smt_enabled result.claims ≡ ok (sev.decoder.smt_enabled_in r.platform_info))
      × (result.claims.tcb.bootloader ≡ some ((sev.decoder.decompose_tcb r.reported_tcb).bl_spl))
      × (result.claims.tcb.tee ≡ some ((sev.decoder.decompose_tcb r.reported_tcb).tee_spl))
      × (result.claims.tcb.snp ≡ some ((sev.decoder.decompose_tcb r.reported_tcb).snp_spl))
      × (result.claims.tcb.microcode ≡ some ((sev.decoder.decompose_tcb r.reported_tcb).ucode_spl))
