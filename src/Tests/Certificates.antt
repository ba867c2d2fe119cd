-- ===== src/Tests/Certificates.antt =====
-- An extension with TDX evidence, its verification, and an HCL report.
use attestation_go.Base.{
  zero, suc, ◌+◌, ◌≤◌, ◌<◌, ◌≡◌, ◌⊎◌, refl, ℤ, pos, negsuc, int_eq, true, false, Option, none, some,
  List, [], ◌∷◌, ◌++◌, Bytes, codes, bytes_eq, length, take, drop, take-append, drop-append,
  replicate, slice, little_endian, Result, ok, err, ℕ,
}
use attestation_go.Teetypes.Text.{trim_space, fold_text}
use attestation_go.Teetypes.Platform.{
  family, family_snp, family_tdx, family_unknown, is_family, normalize_platform, has_registers,
}
use attestation_go.Teetypes.Digest.{all_lower_hex, hex_encode, parse_digest}
use attestation_go.Teetypes.Claims.{launch_measurement}
use attestation_go.Teetypes.Verdict.{VerificationResult, check}
use attestation_go.Tpm.Quote.{RawTpmQuote}
use attestation_go.Tpm.Hcl.{HclReport, parse_hcl_report, strip_trailing_nulls}
use attestation_go.Tpm.Hcl.Layout.{IsPaddedBy, EndsNonzero, parse_hcl_report_sound}
use attestation_go.Runtimemeasure.Canonical.{canonical_digest}
use attestation_go.Runtimemeasure.Binding.{first_uncanonical}
use attestation_go.Remote.Checks.{
  check_verified_platform, enforce_launch_measurement, launch_digest_of, enforce_rtmrs,
  enforce_verdict, enforce_expected_measurements, nonempty, pinned_from,
}
use attestation_go.Remote.Policies.{
  AttestationEvidence, enforce_pcrs, enforce_pins_with_runtime_log,
}
use attestation_go.Remote.Client.{
  FullPolicy, VerifyRequest, request_of, verify_evidence_with_runtime_log,
}
use attestation_go.Remote.Client.Verified.{HoldsImages, verify_evidence_sound}
use attestation_go.Armtls.Extension.{
  Attestation, AttestationAsn1, Extension, ExtensionCodec, wire_tee_type, family_from_wire,
  check_runtime_extensions, parse_embedded_evidence, new_attestation, marshal_extension,
  unmarshal_extension,
}
use attestation_go.Armtls.Extension.Parsed.{
  AreExtensions, HoldsEvidence, unmarshal_extension_bounds,
}
use attestation_go.Armtls.Extension.RoundTrip.{ReadBack, ReadsOwn, unmarshal-marshal_extension}
use attestation_go.Armtls.Evidence.{EvidenceCodec, envelope}
use attestation_go.Armtls.Keys.{Curve, CertKey, ed25519, report_data_for_key}
use attestation_go.Armtls.Verify.{binding_anchor, verify_offline, verify_with_service}
use attestation_go.Armtls.Verify.Bound.{
  IsAnchor, IsClaimed, verify_offline_sound, verify_with_service_sound,
}
use attestation_go.Teetypes.Claims.{check_rtmrs, rtmr, lookup}
use attestation_go.Runtimemeasure.Fold.{extend, event, seed, from_digests_seeded}
use attestation_go.Runtimemeasure.LaunchFile.{check_launch_file_digest, count_zeros}
use attestation_go.Runtimemeasure.Binding.{
  match_launch_file_digest_prefix, binding, binding_from_digest, check_binding_platform, match_from,
}
use attestation_go.Remote.Images.{
  ImagePin, check_launch_binding_pins, enforce_images_with_runtime_log,
}
use attestation_go.Remote.Checks.{enforce_rtmrs_against}
use attestation_go.Tests.{toy, digest_a}
use attestation_go.Tests.Bindings.{tdx_result, anchor, image}

-- A value with no chain, and with one runtime extension at most.
abbrev encode : ℤ → Bytes → Bytes → List Bytes → Result Bytes Bytes
encode (pos n) report [] [] = ok (0 ∷ n ∷ report)
encode (pos n) report [] (d ∷ []) = ok (1 ∷ n ∷ length d ∷ (d ++ report))
encode _ report _ _ = err []

abbrev decode : Bytes → Result Bytes (AttestationAsn1 × Bytes)
decode (zero ∷ n ∷ report) =
    ok (record { tee_type = pos n; raw_report = report; raw_chain = []; raw_extensions = [] }, [])
decode (suc t ∷ n ∷ k ∷ s) = ok (
  record {
    tee_type = pos n;
    raw_report = drop k s;
    raw_chain = [];
    raw_extensions = take k s ∷ [];
  },
  [],
)
decode _ = err []

abbrev toy_codec : ExtensionCodec
toy_codec = record {
  asn1_marshal = λ raw. encode raw.tee_type raw.raw_report raw.raw_chain raw.raw_extensions;
  asn1_unmarshal = decode;
  read_envelope = λ s. ok (record { evidence_platform = codes "TDX"; evidence = s });
}

decode-encode :
    (t : ℤ) (report chain : Bytes) (list : List Bytes) (der : Bytes)
    → encode t report chain list ≡ ok der
    → decode der
      ≡ ok (
        record { tee_type = t; raw_report = report; raw_chain = chain; raw_extensions = list },
        [],
      )
decode-encode (pos n) report [] [] der h = let e : 0 ∷ n ∷ report ≡ der = cc in rw (← e) refl
decode-encode (pos n) report [] (d ∷ []) der h =
    let e : 1 ∷ n ∷ length d ∷ (d ++ report) ≡ der = cc in
    rw (← e, take-append d report, drop-append d report) refl
decode-encode (pos n) report [] (d ∷ d' ∷ list) der h = cc
decode-encode (pos n) report (b ∷ chain) list der h = cc
decode-encode (negsuc n) report chain list der h = cc

reads_own : ReadsOwn ⦃lib = toy⦄ toy_codec
reads_own raw der h =
    decode-encode raw.tee_type raw.raw_report raw.raw_chain raw.raw_extensions der h

abbrev payload : Bytes
payload = codes "{}"

abbrev carried_envelope : AttestationEvidence
carried_envelope = record { evidence_platform = codes "tdx"; evidence = payload }

abbrev carried : Attestation
carried = record {
  of_family = family_tdx;
  report = payload;
  cert_chain = [];
  runtime_extensions = [];
  embedded = some carried_envelope;
}

built : new_attestation ⦃lib = toy⦄ toy_codec family_tdx payload [] none ≡ ok carried
unfolding new_attestation wire_tee_type parse_embedded_evidence trim_space normalize_platform family
    is_family bytes_eq
built = refl

abbrev measured : Attestation
measured = record carried { runtime_extensions = digest_a ∷ [] }

abbrev packed : Extension
packed = record { id = 1 ∷ 2 ∷ []; critical = false; value = 1 ∷ 2 ∷ 71 ∷ (digest_a ++ payload) }

packs : marshal_extension ⦃lib = toy⦄ toy_codec measured (1 ∷ 2 ∷ []) ≡ ok packed
unfolding marshal_extension wire_tee_type check_runtime_extensions first_uncanonical
    canonical_digest all_lower_hex bytes_eq is_family
packs = refl

unmarshal-marshal_extension_example :
    (packed.id ≡ 1 ∷ 2 ∷ [])
    × (packed.critical ≡ false)
    × (out : List Bytes) × ReadBack family_tdx (digest_a ∷ []) out
    × (unmarshal_extension ⦃lib = toy⦄ toy_codec packed.value
        ≡ ok (record carried { runtime_extensions = out }))
unmarshal-marshal_extension_example =
    unmarshal-marshal_extension ⦃lib = toy⦄ toy_codec family_tdx payload [] (digest_a ∷ [])
      (1 ∷ 2 ∷ []) carried reads_own built refl packs

unpacks : unmarshal_extension ⦃lib = toy⦄ toy_codec packed.value ≡ ok measured
unfolding unmarshal_extension family_from_wire new_attestation wire_tee_type parse_embedded_evidence
    trim_space normalize_platform family is_family bytes_eq check_runtime_extensions
    first_uncanonical canonical_digest all_lower_hex int_eq
unpacks = refl

unmarshal_extension_bounds_example :
    ((family_tdx ≡ family_snp) ⊎ (family_tdx ≡ family_tdx))
    × HoldsEvidence ⦃lib = toy⦄ family_tdx payload (some carried_envelope)
    × AreExtensions family_tdx (digest_a ∷ [])
unmarshal_extension_bounds_example =
    unmarshal_extension_bounds ⦃lib = toy⦄ toy_codec packed.value unpacks

abbrev toy_evidence : EvidenceCodec
toy_evidence = record {
  read_snp_fields = λ s. ok (record { attestation_report = s; hcl_report = []; vcek = none });
  read_quote = λ s. ok s;
  write_quote = λ s. ok s;
  write_snp_evidence = λ r c. ok r;
  write_envelope = λ e. ok e.evidence;
  decode_base64 = λ s. ok s;
  decode_base64_url = λ s. ok s;
  encode_base64 = λ s. s;
}

abbrev bound_result : VerificationResult
bound_result = record tdx_result { report_data_match = some true }

abbrev pkix : Curve → Bytes → Result Bytes Bytes
pkix curve point = ok point

abbrev key : CertKey
key = ed25519 (codes "key")

offline :
    verify_offline ⦃lib = toy⦄ toy_codec toy_evidence pkix
      (λ env anchor. ok (some bound_result))
      measured
      key
      (codes "nonce")
      []
    ≡ ok bound_result
unfolding verify_offline envelope binding_anchor report_data_for_key check
offline = refl

verify_offline_sound_example :
    (env : AttestationEvidence) × (anchor : Bytes) × (envelope toy_evidence measured ≡ ok env)
    × (◌≡◌ {A = Result Bytes (Option VerificationResult)}
        (ok (some bound_result))
        (ok (some bound_result)))
    × IsAnchor ⦃lib = toy⦄ toy_codec toy_evidence pkix key (codes "nonce") [] anchor
    × (true ≡ true)
    × (bound_result.report_data_match ≡ some true)
verify_offline_sound_example =
    verify_offline_sound ⦃lib = toy⦄ toy_codec toy_evidence pkix
      (λ env anchor. ok (some bound_result)) measured key (codes "nonce") [] offline

-- An image that pins a launch file digest and a register, and accepts every entry.
abbrev digest_image : ImagePin
digest_image = record image { anchor = none; launch_file_digest = some (toy.sha384 anchor) }

abbrev image_policy : FullPolicy
image_policy = record {
  pins = record {
    images = digest_image ∷ [];
    measurements = [];
    policy_registers = [];
    policy_pcrs = [];
  };
  expected_report_data = [];
  allow_debug = false;
  min_tcb = none;
  expected_init_data_hash = [];
}

abbrev answer : VerifyRequest → Result Bytes VerificationResult
answer req = ok bound_result

abbrev no_quote : Bytes → Result Bytes (Option RawTpmQuote)
no_quote text = ok none

served :
    verify_evidence_with_runtime_log ⦃lib = toy⦄ answer no_quote carried_envelope image_policy
      (digest_a ∷ [])
    ≡ ok bound_result
unfolding verify_evidence_with_runtime_log family is_family enforce_verdict
    enforce_expected_measurements nonempty pinned_from enforce_rtmrs check bytes_eq
    enforce_pins_with_runtime_log check_verified_platform normalize_platform trim_space enforce_pcrs
    enforce_launch_measurement launch_digest_of launch_measurement fold_text parse_digest hex_encode
    has_registers first_uncanonical canonical_digest all_lower_hex enforce_images_with_runtime_log
    check_launch_binding_pins check_rtmrs rtmr lookup extend event seed
    match_launch_file_digest_prefix binding binding_from_digest check_binding_platform count_zeros
    check_launch_file_digest from_digests_seeded match_from enforce_rtmrs_against
served = refl

verify_evidence_sound_example :
    (answer (request_of carried_envelope image_policy) ≡ ok bound_result)
    × (is_family (family ⦃lib = toy⦄ (codes "tdx")) family_unknown ≡ false)
    × ((image_policy.min_tcb ≡ none) ⊎ (family ⦃lib = toy⦄ (codes "tdx") ≡ family_snp))
    × (true ≡ true)
    × ((image_policy.expected_report_data ≡ []) ⊎ (bound_result.report_data_match ≡ some true))
    × ((image_policy.expected_init_data_hash ≡ []) ⊎ (bound_result.init_data_match ≡ some true))
    × (enforce_pins_with_runtime_log ⦃lib = toy⦄ no_quote bound_result image_policy.pins
          carried_envelope
          (digest_a ∷ [])
        ≡ ok tt)
    × HoldsImages ⦃lib = toy⦄ bound_result carried_envelope (digest_a ∷ []) (digest_image ∷ [])
verify_evidence_sound_example =
    verify_evidence_sound ⦃lib = toy⦄ answer no_quote carried_envelope image_policy (digest_a ∷ [])
      served

answered :
    verify_with_service ⦃lib = toy⦄ toy_codec toy_evidence pkix answer no_quote measured key
      (codes "nonce")
      image_policy
    ≡ ok bound_result
unfolding verify_with_service envelope binding_anchor report_data_for_key check_runtime_extensions
    first_uncanonical canonical_digest all_lower_hex verify_evidence_with_runtime_log family
    is_family enforce_verdict enforce_expected_measurements nonempty pinned_from enforce_rtmrs check
    bytes_eq enforce_pins_with_runtime_log check_verified_platform normalize_platform trim_space
    enforce_pcrs enforce_launch_measurement launch_digest_of launch_measurement fold_text
    parse_digest hex_encode has_registers enforce_images_with_runtime_log check_launch_binding_pins
    check_rtmrs rtmr lookup extend event seed match_launch_file_digest_prefix binding
    binding_from_digest check_binding_platform count_zeros check_launch_file_digest
    from_digests_seeded match_from enforce_rtmrs_against
answered = refl

verify_with_service_sound_example :
    (env : AttestationEvidence) × (anchor : Bytes) × (claimed : List Bytes) × (envelope toy_evidence
        measured
      ≡ ok env)
    × (answer (request_of env (record image_policy { expected_report_data = anchor }))
        ≡ ok bound_result)
    × IsAnchor ⦃lib = toy⦄ toy_codec toy_evidence pkix key (codes "nonce") [] anchor
    × (bound_result.signature_valid ≡ true)
    × (bound_result.report_data_match ≡ some true)
    × HoldsImages ⦃lib = toy⦄ bound_result env claimed (digest_image ∷ [])
    × AreExtensions family_tdx claimed
    × IsClaimed family_tdx (digest_a ∷ []) claimed
verify_with_service_sound_example =
    verify_with_service_sound ⦃lib = toy⦄ toy_codec toy_evidence pkix answer no_quote measured key
      (codes "nonce") image_policy answered

-- An HCL report of type 4 with two bytes of runtime data and two trailing nulls.
abbrev hcl : Bytes
hcl =
    codes "HCLA"
    ++ replicate 28 0
    ++ replicate 1184 1
    ++ (replicate 8 0 ++ (4 ∷ 0 ∷ 0 ∷ 0 ∷ replicate 4 0) ++ (4 ∷ 0 ∷ 0 ∷ 0 ∷ []))
    ++ (7 ∷ 8 ∷ 0 ∷ 0 ∷ [])

abbrev hardware : Bytes
hardware = replicate 1184 1

abbrev runtime_data : Bytes
runtime_data = 7 ∷ 8 ∷ []

abbrev hcl_report : HclReport
hcl_report = record { tee_report = hardware; report_type = 4; var_data = runtime_data }

parses_hcl : parse_hcl_report hcl ≡ ok hcl_report
unfolding parse_hcl_report bytes_eq strip_trailing_nulls
parses_hcl = refl

parse_hcl_report_sound_example :
    (take 4 hcl ≡ codes "HCLA")
    × (hardware ≡ slice hcl 32 1184)
    × (length hardware ≡ 1184)
    × (4 ≡ little_endian (slice (slice hcl 1216 20) 8 4))
    × ((n : ℕ) × IsPaddedBy runtime_data n
          (slice hcl 1236 (little_endian (slice (slice hcl 1216 20) 16 4))))
    × EndsNonzero runtime_data
    × (0 < length runtime_data)
    × (1236 + little_endian (slice (slice hcl 1216 20) 16 4) ≤ length hcl)
parse_hcl_report_sound_example = parse_hcl_report_sound hcl parses_hcl
