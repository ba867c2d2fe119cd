-- ===== src/Armtls/Extension/Parsed.antt =====
-- What an extension that parses carries.
use attestation_go.Base.{
  ℕ, ◌≤◌, ◌≡◌, ◌⊎◌, inl, inr, refl, arith, ℤ, pos, int_eq, false, not, ◌&&◌, Option, none, some,
  List, [], ◌∷◌, Bytes, length, All, ltb, ◌==◌, ok, map_err, bind-eq-ok, map_err-eq-ok,
  refuse_if-eq-ok, Bool-cases, Stdlib,
}
use attestation_go.Teetypes.Platform.{
  Family, family_unknown, family_snp, family_tdx, is_family, family,
}
use attestation_go.Runtimemeasure.Canonical.Shape.{IsCanonical}
use attestation_go.Runtimemeasure.Binding.{first_uncanonical}
use attestation_go.Runtimemeasure.Binding.Search.{first_uncanonical_sound}
use attestation_go.Runtimemeasure.Identity.Observed.{is_family-eq}
use attestation_go.Tpm.Hcl.{parse_hcl_report}
use attestation_go.Tpm.Hcl.Layout.{parse_hcl_report_sound}
use attestation_go.Remote.Policies.{AttestationEvidence}
use attestation_go.Armtls.Extension.{
  bad_asn1, trailing_bytes, not_tdx, too_many, other_family, not_snp_report, wrong_report_type,
  Attestation, ExtensionCodec, max_runtime_extensions, refuse_at, wire_tee_type, family_from_wire,
  check_runtime_extensions, normalize_sevsnp_report, probe, shaped, new_attestation,
  unmarshal_extension,
}

declared :
    (v : ℤ) {fam : Family} → family_from_wire v ≡ ok fam → (fam ≡ family_snp) ⊎ (fam ≡ family_tdx)
unfolding family_from_wire
declared v {fam} h = elim (Bool-cases (int_eq v (pos 1))) [
  | inl snp ↦ let e : ok family_snp ≡ ok fam = rw snp at h in inl (cc e)
  | inr other ↦ elim (Bool-cases (int_eq v (pos 2))) [
    | inl tdx ↦ let e : ok family_tdx ≡ ok fam = rw (other, tdx) at h in inr (cc e)
    | inr neither ↦ cc (rw (other, neither) at h)
  ]
]

refuse_at-eq-ok : (o : Option (ℕ × Bytes)) → refuse_at o ≡ ok tt → o ≡ none
refuse_at-eq-ok none h = refl
refuse_at-eq-ok (some (i, d)) h = cc

-- A list of runtime extensions that passes: 256 canonical digests at most, and none off TDX.
abbrev pub AreExtensions : Family → List Bytes → Type 0
AreExtensions fam list =
    (length list ≤ 256) × All IsCanonical list × ((fam ≡ family_tdx) ⊎ (list ≡ []))

empty_or : (list : List Bytes) → ltb 0 (length list) ≡ false → list ≡ []
empty_or [] h = refl
empty_or (d ∷ list) h = absurd (ground arith)

pub check_runtime_extensions_sound :
    (fam : Family) (list : List Bytes)
    → check_runtime_extensions fam list ≡ ok tt
    → AreExtensions fam list
unfolding check_runtime_extensions
check_runtime_extensions_sound fam list h =
    let (on_tdx, h1) =
      refuse_if-eq-ok (ltb 0 (length list) && not (is_family fam family_tdx))
        (not_tdx (length list)) h in
    let (few, h2) =
      refuse_if-eq-ok (ltb max_runtime_extensions (length list)) (too_many (length list)) h1 in
    (
      ground arith,
      first_uncanonical_sound 0 list (refuse_at-eq-ok (first_uncanonical 0 list) h2),
      elim (Bool-cases (is_family fam family_tdx)) [
        | inl tdx ↦ inl ((is_family-eq fam family_tdx).0 tdx)
        | inr other ↦ inr (empty_or list (ground arith))
      ],
    )

normalize_sevsnp_report_width :
    (raw : Bytes) {r : Bytes} → normalize_sevsnp_report raw ≡ ok r → length r ≡ 1184
unfolding normalize_sevsnp_report
normalize_sevsnp_report_width raw {r} h = elim (Bool-cases (length raw == 1184)) [
  | inl exact ↦
      let e : ok raw ≡ ok r = rw exact at h in
      let same : raw ≡ r = cc (e) in rw (← same) (ground arith)
  | inr wrapped ↦
      let (hcl, parsed, h1) =
        bind-eq-ok (map_err not_snp_report (parse_hcl_report raw)) _ (rw wrapped at h) in
      let (_, h2) =
        refuse_if-eq-ok (not (hcl.report_type == 2)) (wrong_report_type hcl.report_type) h1 in
      let same : hcl.tee_report ≡ r = cc in
      rw (← same) (parse_hcl_report_sound raw (map_err-eq-ok not_snp_report _ parsed)).2
]

module _ ⦃lib : Stdlib⦄ where
  -- The evidence of an attestation: an envelope of its family, or a whole SEV-SNP report.
  abbrev pub HoldsEvidence : Family → Bytes → Option AttestationEvidence → Type 0
  HoldsEvidence fam report none = (fam ≡ family_snp) × (length report ≡ 1184)
  HoldsEvidence fam report (some e) = family e.evidence_platform ≡ fam

  module _ (codec : ExtensionCodec) where
    shaped_sound :
        (fam : Family) (report chain : Bytes) (o : Option AttestationEvidence) {a : Attestation}
        → shaped codec fam report chain o ≡ ok a
        → (a.of_family ≡ fam)
          × (a.cert_chain ≡ chain)
          × (a.runtime_extensions ≡ [])
          × (a.embedded ≡ o)
          × HoldsEvidence a.of_family a.report a.embedded
    unfolding shaped
    shaped_sound fam report chain (some e) {a} h =
        let (same, h1) =
          refuse_if-eq-ok (not (is_family (family e.evidence_platform) fam))
            (other_family fam e.evidence_platform) h in
        let p : record {
          of_family = fam;
          report = report;
          cert_chain = chain;
          runtime_extensions = [];
          embedded = some e;
        }
            ≡ a =
          cc in
        rw (← p)
          (refl, refl, refl, refl, (is_family-eq (family e.evidence_platform) fam).0 (ground arith))
    shaped_sound family_snp report chain none {a} h =
        let (normal, normalized, h1) = bind-eq-ok (normalize_sevsnp_report report) _ h in
        let p : record {
          of_family = family_snp;
          report = normal;
          cert_chain = chain;
          runtime_extensions = [];
          embedded = none;
        }
            ≡ a =
          cc in
        rw (← p) (refl, refl, refl, refl, (refl, normalize_sevsnp_report_width report normalized))
    shaped_sound family_tdx report chain none h = cc
    shaped_sound family_unknown report chain none h = cc

    pub new_attestation_sound :
        (fam : Family) (report chain : Bytes) (o : Option AttestationEvidence) {a : Attestation}
        → new_attestation codec fam report chain o ≡ ok a
        → (a.of_family ≡ fam)
          × (a.cert_chain ≡ chain)
          × (a.runtime_extensions ≡ [])
          × HoldsEvidence a.of_family a.report a.embedded
    unfolding new_attestation
    new_attestation_sound fam report chain o h =
        let (_, _, h1) = bind-eq-ok (wire_tee_type fam) _ h in
        let (found, _, h2) = bind-eq-ok (probe codec o report) _ h1 in
        let (same, kept, none_yet, _, held) = shaped_sound fam report chain found h2 in
        (same, kept, none_yet, held)

    -- An extension that parses declares SEV-SNP or TDX, carries an envelope of that family or a whole
    -- SEV-SNP report of 1184 bytes, and lists 256 runtime extensions at most, each a canonical digest, and
    -- none unless it declares TDX.
    pub unmarshal_extension_bounds :
        (der : Bytes) {a : Attestation}
        → unmarshal_extension codec der ≡ ok a
        → ((a.of_family ≡ family_snp) ⊎ (a.of_family ≡ family_tdx))
          × HoldsEvidence a.of_family a.report a.embedded
          × AreExtensions a.of_family a.runtime_extensions
    unfolding unmarshal_extension
    unmarshal_extension_bounds der {a} h =
        let (parsed, _, h1) = bind-eq-ok (map_err bad_asn1 (codec.asn1_unmarshal der)) _ h in
        let raw = parsed.0 in
        let (_, h2) =
          refuse_if-eq-ok (ltb 0 (length parsed.1)) (trailing_bytes (length parsed.1)) h1 in
        let (fam, wired, h3) = bind-eq-ok (family_from_wire raw.tee_type) _ h2 in
        let (_, listed, h4) = bind-eq-ok (check_runtime_extensions fam raw.raw_extensions) _ h3 in
        let (att, built, h5) =
          bind-eq-ok (new_attestation codec fam raw.raw_report raw.raw_chain none) _ h4 in
        let (same, _, _, held) =
          new_attestation_sound fam raw.raw_report raw.raw_chain none built in
        let e : record att { runtime_extensions = raw.raw_extensions } ≡ a = cc in
        let extensions = check_runtime_extensions_sound fam raw.raw_extensions listed in
        rw (← e) (rw same (declared raw.tee_type wired), held, rw same extensions)
