-- ===== src/Armtls/Verify/Bound.antt =====
-- What is bound to a key when the verification of an attestation succeeds.
use attestation_go.Base.{
  ◌≡◌, ◌⊎◌, inl, inr, refl, ap, arith, Bool, true, false, not, ◌&&◌, Option, none, some, List, [],
  ◌∷◌, ◌++◌, Bytes, bytes_eq, bytes_eq_iff, length, ltb, take, Result, ok, map_err, bind-eq-ok,
  map_err-eq-ok, refuse_if-eq-ok, Stdlib,
}
use attestation_go.Teetypes.Platform.{Family, family_tdx, family_snp, family_unknown}
use attestation_go.Teetypes.Verdict.{VerificationResult, check}
use attestation_go.Tpm.Quote.{RawTpmQuote}
use attestation_go.Remote.Checks.{not_affirmed}
use attestation_go.Remote.Policies.{AttestationEvidence}
use attestation_go.Remote.Client.{FullPolicy, VerifyRequest, request_of}
use attestation_go.Remote.Client.Verified.{HoldsImages, verify_evidence_sound}
use attestation_go.Armtls.Extension.{
  other_report_data, Attestation, ExtensionCodec, check_runtime_extensions,
}
use attestation_go.Armtls.Extension.Parsed.{AreExtensions, check_runtime_extensions_sound}
use attestation_go.Armtls.Evidence.{EvidenceCodec, envelope}
use attestation_go.Armtls.Keys.{Curve, CertKey, marshal_public_key, report_data_for_key}
use attestation_go.Armtls.Keys.Width.{report_data_for_key_width}
use attestation_go.Armtls.Verify.{
  unusable, verifier, unchecked, key_not_bound, client, present, binding_anchor, verify_offline,
  claimed_of, verify_with_service,
}

holds_of_not : (b : Bool) → not b ≡ false → b ≡ true
holds_of_not true h = refl
holds_of_not false h = cc h

supplied_or_not :
    (supplied anchor : Bytes)
    → (ltb 0 (length supplied) && not (bytes_eq supplied anchor)) ≡ false
    → (supplied ≡ []) ⊎ (supplied ≡ anchor)
supplied_or_not [] anchor h = inl refl
supplied_or_not (b ∷ s) anchor h =
    let some_bytes : ltb 0 (length (b ∷ s)) ≡ true = ground arith in
    let differs : not (bytes_eq (b ∷ s) anchor) ≡ false = rw some_bytes at h in
    inr ((bytes_eq_iff (b ∷ s) anchor).0 (holds_of_not (bytes_eq (b ∷ s) anchor) differs))

affirmed : (m : Option Bool) → not_affirmed m ≡ false → m ≡ some true
affirmed (some true) h = refl
affirmed (some false) h = cc h
affirmed none h = cc h

-- The claimed list of an attestation: its runtime extensions on TDX, none elsewhere.
abbrev pub IsClaimed : Family → List Bytes → List Bytes → Type 0
IsClaimed family_tdx list claimed = claimed ≡ list
IsClaimed family_snp list claimed = claimed ≡ []
IsClaimed family_unknown list claimed = claimed ≡ []

claimed_of_sound :
    (fam : Family) (list : List Bytes) {claimed : List Bytes}
    → claimed_of fam list ≡ ok claimed
    → AreExtensions fam claimed × IsClaimed fam list claimed
unfolding claimed_of
claimed_of_sound family_tdx list {claimed} h =
    let (_, checked, h1) = bind-eq-ok (check_runtime_extensions family_tdx list) _ h in
    let e : list ≡ claimed = cc in
    rw (← e) (check_runtime_extensions_sound family_tdx list checked, refl)
claimed_of_sound family_snp list {claimed} h =
    let e : [] ≡ claimed = cc in rw (← e) ((omega arith, tt, inr refl), refl)
claimed_of_sound family_unknown list {claimed} h =
    let e : [] ≡ claimed = cc in rw (← e) ((omega arith, tt, inr refl), refl)

never_empty :
    (anchor : Bytes) (m : Option Bool)
    → length anchor ≡ 48
    → (anchor ≡ []) ⊎ (m ≡ some true)
    → m ≡ some true
never_empty anchor m w (inl e) =
    let z : length anchor ≡ 0 = ap length e in absurd (omega (arith, w, z))
never_empty anchor m w (inr h) = h

module _ ⦃lib : Stdlib⦄ (extension : ExtensionCodec) (codec : EvidenceCodec)
    (marshal_pkix : Curve → Bytes → Result Bytes Bytes) where
  -- The anchor of a key and a nonce, and a caller's own value, which agrees with it.
  abbrev pub IsAnchor : CertKey → Bytes → Bytes → Bytes → Type 0
  IsAnchor key nonce supplied anchor =
      (k : Bytes) × (marshal_public_key marshal_pkix key ≡ ok k)
      × (anchor ≡ lib.sha384 (k ++ nonce))
      × (length anchor ≡ 48)
      × ((supplied ≡ []) ⊎ (supplied ≡ anchor))

  binding_anchor_sound :
      (key : CertKey) (nonce supplied : Bytes) {anchor : Bytes}
      → binding_anchor extension codec marshal_pkix key nonce supplied ≡ ok anchor
      → IsAnchor key nonce supplied anchor
  unfolding binding_anchor
  binding_anchor_sound key nonce supplied {anchor} h =
      let (d, derived, h1) = bind-eq-ok (report_data_for_key marshal_pkix key nonce) _ h in
      let (agrees, h2) =
        refuse_if-eq-ok (ltb 0 (length supplied) && not (bytes_eq supplied (take 48 d)))
          other_report_data h1 in
      let (k, marshalled, sum, width, _, _) =
        report_data_for_key_width marshal_pkix key nonce derived in
      let e : take 48 d ≡ anchor = cc in
      rw (← e) (k, marshalled, sum, width, supplied_or_not supplied (take 48 d) agrees)

  module _ (verify : AttestationEvidence → Bytes → Result Bytes (Option VerificationResult)) where
    checked_present :
        (o : Option VerificationResult) {x : VerificationResult}
        → check o ≡ ok tt
        → present o ≡ ok x
        → (o ≡ some x) × (x.signature_valid ≡ true)
    unfolding check
    checked_present none c h = cc
    checked_present (some y) {x} c h =
        let e : y ≡ x = cc in
        let signed : y.signature_valid ≡ true = ground arith in (ap some e, rw e at signed)

    -- A result of the offline verification is what the verifier of the evidence returned for the
    -- attestation's envelope and for the SHA-384 of the key and the nonce as the expected report data,
    -- with a valid signature and the report data affirmed: whatever the verifier does, a result that does
    -- not say that the key is bound is refused. A value that the caller gave is that of the key.
    pub verify_offline_sound :
        (att : Attestation) (key : CertKey) (nonce supplied : Bytes) {r : VerificationResult}
        → verify_offline extension codec marshal_pkix verify att key nonce supplied ≡ ok r
        → (env : AttestationEvidence) × (anchor : Bytes) × (envelope codec att ≡ ok env)
          × (verify env anchor ≡ ok (some r))
          × IsAnchor key nonce supplied anchor
          × (r.signature_valid ≡ true)
          × (r.report_data_match ≡ some true)
    unfolding verify_offline
    verify_offline_sound att key nonce supplied {r} h =
        let (env, wrapped, h1) = bind-eq-ok (map_err unusable (envelope codec att)) _ h in
        let (anchor, derived, h2) =
          bind-eq-ok
            (map_err unusable (binding_anchor extension codec marshal_pkix key nonce supplied)) _
            h1 in
        let (o, verified, h3) = bind-eq-ok (map_err verifier (verify env anchor)) _ h2 in
        let (_, checked, h4) = bind-eq-ok (map_err unchecked (check o)) _ h3 in
        let (x, there, h5) = bind-eq-ok (present o) _ h4 in
        let (bound, h6) = refuse_if-eq-ok (not_affirmed x.report_data_match) key_not_bound h5 in
        let (e, signed) = checked_present o (map_err-eq-ok unchecked (check o) checked) there in
        let returned : verify env anchor ≡ ok o = map_err-eq-ok verifier _ verified in
        let returned' : verify env anchor ≡ ok (some x) = rw e at returned in
        let xr : x ≡ r = cc (h6) in
        (
          env,
          anchor,
          map_err-eq-ok unusable (envelope codec att) wrapped,
          rw xr at returned',
          binding_anchor_sound key nonce supplied (map_err-eq-ok unusable _ derived),
          rw xr at signed,
          rw xr at (affirmed x.report_data_match bound),
        )

  module _ (post : VerifyRequest → Result Bytes VerificationResult)
      (unmarshal : Bytes → Result Bytes (Option RawTpmQuote)) where
    -- A result of the verification with a service is the service's answer to a request that expects the
    -- SHA-384 of the key and the nonce as the report data, with a valid signature and that report data
    -- affirmed; and one of the images of a policy that has any holds of it whole, with the attestation's
    -- runtime extensions as the claimed list on TDX and with none elsewhere: 256 canonical digests at most.
    pub verify_with_service_sound :
        (att : Attestation) (key : CertKey) (nonce : Bytes) (p : FullPolicy)
        {r : VerificationResult}
        → verify_with_service extension codec marshal_pkix post unmarshal att key nonce p ≡ ok r
        → (env : AttestationEvidence) × (anchor : Bytes) × (claimed : List Bytes) × (envelope codec
              att
            ≡ ok env)
          × (post (request_of env (record p { expected_report_data = anchor })) ≡ ok r)
          × IsAnchor key nonce p.expected_report_data anchor
          × (r.signature_valid ≡ true)
          × (r.report_data_match ≡ some true)
          × HoldsImages r env claimed p.pins.images
          × AreExtensions att.of_family claimed
          × IsClaimed att.of_family att.runtime_extensions claimed
    unfolding verify_with_service
    verify_with_service_sound att key nonce p {r} h =
        let (env, wrapped, h1) = bind-eq-ok (map_err unusable (envelope codec att)) _ h in
        let (anchor, derived, h2) =
          bind-eq-ok
            (map_err unusable
              (binding_anchor extension codec marshal_pkix key nonce p.expected_report_data))
            _ h1 in
        let (claimed, listed, h3) =
          bind-eq-ok (map_err unusable (claimed_of att.of_family att.runtime_extensions)) _ h2 in
        let is_anchor =
          binding_anchor_sound key nonce p.expected_report_data
            (map_err-eq-ok unusable _ derived) in
        let (posted, _, _, signed, bound, _, _, images) =
          verify_evidence_sound post unmarshal env (record p { expected_report_data = anchor })
            claimed (map_err-eq-ok client _ h3) in
        let (extensions, from) =
          claimed_of_sound att.of_family att.runtime_extensions (map_err-eq-ok unusable _ listed) in
        (
          env,
          anchor,
          claimed,
          map_err-eq-ok unusable (envelope codec att) wrapped,
          posted,
          is_anchor,
          signed,
          never_empty anchor r.report_data_match is_anchor.3 bound,
          images,
          extensions,
          from,
        )
