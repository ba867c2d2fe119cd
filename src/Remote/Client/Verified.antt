-- ===== src/Remote/Client/Verified.antt =====
-- What holds of a result that the client accepts.
use attestation_go.Base.{
  ◌≡◌, ◌⊎◌, inl, inr, refl, arith, true, false, not, ◌&&◌, Option, none, some, List, [], ◌∷◌, Bytes,
  length, Any, ◌==◌, if◌then◌else◌, Result, ok, map_err, bind-eq-ok, map_err-eq-ok, refuse_if-eq-ok,
  Stdlib,
}
use attestation_go.Teetypes.Platform.{Family, family_unknown, family_snp, is_family, family}
use attestation_go.Teetypes.Verdict.{VerificationResult}
use attestation_go.Tpm.Quote.{RawTpmQuote}
use attestation_go.Runtimemeasure.Identity.Observed.{is_family-eq}
use attestation_go.Remote.Checks.{enforce_verdict, check_verified_platform}
use attestation_go.Remote.Checks.Verdicts.{enforce_verdict_sound}
use attestation_go.Remote.Images.{ImagePin, is_some, enforce_images_with_runtime_log}
use attestation_go.Remote.Images.Whole.{Holds, enforce_images_with_runtime_log_sound}
use attestation_go.Remote.Policies.{
  AttestationEvidence, Policy, enforce_pcrs, flat_pins, enforce_pins_with_runtime_log,
}
use attestation_go.Remote.Client.{
  FullPolicy, VerifyRequest, service, refused, ClientError, params_of, request_of, verify_enforced,
  verify_evidence_with_runtime_log,
}

-- One of the images of a policy that has any holds of the result whole.
abbrev pub HoldsImages :
    ⦃lib : Stdlib⦄ → VerificationResult → AttestationEvidence → List Bytes → List ImagePin → Type 0
HoldsImages r ev claimed [] = Unit {0}
HoldsImages r ev claimed (img ∷ imgs) = Any (Holds r ev.evidence_platform claimed) (img ∷ imgs)

floor_on_snp :
    (floor : Option Bytes) (f : Family)
    → (is_some floor && not (is_family f family_snp)) ≡ false
    → (floor ≡ none) ⊎ (f ≡ family_snp)
floor_on_snp none f h = inl refl
floor_on_snp (some t) f h = inr ((is_family-eq f family_snp).0 (ground arith))

module _ ⦃lib : Stdlib⦄ (post : VerifyRequest → Result Bytes VerificationResult)
    (unmarshal : Bytes → Result Bytes (Option RawTpmQuote)) where
  images_of_pins :
      (r : VerificationResult) (p : Policy) (ev : AttestationEvidence) (claimed : List Bytes)
      (imgs : List ImagePin)
      → (if length imgs == 0
          then flat_pins unmarshal r p ev.evidence_platform
          else enforce_images_with_runtime_log r imgs ev.evidence_platform claimed)
        ≡ ok tt
      → HoldsImages r ev claimed imgs
  images_of_pins r p ev claimed [] h = tt
  images_of_pins r p ev claimed (img ∷ imgs) h =
      let some_images : (length (img ∷ imgs) == 0) ≡ false = ground arith in
      enforce_images_with_runtime_log_sound r img imgs ev.evidence_platform claimed
        (rw some_images at h)

  pinned_images :
      (r : VerificationResult) (p : Policy) (ev : AttestationEvidence) (claimed : List Bytes)
      → enforce_pins_with_runtime_log unmarshal r p ev claimed ≡ ok tt
      → HoldsImages r ev claimed p.images
  unfolding enforce_pins_with_runtime_log
  pinned_images r p ev claimed h =
      let (_, _, h1) = bind-eq-ok (check_verified_platform r ev.evidence_platform) _ h in
      let (_, _, h2) = bind-eq-ok (enforce_pcrs unmarshal ev r.claims p.policy_pcrs) _ h1 in
      images_of_pins r p ev claimed p.images h2

  -- A result that VerifyEvidenceWithRuntimeLog returns is the service's answer to the request that the
  -- evidence and the policy make; the platform of the evidence has a known family, and is an SEV-SNP one
  -- if the policy sets a TCB floor; the service reported a valid signature, and affirmed report data and
  -- init data that the policy sets; the pins of the policy accept it; and where the policy has images, one
  -- of them holds of the result whole.
  pub verify_evidence_sound :
      (ev : AttestationEvidence) (p : FullPolicy) (claimed : List Bytes) {r : VerificationResult}
      → verify_evidence_with_runtime_log post unmarshal ev p claimed ≡ ok r
      → (post (request_of ev p) ≡ ok r)
        × (is_family (family ev.evidence_platform) family_unknown ≡ false)
        × ((p.min_tcb ≡ none) ⊎ (family ev.evidence_platform ≡ family_snp))
        × (r.signature_valid ≡ true)
        × ((p.expected_report_data ≡ []) ⊎ (r.report_data_match ≡ some true))
        × ((p.expected_init_data_hash ≡ []) ⊎ (r.init_data_match ≡ some true))
        × (enforce_pins_with_runtime_log unmarshal r p.pins ev claimed ≡ ok tt)
        × HoldsImages r ev claimed p.pins.images
  unfolding verify_evidence_with_runtime_log verify_enforced
  verify_evidence_sound ev p claimed {r} h =
      let (known, h1) =
        refuse_if-eq-ok (is_family (family ev.evidence_platform) family_unknown)
          (ClientError.unsupported_platform ev.evidence_platform) h in
      let (floored, h2) =
        refuse_if-eq-ok
          (is_some p.min_tcb && not (is_family (family ev.evidence_platform) family_snp))
          (ClientError.min_tcb_not_allowed ev.evidence_platform) h1 in
      let (x, enforced, h3) = bind-eq-ok (verify_enforced post unmarshal (request_of ev p)) _ h2 in
      let (_, pinned, h4) =
        bind-eq-ok (map_err refused (enforce_pins_with_runtime_log unmarshal x p.pins ev claimed)) _
          h3 in
      let (y, posted, h5) = bind-eq-ok (map_err service (post (request_of ev p))) _ enforced in
      let (_, judged, h6) =
        bind-eq-ok (map_err refused (enforce_verdict (some (params_of p)) y)) _ h5 in
      let yx : y ≡ x = cc in
      let xr : x ≡ r = cc in
      let yr : y ≡ r = cc in
      let verdict : enforce_verdict (some (params_of p)) r ≡ ok tt =
        rw yr at (map_err-eq-ok refused _ judged) in
      let (signed, bound, initialized, _, _, _, _, _) =
        enforce_verdict_sound (params_of p) r verdict in
      let pins : enforce_pins_with_runtime_log unmarshal r p.pins ev claimed ≡ ok tt =
        rw xr at (map_err-eq-ok refused _ pinned) in
      (
        rw yr at (map_err-eq-ok service _ posted),
        known,
        floor_on_snp p.min_tcb (family ev.evidence_platform) floored,
        signed,
        bound,
        initialized,
        pins,
        pinned_images r p.pins ev claimed pins,
      )
