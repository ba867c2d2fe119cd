-- ===== src/Refvalues/Manifest/Admission.antt =====
-- The pins of a manifest admit the evidence that the identity of the manifest accepts.
use attestation_go.Base.{
  ◌<◌, ◌≡◌, ◌↔◌, inl, inr, refl, sym, ap, ◌∙◌, arith, pos, Bool, true, List, [], ◌∷◌, Bytes,
  bytes_eq_refl, length, All, Any, ◌==◌, Result, ok, some, bind-eq-ok, map_err-eq-ok,
  refuse_if-eq-ok, Stdlib,
}
use attestation_go.Teetypes.Text.{trim_space}
use attestation_go.Teetypes.Platform.{
  Family, family_tdx, family, is_family, has_registers, normalize_platform,
}
use attestation_go.Teetypes.Claims.{Pins, rtmr, sort_pins, launch_measurement}
use attestation_go.Teetypes.Claims.Registers.{Any-sort_pins}
use attestation_go.Teetypes.Verdict.{VerificationResult}
use attestation_go.Runtimemeasure.Identity.{
  TdxImagePins, ImageIdentity, tdx_image, snp_image, LaunchVariant, variants, family_of, verify,
}
use attestation_go.Runtimemeasure.Identity.Observed.{
  Identifies, verify_iff, launch_measurement-present,
}
use attestation_go.Runtimemeasure.Manifest.{ManifestJson, load_image_manifest_for}
use attestation_go.Runtimemeasure.Manifest.Loaded.{Nonempty, load_image_manifest_for_lem}
use attestation_go.Remote.Checks.{
  measurement_missing, invalid_launch_digest, check_verified_platform, launch_digest_of,
}
use attestation_go.Remote.Images.{ImagePin, enforce_images_with_runtime_log}
use attestation_go.Remote.Images.Whole.{HoldsRegisters}
use attestation_go.Remote.Images.Unbound.{IsUnbound, Matched, enforce_images_unbound}
use attestation_go.Refvalues.Manifest.{pins_of, pins_of_identity, from_image_manifest}

module _ ⦃lib : Stdlib⦄ where
  launch_digest_of_iff :
      (r : VerificationResult) (d : Bytes)
      → (launch_digest_of r ≡ ok d) ↔ (launch_measurement r.claims ≡ ok d)
  unfolding launch_digest_of
  launch_digest_of_iff r d = (
    λ h.
        let (_, h1) =
          refuse_if-eq-ok (length (trim_space r.claims.launch_digest) == 0) measurement_missing h in
        map_err-eq-ok invalid_launch_digest _ h1,
    λ h. rw (launch_measurement-present r.claims h, h),
  )

  own_platform : (r : VerificationResult) → check_verified_platform r r.platform ≡ ok tt
  unfolding check_verified_platform
  own_platform r = rw (bytes_eq_refl (normalize_platform r.platform)) (ground arith)

  pins_of-IsUnbound :
      (name : Bytes) (regs : Pins) (vs : List LaunchVariant) → All IsUnbound (pins_of name regs vs)
  unfolding pins_of
  pins_of-IsUnbound name regs [] = tt
  pins_of-IsUnbound name regs (v ∷ vs) = ((refl, refl, refl), pins_of-IsUnbound name regs vs)

  module _ (r : VerificationResult) (claimed : List Bytes) (name : Bytes) where
    abbrev Admits : List ImagePin → Type 0
    Admits imgs = enforce_images_with_runtime_log r imgs r.platform claimed ≡ ok tt

    -- An SNP image matches by its digest alone.
    variants_iff :
        (observed : Bool) (d : Bytes) (pins : Pins)
        → launch_measurement r.claims ≡ ok d
        → Any (Matched r r.platform claimed d) (pins_of name [] (variants observed pins))
          ↔ Any (λ e. launch_measurement r.claims ≡ ok e.1) pins
    unfolding pins_of variants
    variants_iff observed d [] m = (λ h. h, λ h. h)
    variants_iff observed d (e ∷ pins) m =
        let ih = variants_iff observed d pins m in
        (
          λ h. elim h [ inl first ↦ inl (m ∙ ap ok (sym first.0)) | inr later ↦ inr (ih.0 later) ],
          λ h. elim h [
            | inl first ↦ let same : e.1 ≡ d = cc (first, m) in inl (same, tt)
            | inr later ↦ inr (ih.1 later)
          ],
        )

    Admits-iff :
        (imgs : List ImagePin)
        → 0 < length imgs
        → All IsUnbound imgs
        → Admits imgs ↔ (
            (d : Bytes) × (launch_measurement r.claims ≡ ok d)
            × Any (Matched r r.platform claimed d) imgs)
    Admits-iff [] some_image u = absurd (omega arith)
    Admits-iff (img ∷ imgs) some_image u =
        let each = enforce_images_unbound r r.platform claimed img imgs u in
        (
          λ h.
              let (_, d, measured, found) = each.0 h in
              (d, (launch_digest_of_iff r d).0 measured, found),
          λ h. each.1 (own_platform r, h.0, (launch_digest_of_iff r h.0).1 h.1, h.2),
        )

    tdx_registers :
        (p : TdxImagePins)
        → family r.platform ≡ family_tdx
        → HoldsRegisters r r.platform claimed ((pos 1, p.rtmr1) ∷ (pos 2, p.rtmr2) ∷ [])
          ↔ ((rtmr r.claims (pos 1) ≡ ok p.rtmr1) × (rtmr r.claims (pos 2) ≡ ok p.rtmr2))
    unfolding has_registers is_family
    tdx_registers p fam = (λ h. (h.1.0, h.1.1.0), λ h. (rw fam refl, (h.0, (h.1, tt))))

    some_measured :
        (pins : Pins)
        → Any (λ e. launch_measurement r.claims ≡ ok e.1) pins
        → (d : Bytes) × (launch_measurement r.claims ≡ ok d)
    some_measured [] h = elim h [ ]
    some_measured (e ∷ pins) (inl h) = (e.1, h)
    some_measured (e ∷ pins) (inr h) = some_measured pins h

    some_entry : (pins : Pins) → 0 < length pins → Any (λ e. Unit {0}) pins
    some_entry [] h = absurd (omega arith)
    some_entry (e ∷ pins) h = inl tt

    some_pin :
        (observed : Bool) (pins : Pins)
        → Any (λ e. Unit {0}) pins
        → 0 < length (pins_of name [] (variants observed pins))
    unfolding pins_of variants
    some_pin observed [] h = elim h [ ]
    some_pin observed (e ∷ pins) h = omega arith

    Admits-identity :
        (id : ImageIdentity)
        → Nonempty id
        → family r.platform ≡ family_of id
        → Admits (pins_of_identity id name) ↔ Identifies id r
    unfolding pins_of_identity family_of
    Admits-identity (tdx_image p) filled fam =
        let regs = tdx_registers p fam in
        let each =
          Admits-iff (pins_of_identity (tdx_image p) name) (omega arith) ((refl, refl, refl), tt) in
        (
          λ h.
              let (d, measured, found) = each.0 h in
              elim found [
                | inl m ↦ let (a, b) = regs.0 m.1 in (measured ∙ ap ok (sym m.0), a, b)
                | inr x ↦ elim x [ ]
              ],
          λ h. each.1 (p.mrtd, h.0, inl (refl, regs.1 (h.1, h.2))),
        )
    Admits-identity (snp_image p) filled fam =
        let sorted = sort_pins p.by_smp in
        let vs = variants p.observed sorted in
        let any = (Any-sort_pins (λ e. Unit {0}) p.by_smp).1 (some_entry p.by_smp filled) in
        let each =
          Admits-iff (pins_of name [] vs) (some_pin p.observed sorted any)
            (pins_of-IsUnbound name [] vs) in
        let by_digest = Any-sort_pins (λ e. launch_measurement r.claims ≡ ok e.1) p.by_smp in
        (
          λ h.
              let (d, measured, found) = each.0 h in
              by_digest.0 ((variants_iff p.observed d sorted measured).0 found),
          λ h.
              let (d, measured) = some_measured p.by_smp h in
              each.1 (d, measured, (variants_iff p.observed d sorted measured).1 (by_digest.1 h)),
        )

  -- The images that a manifest gives for a family admit a result with a valid signature, on a platform of
  -- that family, exactly when the identity that the manifest loads as accepts it: the pins of a relying
  -- party and the check of a pinned image agree, whatever the images are named and whatever runtime log is
  -- claimed.
  pub from_image_manifest_refines :
      (json : ManifestJson) (file : Result Bytes Bytes) (name : Bytes) (fam : Family)
      (r : VerificationResult) (claimed : List Bytes) {imgs : List ImagePin}
      → from_image_manifest json file name fam ≡ ok imgs
      → r.signature_valid ≡ true
      → family r.platform ≡ fam
      → (id : ImageIdentity) × (load_image_manifest_for json file fam ≡ ok id)
        × ((enforce_images_with_runtime_log r imgs r.platform claimed ≡ ok tt)
            ↔ (verify id (some r) ≡ ok tt))
  unfolding from_image_manifest
  from_image_manifest_refines json file name fam r claimed {imgs} h signed on_family =
      let (id, loaded, h1) = bind-eq-ok (load_image_manifest_for json file fam) _ h in
      let (same, filled) = load_image_manifest_for_lem json file fam loaded in
      let e : pins_of_identity id name ≡ imgs = cc in
      let matching = on_family ∙ sym same in
      let admits = Admits-identity r claimed name id filled matching in
      let accepts = verify_iff id r in
      (
        id,
        loaded,
        rw (← e) (λ x. accepts.1 (signed, matching, admits.0 x), λ x. admits.1 (accepts.0 x).2),
      )
