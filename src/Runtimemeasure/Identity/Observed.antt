-- ===== src/Runtimemeasure/Identity/Observed.antt =====
-- What the check of an identity requires of a result, and that an identity taken from a result holds of it.
use attestation_go.Base.{
  ◌≡◌, ◌≢◌, ◌↔◌, inl, inr, refl, sym, ap, ◌∙◌, arith, pos, true, false, not, [], ◌∷◌, map, Bytes,
  bytes_eq, bytes_eq_iff, bytes_eq_refl, contains, length, Any, ◌==◌, Result, ok, map_err,
  bind-eq-ok, map_err-eq-ok, refuse_if-eq-ok, Bool-cases, some, Stdlib,
}
use attestation_go.Teetypes.Text.{trim_space, fold_text, to_lower}
use attestation_go.Teetypes.Platform.{
  Family, family_unknown, family_snp, family_tdx, is_family, family,
}
use attestation_go.Teetypes.Digest.{parse_digest}
use attestation_go.Teetypes.Claims.{Claims, ClaimError, Pins, rtmr, launch_measurement}
use attestation_go.Teetypes.Claims.Registers.{check_rtmrs_iff}
use attestation_go.Teetypes.Verdict.{VerificationResult, check}
use attestation_go.Runtimemeasure.Identity.{
  ImageIdentity, tdx_image, snp_image, IdentityError, unchecked, wrong_family, unknown_platform,
  no_launch_digest, launch_mismatch, image_mismatch, bad_register, family_of, has, check_family,
  verified_launch, verify_result, verify, observed_as, observe, identity_from_result,
}

pub is_family-eq : (f g : Family) → (is_family f g ≡ true) ↔ (f ≡ g)
unfolding is_family
is_family-eq family_unknown family_unknown = (λ h. refl, λ h. refl)
is_family-eq family_unknown family_snp = (λ h. cc h, λ h. cc h)
is_family-eq family_unknown family_tdx = (λ h. cc h, λ h. cc h)
is_family-eq family_snp family_unknown = (λ h. cc h, λ h. cc h)
is_family-eq family_snp family_snp = (λ h. refl, λ h. refl)
is_family-eq family_snp family_tdx = (λ h. cc h, λ h. cc h)
is_family-eq family_tdx family_unknown = (λ h. cc h, λ h. cc h)
is_family-eq family_tdx family_snp = (λ h. cc h, λ h. cc h)
is_family-eq family_tdx family_tdx = (λ h. refl, λ h. refl)

empty_of : (s : Bytes) → (length s == 0) ≡ true → s ≡ []
empty_of [] h = refl
empty_of (c ∷ s) h = absurd (ground arith)

module _ ⦃lib : Stdlib⦄ where
  no_digest : (s : Bytes) {d : Bytes} → s ≡ [] → parse_digest (to_lower s) 48 ≢ ok d
  unfolding to_lower parse_digest
  no_digest s e h = cc (rw e at h)

  -- A launch measurement that parses was not blank.
  pub launch_measurement-present :
      (c : Claims) {d : Bytes}
      → launch_measurement c ≡ ok d
      → (length (trim_space c.launch_digest) == 0) ≡ false
  unfolding launch_measurement fold_text
  launch_measurement-present c h = elim (Bool-cases (length (trim_space c.launch_digest) == 0)) [
    | inl blank ↦ absurd (
        no_digest (trim_space c.launch_digest) (empty_of (trim_space c.launch_digest) blank)
          (map_err-eq-ok ClaimError.bad_launch_digest _ h))
    | inr there ↦ there
  ]

  verified_launch_iff :
      (r : VerificationResult) (want : Family) (d : Bytes)
      → (verified_launch r want ≡ ok d) ↔ (
          (r.signature_valid ≡ true)
          × (family r.platform ≡ want)
          × (launch_measurement r.claims ≡ ok d))
  unfolding verified_launch check check_family
  verified_launch_iff r want d = (
    λ h.
        let (_, signed, h1) = bind-eq-ok (map_err unchecked (check (some r))) _ h in
        let (other, h2) =
          refuse_if-eq-ok (not (is_family (family r.platform) want)) (wrong_family r.platform) h1 in
        let (_, h3) =
          refuse_if-eq-ok (length (trim_space r.claims.launch_digest) == 0) no_launch_digest h2 in
        (
          ground arith,
          (is_family-eq (family r.platform) want).0 (ground arith),
          map_err-eq-ok IdentityError.bad_launch_digest (launch_measurement r.claims) h3,
        ),
    λ h.
        let same : is_family (family r.platform) want ≡ true =
          (is_family-eq (family r.platform) want).1 h.1 in
        rw (h.0, same, launch_measurement-present r.claims h.2, h.2),
  )

  -- What an identity asks for: the tuple of a TDX image, or one of the digests of an SNP image.
  abbrev pub Identifies : ImageIdentity → VerificationResult → Type 0
  Identifies (tdx_image p) r =
      (launch_measurement r.claims ≡ ok p.mrtd)
      × (rtmr r.claims (pos 1) ≡ ok p.rtmr1)
      × (rtmr r.claims (pos 2) ≡ ok p.rtmr2)
  Identifies (snp_image p) r = Any (λ e. launch_measurement r.claims ≡ ok e.1) p.by_smp

  has_Any :
      (pins : Pins) (d : Bytes) (m : Result ClaimError Bytes)
      → m ≡ ok d
      → (contains (map (λ e. e.1) pins) d ≡ true) ↔ Any (λ e. m ≡ ok e.1) pins
  unfolding contains
  has_Any [] d m h = (λ x. cc x, λ x. elim x [ ])
  has_Any (e ∷ pins) d m h = elim (Bool-cases (bytes_eq e.1 d)) [
    | inl same ↦ rw same (λ x. inl (h ∙ ap ok (sym ((bytes_eq_iff e.1 d).0 same))), λ x. refl)
    | inr other ↦
        let ih = has_Any pins d m h in
        rw other (
          λ x. inr (ih.0 x),
          λ x. elim x [
            | inl first ↦
                let same : e.1 ≡ d = cc (first, h) in
                let e' : bytes_eq e.1 d ≡ true = (bytes_eq_iff e.1 d).1 same in cc (other, e')
            | inr later ↦ ih.1 later
          ],
        )
  ]

  some_digest :
      (pins : Pins) (m : Result ClaimError Bytes)
      → Any (λ e. m ≡ ok e.1) pins
      → (d : Bytes) × (m ≡ ok d)
  some_digest [] m h = elim h [ ]
  some_digest (e ∷ pins) m (inl h) = (e.1, h)
  some_digest (e ∷ pins) m (inr h) = some_digest pins m h

  -- The check of an identity accepts a result exactly when the service reported a valid signature, the
  -- platform is of the family of the identity, and the result has the measurements of the image: MRTD,
  -- RTMR[1] and RTMR[2] on TDX, and one of the launch digests on SNP.
  pub verify_iff :
      (id : ImageIdentity) (r : VerificationResult)
      → (verify id (some r) ≡ ok tt)
        ↔ ((r.signature_valid ≡ true) × (family r.platform ≡ family_of id) × Identifies id r)
  unfolding verify family_of
  verify_iff (tdx_image p) r =
      unfold verify_result in
      (
        λ h.
            let (d, launched, h1) = bind-eq-ok (verified_launch r family_tdx) _ h in
            let (same, h2) = refuse_if-eq-ok (not (bytes_eq d p.mrtd)) launch_mismatch h1 in
            let (signed, fam, measured) = (verified_launch_iff r family_tdx d).0 launched in
            let (one, (two, _)) =
              (check_rtmrs_iff r.claims ((pos 1, p.rtmr1) ∷ (pos 2, p.rtmr2) ∷ [])).0
                (map_err-eq-ok image_mismatch _ h2) in
            let e : d ≡ p.mrtd = (bytes_eq_iff d p.mrtd).0 (ground arith) in
            (signed, fam, (measured ∙ ap ok e, one, two)),
        λ h. rw (
          (verified_launch_iff r family_tdx p.mrtd).1 (h.0, h.1, h.2.0),
          bytes_eq_refl p.mrtd,
          (check_rtmrs_iff r.claims ((pos 1, p.rtmr1) ∷ (pos 2, p.rtmr2) ∷ [])).1
              (h.2.1, (h.2.2, tt)),
        ),
      )
  verify_iff (snp_image p) r =
      unfold verify_result in
      unfold has in
      (
        λ h.
            let (d, launched, h1) = bind-eq-ok (verified_launch r family_snp) _ h in
            let (signed, fam, measured) = (verified_launch_iff r family_snp d).0 launched in
            elim (Bool-cases (contains (map (λ e. e.1) p.by_smp) d)) [
              | inl pinned ↦ (
                signed,
                fam,
                (has_Any p.by_smp d (launch_measurement r.claims) measured).0 pinned,
              )
              | inr other ↦ cc (rw other at h1)
            ],
        λ h.
            let (d, measured) = some_digest p.by_smp (launch_measurement r.claims) h.2 in
            rw (
              (verified_launch_iff r family_snp d).1 (h.0, h.1, measured),
              (has_Any p.by_smp d (launch_measurement r.claims) measured).1 h.2,
            ),
      )

  -- The identity that a verified result gives is one that the result passes the check of.
  observed_as_sound :
      (f : Family) (r : VerificationResult) (d : Bytes) {id : ImageIdentity}
      → f ≢ family_unknown
      → launch_measurement r.claims ≡ ok d
      → observed_as f r d ≡ ok id
      → (f ≡ family_of id) × Identifies id r
  unfolding observed_as family_of
  observed_as_sound family_unknown r d known measured h = absurd (known refl)
  observed_as_sound family_snp r d {id} known measured h =
      let e : snp_image (record { by_smp = (pos 0, d) ∷ []; observed = true }) ≡ id = cc in
      rw (← e) (refl, inl measured)
  observed_as_sound family_tdx r d {id} known measured h =
      let (one, h1, g) = bind-eq-ok (map_err bad_register (rtmr r.claims (pos 1))) _ h in
      let (two, h2, k) = bind-eq-ok (map_err bad_register (rtmr r.claims (pos 2))) _ g in
      let e : tdx_image (record { mrtd = d; rtmr1 = one; rtmr2 = two }) ≡ id = cc in
      rw (← e) (refl, (measured, map_err-eq-ok bad_register _ h1, map_err-eq-ok bad_register _ h2))

  -- An identity that is taken from a result accepts that result.
  pub verify-identity_from_result :
      (r : VerificationResult) {id : ImageIdentity}
      → identity_from_result (some r) ≡ ok id
      → verify id (some r) ≡ ok tt
  unfolding identity_from_result observe check
  verify-identity_from_result r {id} h =
      let (_, signed, h1) = bind-eq-ok (map_err unchecked (check (some r))) _ h in
      let (known, h2) =
        refuse_if-eq-ok (is_family (family r.platform) family_unknown) (unknown_platform r.platform)
          h1 in
      let (d, measured, h3) =
        bind-eq-ok (map_err IdentityError.bad_launch_digest (launch_measurement r.claims)) _ h2 in
      let other : family r.platform ≢ family_unknown =
        λ e. cc (known, (is_family-eq (family r.platform) family_unknown).1 e) in
      let (fam, holds) =
        observed_as_sound (family r.platform) r d other (map_err-eq-ok _ _ measured) h3 in
      (verify_iff id r).1 (ground arith, fam, holds)
