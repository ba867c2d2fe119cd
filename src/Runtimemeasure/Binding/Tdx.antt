-- ===== src/Runtimemeasure/Binding/Tdx.antt =====
-- What VerifyBinding requires of a TDX result.
use attestation_go.Base.{
  ◌<◌, ◌≡◌, ◌↔◌, refl, sym, ap, ◌∙◌, arith, pos, true, false, not, some, List, Bytes, bytes_eq,
  bytes_eq_iff, bytes_eq_refl, length, ◌==◌, ok, map_err, bind-eq-ok, map_err-eq-ok,
  refuse_if-eq-ok, Bool-cases, inl, inr, Stdlib,
}
use attestation_go.Teetypes.Platform.{
  PlatformType, family_snp, family_tdx, family, route, is_family, has_registers, normalize_platform,
  platform_az_snp,
}
use attestation_go.Teetypes.Claims.{rtmr}
use attestation_go.Teetypes.Verdict.{VerificationResult, check}
use attestation_go.Runtimemeasure.Fold.{seed, from_digests_seeded}
use attestation_go.Runtimemeasure.LaunchFile.{launch_file_digest, check_launch_file_digest}
use attestation_go.Runtimemeasure.Binding.{
  claim, empty_anchor, launch_file, wrong_digest_width, check_binding_platform, binding,
  binding_from_digest, expected_binding, verify_binding,
}
use attestation_go.Runtimemeasure.Binding.Prefix.{verify_binding-eq-ok}

route_az_snp : route platform_az_snp ≡ family_snp
unfolding route bytes_eq
route_az_snp = refl

module _ ⦃lib : Stdlib⦄ where
  -- The platform that has no place for a binding is one of the other family.
  tdx-ne-az_snp :
      (p : PlatformType)
      → family p ≡ family_tdx
      → bytes_eq (normalize_platform p) platform_az_snp ≡ false
  unfolding family
  tdx-ne-az_snp p h = elim (Bool-cases (bytes_eq (normalize_platform p) platform_az_snp)) [
    | inr differs ↦ differs
    | inl same ↦
        let e : normalize_platform p ≡ platform_az_snp =
          (bytes_eq_iff (normalize_platform p) platform_az_snp).0 same in
        let bad : family_tdx ≡ family_snp = sym h ∙ ap route e ∙ route_az_snp in cc bad
  ]

  pub check_binding_platform_tdx :
      (p : PlatformType) → family p ≡ family_tdx → check_binding_platform p ≡ ok tt
  unfolding check_binding_platform is_family
  check_binding_platform_tdx p h = rw (h, tdx-ne-az_snp p h)

  tdx-has_registers : (p : PlatformType) → family p ≡ family_tdx → has_registers p ≡ true
  unfolding has_registers is_family
  tdx-has_registers p h = rw h

  binding_tdx :
      (r : VerificationResult) (w : Bytes)
      → family r.platform ≡ family_tdx
      → (binding (some r) ≡ ok w) ↔ ((r.signature_valid ≡ true) × (rtmr r.claims (pos 3) ≡ ok w))
  unfolding binding check
  binding_tdx r w tdx = (
    λ h. elim (Bool-cases r.signature_valid) [
      | inr invalid ↦ cc (rw invalid at h)
      | inl valid ↦ (
        valid,
        map_err-eq-ok claim (rtmr r.claims (pos 3)) (
            rw (valid, check_binding_platform_tdx r.platform tdx, tdx-has_registers r.platform tdx)
              at h),
      )
    ],
    λ (valid, read).
        rw (
          valid,
          check_binding_platform_tdx r.platform tdx,
          tdx-has_registers r.platform tdx,
          read,
        ),
  )

  expected_binding_tdx :
      (p : PlatformType) (anchor : Bytes) (ws : List Bytes) (w : Bytes)
      → family p ≡ family_tdx
      → (expected_binding p anchor ws ≡ ok w) ↔ (
          (0 < length anchor)
          × (check_launch_file_digest family_tdx (lib.sha384 anchor) ≡ ok tt)
          × (w ≡ from_digests_seeded (seed anchor) ws))
  unfolding expected_binding launch_file_digest binding_from_digest seed
  expected_binding_tdx p anchor ws w tdx = (
    λ h.
        let (some_anchor, h1) = refuse_if-eq-ok (length anchor == 0) empty_anchor h in
        let h2 = rw (tdx, some_anchor, check_binding_platform_tdx p tdx) at h1 in
        let (_, passes, h3) =
          bind-eq-ok (map_err launch_file (check_launch_file_digest family_tdx (lib.sha384 anchor)))
            _ h2 in
        let (_, same) =
          refuse_if-eq-ok (not (length (lib.sha384 anchor) == 48))
            (wrong_digest_width (length (lib.sha384 anchor))) h3 in
        (
          ground arith,
          map_err-eq-ok launch_file (check_launch_file_digest family_tdx (lib.sha384 anchor))
              passes,
          sym (cc same),
        ),
    λ (some_anchor, passes, same).
        let there : (length anchor == 0) ≡ false = ground arith in
        rw (there, tdx, check_binding_platform_tdx p tdx, passes, lib.length-sha384 anchor, same)
          refl,
  )

  -- For a result of the TDX family, VerifyBinding passes exactly when the signature was verified, the anchor
  -- is not empty and its SHA-384 is a launch file digest that CheckLaunchFileDigest admits, and register 3 of
  -- the claims is the seed of the anchor extended by the workload digests in order.
  pub verify_binding_tdx :
      (r : VerificationResult) (anchor : Bytes) (ws : List Bytes)
      → family r.platform ≡ family_tdx
      → (verify_binding (some r) anchor ws ≡ ok tt) ↔ (
          (r.signature_valid ≡ true)
          × (0 < length anchor)
          × (check_launch_file_digest family_tdx (lib.sha384 anchor) ≡ ok tt)
          × (rtmr r.claims (pos 3) ≡ ok (from_digests_seeded (seed anchor) ws)))
  unfolding verify_binding
  verify_binding_tdx r anchor ws tdx = (
    λ h.
        let (w, wanted, carried) = verify_binding-eq-ok r anchor ws h in
        let (some_anchor, passes, same) =
          (expected_binding_tdx r.platform anchor ws w tdx).0 wanted in
        let (valid, read) = (binding_tdx r w tdx).0 carried in
        (valid, some_anchor, passes, read ∙ ap ok same),
    λ (valid, some_anchor, passes, read).
        let w = from_digests_seeded (seed anchor) ws in
        rw (
          (binding_tdx r w tdx).1 (valid, read),
          (expected_binding_tdx r.platform anchor ws w tdx).1 (some_anchor, passes, refl),
          bytes_eq_refl w,
        ),
  )
