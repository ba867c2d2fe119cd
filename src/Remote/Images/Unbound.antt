-- ===== src/Remote/Images/Unbound.antt =====
-- Images that pin no launch binding: what EnforceImagesWithRuntimeLog accepts, exactly.
use attestation_go.Base.{
  ◌≡◌, ◌↔◌, inl, inr, refl, sym, arith, true, not, none, List, [], ◌∷◌, Option, Bytes, bytes_eq,
  bytes_eq_iff, bytes_eq_refl, length, All, Any, ok, bind-eq-ok, map_err-eq-ok, Bool-cases,
  Result-cases, Stdlib, refuse_if, if◌then◌else◌, ◌==◌,
}
use attestation_go.Teetypes.Platform.{PlatformType, Family, family, has_registers}
use attestation_go.Teetypes.Claims.{Pins}
use attestation_go.Teetypes.Claims.Registers.{check_rtmrs_iff}
use attestation_go.Teetypes.Verdict.{VerificationResult}
use attestation_go.Remote.Checks.{
  RemoteError, of_image, no_registers, enforce_rtmrs, enforce_rtmrs_against,
  check_verified_platform, launch_digest_of,
}
use attestation_go.Remote.Images.{
  ImagePin, check_pin, check_launch_binding_pins, enforce_registers, match_image, match_images,
  enforce_images_with_runtime_log,
}
use attestation_go.Remote.Images.Whole.{HoldsRegisters, registers_sound}

abbrev pub IsUnbound : ImagePin → Type 0
IsUnbound img = (img.anchor ≡ none) × (img.launch_file ≡ none) × (img.launch_file_digest ≡ none)

module _ ⦃lib : Stdlib⦄ where
  -- The registers of an image are checked as the flat ones of a policy are.
  pub registers_by_platform :
      (r : VerificationResult) (platform : PlatformType) (pins : Pins)
      → (if has_registers platform
          then enforce_rtmrs r pins
          else refuse_if (not (length pins == 0)) (no_registers (length pins)))
        ≡ enforce_registers r platform pins
  unfolding enforce_rtmrs enforce_registers
  registers_by_platform r platform [] = ground arith
  registers_by_platform r platform (p ∷ ps) = ground arith

  check_pin-unbound : (f : Family) (img : ImagePin) → IsUnbound img → check_pin f img ≡ ok tt
  unfolding check_pin
  check_pin-unbound f img h = rw (h.0, h.1, h.2)

  check_pins-unbound :
      (f : Family) (imgs : List ImagePin)
      → All IsUnbound imgs
      → check_launch_binding_pins imgs f ≡ ok tt
  unfolding check_launch_binding_pins
  check_pins-unbound f [] h = refl
  check_pins-unbound f (img ∷ imgs) h =
      rw (check_pin-unbound f img h.0) (check_pins-unbound f imgs h.1)

module _ ⦃lib : Stdlib⦄ (r : VerificationResult) (platform : PlatformType)
    (claimed : List Bytes) where
  pub registers_complete :
      (pins : Pins)
      → HoldsRegisters r platform claimed pins
      → enforce_registers r platform pins ≡ ok tt
  unfolding enforce_registers enforce_rtmrs_against
  registers_complete [] h = refl
  registers_complete (p ∷ ps) h = rw (h.0, (check_rtmrs_iff r.claims (p ∷ ps)).1 h.1)

  match_image-unbound :
      (img : ImagePin)
      → IsUnbound img
      → (match_image r platform claimed img ≡ ok tt)
        ↔ HoldsRegisters r platform claimed img.registers
  unfolding match_image
  match_image-unbound img h =
      rw (h.0, h.1, h.2)
        (
          λ e.
              let (_, passed, _) =
                bind-eq-ok (enforce_registers r platform img.registers) _
                  (map_err-eq-ok (of_image img.name) _ e) in
              registers_sound r platform claimed img.registers passed,
          λ e. rw (registers_complete img.registers e),
        )

  -- The image that the loop stops at.
  abbrev pub Matched : Bytes → ImagePin → Type 0
  Matched digest img = (img.digest ≡ digest) × HoldsRegisters r platform claimed img.registers

  match_images-unbound :
      (digest : Bytes) (imgs : List ImagePin) (last : Option RemoteError)
      → All IsUnbound imgs
      → (match_images r platform claimed digest imgs last ≡ ok tt) ↔ Any (Matched digest) imgs
  unfolding match_images
  match_images-unbound digest [] none u = (λ h. cc h, λ h. elim h [ ])
  match_images-unbound digest [] (Option.some e) u = (λ h. cc h, λ h. elim h [ ])
  match_images-unbound digest (img ∷ imgs) last u = elim (Bool-cases (bytes_eq digest img.digest)) [
    | inl same ↦
        let d : img.digest ≡ digest = sym ((bytes_eq_iff digest img.digest).0 same) in
        elim (Result-cases (match_image r platform claimed img)) [
          | inl (_, matched) ↦
              rw (same, matched) (λ _. inl (d, (match_image-unbound img u.0).0 matched), λ _. refl)
          | inr (e, failed) ↦
              let ih = match_images-unbound digest imgs (Option.some e) u.1 in
              rw (same, failed)
                (
                  λ h. inr (ih.0 h),
                  λ h. elim h [
                    | inl m ↦ cc (failed, (match_image-unbound img u.0).1 m.1)
                    | inr later ↦ ih.1 later
                  ],
                )
        ]
    | inr differs ↦
        let ih = match_images-unbound digest imgs last u.1 in
        rw differs (
          λ h. inr (ih.0 h),
          λ h. elim h [
            | inl m ↦
                let e : bytes_eq digest img.digest ≡ true = rw m.0 (bytes_eq_refl digest) in
                cc (differs, e)
            | inr later ↦ ih.1 later
          ],
        )
  ]

  -- Images without launch bindings are accepted exactly when the platform is the verified one and the
  -- launch digest is that of an image whose pinned registers read back.
  pub enforce_images_unbound :
      (img : ImagePin) (imgs : List ImagePin)
      → All IsUnbound (img ∷ imgs)
      → (enforce_images_with_runtime_log r (img ∷ imgs) platform claimed ≡ ok tt) ↔ (
          (check_verified_platform r platform ≡ ok tt)
          × (d : Bytes) × (launch_digest_of r ≡ ok d)
          × Any (Matched d) (img ∷ imgs))
  unfolding enforce_images_with_runtime_log
  enforce_images_unbound img imgs u = (
    λ h.
        let (_, platformed, h1) = bind-eq-ok (check_verified_platform r platform) _ h in
        let (_, _, h2) =
          bind-eq-ok (check_launch_binding_pins (img ∷ imgs) (family platform)) _ h1 in
        let (d, measured, h3) = bind-eq-ok (launch_digest_of r) _ h2 in
        (platformed, d, measured, (match_images-unbound d (img ∷ imgs) none u).0 h3),
    λ h.
        rw (h.0, check_pins-unbound (family platform) (img ∷ imgs) u, h.2)
          ((match_images-unbound h.1 (img ∷ imgs) none u).1 h.3),
  )
