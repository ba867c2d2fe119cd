-- ===== src/Remote/Images/Whole.antt =====
-- What evidence that EnforceImagesWithRuntimeLog accepts has in common with one of the pinned images.
use attestation_go.Base.{
  ℕ, ◌≤◌, ◌≡◌, inl, inr, refl, ap, ◌∙◌, arith, true, not, Option, none, some, List, [], ◌∷◌, Bytes,
  bytes_eq, bytes_eq_iff, length, take, All, Any, Result, ok, map_err, bind-eq-ok, map_err-eq-ok,
  refuse_if-eq-ok, Bool-cases, Option-cases, Result-cases, Stdlib, ◌==◌,
}
use attestation_go.Teetypes.Text.{trim_space}
use attestation_go.Teetypes.Platform.{PlatformType, family, has_registers}
use attestation_go.Teetypes.Claims.{Pins, rtmr, check_rtmrs, launch_measurement}
use attestation_go.Teetypes.Claims.Registers.{check_rtmrs_iff}
use attestation_go.Teetypes.Verdict.{VerificationResult}
use attestation_go.Runtimemeasure.Binding.{binding, binding_from_digest, verify_binding}
use attestation_go.Runtimemeasure.Binding.Prefix.{
  match_binding_prefix_sound, match_launch_file_digest_prefix_sound,
}
use attestation_go.Remote.Checks.{
  not_bound, RemoteError, measurement_missing, invalid_launch_digest, registers_not_allowed,
  no_registers, anchor_not_allowed, launch_file_not_allowed, of_image, enforce_rtmrs_against,
  check_verified_platform, launch_digest_of,
}
use attestation_go.Remote.Images.{
  Accept, accept_each, judge, BindingMatcher, enforce_replayed_binding, ImagePin, when_set,
  check_launch_binding_pins, match_anchor, match_digest, enforce_registers, match_image,
  match_images, enforce_images_with_runtime_log,
}

-- The entries that a pin accepts: without a hook there may be none.
abbrev pub IsAccepted : Option Accept → List Bytes → Type 0
IsAccepted none proven = proven ≡ []
IsAccepted (some accept) proven = All (λ d. accept d ≡ none) proven

-- What a pin requires of a field that it may leave unset.
abbrev pub WhenSet : Option Bytes → (Bytes → Type 0) → Type 0
WhenSet none P = Unit {0}
WhenSet (some a) P = P a

accept_each_sound :
    (accept : Accept) (ds : List Bytes)
    → accept_each accept ds ≡ ok tt
    → All (λ d. accept d ≡ none) ds
unfolding accept_each
accept_each_sound accept [] h = tt
accept_each_sound accept (d ∷ ds) h = elim (Option-cases (accept d)) [
  | inl accepted ↦ (accepted, accept_each_sound accept ds (rw accepted at h))
  | inr (e, e') ↦ cc (rw e' at h)
]

judge_sound :
    (accept : Option Accept) (proven : List Bytes)
    → judge accept proven ≡ ok tt
    → IsAccepted accept proven
judge_sound none [] h = refl
judge_sound none (d ∷ ds) h = cc
judge_sound (some accept) proven h = accept_each_sound accept proven h

replayed_sound :
    (r : VerificationResult) (bound : Bytes) (claimed : List Bytes) (match_of : BindingMatcher)
    (accept : Option Accept)
    → enforce_replayed_binding r bound claimed match_of accept ≡ ok tt
    → (k : ℕ) × (match_of r bound claimed ≡ ok k) × IsAccepted accept (take k claimed)
unfolding enforce_replayed_binding
replayed_sound r bound claimed match_of accept h =
    let (k, e, h1) = bind-eq-ok (map_err not_bound (match_of r bound claimed)) _ h in
    (
      k,
      map_err-eq-ok not_bound (match_of r bound claimed) e,
      judge_sound accept (take k claimed) h1,
    )

module _ ⦃lib : Stdlib⦄ (r : VerificationResult) (platform : PlatformType)
    (claimed : List Bytes) where
  -- The registers of a pin: each reads back as pinned, on a platform that has registers.
  abbrev pub HoldsRegisters : Pins → Type 0
  HoldsRegisters [] = Unit {0}
  HoldsRegisters (p ∷ ps) =
      (has_registers platform ≡ true) × All (λ e. rtmr r.claims e.0 ≡ ok e.1) (p ∷ ps)

  -- The anchor of a pin: it is bound with a prefix of the claimed list that the pin accepts.
  abbrev pub HoldsAnchor : ImagePin → Type 0
  HoldsAnchor img = WhenSet img.anchor (λ a.
      (k : ℕ) × (k ≤ length claimed)
      × (verify_binding (some r) a (take k claimed) ≡ ok tt)
      × IsAccepted img.accept_extension (take k claimed))

  -- The launch file of a pin: it is bound with no extension.
  abbrev pub HoldsLaunchFile : ImagePin → Type 0
  HoldsLaunchFile img = WhenSet img.launch_file (λ file. verify_binding (some r) file [] ≡ ok tt)

  -- The result has a binding, and it is the value of a launch file digest with a list.
  abbrev pub IsBoundTo : Bytes → List Bytes → Type 0
  IsBoundTo d ds =
      (v : Bytes) × (binding (some r) ≡ ok v) × (binding_from_digest r.platform d ds ≡ ok v)

  -- The launch file digest of a pin: the binding is that of the digest with a prefix that it accepts.
  abbrev pub HoldsLaunchFileDigest : ImagePin → Type 0
  HoldsLaunchFileDigest img = WhenSet img.launch_file_digest (λ d.
      (k : ℕ) × (k ≤ length claimed)
      × IsBoundTo d (take k claimed)
      × IsAccepted img.accept_extension (take k claimed))

  -- A pin that the evidence matches whole.
  abbrev pub Holds : ImagePin → Type 0
  Holds img =
      (launch_measurement r.claims ≡ ok img.digest)
      × HoldsRegisters img.registers
      × HoldsAnchor img
      × HoldsLaunchFile img
      × HoldsLaunchFileDigest img

  pub registers_sound :
      (pins : Pins) → enforce_registers r platform pins ≡ ok tt → HoldsRegisters pins
  unfolding enforce_registers enforce_rtmrs_against
  registers_sound [] h = tt
  registers_sound (p ∷ ps) h =
      let (present, h1) =
        refuse_if-eq-ok (not (has_registers platform)) (no_registers (length (p ∷ ps))) h in
      (
        ground arith,
        (check_rtmrs_iff r.claims (p ∷ ps)).0
            (map_err-eq-ok registers_not_allowed (check_rtmrs r.claims (p ∷ ps)) h1),
      )

  when_set-sound :
      (P : Bytes → Type 0) (o : Option Bytes) (f : Bytes → Result RemoteError (Unit {0}))
      → ((a : Bytes) → f a ≡ ok tt → P a)
      → when_set o f ≡ ok tt
      → WhenSet o P
  when_set-sound P none f sound h = tt
  when_set-sound P (some a) f sound h = sound a h

  match_image_sound :
      (img : ImagePin)
      → match_image r platform claimed img ≡ ok tt
      → HoldsRegisters img.registers
        × HoldsAnchor img
        × HoldsLaunchFile img
        × HoldsLaunchFileDigest img
  unfolding match_image
  match_image_sound img h =
      let (_, a, h1) =
        bind-eq-ok (enforce_registers r platform img.registers) _
          (map_err-eq-ok (of_image img.name) _ h) in
      let (_, b, h2) =
        bind-eq-ok
          (when_set img.anchor (λ a.
            map_err anchor_not_allowed
              (enforce_replayed_binding r a claimed match_anchor img.accept_extension)))
          _ h1 in
      let (_, c, d) =
        bind-eq-ok
          (when_set img.launch_file (λ file.
            map_err launch_file_not_allowed (map_err not_bound (verify_binding (some r) file []))))
          _ h2 in
      (
        registers_sound img.registers a,
        when_set-sound _ img.anchor _
            (λ x e.
              let (k, found, accepted) =
                replayed_sound r x claimed match_anchor img.accept_extension
                  (map_err-eq-ok anchor_not_allowed _ e) in
              let (le, _, bound) = match_binding_prefix_sound r x claimed k found in
              (k, le, bound, accepted))
            b,
        when_set-sound _ img.launch_file _
            (λ x e.
              map_err-eq-ok not_bound (verify_binding (some r) x [])
                (map_err-eq-ok launch_file_not_allowed _ e))
            c,
        when_set-sound _ img.launch_file_digest _
            (λ x e.
              let (k, found, accepted) =
                replayed_sound r x claimed match_digest img.accept_extension
                  (map_err-eq-ok launch_file_not_allowed _ e) in
              let (le, _, v, binds, wants) =
                match_launch_file_digest_prefix_sound r x claimed k found in
              (k, le, (v, binds, wants), accepted))
            d,
      )

  match_images_sound :
      (digest : Bytes) (imgs : List ImagePin) (last : Option RemoteError)
      → launch_measurement r.claims ≡ ok digest
      → match_images r platform claimed digest imgs last ≡ ok tt
      → Any Holds imgs
  unfolding match_images
  match_images_sound digest [] none measured h = cc
  match_images_sound digest [] (some e) measured h = cc
  match_images_sound digest (img ∷ imgs) last measured h =
      elim (Bool-cases (bytes_eq digest img.digest)) [
        | inl same ↦ elim (Result-cases (match_image r platform claimed img)) [
          | inl (_, matched) ↦
              let (a, b, c, d) = match_image_sound img matched in
              inl (measured ∙ ap ok ((bytes_eq_iff digest img.digest).0 same), a, b, c, d)
          | inr (e, failed) ↦
              inr (match_images_sound digest imgs (some e) measured (rw (same, failed) at h))
        ]
        | inr differs ↦ inr (match_images_sound digest imgs last measured (rw differs at h))
      ]

module _ ⦃lib : Stdlib⦄ where
  -- When evidence is accepted against a set of images that is not empty, one of the images holds of it
  -- whole: the launch measurement is the image's digest; its pinned registers read back as pinned, on a
  -- platform with registers; an anchor is bound with a prefix of the claimed list whose every entry the
  -- image accepts; a launch file is bound with no extension; and for a launch file digest the result has
  -- a binding, which is the value of the digest with a prefix that the image accepts. An image without a
  -- hook accepts no entry.
  pub enforce_images_with_runtime_log_sound :
      (r : VerificationResult) (img : ImagePin) (imgs : List ImagePin) (platform : PlatformType)
      (claimed : List Bytes)
      → enforce_images_with_runtime_log r (img ∷ imgs) platform claimed ≡ ok tt
      → Any (Holds r platform claimed) (img ∷ imgs)
  unfolding enforce_images_with_runtime_log launch_digest_of
  enforce_images_with_runtime_log_sound r img imgs platform claimed h =
      let (_, _, h1) = bind-eq-ok (check_verified_platform r platform) _ h in
      let (_, _, h2) = bind-eq-ok (check_launch_binding_pins (img ∷ imgs) (family platform)) _ h1 in
      let (digest, read, h3) = bind-eq-ok (launch_digest_of r) _ h2 in
      let (_, measured) =
        refuse_if-eq-ok (length (trim_space r.claims.launch_digest) == 0) measurement_missing
          read in
      match_images_sound r platform claimed digest (img ∷ imgs) none
        (map_err-eq-ok invalid_launch_digest (launch_measurement r.claims) measured) h3
