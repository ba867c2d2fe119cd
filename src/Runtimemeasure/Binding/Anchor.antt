-- ===== src/Runtimemeasure/Binding/Anchor.antt =====
-- What InitDataAnchor reads from a TDX result.
use attestation_go.Base.{
  ℕ, ◌≡◌, ◌↔◌, refl, sym, ap, ◌∙◌, arith, true, not, some, [], ◌∷◌, ◌++◌, Bytes, length, take, drop,
  replicate, take-append-drop, length-take, length-drop, length-append, take-append, drop-append,
  ◌==◌, ok, refuse_if-eq-ok, Bool-cases, inl, inr, Stdlib,
}
use attestation_go.Teetypes.Platform.{family, family_tdx}
use attestation_go.Teetypes.Verdict.{VerificationResult, check}
use attestation_go.Runtimemeasure.Binding.{
  no_anchor, no_zero_padding, are_zeros, anchor_of, init_data_anchor,
}
use attestation_go.Runtimemeasure.Binding.Tdx.{check_binding_platform_tdx}

are_zeros_sound : (s : Bytes) → are_zeros s ≡ true → s ≡ replicate (length s) 0
unfolding are_zeros
are_zeros_sound [] h = refl
are_zeros_sound (b ∷ s) h =
    let tail : are_zeros s ≡ true = ground arith in
    let zero_byte : b ≡ 0 = ground arith in
    rw zero_byte (ap (λ (t : Bytes). 0 ∷ t) (are_zeros_sound s tail))

padded :
    (init : Bytes)
    → length init ≡ 48
    → are_zeros (drop 32 init) ≡ true
    → init ≡ take 32 init ++ replicate 16 0
padded init wide zeros =
    let sixteen : length (drop 32 init) ≡ 16 = omega (arith, length-drop 32 init) in
    let rest : drop 32 init ≡ replicate 16 0 =
      are_zeros_sound (drop 32 init) zeros ∙ ap (λ (n : ℕ). replicate n 0) sixteen in
    sym (take-append-drop 32 init) ∙ ap (λ (t : Bytes). take 32 init ++ t) rest

drop_padded : (a : Bytes) → length a ≡ 32 → drop 32 (a ++ replicate 16 0) ≡ replicate 16 0
drop_padded a h = rw (← h) (drop-append a (replicate 16 0))

take_padded : (a : Bytes) → length a ≡ 32 → take 32 (a ++ replicate 16 0) ≡ a
take_padded a h = rw (← h) (take-append a (replicate 16 0))

module _ ⦃lib : Stdlib⦄ where
  anchor_of_tdx :
      (init a : Bytes)
      → (anchor_of family_tdx init ≡ ok a) ↔ ((length a ≡ 32) × (init ≡ a ++ replicate 16 0))
  unfolding anchor_of
  anchor_of_tdx init a = (
    λ h.
        let (wide, h1) = refuse_if-eq-ok (not (length init == 48)) (no_anchor (length init)) h in
        let (zeros, h2) = refuse_if-eq-ok (not (are_zeros (drop 32 init))) no_zero_padding h1 in
        let width : length init ≡ 48 = ground arith in
        let same : take 32 init ≡ a = cc h2 in
        let zeros' : are_zeros (drop 32 init) ≡ true = ground arith in
        (
          ap length (sym same) ∙ omega (arith, length-take 32 init),
          padded init width zeros' ∙ ap (λ (t : Bytes). t ++ replicate 16 0) same,
        ),
    λ (width, same).
        let wide : length (a ++ replicate 16 0) ≡ 48 =
          omega (arith, length-append a (replicate 16 0)) in
        rw (same, wide, drop_padded a width, take_padded a width),
  )

  -- For a result of the TDX family, InitDataAnchor returns an anchor exactly when the signature was verified
  -- and the init-data claim is that anchor, of 32 bytes, with 16 zero bytes behind it.
  pub init_data_anchor_tdx :
      (r : VerificationResult) (a : Bytes)
      → family r.platform ≡ family_tdx
      → (init_data_anchor (some r) ≡ ok a) ↔ (
          (r.signature_valid ≡ true) × (length a ≡ 32) × (r.claims.init_data ≡ a ++ replicate 16 0))
  unfolding init_data_anchor check
  init_data_anchor_tdx r a tdx = (
    λ h. elim (Bool-cases r.signature_valid) [
      | inr invalid ↦ cc (rw invalid at h)
      | inl valid ↦
          let (width, same) =
            (anchor_of_tdx r.claims.init_data a).0
              (rw (valid, check_binding_platform_tdx r.platform tdx, tdx) at h) in
          (valid, width, same)
    ],
    λ (valid, width, same).
        rw (valid, check_binding_platform_tdx r.platform tdx, tdx)
          ((anchor_of_tdx r.claims.init_data a).1 (width, same)),
  )
