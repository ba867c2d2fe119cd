-- ===== src/Remote/Policies/Flat.antt =====
-- The flat pins of a policy, digests and registers: what EnforcePinsWithRuntimeLog accepts, exactly.
use attestation_go.Base.{
  ◌≡◌, ◌↔◌, inl, inr, refl, arith, true, false, Option, List, [], ◌∷◌, Bytes, contains, length,
  ◌==◌, Result, ok, bind-eq-ok, Bool-cases, Stdlib,
}
use attestation_go.Teetypes.Text.{trim_space}
use attestation_go.Teetypes.Platform.{PlatformType}
use attestation_go.Teetypes.Verdict.{VerificationResult}
use attestation_go.Tpm.Quote.{RawTpmQuote}
use attestation_go.Remote.Checks.{launch_digest_of, enforce_launch_measurement}
use attestation_go.Remote.Images.Whole.{HoldsRegisters, registers_sound}
use attestation_go.Remote.Images.Unbound.{registers_complete, registers_by_platform}
use attestation_go.Remote.Policies.{Policy, flat_pins}

module _ ⦃lib : Stdlib⦄ (r : VerificationResult) where
  absent_digest : (s : Bytes) → (length s == 0) ≡ true → (length (trim_space s) == 0) ≡ true
  unfolding trim_space
  absent_digest [] h = refl
  absent_digest (c ∷ s) h = absurd (ground arith)

  launch_digest_of-present :
      {d : Bytes} → launch_digest_of r ≡ ok d → (length r.claims.launch_digest == 0) ≡ false
  unfolding launch_digest_of
  launch_digest_of-present h = elim (Bool-cases (length r.claims.launch_digest == 0)) [
    | inl gone ↦ cc (rw (absent_digest r.claims.launch_digest gone) at h)
    | inr there ↦ there
  ]

  enforce_launch_measurement_iff :
      (m : Bytes) (ms : List Bytes)
      → (enforce_launch_measurement r (m ∷ ms) ≡ ok tt)
        ↔ ((d : Bytes) × (launch_digest_of r ≡ ok d) × (contains (m ∷ ms) d ≡ true))
  unfolding enforce_launch_measurement
  enforce_launch_measurement_iff m ms =
      let pinned : (length (m ∷ ms) == 0) ≡ false = ground arith in
      (
        λ h. elim (Bool-cases (length r.claims.launch_digest == 0)) [
          | inl gone ↦ cc (rw (gone, pinned) at h)
          | inr there ↦
              let (d, measured, h1) = bind-eq-ok (launch_digest_of r) _ (rw there at h) in
              elim (Bool-cases (contains (m ∷ ms) d)) [
                | inl in_set ↦ (d, measured, in_set)
                | inr outside ↦ cc (rw (outside, pinned) at h1)
              ]
        ],
        λ h. rw (launch_digest_of-present h.1, h.1, h.2, pinned),
      )

  -- The flat pins hold exactly when the launch digest is one of the pinned ones and the pinned registers
  -- read back, on a platform that has registers.
  pub flat_pins_iff :
      (unmarshal : Bytes → Result Bytes (Option RawTpmQuote)) (policy : Policy)
      (platform : PlatformType) (claimed : List Bytes) (m : Bytes) (ms : List Bytes)
      → policy.measurements ≡ m ∷ ms
      → (flat_pins unmarshal r policy platform ≡ ok tt) ↔ (
          (d : Bytes) × (launch_digest_of r ≡ ok d)
          × (contains (m ∷ ms) d ≡ true)
          × HoldsRegisters r platform claimed policy.policy_registers)
  unfolding flat_pins
  flat_pins_iff unmarshal policy platform claimed m ms pinned =
      rw (pinned, registers_by_platform r platform policy.policy_registers)
        (
          λ h.
              let (_, digest, registers) = bind-eq-ok (enforce_launch_measurement r (m ∷ ms)) _ h in
              let (d, measured, in_set) = (enforce_launch_measurement_iff m ms).0 digest in
              (
                d,
                measured,
                in_set,
                registers_sound r platform claimed policy.policy_registers registers,
              ),
          λ h.
              rw ((enforce_launch_measurement_iff m ms).1 (h.0, h.1, h.2))
                (registers_complete r platform claimed policy.policy_registers h.3),
        )
