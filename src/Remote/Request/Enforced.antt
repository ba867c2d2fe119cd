-- ===== src/Remote/Request/Enforced.antt =====
-- A launch measurement that a request asks for is the one that an accepted response carries.
use attestation_go.Base.{
  ℕ, ◌≡◌, ◌⊎◌, inl, inr, sym, ap, ◌∙◌, arith, not, ◌&&◌, some, [], Bytes, length, ◌==◌, ok,
  bind-eq-ok, map_err-eq-ok, refuse_if-eq-ok, Stdlib,
}
use attestation_go.Teetypes.Text.{fold_text}
use attestation_go.Teetypes.Platform.{
  PlatformType, Family, family_unknown, family_snp, family_tdx, family, has_registers,
}
use attestation_go.Teetypes.Digest.{parse_digest}
use attestation_go.Teetypes.Digest.RoundTrip.{hex_encode-parse_digest}
use attestation_go.Teetypes.Claims.{Claims, bad_launch_digest, Pins, sort_pins, launch_measurement}
use attestation_go.Teetypes.Verdict.{VerificationResult}
use attestation_go.Remote.Checks.{VerifyParams, enforce_verdict}
use attestation_go.Remote.Checks.Verdicts.{enforce_verdict_sound}
use attestation_go.Remote.Request.{
  check_measurement_width, registers_unenforceable, no_registers_set, put_registers, launch_fields,
  set_expected_measurements,
}

launch_fields-one :
    (p : PlatformType) (f : Family) (launch : Bytes) {digest mrtd : Bytes}
    → launch_fields p f launch ≡ ok (digest, mrtd)
    → ((digest ≡ launch) × (mrtd ≡ [])) ⊎ ((digest ≡ []) × (mrtd ≡ launch))
launch_fields-one p family_tdx launch {digest} {mrtd} h =
    let a : [] ≡ digest = cc h in let b : launch ≡ mrtd = cc h in inr (sym a, sym b)
launch_fields-one p family_snp launch {digest} {mrtd} h =
    let a : launch ≡ digest = cc h in let b : [] ≡ mrtd = cc h in inl (sym a, sym b)
launch_fields-one p family_unknown launch h = cc h

module _ ⦃lib : Stdlib⦄ where
  length-launch_measurement : (c : Claims) {d : Bytes} → launch_measurement c ≡ ok d → length d ≡ 48
  unfolding launch_measurement
  length-launch_measurement c h =
      (hex_encode-parse_digest (fold_text c.launch_digest) 48
        (map_err-eq-ok bad_launch_digest (parse_digest (fold_text c.launch_digest) 48) h)).2

  -- One of the two launch fields of a request holds the launch measurement and the other is empty.
  set_expected_measurements_launch :
      (params : VerifyParams) (platform : PlatformType) (launch : Bytes) (rtmrs : Pins)
      {params' : VerifyParams}
      → set_expected_measurements params platform launch rtmrs ≡ ok params'
      → ((params'.expected_launch_digest ≡ launch) × (params'.expected_mrtd ≡ []))
        ⊎ ((params'.expected_launch_digest ≡ []) × (params'.expected_mrtd ≡ launch))
  unfolding set_expected_measurements
  set_expected_measurements_launch params platform launch rtmrs {params'} h =
      let (_, _, h1) = bind-eq-ok (check_measurement_width launch) _ h in
      let (_, h2) =
        refuse_if-eq-ok (not (length rtmrs == 0) && not (has_registers platform))
          (registers_unenforceable (length rtmrs)) h1 in
      let ((digest, mrtd), fields, h3) =
        bind-eq-ok (launch_fields platform (family platform) launch) _ h2 in
      let (regs, _, h4) = bind-eq-ok (put_registers (sort_pins rtmrs) no_registers_set) _ h3 in
      let same : record params {
        expected_launch_digest = digest;
        expected_mrtd = mrtd;
        expected_rtmr0 = regs.register0;
        expected_rtmr1 = regs.register1;
        expected_rtmr2 = regs.register2;
        expected_rtmr3 = regs.register3;
      }
          ≡ params' =
        cc h4 in
      rw (← same) (launch_fields-one platform (family platform) launch fields)

  not_empty : (c : Claims) {d : Bytes} → launch_measurement c ≡ ok d → d ≡ [] → ◌≡◌ {A = ℕ} 48 0
  not_empty c measured e = sym (length-launch_measurement c measured) ∙ ap length e

  -- When a launch measurement was set on a request and EnforceVerdict accepts the response to it, the
  -- measurement was left empty or it is the launch measurement in the claims, on either family.
  pub enforce_verdict-set_expected_measurements :
      (params : VerifyParams) (platform : PlatformType) (launch : Bytes) (rtmrs : Pins)
      {params' : VerifyParams} (r : VerificationResult)
      → set_expected_measurements params platform launch rtmrs ≡ ok params'
      → enforce_verdict (some params') r ≡ ok tt
      → (launch ≡ []) ⊎ (launch_measurement r.claims ≡ ok launch)
  enforce_verdict-set_expected_measurements params platform launch rtmrs {params'} r set accepted =
      let (_, _, _, launched, _, _, _, _) = enforce_verdict_sound params' r accepted in
      let fields = set_expected_measurements_launch params platform launch rtmrs set in
      elim launched [
        | inl (no_digest, no_mrtd) ↦ elim fields [
          | inl (a, b) ↦ inl (sym a ∙ no_digest)
          | inr (a, b) ↦ inl (sym b ∙ no_mrtd)
        ]
        | inr (d, measured, which) ↦ elim fields [
          | inl (a, b) ↦ elim which [
            | inl e ↦ inr (measured ∙ ap ok (e ∙ a))
            | inr e ↦ absurd (omega (arith, not_empty r.claims measured (e ∙ b)))
          ]
          | inr (a, b) ↦ elim which [
            | inl e ↦ absurd (omega (arith, not_empty r.claims measured (e ∙ a)))
            | inr e ↦ inr (measured ∙ ap ok (e ∙ b))
          ]
        ]
      ]
