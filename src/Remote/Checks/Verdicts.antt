-- ===== src/Remote/Checks/Verdicts.antt =====
-- What EnforceVerdict establishes about a response that it accepts.
use attestation_go.Base.{
  ℕ, ◌+◌, ◌≡◌, ◌⊎◌, inl, inr, refl, sym, arith, ℤ, pos, Bool, true, false, ◌&&◌, Option, none, some,
  List, [], ◌∷◌, Bytes, bytes_eq, bytes_eq_iff, contains, length, All, Any, ◌==◌, if◌then◌else◌, ok,
  map_err, bind-eq-ok, map_err-eq-ok, refuse_if-eq-ok, Bool-cases, Stdlib,
}
use attestation_go.Teetypes.Text.{trim_space}
use attestation_go.Teetypes.Claims.{Pins, rtmr, check_rtmrs, launch_measurement}
use attestation_go.Teetypes.Claims.Registers.{check_rtmrs_iff}
use attestation_go.Teetypes.Verdict.{VerificationResult, check}
use attestation_go.Remote.Checks.{
  signature_invalid, report_data_mismatch, init_data_mismatch, measurement_missing,
  invalid_launch_digest, registers_not_allowed, VerifyParams, not_affirmed, is_set, nonempty,
  pinned_from, enforce_rtmrs_against, enforce_rtmrs, launch_digest_of, enforce_launch_measurement,
  enforce_expected_measurements, enforce_verdict,
}

asked_affirmed :
    (asked : Bytes) (verdict : Option Bool)
    → (is_set asked && not_affirmed verdict) ≡ false
    → (asked ≡ []) ⊎ (verdict ≡ some true)
asked_affirmed [] verdict h = inl refl
asked_affirmed (b ∷ s) (some true) h = inr refl
asked_affirmed (b ∷ s) (some false) h = cc h
asked_affirmed (b ∷ s) none h = cc h

nonempty-Any : (ms : List Bytes) (d : Bytes) → contains (nonempty ms) d ≡ true → Any (λ m. d ≡ m) ms
unfolding nonempty contains
nonempty-Any [] d h = cc h
nonempty-Any ([] ∷ ms) d h = inr (nonempty-Any ms d h)
nonempty-Any ((b ∷ s) ∷ ms) d h = elim (Bool-cases (bytes_eq (b ∷ s) d)) [
  | inl same ↦ inl (sym ((bytes_eq_iff (b ∷ s) d).0 same))
  | inr other ↦ inr (nonempty-Any ms d (rw other at h))
]

pinned_from-first :
    (P : ℤ × Bytes → Type 0) (i : ℕ) (m : Bytes) (ms : List Bytes)
    → All P (pinned_from i (m ∷ ms))
    → ((m ≡ []) ⊎ P (pos i, m)) × All P (pinned_from (i + 1) ms)
unfolding pinned_from
pinned_from-first P i [] ms h = (inl refl, h)
pinned_from-first P i (b ∷ s) ms h = (inr h.0, h.1)

enforce_rtmrs-All :
    (r : VerificationResult) (pins : Pins)
    → enforce_rtmrs r pins ≡ ok tt
    → All (λ e. rtmr r.claims e.0 ≡ ok e.1) pins
unfolding enforce_rtmrs enforce_rtmrs_against
enforce_rtmrs-All r [] h = tt
enforce_rtmrs-All r (p ∷ ps) h =
    (check_rtmrs_iff r.claims (p ∷ ps)).0
      (map_err-eq-ok registers_not_allowed (check_rtmrs r.claims (p ∷ ps)) h)

module _ ⦃lib : Stdlib⦄ where
  launch_measurement-allowed :
      (r : VerificationResult) (allowed : List Bytes)
      → (length allowed == 0) ≡ false
      → enforce_launch_measurement r allowed ≡ ok tt
      → (d : Bytes) × (launch_measurement r.claims ≡ ok d) × (contains allowed d ≡ true)
  unfolding enforce_launch_measurement launch_digest_of
  launch_measurement-allowed r allowed some_allowed h =
      elim (Bool-cases (length r.claims.launch_digest == 0)) [
        | inl missing ↦ cc (rw (missing, some_allowed) at h)
        | inr there ↦
            let (d, read, h1) = bind-eq-ok (launch_digest_of r) _ (rw there at h) in
            let (_, measured) =
              refuse_if-eq-ok (length (trim_space r.claims.launch_digest) == 0) measurement_missing
                read in
            (
              d,
              map_err-eq-ok invalid_launch_digest (launch_measurement r.claims) measured,
              elim (Bool-cases (contains allowed d)) [
                | inl in_set ↦ in_set
                | inr outside ↦ cc (rw (some_allowed, outside) at h1)
              ],
            )
      ]

  -- What the expected launch measurements ask for: both are empty, or the measured one is one of them.
  abbrev pub HoldsLaunch : VerifyParams → VerificationResult → Type 0
  HoldsLaunch params r =
      ((params.expected_launch_digest ≡ []) × (params.expected_mrtd ≡ []))
      ⊎ ((d : Bytes) × (launch_measurement r.claims ≡ ok d)
          × ((d ≡ params.expected_launch_digest) ⊎ (d ≡ params.expected_mrtd)))

  -- A register that is not asked for, or that reads back as asked for.
  abbrev pub HoldsRegister : VerificationResult → ℕ → Bytes → Type 0
  HoldsRegister r i m = (m ≡ []) ⊎ (rtmr r.claims (pos i) ≡ ok m)

  nothing_asked : (a b : Bytes) → (length (nonempty (a ∷ b ∷ [])) == 0) ≡ true → (a ≡ []) × (b ≡ [])
  unfolding nonempty
  nothing_asked [] [] h = (refl, refl)
  nothing_asked [] (y ∷ b) h = cc (h)
  nothing_asked (x ∷ a) b h = ground arith

  one_of_two : (a b d : Bytes) → Any (λ m. d ≡ m) (a ∷ b ∷ []) → (d ≡ a) ⊎ (d ≡ b)
  one_of_two a b d (inl e) = inl e
  one_of_two a b d (inr (inl e)) = inr e
  one_of_two a b d (inr (inr x)) = elim x [ ]

  expected_launch :
      (params : VerifyParams) (r : VerificationResult)
      → (if length (nonempty (params.expected_launch_digest ∷ params.expected_mrtd ∷ [])) == 0
          then ok tt
          else enforce_launch_measurement r
              (nonempty (params.expected_launch_digest ∷ params.expected_mrtd ∷ [])))
        ≡ ok tt
      → HoldsLaunch params r
  expected_launch params r h =
      elim (Bool-cases
        (length (nonempty (params.expected_launch_digest ∷ params.expected_mrtd ∷ [])) == 0)) [
          | inl none_asked ↦
              inl (nothing_asked params.expected_launch_digest params.expected_mrtd none_asked)
          | inr asked ↦
              let (d, measured, in_set) =
                launch_measurement-allowed r
                  (nonempty (params.expected_launch_digest ∷ params.expected_mrtd ∷ [])) asked
                  (rw asked at h) in
              inr (
                d,
                measured,
                one_of_two params.expected_launch_digest params.expected_mrtd d (
                    nonempty-Any (params.expected_launch_digest ∷ params.expected_mrtd ∷ []) d
                      in_set),
              )
        ]

  expected_registers :
      (params : VerifyParams) (r : VerificationResult)
      → enforce_rtmrs r (
          pinned_from 0 (
            params.expected_rtmr0 ∷ params.expected_rtmr1 ∷ params.expected_rtmr2
            ∷ params.expected_rtmr3 ∷ []))
        ≡ ok tt
      → HoldsRegister r 0 params.expected_rtmr0
        × HoldsRegister r 1 params.expected_rtmr1
        × HoldsRegister r 2 params.expected_rtmr2
        × HoldsRegister r 3 params.expected_rtmr3
  expected_registers params r h =
      let P = λ (e : ℤ × Bytes). rtmr r.claims e.0 ≡ ok e.1 in
      let all = enforce_rtmrs-All r _ h in
      let (a, all1) =
        pinned_from-first P 0 params.expected_rtmr0
          (params.expected_rtmr1 ∷ params.expected_rtmr2 ∷ params.expected_rtmr3 ∷ []) all in
      let (b, all2) =
        pinned_from-first P 1 params.expected_rtmr1
          (params.expected_rtmr2 ∷ params.expected_rtmr3 ∷ []) all1 in
      let (c, all3) =
        pinned_from-first P 2 params.expected_rtmr2 (params.expected_rtmr3 ∷ []) all2 in
      (a, b, c, (pinned_from-first P 3 params.expected_rtmr3 [] all3).0)

  -- When EnforceVerdict accepts a response to a request with parameters, the service reported a valid
  -- signature; report data and init data that were asked for were affirmed; the launch measurement in the
  -- claims is one of the expected ones, unless none is set; and each expected register that is set reads
  -- back as expected.
  pub enforce_verdict_sound :
      (params : VerifyParams) (r : VerificationResult)
      → enforce_verdict (some params) r ≡ ok tt
      → (r.signature_valid ≡ true)
        × ((params.expected_report_data ≡ []) ⊎ (r.report_data_match ≡ some true))
        × ((params.expected_init_data_hash ≡ []) ⊎ (r.init_data_match ≡ some true))
        × HoldsLaunch params r
        × HoldsRegister r 0 params.expected_rtmr0
        × HoldsRegister r 1 params.expected_rtmr1
        × HoldsRegister r 2 params.expected_rtmr2
        × HoldsRegister r 3 params.expected_rtmr3
  unfolding enforce_verdict enforce_expected_measurements check
  enforce_verdict_sound params r h =
      let (_, signed, h1) = bind-eq-ok (map_err (λ e. signature_invalid) (check (some r))) _ h in
      let (reported, h2) =
        refuse_if-eq-ok (is_set params.expected_report_data && not_affirmed r.report_data_match)
          report_data_mismatch h1 in
      let (initialized, h3) =
        refuse_if-eq-ok (is_set params.expected_init_data_hash && not_affirmed r.init_data_match)
          init_data_mismatch h2 in
      let (_, launched, registers) =
        bind-eq-ok
          (if length (nonempty (params.expected_launch_digest ∷ params.expected_mrtd ∷ [])) == 0
            then ok tt
            else enforce_launch_measurement r
                (nonempty (params.expected_launch_digest ∷ params.expected_mrtd ∷ [])))
          _ h3 in
      let (a, b, c, d) = expected_registers params r registers in
      (
        ground arith,
        asked_affirmed params.expected_report_data r.report_data_match reported,
        asked_affirmed params.expected_init_data_hash r.init_data_match initialized,
        expected_launch params r launched,
        a,
        b,
        c,
        d,
      )
