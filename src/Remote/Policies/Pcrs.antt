-- ===== src/Remote/Policies/Pcrs.antt =====
-- What EnforcePCRs requires of every pinned vTPM register.
use attestation_go.Base.{
  ℕ, ◌≡◌, ◌↔◌, ℤ, arith, true, not, Option, List, [], ◌∷◌, Bytes, bytes_eq, bytes_eq_iff,
  bytes_eq_refl, length, All, Result, ok, map_err, bind-eq-ok, map_err-eq-ok, refuse_if-eq-ok, refl,
  Stdlib,
}
use attestation_go.Teetypes.Platform.{has_vtpm_quote}
use attestation_go.Teetypes.Claims.{Claims, Pins, pcr, sort_pins}
use attestation_go.Teetypes.Claims.Registers.{All-sort_pins}
use attestation_go.Tpm.Quote.{RawTpmQuote}
use attestation_go.Remote.Checks.{
  no_vtpm_quote, not_signed, unreadable, pcr_differs, pcr_not_allowed,
}
use attestation_go.Remote.Policies.{
  AttestationEvidence, is_signed, check_pcrs, signed_pcr_selection_of, enforce_pcrs,
}

-- A pin that holds: its index is in the signed selection, and the register reads back as pinned.
abbrev pub IsSignedPin : List ℕ → Claims → ℤ × Bytes → Type 0
IsSignedPin signed c e = (is_signed signed e.0 ≡ true) × (pcr c e.0 ≡ ok e.1)

check_pcrs_sound :
    (signed : List ℕ) (c : Claims) (pins : Pins)
    → check_pcrs signed c pins ≡ ok tt
    → All (IsSignedPin signed c) pins
unfolding check_pcrs
check_pcrs_sound signed c [] h = tt
check_pcrs_sound signed c ((idx, want) ∷ rest) h =
    let (covered, h1) = refuse_if-eq-ok (not (is_signed signed idx)) (not_signed idx) h in
    let (got, read, h2) = bind-eq-ok (map_err unreadable (pcr c idx)) _ h1 in
    let (matches, h3) = refuse_if-eq-ok (not (bytes_eq got want)) (pcr_differs idx) h2 in
    let same : got ≡ want = (bytes_eq_iff got want).0 (ground arith) in
    (
      (ground arith, rw (← same) (map_err-eq-ok unreadable (pcr c idx) read)),
      check_pcrs_sound signed c rest h3,
    )

check_pcrs_complete :
    (signed : List ℕ) (c : Claims) (pins : Pins)
    → All (IsSignedPin signed c) pins
    → check_pcrs signed c pins ≡ ok tt
unfolding check_pcrs
check_pcrs_complete signed c [] h = refl
check_pcrs_complete signed c ((idx, want) ∷ rest) h =
    rw (h.0.0, h.0.1, bytes_eq_refl want) (check_pcrs_complete signed c rest h.1)

-- With at least one pinned PCR, EnforcePCRs passes exactly when the platform carries a vTPM quote, the
-- evidence's quote has a readable signed selection, and each pinned index is in that selection and reads
-- back from the claims as the pinned value.
pub enforce_pcrs_iff :
    ⦃lib : Stdlib⦄ (unmarshal : Bytes → Result Bytes (Option RawTpmQuote))
    (ev : AttestationEvidence) (c : Claims) (pin : ℤ × Bytes) (pins : Pins)
    → (enforce_pcrs unmarshal ev c (pin ∷ pins) ≡ ok tt) ↔ (
        (has_vtpm_quote ev.evidence_platform ≡ true)
        × (signed : List ℕ) × (signed_pcr_selection_of unmarshal ev.evidence ≡ ok signed)
        × All (IsSignedPin signed c) (pin ∷ pins))
unfolding enforce_pcrs
enforce_pcrs_iff unmarshal ev c pin pins = (
  λ h.
      let (quoted, h1) =
        refuse_if-eq-ok (not (has_vtpm_quote ev.evidence_platform))
          (no_vtpm_quote (length (pin ∷ pins))) (map_err-eq-ok pcr_not_allowed _ h) in
      let (signed, e, h2) = bind-eq-ok (signed_pcr_selection_of unmarshal ev.evidence) _ h1 in
      (
        ground arith,
        signed,
        e,
        (All-sort_pins (IsSignedPin signed c) (pin ∷ pins)).0
            (check_pcrs_sound signed c (sort_pins (pin ∷ pins)) h2),
      ),
  λ (quoted, signed, e, hold). rw (
    quoted,
    e,
    check_pcrs_complete signed c (sort_pins (pin ∷ pins))
        ((All-sort_pins (IsSignedPin signed c) (pin ∷ pins)).1 hold),
  ),
)
