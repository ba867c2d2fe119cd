-- ===== src/Runtimemeasure/LaunchFile/Spelling.antt =====
-- Which texts ParseLaunchFileDigest accepts.
use attestation_go.Base.{
  ◌<◌, ◌≡◌, ◌↔◌, refl, arith, not, Bytes, IsBytes, length, ◌==◌, ok, map_err, bind-eq-ok,
  map_err-eq-ok, refuse_if-eq-ok, Stdlib,
}
use attestation_go.Teetypes.Platform.{Family, family_unknown, family_snp, family_tdx}
use attestation_go.Teetypes.Digest.{parse_digest, hex_encode}
use attestation_go.Teetypes.Digest.RoundTrip.{parse_digest-hex_encode, hex_encode-parse_digest}
use attestation_go.Runtimemeasure.LaunchFile.{
  wrong_width, bad_digest, Hash, launch_file_hash, check_launch_file_digest,
  parse_launch_file_digest,
}

module _ ⦃lib : Stdlib⦄ where
  launch_file_hash-width : (f : Family) {h : Hash} → launch_file_hash f ≡ ok h → 0 < h.width
  unfolding launch_file_hash
  launch_file_hash-width family_tdx {h} e =
      let same : record { sum = lib.sha384; width = 48 } ≡ h = cc e in rw (← same) (omega arith)
  launch_file_hash-width family_snp {h} e =
      let same : record { sum = lib.sha256; width = 32 } ≡ h = cc e in rw (← same) (omega arith)
  launch_file_hash-width family_unknown e = cc e

  -- A digest that passes the check has the width of the family's hash.
  check_launch_file_digest_width :
      (f : Family) (d : Bytes)
      → check_launch_file_digest f d ≡ ok tt
      → (h : Hash) × (launch_file_hash f ≡ ok h) × (length d ≡ h.width)
  unfolding check_launch_file_digest
  check_launch_file_digest_width f d e =
      let (h, a, e1) = bind-eq-ok (launch_file_hash f) _ e in
      let (wide, _) = refuse_if-eq-ok (not (length d == h.width)) (wrong_width (length d)) e1 in
      (h, a, ground arith)

  -- A text is accepted as a launch file digest of a family exactly when it is the lowercase hex of the
  -- bytes that come back and these pass CheckLaunchFileDigest for the family.
  pub parse_launch_file_digest_iff :
      (f : Family) (s d : Bytes)
      → (parse_launch_file_digest f s ≡ ok d)
        ↔ ((s ≡ hex_encode d) × IsBytes d × (check_launch_file_digest f d ≡ ok tt))
  unfolding parse_launch_file_digest
  parse_launch_file_digest_iff f s d = (
    λ e.
        let (h, a, e1) = bind-eq-ok (launch_file_hash f) _ e in
        let (b, read, e2) = bind-eq-ok (map_err bad_digest (parse_digest s h.width)) _ e1 in
        let (_, passes, e3) = bind-eq-ok (check_launch_file_digest f b) _ e2 in
        let same : b ≡ d = cc e3 in
        let (text, octets, _) =
          hex_encode-parse_digest s h.width
            (map_err-eq-ok bad_digest (parse_digest s h.width) read) in
        rw (← same) (rw text refl, octets, passes),
    λ (text, octets, passes).
        let (h, a, wide) = check_launch_file_digest_width f d passes in
        let some_bytes = launch_file_hash-width f a in
        let read : parse_digest (hex_encode d) h.width ≡ ok d =
          rw (← wide) (parse_digest-hex_encode d octets (omega arith)) in
        rw (text, a, read, passes),
  )
