-- ===== src/Tests/Claims.antt =====
-- Digests and registers of the claims.
use attestation_go.Base.{
  ℕ, ◌≤◌, ◌≡◌, refl, arith, pos, some, [], ◌∷◌, IsBytes, codes, bytes_eq, length, replicate, ok,
}
use attestation_go.Teetypes.Digest.{parse_digest, hex_encode}
use attestation_go.Teetypes.Digest.RoundTrip.{parse_digest-hex_encode, hex_encode-parse_digest}
use attestation_go.Teetypes.Claims.{
  text, no_fields, field, lookup, Claims, rtmr_key, rtmr, check_rtmrs,
}
use attestation_go.Teetypes.Claims.Registers.{rtmr-eq-ok, check_rtmrs_iff}
use attestation_go.Tests.Bindings.{no_tcb}

abbrev claims : Claims
claims = record {
  launch_digest = [];
  report_data = [];
  signed_data = [];
  init_data = [];
  tcb = no_tcb;
  platform_data = field (codes "rtmr_1") (text (hex_encode (replicate 48 171))) no_fields;
}

read_1 : rtmr claims (pos 1) ≡ ok (replicate 48 171)
unfolding rtmr lookup bytes_eq parse_digest hex_encode
read_1 = refl

parse_digest-hex_encode_example : parse_digest (hex_encode (1 ∷ 255 ∷ [])) 2 ≡ ok (1 ∷ 255 ∷ [])
parse_digest-hex_encode_example =
    parse_digest-hex_encode (1 ∷ 255 ∷ []) (omega arith, (omega arith, tt)) (omega arith)

parsed : parse_digest (codes "01ff") 2 ≡ ok (1 ∷ 255 ∷ [])
unfolding parse_digest
parsed = refl

spells_again :
    (hex_encode (1 ∷ 255 ∷ []) ≡ codes "01ff")
    × IsBytes (1 ∷ 255 ∷ [])
    × (length {A = ℕ} (1 ∷ 255 ∷ []) ≡ 2)
spells_again = hex_encode-parse_digest (codes "01ff") 2 parsed

read_from_claims :
    (1 ≤ 3)
    × (lookup (rtmr_key 1) claims.platform_data ≡ some (text (hex_encode (replicate 48 171))))
    × IsBytes (replicate 48 171)
    × (length {A = ℕ} (replicate 48 171) ≡ 48)
read_from_claims = rtmr-eq-ok claims 1 read_1

checks_register_1 : check_rtmrs claims ((pos 1, replicate 48 171) ∷ []) ≡ ok tt
checks_register_1 = (check_rtmrs_iff claims ((pos 1, replicate 48 171) ∷ [])).1 (read_1, tt)
