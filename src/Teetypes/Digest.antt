-- ===== src/Teetypes/Digest.antt =====
-- attestation/teetypes/digest.go: ParseDigest, over encoding/hex.
pub mod RoundTrip
use attestation_go.Base.{
  ℕ, zero, suc, ◌+◌, ◌-◌, ◌*◌, ◌/◌, ◌%◌, Bool, true, false, not, ◌&&◌, ◌||◌, Option, none, some,
  List, [], ◌∷◌, Bytes, length, ◌==◌, leb, if◌then◌else◌, Result, ok, err, ◌>>=◌, ◌>>◌, refuse_if,
}

pub data DigestError : Type 0 where
  bad_width : DigestError
  wrong_length : ℕ → DigestError
  not_lowercase_hex not_hex : DigestError

-- ('0' ≤ c ≤ '9') or ('a' ≤ c ≤ 'f'), the test that the scan negates.
unfoldable pub is_lower_hex : ℕ → Bool
is_lower_hex c = (leb b'0' c && leb c b'9') || (leb b'a' c && leb c b'f')

unfoldable pub all_lower_hex : Bytes → Bool
unfolding is_lower_hex
all_lower_hex [] = true
all_lower_hex (c ∷ s) = is_lower_hex c && all_lower_hex s

-- One digit of hex.DecodeString, which reads both cases.
unfoldable pub hex_value : ℕ → Option ℕ
hex_value c =
    if leb b'0' c && leb c b'9'
    then some (c - 48)
    else if leb b'a' c && leb c b'f'
    then some (c - 87)
    else if leb b'A' c && leb c b'F'
    then some (c - 55)
    else none

abbrev join_digits : Option ℕ → Option ℕ → Option ℕ
join_digits (some a) (some b) = some (16 * a + b)
join_digits _ _ = none

abbrev onto : Option ℕ → Option Bytes → Option Bytes
onto (some b) (some s) = some (b ∷ s)
onto _ _ = none

-- hex.DecodeString; `none` is an error.
unfoldable pub hex_decode : Bytes → Option Bytes
unfolding hex_value
hex_decode [] = some []
hex_decode (a ∷ []) = none
hex_decode (a ∷ b ∷ s) = onto (join_digits (hex_value a) (hex_value b)) (hex_decode s)

unfoldable pub hex_digit : ℕ → ℕ
hex_digit d = if leb d 9 then d + 48 else d + 87

-- hex.EncodeToString
unfoldable pub hex_encode : Bytes → Bytes
unfolding hex_digit
hex_encode [] = []
hex_encode (b ∷ s) = hex_digit (b / 16) ∷ hex_digit (b % 16) ∷ hex_encode s

abbrev decoded : Option Bytes → Result DigestError Bytes
decoded (some b) = ok b
decoded none = err not_hex

unfoldable pub parse_digest : Bytes → ℕ → Result DigestError Bytes
unfolding all_lower_hex hex_decode
parse_digest s width = do
  refuse_if (width == 0) bad_width
  refuse_if (not (length s == 2 * width)) (wrong_length (length s))
  refuse_if (not (all_lower_hex s)) not_lowercase_hex
  decoded (hex_decode s)
