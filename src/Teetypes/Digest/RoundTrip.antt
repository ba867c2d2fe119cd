-- ===== src/Teetypes/Digest/RoundTrip.antt =====
-- ParseDigest and hex.EncodeToString undo one another: a digest has one accepted spelling.
use attestation_go.Base.{
  ℕ, zero, suc, ◌+◌, ◌*◌, ◌/◌, ◌%◌, ◌<◌, ◌≡◌, ◌≢◌, refl, ap, true, Option, none, some, [], ◌∷◌,
  arith, Bytes, IsBytes, length, ◌==◌, ok, refuse_if-eq-ok, not,
}
use attestation_go.Teetypes.Digest.{
  is_lower_hex, all_lower_hex, hex_value, hex_decode, hex_digit, hex_encode, parse_digest,
  bad_width, wrong_length, not_lowercase_hex, decoded, onto, join_digits,
}

hex_digit-is_lower_hex : (d : ℕ) → d < 16 → is_lower_hex (hex_digit d) ≡ true
unfolding is_lower_hex hex_digit
hex_digit-is_lower_hex d h = ground arith

hex_value-hex_digit : (d : ℕ) → d < 16 → hex_value (hex_digit d) ≡ some d
unfolding hex_value hex_digit
hex_value-hex_digit d h = ground arith

hex_digit-hex_value :
    (c d : ℕ) → is_lower_hex c ≡ true → hex_value c ≡ some d → (d < 16) × (hex_digit d ≡ c)
unfolding hex_value hex_digit is_lower_hex
hex_digit-hex_value c d h e = ground arith

hex_value-ne-none : (c : ℕ) → is_lower_hex c ≡ true → hex_value c ≢ none
unfolding hex_value is_lower_hex
hex_value-ne-none c h e = ground arith

pub length-hex_encode : (b : Bytes) → length (hex_encode b) ≡ 2 * length b
unfolding hex_encode
length-hex_encode [] = refl
length-hex_encode (x ∷ b) = omega (arith, length-hex_encode b)

pub all_lower_hex-hex_encode : (b : Bytes) → IsBytes b → all_lower_hex (hex_encode b) ≡ true
unfolding all_lower_hex hex_encode
all_lower_hex-hex_encode [] h = refl
all_lower_hex-hex_encode (x ∷ b) h = rw (
  hex_digit-is_lower_hex (x / 16) (omega (arith, h.0)),
  hex_digit-is_lower_hex (x % 16) (omega arith),
  all_lower_hex-hex_encode b h.1,
)

pub hex_decode-hex_encode : (b : Bytes) → IsBytes b → hex_decode (hex_encode b) ≡ some b
unfolding hex_decode hex_encode
hex_decode-hex_encode [] h = refl
hex_decode-hex_encode (x ∷ b) h =
    rw
      (
        hex_value-hex_digit (x / 16) (omega (arith, h.0)),
        hex_value-hex_digit (x % 16) (omega arith),
        hex_decode-hex_encode b h.1,
      )
      (ap (λ (y : ℕ). some (y ∷ b)) (omega arith))

-- The lowercase hex of a digest of the right width is accepted, and is read as that digest.
pub parse_digest-hex_encode :
    (b : Bytes) → IsBytes b → 0 < length b → parse_digest (hex_encode b) (length b) ≡ ok b
unfolding parse_digest
parse_digest-hex_encode b h pos =
    rw (length-hex_encode b, all_lower_hex-hex_encode b h, hex_decode-hex_encode b h) (ground arith)

onto-eq-some :
    (x y : Option ℕ) (t : Option Bytes) {r : Bytes}
    → onto (join_digits x y) t ≡ some r
    → (d : ℕ) × (e : ℕ) × (u : Bytes) × (x ≡ some d)
      × (y ≡ some e)
      × (t ≡ some u)
      × (r ≡ (16 * d + e) ∷ u)
onto-eq-some (some d) (some e) (some u) h = (d, e, u, refl, refl, refl, cc)
onto-eq-some none y t h = cc
onto-eq-some (some d) none t h = cc
onto-eq-some (some d) (some e) none h = cc

hex_encode-cons :
    (a c d e : ℕ) (u s : Bytes)
    → (d < 16) × (hex_digit d ≡ a)
    → (e < 16) × (hex_digit e ≡ c)
    → hex_encode u ≡ s
    → hex_encode ((16 * d + e) ∷ u) ≡ a ∷ c ∷ s
unfolding hex_encode
hex_encode-cons a c d e u s p q h =
    let hi : (16 * d + e) / 16 ≡ d = omega (arith, p.0, q.0) in
    let lo : (16 * d + e) % 16 ≡ e = omega (arith, p.0, q.0) in rw (hi, lo, p.1, q.1, h)

pub hex_encode-hex_decode :
    (s : Bytes) {b : Bytes}
    → all_lower_hex s ≡ true
    → hex_decode s ≡ some b
    → (hex_encode b ≡ s) × IsBytes b × (length s ≡ 2 * length b)
unfolding all_lower_hex hex_decode
hex_encode-hex_decode [] {b} l h =
    let e : b ≡ [] = cc in rw e (unfold hex_encode in (refl, tt, refl))
hex_encode-hex_decode (a ∷ []) l h = cc
hex_encode-hex_decode (a ∷ c ∷ s) {b} l h =
    let (d, e, u, p, q, t, r) = onto-eq-some (hex_value a) (hex_value c) (hex_decode s) h in
    let la : is_lower_hex a ≡ true = ground arith in
    let lc : is_lower_hex c ≡ true = ground arith in
    let ls : all_lower_hex s ≡ true = ground arith in
    let da = hex_digit-hex_value a d la p in
    let dc = hex_digit-hex_value c e lc q in
    let (i, j, k) = hex_encode-hex_decode s ls t in
    rw r (hex_encode-cons a c d e u s da dc i, (omega (arith, da.0, dc.0), j), omega arith)

pub hex_decode-ne-none :
    (n : ℕ) (s : Bytes) → length s ≡ 2 * n → all_lower_hex s ≡ true → hex_decode s ≢ none
unfolding all_lower_hex hex_decode
hex_decode-ne-none zero [] e l h = cc
hex_decode-ne-none zero (a ∷ s) e l h = absurd (omega arith)
hex_decode-ne-none (suc n) [] e l h = absurd (omega arith)
hex_decode-ne-none (suc n) (a ∷ []) e l h = absurd (omega arith)
hex_decode-ne-none (suc n) (a ∷ c ∷ s) e l h =
    ground (arith, hex_value-ne-none a, hex_value-ne-none c, hex_decode-ne-none n s)

decoded-eq-ok : (o : Option Bytes) {b : Bytes} → decoded o ≡ ok b → o ≡ some b
decoded-eq-ok (some x) h = cc
decoded-eq-ok none h = cc

-- Whatever is accepted as a digest of a width is the lowercase hex of the bytes that come back,
-- which are bytes and as many as the width.
pub hex_encode-parse_digest :
    (s : Bytes) (width : ℕ) {b : Bytes}
    → parse_digest s width ≡ ok b
    → (hex_encode b ≡ s) × IsBytes b × (length b ≡ width)
unfolding parse_digest
hex_encode-parse_digest s width {b} h =
    let (w, h1) = refuse_if-eq-ok (width == 0) bad_width h in
    let (l, h2) = refuse_if-eq-ok (not (length s == 2 * width)) (wrong_length (length s)) h1 in
    let (x, h3) = refuse_if-eq-ok (not (all_lower_hex s)) not_lowercase_hex h2 in
    let lower : all_lower_hex s ≡ true = ground arith in
    let same : length s ≡ 2 * width = ground arith in
    let (i, j, k) = hex_encode-hex_decode s lower (decoded-eq-ok (hex_decode s) h3) in
    (i, j, omega arith)
