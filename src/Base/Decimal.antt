-- ===== src/Base/Decimal.antt =====
-- The decimal text of an int, as `%d` prints it.
use attestation_go.Base.{
  ℕ, zero, suc, ◌+◌, ◌/◌, ◌%◌, ◌<◌, ◌≡◌, ℤ, pos, negsuc, [], ◌∷◌, Bytes, ltb, if◌then◌else◌, arith,
}

-- The digits of a number in front of a text; the fuel is one more than the number.
unfoldable pub digits_onto : ℕ → ℕ → Bytes → Bytes
digits_onto zero n s = s
digits_onto (suc fuel) n s =
    let more = digits_onto fuel (n / 10) ((48 + n % 10) ∷ s) in
    if ltb n 10 then (48 + n) ∷ s else more

unfoldable pub decimal : ℤ → Bytes
unfolding digits_onto
decimal (pos n) = digits_onto (suc n) n []
decimal (negsuc n) = b'-' ∷ digits_onto (suc (suc n)) (suc n) []

pub decimal_digit : (n : ℕ) → n < 10 → decimal (pos n) ≡ (48 + n) ∷ []
unfolding decimal
decimal_digit n h = ground arith
