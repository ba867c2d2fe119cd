-- ===== src/Refvalues/Flags.antt =====
-- refvalues/flags.go: launch digests and register pins from the command line.
pub mod RoundTrip
use attestation_go.Base.{
  ℕ, ◌+◌, ◌-◌, ◌*◌, ◌^◌, ℤ, pos, negsuc, Bool, true, false, not, ◌&&◌, Option, none, some, List, [],
  ◌∷◌, ◌++◌, Bytes, length, leb, ltb, ◌==◌, if◌then◌else◌, Result, ok, err, ◌>>=◌, ◌>>◌, refuse_if,
  map_err,
}
use attestation_go.Teetypes.Text.{trim_space}
use attestation_go.Teetypes.Digest.{DigestError, parse_digest, hex_encode}
use attestation_go.Teetypes.Claims.{pin_at, Pins, sort_pins}
use attestation_go.Runtimemeasure.Fold.{size}
use attestation_go.Base.Decimal.{decimal}

pub data FlagError : Type 0 where
  bad_measurement : Bytes → DigestError → FlagError
  no_equals_sign not_a_number index_not_pinnable : Bytes → FlagError
  register_zero : FlagError
  pinned_twice : ℤ → FlagError
  bad_value : ℤ → DigestError → FlagError

abbrev first_part : ℕ → List Bytes → List Bytes
first_part c [] = []
first_part c (p ∷ ps) = (c ∷ p) ∷ ps

-- strings.Split(raw, ",")
unfoldable pub split_commas : Bytes → List Bytes
split_commas [] = [] ∷ []
split_commas (c ∷ s) =
    let rest = split_commas s in if c == b',' then [] ∷ rest else first_part c rest

unfoldable pub parse_hex_measurements_list : List Bytes → Result FlagError (List Bytes)
parse_hex_measurements_list [] = ok []
parse_hex_measurements_list (raw ∷ raws) =
    let rest = parse_hex_measurements_list raws in
    let p = trim_space raw in
    if length p == 0
    then rest
    else (map_err (bad_measurement p) (parse_digest p size) >>= λ decoded.
        rest >>= λ out. ok (decoded ∷ out))

unfoldable pub parse_hex_measurements : Bytes → Result FlagError (List Bytes)
unfolding split_commas parse_hex_measurements_list
parse_hex_measurements raw = parse_hex_measurements_list (split_commas raw)

abbrev before_onto : ℕ → Option (Bytes × Bytes) → Option (Bytes × Bytes)
before_onto c none = none
before_onto c (some (a, b)) = some (c ∷ a, b)

-- strings.Cut(p, "=")
unfoldable pub cut_equals : Bytes → Option (Bytes × Bytes)
cut_equals [] = none
cut_equals (c ∷ s) = if c == b'=' then some ([], s) else before_onto c (cut_equals s)

abbrev digit_onto : ℕ → ℕ → Option ℕ
digit_onto acc c = if leb b'0' c && leb c b'9' then some (acc * 10 + (c - 48)) else none

unfoldable pub read_digits : Option ℕ → Bytes → Option ℕ
read_digits none s = none
read_digits (some acc) [] = some acc
read_digits (some acc) (c ∷ s) = read_digits (digit_onto acc c) s

abbrev unsigned : Bytes → Option ℕ
unsigned [] = none
unsigned (c ∷ s) = read_digits (some 0) (c ∷ s)

abbrev negated : Option ℕ → Option ℤ
negated none = none
negated (some n) =
    if n == 0 then some (pos 0) else if leb n (2 ^ 63) then some (negsuc (n - 1)) else none

abbrev positive : Option ℕ → Option ℤ
positive none = none
positive (some n) = if ltb n (2 ^ 63) then some (pos n) else none

-- strconv.Atoi, of a 64-bit int; `none` is an error.
unfoldable pub atoi : Bytes → Option ℤ
unfolding read_digits
atoi [] = none
atoi (c ∷ s) =
    if c == b'-'
    then negated (unsigned s)
    else if c == b'+'
    then positive (unsigned s)
    else positive (unsigned (c ∷ s))

abbrev pub cut_pin : Bytes → Option (Bytes × Bytes) → Result FlagError (Bytes × Bytes)
cut_pin p none = err (no_equals_sign p)
cut_pin p (some parts) = ok parts

abbrev pub index_of : Bytes → Option ℤ → Result FlagError ℤ
index_of p none = err (not_a_number p)
index_of p (some (negsuc n)) = err (index_not_pinnable p)
index_of p (some (pos n)) =
    if n == 0 then err register_zero else if ltb 3 n then err (index_not_pinnable p) else ok (pos n)

abbrev pub refuse_twice : ℤ → Option Bytes → Result FlagError (Unit {0})
refuse_twice idx none = ok tt
refuse_twice idx (some v) = err (pinned_twice idx)

-- One entry that is not blank, with the registers before it.
unfoldable pub parse_pin : Pins → Bytes → Result FlagError (ℤ × Bytes)
unfolding cut_equals atoi
parse_pin out p = do
  parts ← cut_pin p (cut_equals p)
  idx ← index_of p (atoi (trim_space parts.0))
  refuse_twice idx (pin_at idx out)
  v ← map_err (bad_value idx) (parse_digest (trim_space parts.1) size)
  ok (idx, v)

-- The loop of ParseRegisterPins, with the map that it fills.
unfoldable pub parse_pins_onto : Pins → List Bytes → Result FlagError Pins
unfolding parse_pin
parse_pins_onto out [] = ok out
parse_pins_onto out (raw ∷ raws) =
    let skipped = parse_pins_onto out raws in
    let p = trim_space raw in
    if length p == 0
    then skipped
    else (parse_pin out p >>= λ e. parse_pins_onto (out ++ (e ∷ [])) raws)

-- ParseRegisterPins
unfoldable pub parse_register_pins : List Bytes → Result FlagError Pins
unfolding parse_pins_onto
parse_register_pins raw = parse_pins_onto [] raw

unfoldable pub parse_register_pins_string : Bytes → Result FlagError Pins
unfolding parse_register_pins split_commas
parse_register_pins_string raw =
    if length (trim_space raw) == 0 then ok [] else parse_register_pins (split_commas raw)

unfoldable pub format_each : Pins → List Bytes
unfolding decimal hex_encode
format_each [] = []
format_each ((idx, v) ∷ pins) = (decimal idx ++ (b'=' ∷ hex_encode v)) ∷ format_each pins

-- FormatRegisterPins
unfoldable pub format_register_pins : Pins → List Bytes
unfolding format_each sort_pins
format_register_pins rtmrs = format_each (sort_pins rtmrs)
