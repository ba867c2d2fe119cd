-- ===== src/Refvalues/Flags/RoundTrip.antt =====
-- Register pins from the command line: what is accepted, and that what is printed reads back.
use attestation_go.Base.{
  ℕ, ◌+◌, ◌/◌, ◌%◌, ◌≤◌, ◌<◌, ◌≡◌, inl, inr, refl, sym, ap, ◌∙◌, arith, ℤ, pos, negsuc, int_eq,
  false, Option, none, some, List, [], ◌∷◌, ◌++◌, append-nil, append_assoc, Bytes, IsBytes, length,
  All, All-append, ok, map_err, bind-eq-ok, map_err-eq-ok, Bool-cases, ◌==◌, ltb,
}
use attestation_go.Teetypes.Text.{trim_space}
use attestation_go.Teetypes.Text.Plain.{IsPlain, IsPlainByte, trim_space-plain}
use attestation_go.Teetypes.Digest.{parse_digest, hex_digit, hex_encode}
use attestation_go.Teetypes.Digest.RoundTrip.{parse_digest-hex_encode, hex_encode-parse_digest}
use attestation_go.Teetypes.Claims.{pin_at, Pins, sort_pins}
use attestation_go.Teetypes.Claims.Registers.{IsMap, All-sort_pins, IsMap-sort_pins}
use attestation_go.Base.Decimal.{decimal_digit}
use attestation_go.Refvalues.Config.Pinned.{IsPinnable}
use attestation_go.Refvalues.Flags.{
  bad_value, cut_equals, atoi, cut_pin, index_of, refuse_twice, parse_pin, parse_pins_onto,
  parse_register_pins, format_each, format_register_pins,
}

pin_at-none : (i : ℤ) (pins : Pins) → pin_at i pins ≡ none → All (λ e. int_eq i e.0 ≡ false) pins
unfolding pin_at
pin_at-none i [] h = tt
pin_at-none i ((j, v) ∷ pins) h = elim (Bool-cases (int_eq i j)) [
  | inl same ↦ cc (rw same at h)
  | inr other ↦ (other, pin_at-none i pins (rw other at h))
]

IsMap-snoc :
    (pins : Pins) (e : ℤ × Bytes) → IsMap pins → pin_at e.0 pins ≡ none → IsMap (pins ++ (e ∷ []))
unfolding pin_at
IsMap-snoc [] e m h = (tt, tt)
IsMap-snoc ((j, v) ∷ pins) e m h = elim (Bool-cases (int_eq e.0 j)) [
  | inl same ↦ cc (rw same at h)
  | inr other ↦ (
    All-append (λ d. int_eq d.0 j ≡ false) pins (e ∷ []) m.0 (other, tt),
    IsMap-snoc pins e m.1 (rw other at h),
  )
]

index_of_sound :
    (p : Bytes) (o : Option ℤ) {z : ℤ}
    → index_of p o ≡ ok z
    → (i : ℕ) × (z ≡ pos i) × (1 ≤ i) × (i ≤ 3)
index_of_sound p none h = cc
index_of_sound p (some (negsuc n)) h = cc
index_of_sound p (some (pos n)) h = elim (Bool-cases (n == 0)) [
  | inl none_left ↦ cc (rw none_left at h)
  | inr nonzero ↦ elim (Bool-cases (ltb 3 n)) [
    | inl large ↦ cc (rw (nonzero, large) at h)
    | inr small ↦ (n, cc (rw (nonzero, small) at h), ground arith, ground arith)
  ]
]

refuse_twice-eq-ok : (i : ℤ) (o : Option Bytes) → refuse_twice i o ≡ ok tt → o ≡ none
refuse_twice-eq-ok i none h = refl
refuse_twice-eq-ok i (some v) h = cc

parse_pin_sound :
    (out : Pins) (p : Bytes) {e : ℤ × Bytes}
    → parse_pin out p ≡ ok e
    → IsPinnable e × (pin_at e.0 out ≡ none)
unfolding parse_pin
parse_pin_sound out p {e} h =
    let (parts, _, h1) = bind-eq-ok (cut_pin p (cut_equals p)) _ h in
    let (idx, indexed, h2) = bind-eq-ok (index_of p (atoi (trim_space parts.0))) _ h1 in
    let (_, fresh, h3) = bind-eq-ok (refuse_twice idx (pin_at idx out)) _ h2 in
    let (v, parsed, h4) =
      bind-eq-ok (map_err (bad_value idx) (parse_digest (trim_space parts.1) 48)) _ h3 in
    let (i, z, lo, hi) = index_of_sound p (atoi (trim_space parts.0)) indexed in
    let (_, y, l) =
      hex_encode-parse_digest (trim_space parts.1) 48 (map_err-eq-ok (bad_value idx) _ parsed) in
    let same : (idx, v) ≡ e = cc in
    rw (← same) ((i, z, lo, hi, y, l), refuse_twice-eq-ok idx (pin_at idx out) fresh)

parse_pins_onto_sound :
    (out : Pins) (raws : List Bytes) {pins : Pins}
    → All IsPinnable out
    → IsMap out
    → parse_pins_onto out raws ≡ ok pins
    → All IsPinnable pins × IsMap pins
unfolding parse_pins_onto
parse_pins_onto_sound out [] {pins} a m h = let e : out ≡ pins = cc in rw (← e) (a, m)
parse_pins_onto_sound out (raw ∷ raws) a m h = elim (Bool-cases (length (trim_space raw) == 0)) [
  | inl blank ↦ parse_pins_onto_sound out raws a m (rw blank at h)
  | inr filled ↦
      let (e, parsed, h1) = bind-eq-ok (parse_pin out (trim_space raw)) _ (rw filled at h) in
      let (pinnable, fresh) = parse_pin_sound out (trim_space raw) parsed in
      parse_pins_onto_sound (out ++ (e ∷ [])) raws
        (All-append IsPinnable out (e ∷ []) a (pinnable, tt)) (IsMap-snoc out e m fresh) h1
]

-- The register pins that the flags give are each of register 1, 2 or 3, once, with 48 bytes.
pub parse_register_pins_bounds :
    (raws : List Bytes) {pins : Pins}
    → parse_register_pins raws ≡ ok pins
    → All IsPinnable pins × IsMap pins
unfolding parse_register_pins
parse_register_pins_bounds raws h = parse_pins_onto_sound [] raws tt tt h

hex_digit-IsPlainByte : (d : ℕ) → d < 16 → IsPlainByte (hex_digit d)
unfolding hex_digit
hex_digit-IsPlainByte d h = (ground arith, ground arith)

pub hex_encode-IsPlain : (v : Bytes) → IsBytes v → IsPlain (hex_encode v)
unfolding hex_encode
hex_encode-IsPlain [] h = tt
hex_encode-IsPlain (b ∷ v) h = (
  hex_digit-IsPlainByte (b / 16) (omega (arith, h.0)),
  (hex_digit-IsPlainByte (b % 16) (omega arith), hex_encode-IsPlain v h.1),
)

atoi_digit : (i : ℕ) → i ≤ 3 → atoi ((48 + i) ∷ []) ≡ some (pos i)
unfolding atoi
atoi_digit i h = ground arith

abbrev pin_text : ℕ → Bytes → Bytes
pin_text i v = (48 + i) ∷ b'=' ∷ hex_encode v

cut_equals-pin_text :
    (i : ℕ) (v : Bytes) → i ≤ 3 → cut_equals (pin_text i v) ≡ some ((48 + i) ∷ [], hex_encode v)
unfolding cut_equals
cut_equals-pin_text i v h = let differs : ((48 + i) == b'=') ≡ false = ground arith in rw differs

parse_pin-pin_text :
    (out : Pins) (i : ℕ) (v : Bytes)
    → 1 ≤ i
    → i ≤ 3
    → IsBytes v
    → length v ≡ 48
    → pin_at (pos i) out ≡ none
    → parse_pin out (pin_text i v) ≡ ok (pos i, v)
unfolding parse_pin
parse_pin-pin_text out i v lo hi b l fresh =
    let digit : IsPlain ((48 + i) ∷ []) = ((omega arith, omega arith), tt) in
    let nonzero : (i == 0) ≡ false = ground arith in
    let small : ltb 3 i ≡ false = ground arith in
    let read : parse_digest (hex_encode v) 48 ≡ ok v =
      rw l at (parse_digest-hex_encode v b (omega (arith, l))) in
    rw (
      cut_equals-pin_text i v hi,
      trim_space-plain ((48 + i) ∷ []) digit,
      atoi_digit i hi,
      nonzero,
      small,
      fresh,
      trim_space-plain (hex_encode v) (hex_encode-IsPlain v b),
      read,
    )

pin_at-snoc :
    (i : ℤ) (out : Pins) (e : ℤ × Bytes)
    → pin_at i out ≡ none
    → int_eq i e.0 ≡ false
    → pin_at i (out ++ (e ∷ [])) ≡ none
unfolding pin_at
pin_at-snoc i [] e h d = rw d
pin_at-snoc i ((j, v) ∷ out) e h d = elim (Bool-cases (int_eq i j)) [
  | inl same ↦ cc (rw same at h)
  | inr other ↦ rw other (pin_at-snoc i out e (rw other at h) d)
]

All-snoc :
    (out : Pins) (e : ℤ × Bytes) (pins : Pins)
    → All (λ d. pin_at d.0 out ≡ none) pins
    → All (λ d. int_eq d.0 e.0 ≡ false) pins
    → All (λ d. pin_at d.0 (out ++ (e ∷ [])) ≡ none) pins
All-snoc out e [] h d = tt
All-snoc out e (x ∷ pins) h d = (pin_at-snoc x.0 out e h.0 d.0, All-snoc out e pins h.1 d.1)

parse_pins_onto-format_each :
    (out pins : Pins)
    → All IsPinnable pins
    → IsMap pins
    → All (λ e. pin_at e.0 out ≡ none) pins
    → parse_pins_onto out (format_each pins) ≡ ok (out ++ pins)
unfolding parse_pins_onto format_each
parse_pins_onto-format_each out [] a m fresh = ap ok (sym (append-nil out))
parse_pins_onto-format_each out ((z, v) ∷ pins) ((i, zi, lo, hi, b, l), a) m fresh =
    let plain : IsPlain (pin_text i v) =
      ((omega arith, omega arith), ((omega arith, omega arith), hex_encode-IsPlain v b)) in
    let filled : (length (pin_text i v) == 0) ≡ false = ground arith in
    let unseen : pin_at (pos i) out ≡ none = rw zi at fresh.0 in
    let rest =
      parse_pins_onto-format_each (out ++ ((pos i, v) ∷ [])) pins a m.1
        (All-snoc out (pos i, v) pins fresh.1 (rw zi at m.0)) in
    rw
      (
        zi,
        decimal_digit i (omega (arith, hi)),
        trim_space-plain (pin_text i v) plain,
        filled,
        parse_pin-pin_text out i v lo hi b l unseen,
      )
      (rest ∙ ap ok (append_assoc out ((pos i, v) ∷ []) pins))

fresh_at_first : (pins : Pins) → All (λ e. pin_at e.0 [] ≡ none) pins
unfolding pin_at
fresh_at_first [] = tt
fresh_at_first (e ∷ pins) = (refl, fresh_at_first pins)

-- Pins of registers 1, 2 and 3, each once and of 48 bytes, read back from the flags that they print as,
-- in the order of their indices.
pub parse_register_pins-format :
    (pins : Pins)
    → All IsPinnable pins
    → IsMap pins
    → parse_register_pins (format_register_pins pins) ≡ ok (sort_pins pins)
unfolding parse_register_pins format_register_pins
parse_register_pins-format pins a m =
    parse_pins_onto-format_each [] (sort_pins pins) ((All-sort_pins IsPinnable pins).1 a)
      (IsMap-sort_pins pins m) (fresh_at_first (sort_pins pins))
