-- ===== src/Refvalues/Config/Pinned.antt =====
-- What the fields of an entry of the config file pin.
use attestation_go.Base.{
  ℕ, zero, suc, ◌+◌, ◌≤◌, ◌<◌, ◌≡◌, refl, arith, ℤ, pos, int_eq, false, Option, none, some, List,
  [], ◌∷◌, Bytes, IsBytes, replicate, length, All, ok, bind-eq-ok, map_err-eq-ok, refuse_if-eq-ok,
  ltb, ◌==◌,
}
use attestation_go.Teetypes.Digest.RoundTrip.{hex_encode-parse_digest}
use attestation_go.Teetypes.Claims.{Pins}
use attestation_go.Teetypes.Claims.Registers.{IsMap}
use attestation_go.Refvalues.Config.{
  bad_rtmr, rtmr0_pinned, too_many_rtmrs, max_rtmrs, decode_register, decode_pin, decode_from,
  decode_rtmrs,
}

-- A register that a file may pin: one of 1, 2 and 3, with 48 bytes.
abbrev pub IsPinnable : ℤ × Bytes → Type 0
IsPinnable e = (i : ℕ) × (e.0 ≡ pos i) × (1 ≤ i) × (i ≤ 3) × IsBytes e.1 × (length e.1 ≡ 48)

abbrev In : ℕ → ℕ → ℤ × Bytes → Type 0
In lo hi e =
    (i : ℕ) × (e.0 ≡ pos i) × (lo ≤ i) × (0 < i) × (i < hi) × IsBytes e.1 × (length e.1 ≡ 48)

IsBytes-zeros : (n : ℕ) → IsBytes (replicate n 0)
IsBytes-zeros zero = tt
IsBytes-zeros (suc n) = (omega arith, IsBytes-zeros n)

decode_pin_sound :
    (idx : ℕ) (v : Bytes) {d : Bytes} → decode_pin idx v ≡ ok d → IsBytes d × (length d ≡ 48)
unfolding decode_register
decode_pin_sound idx [] {d} h = let e : replicate 48 0 ≡ d = cc in rw (← e) (IsBytes-zeros 48, refl)
decode_pin_sound idx (c ∷ s) h =
    let (_, y, z) = hex_encode-parse_digest (c ∷ s) 48 (map_err-eq-ok (bad_rtmr idx) _ h) in (y, z)

weaken : (lo hi : ℕ) (pins : Pins) → All (In (lo + 1) hi) pins → All (In lo hi) pins
weaken lo hi [] h = tt
weaken lo hi (e ∷ pins) h =
    ((h.0.0, h.0.1, omega (arith, h.0.2), h.0.3, h.0.4, h.0.5, h.0.6), weaken lo hi pins h.1)

apart :
    (idx hi : ℕ) (pins : Pins)
    → All (In (idx + 1) hi) pins
    → All (λ e. int_eq e.0 (pos idx) ≡ false) pins
unfolding int_eq
apart idx hi [] h = tt
apart idx hi (e ∷ pins) h = (rw h.0.1 (ground (arith, h.0.2)), apart idx hi pins h.1)

decode_from_sound :
    (idx hi : ℕ) (raw : List (Option Bytes)) {pins : Pins}
    → hi ≡ idx + length raw
    → decode_from idx raw ≡ ok pins
    → All (In idx hi) pins × IsMap pins
unfolding decode_from
decode_from_sound idx hi [] {pins} w h = let e : [] ≡ pins = cc in rw (← e) (tt, tt)
decode_from_sound idx hi (none ∷ raw) {pins} w h =
    let (a, m) = decode_from_sound (idx + 1) hi raw (omega arith) h in (weaken idx hi pins a, m)
decode_from_sound idx hi (some v ∷ raw) {pins} w h =
    let (nonzero, h1) = refuse_if-eq-ok (idx == 0) rtmr0_pinned h in
    let (d, decoded, h2) = bind-eq-ok (decode_pin idx v) _ h1 in
    let (out, later, h3) = bind-eq-ok (decode_from (idx + 1) raw) _ h2 in
    let (a, m) = decode_from_sound (idx + 1) hi raw (omega arith) later in
    let (x, y) = decode_pin_sound idx v decoded in
    let e : (pos idx, d) ∷ out ≡ pins = cc in
    rw (← e) (
      ((idx, refl, omega arith, ground arith, omega arith, x, y), weaken idx hi out a),
      (apart idx hi out a, m),
    )

four : (hi : ℕ) (pins : Pins) → hi ≤ 4 → All (In 0 hi) pins → All IsPinnable pins
four hi [] le h = tt
four hi (e ∷ pins) le h =
    ((h.0.0, h.0.1, omega (arith, h.0.3), omega (arith, h.0.4), h.0.5, h.0.6), four hi pins le h.1)

-- The registers of an entry are each one of 1, 2 and 3, pinned once, to 48 bytes: register 0 is never
-- pinned.
pub decode_rtmrs_bounds :
    (raw : Option (List (Option Bytes))) {pins : Pins}
    → decode_rtmrs raw ≡ ok pins
    → All IsPinnable pins × IsMap pins
unfolding decode_rtmrs
decode_rtmrs_bounds none {pins} h = let e : [] ≡ pins = cc in rw (← e) (tt, tt)
decode_rtmrs_bounds (some raw) {pins} h =
    let (few, h1) = refuse_if-eq-ok (ltb max_rtmrs (length raw)) (too_many_rtmrs (length raw)) h in
    let (a, m) = decode_from_sound 0 (length raw) raw (omega arith) h1 in
    (four (length raw) pins (ground arith) a, m)
