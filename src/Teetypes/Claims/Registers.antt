-- ===== src/Teetypes/Claims/Registers.antt =====
-- What the register accessors read, and what a set of pinned registers requires.
use attestation_go.Base.{
  ℕ, ◌≤◌, ◌≡◌, ◌↔◌, ◌⊎◌, Any, inl, inr, refl, ℤ, pos, negsuc, int_le, int_eq, false, not, Option,
  none, some, [], ◌∷◌, arith, Bytes, IsBytes, length, All, bytes_eq, bytes_eq_iff, bytes_eq_refl,
  ltb, Result, ok, ◌>>◌, refuse_if, bind-eq-ok, map_err-eq-ok, refuse_if-eq-ok, Bool-cases,
}
use attestation_go.Teetypes.Digest.{parse_digest, hex_encode}
use attestation_go.Teetypes.Digest.RoundTrip.{hex_encode-parse_digest}
use attestation_go.Teetypes.Claims.{
  Value, text, flag, number, object, lookup, Claims, ClaimError, malformed, register_mismatch,
  text_at, rtmr_key, rtmr_at, rtmr, Pins, insert, sort_pins, check_each, check_rtmrs,
}

pub text_at-eq-ok :
    (o : Option Value) (key : Bytes) {v : Bytes} → text_at o key ≡ ok v → o ≡ some (text v)
text_at-eq-ok (some (text [])) key h = cc
text_at-eq-ok (some (text (c ∷ s))) key h = cc
text_at-eq-ok (some (flag _)) key h = cc
text_at-eq-ok (some (number _)) key h = cc
text_at-eq-ok (some (object _)) key h = cc
text_at-eq-ok none key h = cc

-- A register that reads back stands in the claims as the lowercase hex of 48 bytes, under the
-- key of an index from 0 to 3.
pub rtmr-eq-ok :
    (c : Claims) (i : ℕ) {b : Bytes}
    → rtmr c (pos i) ≡ ok b
    → (i ≤ 3)
      × (lookup (rtmr_key i) c.platform_data ≡ some (text (hex_encode b)))
      × IsBytes b
      × (length b ≡ 48)
unfolding rtmr
rtmr-eq-ok c i {b} h = elim (Bool-cases (ltb 3 i)) [
  | inl out ↦ cc (rw out at h)
  | inr within ↦
      let h1 : rtmr_at c i ≡ ok b = rw within at h in
      let (v, e, p) =
        bind-eq-ok (text_at (lookup (rtmr_key i) c.platform_data) (rtmr_key i)) _ h1 in
      let (x, y, z) =
        hex_encode-parse_digest v 48
          (map_err-eq-ok (malformed (rtmr_key i)) (parse_digest v 48) p) in
      (
        ground arith,
        rw x (text_at-eq-ok (lookup (rtmr_key i) c.platform_data) (rtmr_key i) e),
        y,
        z,
      )
]

abbrev Matches : Claims → ℤ × Bytes → Type 0
Matches c e = rtmr c e.0 ≡ ok e.1

register_matches :
    (idx : ℤ) (got want : Bytes) {k : Result ClaimError (Unit {0})}
    → (refuse_if (not (bytes_eq got want)) (register_mismatch idx) >> k) ≡ ok tt
    → (got ≡ want) × (k ≡ ok tt)
register_matches idx got want h =
    let (same, rest) = refuse_if-eq-ok (not (bytes_eq got want)) (register_mismatch idx) h in
    ((bytes_eq_iff got want).0 (ground arith), rest)

check_each_sound : (c : Claims) (pins : Pins) → check_each c pins ≡ ok tt → All (Matches c) pins
unfolding check_each
check_each_sound c [] h = tt
check_each_sound c ((idx, want) ∷ rest) h =
    let (got, read, later) = bind-eq-ok (rtmr c idx) _ h in
    let (same, tail) = register_matches idx got want later in
    (rw (← same) read, check_each_sound c rest tail)

check_each_complete : (c : Claims) (pins : Pins) → All (Matches c) pins → check_each c pins ≡ ok tt
unfolding check_each
check_each_complete c [] h = refl
check_each_complete c ((idx, want) ∷ rest) h =
    rw (h.0, bytes_eq_refl want) (check_each_complete c rest h.1)

module _ (P : ℤ × Bytes → Type 0) where
  All-insert : (e : ℤ × Bytes) (es : Pins) → All P (insert e es) ↔ (P e × All P es)
  unfolding insert
  All-insert e [] = (λ h. h, λ h. h)
  All-insert e (d ∷ ds) = elim (Bool-cases (int_le e.0 d.0)) [
    | inl le ↦ rw le (λ h. h, λ h. h)
    | inr gt ↦
        let ih = All-insert e ds in
        rw gt (λ h. ((ih.0 h.1).0, (h.0, (ih.0 h.1).1)), λ h. (h.1.0, ih.1 (h.0, h.1.1)))
  ]

  Any-insert : (e : ℤ × Bytes) (es : Pins) → Any P (insert e es) ↔ (P e ⊎ Any P es)
  unfolding insert
  Any-insert e [] = (λ h. h, λ h. h)
  Any-insert e (d ∷ ds) = elim (Bool-cases (int_le e.0 d.0)) [
    | inl le ↦ rw le (λ h. h, λ h. h)
    | inr gt ↦
        let ih = Any-insert e ds in
        rw gt (
          λ h. elim h [
            | inl first ↦ inr (inl first)
            | inr later ↦ elim (ih.0 later) [ inl x ↦ inl x | inr y ↦ inr (inr y) ]
          ],
          λ h. elim h [
            | inl x ↦ inr (ih.1 (inl x))
            | inr later ↦ elim later [ inl first ↦ inl first | inr y ↦ inr (ih.1 (inr y)) ]
          ],
        )
  ]

  pub Any-sort_pins : (pins : Pins) → Any P (sort_pins pins) ↔ Any P pins
  unfolding sort_pins
  Any-sort_pins [] = (λ h. h, λ h. h)
  Any-sort_pins (e ∷ es) =
      let ih = Any-sort_pins es in
      let step = Any-insert e (sort_pins es) in
      (
        λ h. elim (step.0 h) [ inl x ↦ inl x | inr y ↦ inr (ih.0 y) ],
        λ h. step.1 (elim h [ inl x ↦ inl x | inr y ↦ inr (ih.1 y) ]),
      )

  pub All-sort_pins : (pins : Pins) → All P (sort_pins pins) ↔ All P pins
  unfolding sort_pins
  All-sort_pins [] = (λ h. h, λ h. h)
  All-sort_pins (e ∷ es) =
      let ih = All-sort_pins es in
      let step = All-insert e (sort_pins es) in
      (λ h. ((step.0 h).0, ih.0 (step.0 h).1), λ h. step.1 (h.0, ih.1 h.1))

-- Each index has one entry, as in a Go map.
abbrev pub IsMap : Pins → Type 0
IsMap [] = Unit {0}
IsMap ((i, v) ∷ pins) = All (λ e. int_eq e.0 i ≡ false) pins × IsMap pins

int_eq_sym : (a b : ℤ) → int_eq a b ≡ false → int_eq b a ≡ false
unfolding int_eq
int_eq_sym (pos a) (pos b) h = ground arith
int_eq_sym (pos a) (negsuc b) h = refl
int_eq_sym (negsuc a) (pos b) h = refl
int_eq_sym (negsuc a) (negsuc b) h = ground arith

IsMap-insert :
    (e : ℤ × Bytes) (es : Pins)
    → All (λ d. int_eq d.0 e.0 ≡ false) es
    → IsMap es
    → IsMap (insert e es)
unfolding insert
IsMap-insert e [] h m = (tt, tt)
IsMap-insert e (d ∷ ds) h m = elim (Bool-cases (int_le e.0 d.0)) [
  | inl le ↦ rw le (h, m)
  | inr gt ↦ rw gt (
    (All-insert (λ x. int_eq x.0 d.0 ≡ false) e ds).1 (int_eq_sym d.0 e.0 h.0, m.0),
    IsMap-insert e ds h.1 m.1,
  )
]

pub IsMap-sort_pins : (pins : Pins) → IsMap pins → IsMap (sort_pins pins)
unfolding sort_pins
IsMap-sort_pins [] m = tt
IsMap-sort_pins (e ∷ es) m =
    IsMap-insert e (sort_pins es) ((All-sort_pins (λ d. int_eq d.0 e.0 ≡ false) es).1 m.0)
      (IsMap-sort_pins es m.1)

-- The check of the pinned registers passes exactly when every pinned register reads back as the
-- pinned value, whatever the order of the pins.
pub check_rtmrs_iff :
    (c : Claims) (pins : Pins) → (check_rtmrs c pins ≡ ok tt) ↔ All (λ e. rtmr c e.0 ≡ ok e.1) pins
unfolding check_rtmrs
check_rtmrs_iff c pins = (
  λ h. (All-sort_pins (Matches c) pins).0 (check_each_sound c (sort_pins pins) h),
  λ h. check_each_complete c (sort_pins pins) ((All-sort_pins (Matches c) pins).1 h),
)
