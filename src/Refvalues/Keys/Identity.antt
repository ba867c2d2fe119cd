-- ===== src/Refvalues/Keys/Identity.antt =====
-- The tuple key tells apart all that a pin is matched on, and nothing else.
use attestation_go.Base.{
  ℕ, zero, suc, ◌+◌, ◌/◌, ◌%◌, ◌≤◌, ◌<◌, ◌≡◌, ◌≢◌, ◌↔◌, ◌∙◌, refl, sym, ap, arith, ℤ, pos, Option,
  none, some, [], ◌∷◌, ◌++◌, Bytes, IsBytes, codes, All, append_assoc, append-nil,
}
use attestation_go.Teetypes.Digest.{hex_digit, hex_encode}
use attestation_go.Teetypes.Claims.{Pins, sort_pins}
use attestation_go.Teetypes.Claims.Registers.{All-sort_pins}
use attestation_go.Remote.Images.{ImagePin}
use attestation_go.Base.Decimal.{decimal_digit}
use attestation_go.Refvalues.Keys.{registers_text, field_text, tuple_key}
use attestation_go.Refvalues.Config.Pinned.{IsPinnable}

-- A text that is empty or starts with a bar.
abbrev Ends : Bytes → Type 0
Ends [] = Unit {0}
Ends (c ∷ s) = c ≡ 124

-- A text that is empty or starts with a bar and a letter.
abbrev FieldEnds : Bytes → Type 0
FieldEnds [] = Unit {0}
FieldEnds (c ∷ []) = ⊥
FieldEnds (c ∷ d ∷ s) = (c ≡ 124) × (97 ≤ d)

FieldEnds-Ends : (x : Bytes) → FieldEnds x → Ends x
FieldEnds-Ends [] h = tt
FieldEnds-Ends (c ∷ []) h = absurd h
FieldEnds-Ends (c ∷ d ∷ s) h = h.0

hex_digit-ne : (d : ℕ) → d < 16 → hex_digit d ≢ 124
unfolding hex_digit
hex_digit-ne d h e = ground arith

hex_digit-inj : (d e : ℕ) → d < 16 → e < 16 → hex_digit d ≡ hex_digit e → d ≡ e
unfolding hex_digit
hex_digit-inj d e h g p = ground arith

not_hex_first : (v : ℕ) (b x y : Bytes) → v < 256 → Ends x → x ≢ hex_encode (v ∷ b) ++ y
unfolding hex_encode
not_hex_first v b [] y lt ends h = cc h
not_hex_first v b (c ∷ s) y lt ends h =
    let e : c ≡ hex_digit (v / 16) = cc in
    hex_digit-ne (v / 16) (omega arith) (omega (arith, e, ends))

hex_encode-append :
    (a b x y : Bytes)
    → IsBytes a
    → IsBytes b
    → Ends x
    → Ends y
    → hex_encode a ++ x ≡ hex_encode b ++ y
    → (a ≡ b) × (x ≡ y)
unfolding hex_encode
hex_encode-append [] [] x y ha hb ex ey h = (refl, h)
hex_encode-append [] (v ∷ b) x y ha hb ex ey h = absurd (not_hex_first v b x y hb.0 ex h)
hex_encode-append (u ∷ a) [] x y ha hb ex ey h = absurd (not_hex_first u a y x ha.0 ey (sym h))
hex_encode-append (u ∷ a) (v ∷ b) x y ha hb ex ey h =
    let p : hex_digit (u / 16) ≡ hex_digit (v / 16) = cc in
    let q : hex_digit (u % 16) ≡ hex_digit (v % 16) = cc in
    let t : hex_encode a ++ x ≡ hex_encode b ++ y = cc in
    let hi = hex_digit-inj (u / 16) (v / 16) (omega (arith, ha.0)) (omega (arith, hb.0)) p in
    let lo = hex_digit-inj (u % 16) (v % 16) (omega arith) (omega arith) q in
    let same : u ≡ v = omega (arith, hi, lo) in
    let (e, f) = hex_encode-append a b x y ha.1 hb.1 ex ey t in (cc, f)

registers_text-cons :
    (i : ℕ) (v : Bytes) (rest : Pins) (x : Bytes)
    → i < 10
    → registers_text ((pos i, v) ∷ rest) ++ x
      ≡ b'|' ∷ (48 + i) ∷ b'=' ∷ (hex_encode v ++ (registers_text rest ++ x))
unfolding registers_text
registers_text-cons i v rest x h =
    rw (decimal_digit i h)
      (ap (λ s. b'|' ∷ (48 + i) ∷ b'=' ∷ s) (append_assoc (hex_encode v) (registers_text rest) x))

Ends-registers_text :
    (a : Pins) (x : Bytes) → All IsPinnable a → Ends x → Ends (registers_text a ++ x)
unfolding registers_text
Ends-registers_text [] x h ex = ex
Ends-registers_text ((z, v) ∷ a) x h ex = refl

not_register : (x : Bytes) (i : ℕ) (s : Bytes) → FieldEnds x → i ≤ 3 → x ≢ b'|' ∷ (48 + i) ∷ s
not_register [] i s h le e = cc e
not_register (c ∷ []) i s h le e = absurd h
not_register (c ∷ d ∷ r) i s h le e = let p : d ≡ 48 + i = cc in omega (arith, p, h.1, le)

registers_text-first :
    (z : ℤ) (i : ℕ) (v : Bytes) (rest : Pins) (x : Bytes)
    → z ≡ pos i
    → i ≤ 3
    → registers_text ((z, v) ∷ rest) ++ x
      ≡ b'|' ∷ (48 + i) ∷ b'=' ∷ (hex_encode v ++ (registers_text rest ++ x))
registers_text-first z i v rest x e le = rw e (registers_text-cons i v rest x (omega arith))

registers_text-nil : (x : Bytes) → x ≡ registers_text [] ++ x
unfolding registers_text
registers_text-nil x = refl

registers_text-append :
    (a b : Pins) (x y : Bytes)
    → All IsPinnable a
    → All IsPinnable b
    → FieldEnds x
    → FieldEnds y
    → registers_text a ++ x ≡ registers_text b ++ y
    → (a ≡ b) × (x ≡ y)
registers_text-append [] [] x y ha hb ex ey h = (refl, unfold registers_text in h)
registers_text-append [] ((z, v) ∷ b) x y ha ((i, zi, _, le, _, _), hb) ex ey h = absurd (
    not_register x i (b'=' ∷ (hex_encode v ++ (registers_text b ++ y))) ex le
      (registers_text-nil x ∙ h ∙ registers_text-first z i v b y zi le))
registers_text-append ((z, v) ∷ a) [] x y ((i, zi, _, le, _, _), ha) hb ex ey h = absurd (
    not_register y i (b'=' ∷ (hex_encode v ++ (registers_text a ++ x))) ey le
      (registers_text-nil y ∙ sym h ∙ registers_text-first z i v a x zi le))
registers_text-append ((z, v) ∷ a) ((w, u) ∷ b) x y ((i, zi, _, le, vb, _), ha)
      ((j, wj, _, le', ub, _), hb) ex ey h =
    let p =
      sym (registers_text-first z i v a x zi le) ∙ h ∙ registers_text-first w j u b y wj le' in
    let q : 48 + i ≡ 48 + j = cc (p) in
    let r : hex_encode v ++ (registers_text a ++ x) ≡ hex_encode u ++ (registers_text b ++ y) =
      cc (p) in
    let ij : i ≡ j = omega (arith, q) in
    let (e, rest) =
      hex_encode-append v u (registers_text a ++ x) (registers_text b ++ y) vb ub
        (Ends-registers_text a x ha (FieldEnds-Ends x ex))
        (Ends-registers_text b y hb (FieldEnds-Ends y ey)) r in
    let (f, g) = registers_text-append a b x y ha hb ex ey rest in (cc (ij, zi, wj, e, f), g)

abbrev WhenBytes : Option Bytes → Type 0
WhenBytes none = Unit {0}
WhenBytes (some v) = IsBytes v

abbrev digest_text : Option Bytes → Bytes
digest_text = field_text (codes "launch_file_digest=")

abbrev file_text : Option Bytes → Option Bytes → Bytes
file_text f d = field_text (codes "launch_file=") f ++ digest_text d

abbrev anchor_text : Option Bytes → Option Bytes → Option Bytes → Bytes
anchor_text a f d = field_text (codes "anchor=") a ++ file_text f d

-- A character of a text, 0 behind its end.
abbrev letter : ℕ → Bytes → ℕ
letter n [] = 0
letter zero (c ∷ s) = c
letter (suc n) (c ∷ s) = letter n s

append_cancel : (l x y : Bytes) → l ++ x ≡ l ++ y → x ≡ y
append_cancel [] x y h = h
append_cancel (c ∷ l) x y h = append_cancel l x y (cc h)

-- Two fields of one name that are set, each with the text behind it.
field_text-inj :
    (label v w x y : Bytes)
    → IsBytes v
    → IsBytes w
    → Ends x
    → Ends y
    → field_text label (some v) ++ x ≡ field_text label (some w) ++ y
    → (v ≡ w) × (x ≡ y)
field_text-inj label v w x y hv hw ex ey h =
    let p : (label ++ hex_encode v) ++ x ≡ (label ++ hex_encode w) ++ y = cc h in
    let q = sym (append_assoc label (hex_encode v) x) ∙ p ∙ append_assoc label (hex_encode w) y in
    hex_encode-append v w x y hv hw ex ey
      (append_cancel label (hex_encode v ++ x) (hex_encode w ++ y) q)

digest_text-inj :
    (d e : Option Bytes) → WhenBytes d → WhenBytes e → digest_text d ≡ digest_text e → d ≡ e
digest_text-inj none none hd he h = refl
digest_text-inj none (some w) hd he h = absurd (omega (arith, ap (letter 0) h))
digest_text-inj (some v) none hd he h = absurd (omega (arith, ap (letter 0) h))
digest_text-inj (some v) (some w) hd he h =
    ap some
      (field_text-inj (codes "launch_file_digest=") v w [] [] hd he tt tt
        (append-nil (digest_text (some v)) ∙ h ∙ sym (append-nil (digest_text (some w))))).0

Ends-digest_text : (d : Option Bytes) → Ends (digest_text d)
Ends-digest_text none = tt
Ends-digest_text (some v) = refl

Ends-file_text : (f d : Option Bytes) → Ends (file_text f d)
Ends-file_text none d = Ends-digest_text d
Ends-file_text (some v) d = refl

file_text-inj :
    (f d g e : Option Bytes)
    → WhenBytes f
    → WhenBytes d
    → WhenBytes g
    → WhenBytes e
    → file_text f d ≡ file_text g e
    → (f ≡ g) × (d ≡ e)
file_text-inj none d none e hf hd hg he h = (refl, digest_text-inj d e hd he h)
file_text-inj none none (some w) e hf hd hg he h = absurd (omega (arith, ap (letter 0) h))
file_text-inj none (some x) (some w) e hf hd hg he h = absurd (omega (arith, ap (letter 12) h))
file_text-inj (some v) d none none hf hd hg he h = absurd (omega (arith, ap (letter 0) h))
file_text-inj (some v) d none (some y) hf hd hg he h = absurd (omega (arith, ap (letter 12) h))
file_text-inj (some v) d (some w) e hf hd hg he h =
    let (q, r) =
      field_text-inj (codes "launch_file=") v w (digest_text d) (digest_text e) hf hg
        (Ends-digest_text d) (Ends-digest_text e) h in
    (ap some q, digest_text-inj d e hd he r)

not_anchor :
    (v : Bytes) (g e : Option Bytes) (s : Bytes)
    → file_text g e ≢ field_text (codes "anchor=") (some v) ++ s
not_anchor v none none s h = absurd (omega (arith, ap (letter 1) h))
not_anchor v none (some y) s h = absurd (omega (arith, ap (letter 1) h))
not_anchor v (some w) e s h = absurd (omega (arith, ap (letter 1) h))

anchor_text-inj :
    (a f d b g e : Option Bytes)
    → WhenBytes a × WhenBytes f × WhenBytes d
    → WhenBytes b × WhenBytes g × WhenBytes e
    → anchor_text a f d ≡ anchor_text b g e
    → (a ≡ b) × (f ≡ g) × (d ≡ e)
anchor_text-inj none f d none g e x y h =
    let (q, r) = file_text-inj f d g e x.1 x.2 y.1 y.2 h in (refl, q, r)
anchor_text-inj none f d (some w) g e x y h = absurd (not_anchor w f d (file_text g e) h)
anchor_text-inj (some v) f d none g e x y h = absurd (not_anchor v g e (file_text f d) (sym h))
anchor_text-inj (some v) f d (some w) g e x y h =
    let (p, rest) =
      field_text-inj (codes "anchor=") v w (file_text f d) (file_text g e) x.0 y.0
        (Ends-file_text f d) (Ends-file_text g e) h in
    let (q, r) = file_text-inj f d g e x.1 x.2 y.1 y.2 rest in (ap some p, q, r)

FieldEnds-anchor_text : (a f d : Option Bytes) → FieldEnds (anchor_text a f d)
FieldEnds-anchor_text none none none = tt
FieldEnds-anchor_text none none (some v) = (refl, omega arith)
FieldEnds-anchor_text none (some v) d = (refl, omega arith)
FieldEnds-anchor_text (some v) f d = (refl, omega arith)

-- An image as a config file pins it: bytes, and registers of 48 bytes with an index from 1 to 3.
abbrev pub IsTuple : ImagePin → Type 0
IsTuple img =
    IsBytes img.digest
    × All IsPinnable img.registers
    × WhenBytes img.anchor
    × WhenBytes img.launch_file
    × WhenBytes img.launch_file_digest

-- What a pin is matched on.
abbrev pub SameTuple : ImagePin → ImagePin → Type 0
SameTuple img j =
    (img.digest ≡ j.digest)
    × (sort_pins img.registers ≡ sort_pins j.registers)
    × (img.anchor ≡ j.anchor)
    × (img.launch_file ≡ j.launch_file)
    × (img.launch_file_digest ≡ j.launch_file_digest)

-- Two images with pinnable registers have one tuple key exactly when their digests, their registers in
-- the order of the indices, their anchors, their launch files and their launch file digests are the same.
pub tuple_key_iff :
    (img j : ImagePin) → IsTuple img → IsTuple j → (tuple_key img ≡ tuple_key j) ↔ SameTuple img j
unfolding tuple_key
tuple_key_iff img j hi hj = (
  λ h.
      let x = anchor_text img.anchor img.launch_file img.launch_file_digest in
      let y = anchor_text j.anchor j.launch_file j.launch_file_digest in
      let a = (All-sort_pins IsPinnable img.registers).1 hi.1 in
      let b = (All-sort_pins IsPinnable j.registers).1 hj.1 in
      let ex = FieldEnds-anchor_text img.anchor img.launch_file img.launch_file_digest in
      let ey = FieldEnds-anchor_text j.anchor j.launch_file j.launch_file_digest in
      let (digests, rest) =
        hex_encode-append img.digest j.digest (registers_text (sort_pins img.registers) ++ x)
          (registers_text (sort_pins j.registers) ++ y) hi.0 hj.0
          (Ends-registers_text (sort_pins img.registers) x a (FieldEnds-Ends x ex))
          (Ends-registers_text (sort_pins j.registers) y b (FieldEnds-Ends y ey)) h in
      let (registers, tail) =
        registers_text-append (sort_pins img.registers) (sort_pins j.registers) x y a b ex ey
          rest in
      let (p, q, r) =
        anchor_text-inj img.anchor img.launch_file img.launch_file_digest j.anchor j.launch_file
          j.launch_file_digest (hi.2, hi.3, hi.4) (hj.2, hj.3, hj.4) tail in
      (digests, registers, p, q, r),
  λ s. cc (s.0, s.1, s.2, s.3, s.4),
)
