-- ===== src/Teetypes/Text/Plain.antt =====
-- Texts of printable ASCII with no space: trimming leaves them as they are.
use attestation_go.Base.{ℕ, ◌≤◌, ◌<◌, ◌≡◌, refl, [], ◌∷◌, reverse, arith, Bytes, All, All-append}
use mathlib.Core.List.{reverse-append, reverse-reverse}
use attestation_go.Teetypes.Text.{trim_by, space_width, space_width_back, trim_space}

abbrev pub IsPlainByte : ℕ → Type 0
IsPlainByte c = (33 ≤ c) × (c < 128)

abbrev pub IsPlain : Bytes → Type 0
IsPlain = All IsPlainByte

space_width-plain : (c : ℕ) (s : Bytes) → IsPlainByte c → space_width (c ∷ s) ≡ 0
unfolding space_width
space_width-plain c [] h = ground arith
space_width-plain c (a ∷ []) h = ground arith
space_width-plain c (a ∷ b ∷ s) h = ground arith

space_width_back-plain : (c : ℕ) (s : Bytes) → IsPlainByte c → space_width_back (c ∷ s) ≡ 0
unfolding space_width_back
space_width_back-plain c [] h = ground arith
space_width_back-plain c (a ∷ []) h = ground arith
space_width_back-plain c (a ∷ b ∷ s) h = ground arith

trim_by-zero :
    (width : Bytes → ℕ) (c : ℕ) (s : Bytes) → width (c ∷ s) ≡ 0 → trim_by width 0 (c ∷ s) ≡ c ∷ s
unfolding trim_by
trim_by-zero width c s h = rw (h, trim_by)

trim_front-plain : (s : Bytes) → IsPlain s → trim_by space_width 0 s ≡ s
unfolding trim_by
trim_front-plain [] h = refl
trim_front-plain (c ∷ s) h = trim_by-zero space_width c s (space_width-plain c s h.0)

trim_back-plain : (s : Bytes) → IsPlain s → trim_by space_width_back 0 s ≡ s
unfolding trim_by
trim_back-plain [] h = refl
trim_back-plain (c ∷ s) h = trim_by-zero space_width_back c s (space_width_back-plain c s h.0)

IsPlain-reverse : (s : Bytes) → IsPlain s → IsPlain (reverse s)
IsPlain-reverse [] h = tt
IsPlain-reverse (c ∷ s) h =
    rw (reverse-append (c ∷ []) s)
      (All-append IsPlainByte (reverse s) (c ∷ []) (IsPlain-reverse s h.1) (h.0, tt))

pub trim_space-plain : (s : Bytes) → IsPlain s → trim_space s ≡ s
unfolding trim_space
trim_space-plain s h =
    rw (trim_front-plain s h, trim_back-plain (reverse s) (IsPlain-reverse s h)) (reverse-reverse s)
