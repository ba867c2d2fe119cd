-- ===== src/Teetypes/Text.antt =====
-- strings.TrimSpace and strings.ToLower, as platform.go and teetypes.go use them, over the bytes of
-- a Go string.
pub mod Plain
use attestation_go.Base.{
  ℕ, zero, suc, ◌+◌, Bool, true, false, ◌&&◌, ◌||◌, List, [], ◌∷◌, map, reverse, Bytes, ◌==◌, leb,
  ltb, if◌then◌else◌, Stdlib,
}

abbrev is_ascii_space : ℕ → Bool
is_ascii_space c = c == b' ' || (leb 9 c && leb c 13)

-- The two- and three-byte UTF-8 forms of the white space of Unicode.
abbrev is_space_pair : ℕ → ℕ → Bool
is_space_pair a b = a == 0xC2 && (b == 0x85 || b == 0xA0)

abbrev is_space_triple : ℕ → ℕ → ℕ → Bool
is_space_triple a b c =
    (a == 0xE1 && b == 0x9A && c == 0x80)
    || (a == 0xE2
        && b == 0x80
        && ((leb 0x80 c && leb c 0x8A) || c == 0xA8 || c == 0xA9 || c == 0xAF))
    || (a == 0xE2 && b == 0x81 && c == 0x9F)
    || (a == 0xE3 && b == 0x80 && c == 0x80)

-- The bytes of the white-space character that a text starts with, 0 where there is none.
space_width : Bytes → ℕ
space_width [] = 0
space_width (a ∷ []) = if is_ascii_space a then 1 else 0
space_width (a ∷ b ∷ []) = if is_ascii_space a then 1 else if is_space_pair a b then 2 else 0
space_width (a ∷ b ∷ c ∷ s) =
    if is_ascii_space a
    then 1
    else if is_space_pair a b
    then 2
    else if is_space_triple a b c
    then 3
    else 0

-- The same on a reversed text: the character that the text ends with.
space_width_back : Bytes → ℕ
space_width_back [] = 0
space_width_back (a ∷ []) = if is_ascii_space a then 1 else 0
space_width_back (a ∷ b ∷ []) = if is_ascii_space a then 1 else if is_space_pair b a then 2 else 0
space_width_back (a ∷ b ∷ c ∷ s) =
    if is_ascii_space a
    then 1
    else if is_space_pair b a
    then 2
    else if is_space_triple c b a
    then 3
    else 0

-- Drops white space in front; the number counts the bytes left of a character that is dropped.
trim_by : (Bytes → ℕ) → ℕ → Bytes → Bytes
trim_by width n [] = []
trim_by width (suc n) (c ∷ s) = trim_by width n s
trim_by width zero (c ∷ s) = elim (width (c ∷ s)) [ zero ↦ c ∷ s | suc n ↦ trim_by width n s ]

unfoldable pub trim_space : Bytes → Bytes
unfolding trim_by space_width space_width_back
trim_space s = reverse (trim_by space_width_back 0 (reverse (trim_by space_width 0 s)))

unfoldable pub is_ascii : Bytes → Bool
is_ascii [] = true
is_ascii (c ∷ s) = ltb c 128 && is_ascii s

unfoldable pub lower_byte : ℕ → ℕ
lower_byte c = if leb b'A' c && leb c b'Z' then c + 32 else c

module _ ⦃lib : Stdlib⦄ where
  unfoldable pub to_lower : Bytes → Bytes
  unfolding is_ascii lower_byte
  to_lower s = if is_ascii s then map lower_byte s else lib.lower_unicode s

  -- strings.ToLower(strings.TrimSpace(s))
  unfoldable pub fold_text : Bytes → Bytes
  unfolding to_lower trim_space
  fold_text s = to_lower (trim_space s)
