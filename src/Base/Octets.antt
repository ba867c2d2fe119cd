-- ===== src/Base/Octets.antt =====
-- Go's byte slices and strings: lists of numbers, compared byte for byte, and the fixed-width
-- integers that encoding/binary reads from them.
use Prim.Native.Nat.{ℕ, ◌+◌, ◌*◌, ◌<◌}
use Prim.Native.Char.{code}
use Prim.Native.String.{String}
use mathlib.Core.Path.{◌≡◌, refl}
use mathlib.Core.Logic.{◌↔◌}
use mathlib.Core.Bool.{Bool, true, false, ◌&&◌, ◌||◌}
use mathlib.Core.List.{List, [], ◌∷◌}
use native.Mathlib.Omega.{arith}
use attestation_go.Base.Tests.{◌==◌}
use attestation_go.Base.Lists.{All, take, drop}

abbrev pub Bytes : Type 0
Bytes = List ℕ

abbrev pub IsBytes : Bytes → Type 0
IsBytes = All (λ b. b < 256)

-- The bytes of a literal; every literal of the development is ASCII.
abbrev pub codes : String → Bytes
codes String.[] = []
codes (String.◌∷◌ c s) = code c ∷ codes s

-- bytes.Equal, subtle.ConstantTimeCompare and `==` on strings.
unfoldable pub bytes_eq : Bytes → Bytes → Bool
bytes_eq [] [] = true
bytes_eq (x ∷ xs) (y ∷ ys) = x == y && bytes_eq xs ys
bytes_eq _ _ = false

pub bytes_eq_iff : (a b : Bytes) → (bytes_eq a b ≡ true) ↔ (a ≡ b)
unfolding bytes_eq
bytes_eq_iff (x ∷ a) (y ∷ b) = ground (arith, bytes_eq_iff a b)
bytes_eq_iff _ _ = ground arith

pub bytes_eq_refl : (a : Bytes) → bytes_eq a a ≡ true
bytes_eq_refl a = (bytes_eq_iff a a).1 refl

-- slices.Contains on a list of strings.
unfoldable pub contains : List Bytes → Bytes → Bool
contains [] a = false
contains (x ∷ xs) a = bytes_eq x a || contains xs a

-- data[off : off+n]; the code tests the bounds before it slices.
abbrev pub slice : Bytes → ℕ → ℕ → Bytes
slice s off n = take n (drop off s)

-- The little-endian and the big-endian value of the bytes of a slice.
unfoldable pub little_endian : Bytes → ℕ
little_endian [] = 0
little_endian (b ∷ bs) = b + 256 * little_endian bs

unfoldable pub big_endian_onto : ℕ → Bytes → ℕ
big_endian_onto acc [] = acc
big_endian_onto acc (b ∷ bs) = big_endian_onto (acc * 256 + b) bs

unfoldable pub big_endian : Bytes → ℕ
unfolding big_endian_onto
big_endian = big_endian_onto 0
