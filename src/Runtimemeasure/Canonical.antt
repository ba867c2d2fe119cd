-- ===== src/Runtimemeasure/Canonical.antt =====
-- CanonicalDigest of runtimemeasure/runtimemeasure.go.
pub mod Shape
use attestation_go.Base.{
  ℕ, Bool, true, false, not, ◌&&◌, Option, none, some, List, [], ◌∷◌, ◌++◌, Bytes, codes, length,
  ◌==◌, if◌then◌else◌, Result, ok, err, ◌>>=◌, ◌>>◌, refuse_if,
}
use attestation_go.Teetypes.Digest.{all_lower_hex}

pub data CanonicalError : Type 0 where
  empty_name not_pinned : CanonicalError
  wrong_hex_length : ℕ → CanonicalError
  not_hex : CanonicalError

abbrev pub last_at_onto : ℕ → Bytes → Option (Bytes × Bytes) → Option (Bytes × Bytes)
last_at_onto c s (some (name, digest)) = some (c ∷ name, digest)
last_at_onto c s none = if c == b'@' then some ([], s) else none

-- The parts around the last '@', where there is one (strings.LastIndex).
unfoldable pub split_last_at : Bytes → Option (Bytes × Bytes)
split_last_at [] = none
split_last_at (c ∷ s) = last_at_onto c s (split_last_at s)

-- strings.CutPrefix
unfoldable pub cut_prefix : Bytes → Bytes → Option Bytes
cut_prefix [] s = some s
cut_prefix (p ∷ ps) [] = none
cut_prefix (p ∷ ps) (c ∷ s) = if p == c then cut_prefix ps s else none

abbrev pub digest_prefix : Bytes
digest_prefix = codes "sha256:"

abbrev pub pinned_part : Bytes → Option (Bytes × Bytes) → Result CanonicalError Bytes
pinned_part ref none = ok ref
pinned_part ref (some ([], digest)) = err empty_name
pinned_part ref (some (c ∷ name, digest)) = ok digest

abbrev pub checked_hex : Option Bytes → Result CanonicalError Bytes
checked_hex none = err not_pinned
checked_hex (some hex) =
    refuse_if (not (length hex == 64)) (wrong_hex_length (length hex))
    >> (refuse_if (not (all_lower_hex hex)) not_hex >> ok (digest_prefix ++ hex))

unfoldable pub canonical_digest : Bytes → Result CanonicalError Bytes
unfolding split_last_at cut_prefix
canonical_digest ref =
    pinned_part ref (split_last_at ref) >>= λ digest. checked_hex (cut_prefix digest_prefix digest)
