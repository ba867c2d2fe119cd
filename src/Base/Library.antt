-- ===== src/Base/Library.antt =====
-- What the code calls and does not implement: the SHA-2 functions of crypto/sha256 and
-- crypto/sha512, and what strings.ToLower does to a text that is not ASCII.
use mathlib.Core.Path.{◌≡◌}
use attestation_go.Base.Lists.{length}
use attestation_go.Base.Octets.{Bytes}

pub record Stdlib : Type 0 where
  pub sha256 : Bytes → Bytes
  pub sha384 : Bytes → Bytes
  pub length-sha256 : (m : Bytes) → length (sha256 m) ≡ 32
  pub length-sha384 : (m : Bytes) → length (sha384 m) ≡ 48
  pub lower_unicode : Bytes → Bytes
