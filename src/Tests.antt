-- ===== src/Tests.antt =====
-- Runs of the model at concrete inputs. The hash functions are a checksum and a length in a text of the
-- width of the digest, which is all that the laws of `Stdlib` ask for.
pub mod Journals
pub mod Bindings
pub mod Claims
pub mod Quotes
pub mod Logs
pub mod Pins
pub mod Manifests
pub mod Certificates
pub mod Launch
pub mod Caches
pub mod Reports
use attestation_go.Base.{
  ℕ, ◌+◌, ◌%◌, refl, List, [], ◌∷◌, ◌++◌, Bytes, codes, length, replicate, Stdlib,
}

abbrev pub sum : Bytes → ℕ
sum [] = 1
sum (b ∷ s) = b + sum s

-- A digest of `suc n` bytes.
abbrev pub checksum : ℕ → Bytes → Bytes
checksum n m = (sum m % 251) ∷ replicate n (length m % 251)

abbrev pub toy : Stdlib
toy = record {
  sha256 = checksum 31;
  sha384 = checksum 47;
  length-sha256 = λ m. refl;
  length-sha384 = λ m. refl;
  lower_unicode = λ s. s;
}

-- Two canonical digests.
abbrev pub digest_a : Bytes
digest_a = codes "sha256:" ++ replicate 64 b'a'

abbrev pub digest_b : Bytes
digest_b = codes "sha256:" ++ replicate 64 b'b'
