-- ===== src/Runtimemeasure/LaunchFile.antt =====
-- runtimemeasure/launchfile.go: the digest of a launch file on each family.
pub mod Spelling
use attestation_go.Base.{
  ℕ, suc, not, [], ◌∷◌, Bytes, bytes_eq, length, ◌==◌, if◌then◌else◌, Result, ok, err, ◌>>=◌, ◌>>◌,
  refuse_if, map_err, Stdlib,
}
use attestation_go.Teetypes.Platform.{Family, family_unknown, family_snp, family_tdx}
use attestation_go.Teetypes.Digest.{DigestError, parse_digest}

pub data LaunchFileError : Type 0 where
  no_launch_binding : Family → LaunchFileError
  empty_file : LaunchFileError
  wrong_width : ℕ → LaunchFileError
  all_zero empty_file_digest : LaunchFileError
  bad_digest : DigestError → LaunchFileError

-- A hash.Hash constructor: its function and its Size.
pub record Hash : Type 0 where
  pub sum : Bytes → Bytes
  pub width : ℕ

-- bytes.Count(digest, []byte{0})
unfoldable pub count_zeros : Bytes → ℕ
count_zeros [] = 0
count_zeros (b ∷ s) = let n = count_zeros s in if b == 0 then suc n else n

module _ ⦃lib : Stdlib⦄ where
  unfoldable pub launch_file_hash : Family → Result LaunchFileError Hash
  launch_file_hash family_tdx = ok (record { sum = lib.sha384; width = 48 })
  launch_file_hash family_snp = ok (record { sum = lib.sha256; width = 32 })
  launch_file_hash family_unknown = err (no_launch_binding family_unknown)

  unfoldable pub launch_file_digest : Family → Bytes → Result LaunchFileError Bytes
  unfolding launch_file_hash
  launch_file_digest f file = do
    h ← launch_file_hash f
    refuse_if (length file == 0) empty_file
    ok (h.sum file)

  unfoldable pub check_launch_file_digest : Family → Bytes → Result LaunchFileError (Unit {0})
  unfolding launch_file_hash
  check_launch_file_digest f digest = do
    h ← launch_file_hash f
    refuse_if (not (length digest == h.width)) (wrong_width (length digest))
    refuse_if (count_zeros digest == h.width) all_zero
    refuse_if (bytes_eq digest (h.sum [])) empty_file_digest

  unfoldable pub parse_launch_file_digest : Family → Bytes → Result LaunchFileError Bytes
  parse_launch_file_digest f s = do
    h ← launch_file_hash f
    digest ← map_err bad_digest (parse_digest s h.width)
    check_launch_file_digest f digest
    ok digest
