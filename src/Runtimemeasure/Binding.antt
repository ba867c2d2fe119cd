-- ===== src/Runtimemeasure/Binding.antt =====
-- runtimemeasure/binding.go and anchor.go: the launch binding that a verified result carries, and what
-- it must equal.
pub mod Prefix
pub mod Tdx
pub mod Anchor
pub mod Search
use attestation_go.Base.{
  ℕ, suc, ◌+◌, ◌≡◌, refl, ℤ, pos, Bool, true, false, not, ◌&&◌, ◌||◌, Option, none, some, List, [],
  ◌∷◌, Bytes, bytes_eq, length, take, drop, ◌==◌, if◌then◌else◌, Result, ok, err, ◌>>=◌, ◌>>◌,
  refuse_if, map_err, Stdlib,
}
use attestation_go.Teetypes.Platform.{
  PlatformType, Family, family_unknown, family_snp, family_tdx, is_family, family, has_registers,
  normalize_platform, platform_az_snp,
}
use attestation_go.Teetypes.Claims.{Claims, ClaimError, rtmr}
use attestation_go.Teetypes.Verdict.{VerificationResult, CheckError, check}
use attestation_go.Runtimemeasure.Canonical.{canonical_digest}
use attestation_go.Runtimemeasure.Fold.{
  size, zero_register, host_data_size, event, extend, from_digests_seeded,
}
use attestation_go.Runtimemeasure.Journal.Lines.{is_exactly}
use attestation_go.Runtimemeasure.LaunchFile.{
  LaunchFileError, launch_file_digest, check_launch_file_digest,
}

pub data BindingError : Type 0 where
  unchecked : CheckError → BindingError
  unknown_platform no_register : PlatformType → BindingError
  claim : ClaimError → BindingError
  wrong_host_data_width : ℕ → BindingError
  empty_anchor : BindingError
  launch_file : LaunchFileError → BindingError
  wrong_digest_width : ℕ → BindingError
  workloads_not_measured : ℕ → BindingError
  mismatch : Bytes → Bytes → BindingError
  not_canonical : ℕ → Bytes → BindingError
  no_prefix_matches : Bytes → Bytes → BindingError
  no_anchor : ℕ → BindingError
  no_zero_padding : BindingError

-- The first entry that is not its own canonical digest, with its index.
unfoldable pub first_uncanonical : ℕ → List Bytes → Option (ℕ × Bytes)
first_uncanonical i [] = none
first_uncanonical i (d ∷ ds) =
    if is_exactly (canonical_digest d) d then first_uncanonical (i + 1) ds else some (i, d)

abbrev pub refuse_uncanonical : Option (ℕ × Bytes) → Result BindingError (Unit {0})
refuse_uncanonical none = ok tt
refuse_uncanonical (some (i, d)) = err (not_canonical i d)

-- Whether all bytes are zero.
unfoldable pub are_zeros : Bytes → Bool
are_zeros [] = true
are_zeros (b ∷ s) = b == 0 && are_zeros s

module _ ⦃lib : Stdlib⦄ where
  unfoldable pub check_binding_platform : PlatformType → Result BindingError (Unit {0})
  check_binding_platform p = do
    refuse_if (is_family (family p) family_unknown) (unknown_platform p)
    refuse_if (bytes_eq (normalize_platform p) platform_az_snp) (no_register p)

  binding_value : VerificationResult → Result BindingError Bytes
  binding_value r =
      if has_registers r.platform
      then map_err claim (rtmr r.claims (pos 3))
      else (refuse_if (not (length r.claims.init_data == host_data_size))
            (wrong_host_data_width (length r.claims.init_data))
          >> ok r.claims.init_data)

  -- result.Check, and the result behind the pointer.
  abbrev pub checked : Option VerificationResult → Result BindingError VerificationResult
  checked none = map_err unchecked (check none >> err CheckError.no_result)
  checked (some r) = map_err unchecked (check (some r)) >> ok r

  -- Binding
  unfoldable pub binding : Option VerificationResult → Result BindingError Bytes
  unfolding binding_value
  binding r = do v ← checked r; check_binding_platform v.platform; binding_value v

  on_family : PlatformType → Family → Bytes → List Bytes → Result BindingError Bytes
  on_family p family_tdx digest workloads =
      refuse_if (not (length digest == size)) (wrong_digest_width (length digest))
      >> ok (from_digests_seeded (extend zero_register digest) workloads)
  on_family p family_snp digest [] = ok digest
  on_family p family_snp digest (w ∷ ws) = err (workloads_not_measured (length (w ∷ ws)))
  on_family p family_unknown digest workloads = err (unknown_platform p)

  -- bindingFromDigest
  unfoldable pub binding_from_digest : PlatformType → Bytes → List Bytes → Result BindingError Bytes
  unfolding on_family
  binding_from_digest p digest workloads = do
    check_binding_platform p
    map_err launch_file (check_launch_file_digest (family p) digest)
    on_family p (family p) digest workloads

  -- expectedBinding
  unfoldable pub expected_binding : PlatformType → Bytes → List Bytes → Result BindingError Bytes
  expected_binding p anchor workloads = do
    refuse_if (length anchor == 0) empty_anchor
    digest ← map_err launch_file (launch_file_digest (family p) anchor)
    binding_from_digest p digest workloads

  -- The platform of the result that a pointer names; it is read after Binding has checked it.
  abbrev pub platform_of : Option VerificationResult → PlatformType
  platform_of none = []
  platform_of (some r) = r.platform

  -- VerifyBinding
  unfoldable pub verify_binding :
      Option VerificationResult → Bytes → List Bytes → Result BindingError (Unit {0})
  verify_binding r anchor workloads = do
    got ← binding r
    want ← expected_binding (platform_of r) anchor workloads
    refuse_if (not (bytes_eq got want)) (mismatch got want)

  -- The loop of matchBindingPrefix: `i` entries are folded into `reg`.
  unfoldable pub match_from : Bytes → ℕ → Bytes → List Bytes → Option ℕ
  match_from got i reg [] = none
  match_from got i reg (d ∷ ds) =
      let reg' = extend reg (event d) in
      let rest = match_from got (i + 1) reg' ds in if bytes_eq got reg' then some (i + 1) else rest

  abbrev found : Bytes → Bytes → Option ℕ → Result BindingError ℕ
  found got want none = err (no_prefix_matches got want)
  found got want (some k) = ok k

  compare_prefixes : PlatformType → Bytes → Bytes → List Bytes → Result BindingError ℕ
  unfolding match_from
  compare_prefixes p got want claimed =
      if bytes_eq got want
      then ok 0
      else if not (has_registers p) || length claimed == 0
      then err (mismatch got want)
      else found got want (match_from got 0 want claimed)

  -- matchBindingPrefix
  unfoldable pub match_prefix :
      Option VerificationResult
      → List Bytes
      → (PlatformType → Result BindingError Bytes)
      → Result BindingError ℕ
  unfolding compare_prefixes
  match_prefix r claimed expected = do
    refuse_uncanonical (first_uncanonical 0 claimed)
    got ← binding r
    want ← expected (platform_of r)
    compare_prefixes (platform_of r) got want claimed

  -- MatchBindingPrefix
  unfoldable pub match_binding_prefix :
      Option VerificationResult → Bytes → List Bytes → Result BindingError ℕ
  unfolding match_prefix
  match_binding_prefix r anchor claimed = match_prefix r claimed (λ p. expected_binding p anchor [])

  -- MatchLaunchFileDigestPrefix
  unfoldable pub match_launch_file_digest_prefix :
      Option VerificationResult → Bytes → List Bytes → Result BindingError ℕ
  unfolding match_prefix
  match_launch_file_digest_prefix r digest claimed =
      match_prefix r claimed (λ p. binding_from_digest p digest [])

  anchor_of : Family → Bytes → Result BindingError Bytes
  unfolding are_zeros
  anchor_of family_snp init =
      refuse_if (not (length init == host_data_size)) (no_anchor (length init)) >> ok init
  anchor_of f init = do
    refuse_if (not (length init == size)) (no_anchor (length init))
    refuse_if (not (are_zeros (drop host_data_size init))) no_zero_padding
    ok (take host_data_size init)

  -- InitDataAnchor
  unfoldable pub init_data_anchor : Option VerificationResult → Result BindingError Bytes
  unfolding anchor_of
  init_data_anchor r = do
    v ← checked r
    check_binding_platform v.platform
    anchor_of (family v.platform) v.claims.init_data
