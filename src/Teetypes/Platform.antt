-- ===== src/Teetypes/Platform.antt =====
-- attestation/teetypes/platform.go, and the platform tags of teetypes.go.
use attestation_go.Base.{
  Bool, true, false, ◌||◌, [], Bytes, codes, bytes_eq, if◌then◌else◌, Result, ok, err, Stdlib,
}
use attestation_go.Teetypes.Text.{fold_text}

-- A tag is any string; the names of the constants stand for the seven that the package declares.
abbrev pub PlatformType : Type 0
PlatformType = Bytes

abbrev pub platform_snp : PlatformType
platform_snp = codes "snp"

abbrev pub platform_tdx : PlatformType
platform_tdx = codes "tdx"

abbrev pub platform_az_snp : PlatformType
platform_az_snp = codes "az-snp"

abbrev pub platform_az_tdx : PlatformType
platform_az_tdx = codes "az-tdx"

abbrev pub platform_gcp_snp : PlatformType
platform_gcp_snp = codes "gcp-snp"

abbrev pub platform_gcp_tdx : PlatformType
platform_gcp_tdx = codes "gcp-tdx"

abbrev pub platform_dstack : PlatformType
platform_dstack = codes "dstack"

pub data Family : Type 0 where
  family_unknown family_snp family_tdx : Family

-- The string that a family constant is.
unfoldable pub family_text : Family → Bytes
family_text family_unknown = []
family_text family_snp = codes "sev-snp"
family_text family_tdx = codes "tdx"

-- Family.String
unfoldable pub display : Family → Bytes
unfolding family_text
display family_unknown = codes "unknown"
display f = family_text f

unfoldable pub default_platform : Family → PlatformType
default_platform family_snp = platform_snp
default_platform family_tdx = platform_tdx
default_platform family_unknown = []

unfoldable pub is_family : Family → Family → Bool
is_family family_unknown family_unknown = true
is_family family_snp family_snp = true
is_family family_tdx family_tdx = true
is_family _ _ = false

-- The switch of PlatformType.Family, on a normalized tag.
unfoldable pub route : PlatformType → Family
route p =
    if bytes_eq p platform_snp || bytes_eq p platform_az_snp || bytes_eq p platform_gcp_snp
    then family_snp
    else if bytes_eq p platform_tdx || bytes_eq p platform_az_tdx || bytes_eq p platform_gcp_tdx
    then family_tdx
    else family_unknown

-- The error of ParseFamily, with the text that it quotes.
pub data FamilyError : Type 0 where
  unknown_family : Bytes → FamilyError

module _ ⦃lib : Stdlib⦄ where
  unfoldable pub normalize_platform : Bytes → PlatformType
  unfolding fold_text
  normalize_platform platform = fold_text platform

  -- PlatformType.Family
  unfoldable pub family : PlatformType → Family
  unfolding normalize_platform route
  family p = route (normalize_platform p)

  unfoldable pub parse_family : Bytes → Result FamilyError Family
  unfolding family normalize_platform family_text is_family
  parse_family s =
      let p = normalize_platform s in
      if bytes_eq p (family_text family_snp)
      then ok family_snp
      else if is_family (family p) family_unknown
      then err (unknown_family s)
      else ok (family p)

  unfoldable pub is_tdx : PlatformType → Bool
  unfolding family is_family
  is_tdx p = is_family (family p) family_tdx

  unfoldable pub is_snp : PlatformType → Bool
  unfolding family is_family
  is_snp p = is_family (family p) family_snp

  unfoldable pub has_vtpm_quote : PlatformType → Bool
  unfolding normalize_platform
  has_vtpm_quote p =
      bytes_eq (normalize_platform p) platform_az_snp
      || bytes_eq (normalize_platform p) platform_az_tdx

  unfoldable pub has_registers : PlatformType → Bool
  unfolding family is_family
  has_registers p = is_family (family p) family_tdx
