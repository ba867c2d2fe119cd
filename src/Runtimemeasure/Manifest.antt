-- ===== src/Runtimemeasure/Manifest.antt =====
-- runtimemeasure/manifest.go, manifest_snp.go and manifest_platform.go: image pins from a build
-- manifest. A file is what os.ReadFile returns: its bytes, or an error.
pub mod Loaded
use attestation_go.Base.{
  ℕ, ◌+◌, ℤ, pos, int_eq, int_le, Bool, true, false, not, ◌||◌, Option, none, some, List, [], ◌∷◌,
  Bytes, codes, bytes_eq, length, ◌==◌, if◌then◌else◌, Result, ok, err, ◌>>=◌, ◌>>◌, refuse_if,
  map_err, Stdlib,
}
use attestation_go.Teetypes.Platform.{
  Family, family_unknown, family_snp, family_tdx, FamilyError, parse_family,
}
use attestation_go.Teetypes.Digest.{DigestError, parse_digest}
use attestation_go.Teetypes.Claims.{Pins, pin_at}
use attestation_go.Strictjson.{Token, JsonError, reject_duplicate_keys}
use attestation_go.Runtimemeasure.Fold.{size}
use attestation_go.Runtimemeasure.Identity.{
  TdxImagePins, SnpImagePins, ImageIdentity, tdx_image, snp_image,
}

-- tdxMeasurements; an absent field is empty.
pub record TdxMeasurements : Type 0 where
  pub mrtd : Bytes
  pub rtmr1 : Bytes
  pub rtmr2 : Bytes

-- imageManifest: the flat registers, and those under "tdx".
pub record ImageManifest : Type 0 where
  pub flat : TdxMeasurements
  pub tdx : Option TdxMeasurements

-- An entry of snp_variants.
pub record SnpVariant : Type 0 where
  pub smp : ℤ
  pub snp_launch_digest : Bytes
  pub algorithm : Bytes

-- manifestHeader
pub record ManifestHeader : Type 0 where
  pub version : ℤ
  pub platform : Bytes

-- json.Unmarshal into the three shapes, the tokens of a document, and strings.EqualFold.
pub record ManifestJson : Type 0 where
  pub read_manifest : Bytes → Result Bytes ImageManifest
  pub read_variants : Bytes → Result Bytes (List SnpVariant)
  pub read_header : Bytes → Result Bytes ManifestHeader
  pub tokens : Bytes → List Token
  pub equal_fold : Bytes → Bytes → Bool

pub data ManifestError : Type 0 where
  unreadable not_json two_forms missing : Bytes → ManifestError
  bad_keys : JsonError → ManifestError
  bad_register : Bytes → DigestError → ManifestError
  no_variants : ManifestError
  bad_smp : ℕ → ℤ → ManifestError
  duplicate_smp no_digest : ℤ → ManifestError
  bad_algorithm : ℤ → Bytes → ManifestError
  bad_digest : ℤ → DigestError → ManifestError
  bad_version : ℤ → ManifestError
  bad_platform : FamilyError → ManifestError
  no_shape : Family → ManifestError

abbrev pub manifest_schema_version : ℕ
manifest_schema_version = 3

-- decodeRegister, of a field that must not be absent.
abbrev pub register : Bytes → Bytes → Result ManifestError Bytes
register name [] = err (missing name)
register name (c ∷ s) = map_err (bad_register name) (parse_digest (c ∷ s) size)

abbrev pub refuse_seen : ℤ → Option Bytes → Result ManifestError (Unit {0})
refuse_seen smp none = ok tt
refuse_seen smp (some d) = err (duplicate_smp smp)

-- The entries of snp_variants from `i` on, with the counts that were seen.
unfoldable pub load_variants : ℕ → Pins → List SnpVariant → Result ManifestError Pins
unfolding pin_at
load_variants i seen [] = ok []
load_variants i seen (v ∷ vs) = do
  refuse_if (int_le v.smp (pos 0)) (bad_smp i v.smp)
  refuse_seen v.smp (pin_at v.smp seen)
  refuse_if (not (bytes_eq v.algorithm (codes "sha384"))) (bad_algorithm v.smp v.algorithm)
  refuse_if (length v.snp_launch_digest == 0) (no_digest v.smp)
  digest ← map_err (bad_digest v.smp) (parse_digest v.snp_launch_digest size)
  rest ← load_variants (i + 1) ((v.smp, digest) ∷ seen) vs
  ok ((v.smp, digest) ∷ rest)

module _ (json : ManifestJson) where
  -- Whether a top-level key is a register in some letter case.
  names_register : Bytes → Bool
  names_register k =
      json.equal_fold k (codes "mrtd")
      || json.equal_fold k (codes "rtmr1")
      || json.equal_fold k (codes "rtmr2")

  refuse_flat : List Bytes → Result ManifestError (Unit {0})
  unfolding names_register
  refuse_flat [] = ok tt
  refuse_flat (k ∷ keys) = refuse_if (names_register k) (two_forms k) >> refuse_flat keys

  abbrev chosen :
      ImageManifest → Option TdxMeasurements → List Bytes → Result ManifestError TdxMeasurements
  chosen m none keys = ok m.flat
  chosen m (some nested) keys = refuse_flat keys >> ok nested

  -- loadTDXImageManifest
  unfoldable pub load_tdx_image_manifest : Result Bytes Bytes → Result ManifestError TdxImagePins
  unfolding refuse_flat
  load_tdx_image_manifest file = do
    content ← map_err unreadable file
    m ← map_err not_json (json.read_manifest content)
    keys ← map_err bad_keys (reject_duplicate_keys json.equal_fold (json.tokens content))
    fields ← chosen m m.tdx keys
    a ← register (codes "mrtd") fields.mrtd
    b ← register (codes "rtmr1") fields.rtmr1
    c ← register (codes "rtmr2") fields.rtmr2
    ok (record { mrtd = a; rtmr1 = b; rtmr2 = c })

  -- loadSNPImageManifest
  unfoldable pub load_snp_image_manifest : Result Bytes Bytes → Result ManifestError SnpImagePins
  unfolding load_variants
  load_snp_image_manifest file = do
    content ← map_err unreadable file
    vs ← map_err not_json (json.read_variants content)
    keys ← map_err bad_keys (reject_duplicate_keys json.equal_fold (json.tokens content))
    refuse_if (length vs == 0) no_variants
    by_smp ← load_variants 0 [] vs
    ok (record { by_smp = by_smp; observed = false })

  abbrev tdx_or_snp :
      Result ManifestError TdxImagePins
      → Result ManifestError SnpImagePins
      → Result ManifestError ImageIdentity
  tdx_or_snp (ok p) snp = ok (tdx_image p)
  tdx_or_snp (err e) (ok p) = ok (snp_image p)
  tdx_or_snp (err e) (err e') = err e

  -- LoadImageManifest
  unfoldable pub load_image_manifest : Result Bytes Bytes → Result ManifestError ImageIdentity
  unfolding load_tdx_image_manifest load_snp_image_manifest
  load_image_manifest file =
      tdx_or_snp (load_tdx_image_manifest file) (load_snp_image_manifest file)

  -- LoadImageManifestFor
  unfoldable pub load_image_manifest_for :
      Result Bytes Bytes → Family → Result ManifestError ImageIdentity
  unfolding load_tdx_image_manifest load_snp_image_manifest
  load_image_manifest_for file family_snp = load_snp_image_manifest file >>= λ p. ok (snp_image p)
  load_image_manifest_for file family_tdx = load_tdx_image_manifest file >>= λ p. ok (tdx_image p)
  load_image_manifest_for file family_unknown = err (no_shape family_unknown)

  -- ManifestFamilies
  unfoldable pub manifest_families :
      ⦃lib : Stdlib⦄ → Result Bytes Bytes → Result ManifestError (List Family)
  manifest_families file = do
    content ← map_err unreadable file
    h ← map_err not_json (json.read_header content)
    refuse_if (not (int_eq h.version (pos manifest_schema_version))) (bad_version h.version)
    (if bytes_eq h.platform (codes "multi")
        then ok (family_tdx ∷ family_snp ∷ [])
        else (map_err bad_platform (parse_family h.platform) >>= λ f. ok (f ∷ [])))
