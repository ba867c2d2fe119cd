-- ===== src/Tests/Manifests.antt =====
-- An SNP build manifest, a result of its image, and a JSON document.
use attestation_go.Base.{
  ◌<◌, ◌≡◌, ◌↔◌, refl, pos, int_le, true, false, some, List, [], ◌∷◌, Bytes, codes, bytes_eq,
  length, replicate, Result, ok, err, ◌⊎◌,
}
use attestation_go.Teetypes.Text.{trim_space, fold_text}
use attestation_go.Teetypes.Platform.{family_snp, family, is_family}
use attestation_go.Teetypes.Digest.{parse_digest, hex_encode}
use attestation_go.Teetypes.Claims.{launch_measurement}
use attestation_go.Teetypes.Claims.Registers.{IsMap}
use attestation_go.Teetypes.Verdict.{VerificationResult, check}
use attestation_go.Strictjson.{duplicate_key, Token, reject_duplicate_keys}
use attestation_go.Strictjson.Unique.{
  atom, array, object, no_items, item, no_members, member, Members, value_tokens, keys_of, IsUnique,
  reject_duplicate_keys_iff, IsRefused,
}
use attestation_go.Runtimemeasure.Identity.{
  SnpImagePins, ImageIdentity, snp_image, family_of, verify, identity_from_result,
}
use attestation_go.Runtimemeasure.Identity.Observed.{
  Identifies, verify_iff, verify-identity_from_result,
}
use attestation_go.Runtimemeasure.Manifest.{
  ManifestJson, SnpVariant, load_snp_image_manifest, load_image_manifest_for,
}
use attestation_go.Runtimemeasure.Manifest.Loaded.{PinsEach, load_snp_image_manifest_sound}
use attestation_go.Remote.Images.{ImagePin, enforce_images_with_runtime_log}
use attestation_go.Refvalues.Config.{pin_of}
use attestation_go.Refvalues.Manifest.{from_image_manifest}
use attestation_go.Refvalues.Manifest.Admission.{from_image_manifest_refines}
use attestation_go.Tests.{toy}
use attestation_go.Tests.Bindings.{tdx_result}

abbrev nested : Members
nested =
    member (codes "a") (array (item (object no_members) no_items))
      (member (codes "b") atom no_members)

-- The key "b" twice in an object within the object.
abbrev twice : Members
twice =
    member (codes "a") (object (member (codes "b") atom (member (codes "b") atom no_members)))
      no_members

reject_duplicate_keys_iff_example :
    ((reject_duplicate_keys bytes_eq (value_tokens (object twice) []) ≡ ok (keys_of twice))
      ↔ IsUnique bytes_eq (object twice))
    × ((reject_duplicate_keys bytes_eq (value_tokens (object twice) []) ≡ ok (keys_of twice))
        ⊎ IsRefused bytes_eq (reject_duplicate_keys bytes_eq (value_tokens (object twice) [])))
reject_duplicate_keys_iff_example = reject_duplicate_keys_iff bytes_eq twice []

accepts_nested :
    reject_duplicate_keys bytes_eq (value_tokens (object nested) []) ≡ ok (keys_of nested)
unfolding reject_duplicate_keys value_tokens bytes_eq keys_of
accepts_nested = refl

repeated :
    reject_duplicate_keys bytes_eq (
      value_tokens
        (object (
          member
            (codes "a")
            (object (member (codes "b") atom (member (codes "b") atom no_members)))
            no_members))
        [])
    ≡ err (duplicate_key (codes "b"))
unfolding reject_duplicate_keys value_tokens bytes_eq
repeated = refl

abbrev snp_result : VerificationResult
snp_result = record tdx_result { platform = codes "snp" }

abbrev snp_observed : ImageIdentity
snp_observed = snp_image (record { by_smp = (pos 0, replicate 48 7) ∷ []; observed = true })

observed : identity_from_result ⦃lib = toy⦄ (some snp_result) ≡ ok snp_observed
unfolding identity_from_result check family is_family bytes_eq launch_measurement fold_text
    trim_space parse_digest hex_encode
observed = refl

verify-identity_from_result_example : verify ⦃lib = toy⦄ snp_observed (some snp_result) ≡ ok tt
verify-identity_from_result_example = verify-identity_from_result ⦃lib = toy⦄ snp_result observed

verify_iff_example : (verify ⦃lib = toy⦄ snp_observed (some snp_result) ≡ ok tt) ↔ (
    (true ≡ true)
    × (family ⦃lib = toy⦄ (codes "snp") ≡ family_of snp_observed)
    × Identifies ⦃lib = toy⦄ snp_observed snp_result)
verify_iff_example = verify_iff ⦃lib = toy⦄ snp_observed snp_result

abbrev variant : SnpVariant
variant = record {
  smp = pos 4;
  snp_launch_digest = hex_encode (replicate 48 7);
  algorithm = codes "sha384";
}

abbrev json : ManifestJson
json = record {
  read_manifest = λ s. err s;
  read_variants = λ s. ok (variant ∷ []);
  read_header = λ s. err s;
  tokens = λ s. Token.open_object ∷ Token.close_object ∷ [];
  equal_fold = bytes_eq;
}

abbrev four_cpus : SnpImagePins
four_cpus = record { by_smp = (pos 4, replicate 48 7) ∷ []; observed = false }

loads : load_snp_image_manifest json (ok []) ≡ ok four_cpus
unfolding load_snp_image_manifest reject_duplicate_keys bytes_eq parse_digest hex_encode int_le
loads = refl

loads_an_snp_manifest :
    (content : Bytes) × (vs : List SnpVariant) × (◌≡◌ {A = Result Bytes Bytes} (ok []) (ok content))
    × (json.read_variants content ≡ ok vs)
    × (0 < length vs)
    × PinsEach vs four_cpus.by_smp
    × IsMap four_cpus.by_smp
    × (four_cpus.observed ≡ false)
loads_an_snp_manifest = load_snp_image_manifest_sound json (ok []) loads

abbrev pins : List ImagePin
pins = pin_of (codes "image-smp4") (replicate 48 7) [] ∷ []

derived : from_image_manifest json (ok []) (codes "image") family_snp ≡ ok pins
unfolding from_image_manifest load_image_manifest_for reject_duplicate_keys bytes_eq parse_digest
    hex_encode int_le
derived = refl

on_snp : family ⦃lib = toy⦄ (codes "snp") ≡ family_snp
unfolding family bytes_eq
on_snp = refl

from_image_manifest_refines_example :
    (id : ImageIdentity) × (load_image_manifest_for json (ok []) family_snp ≡ ok id)
    × ((enforce_images_with_runtime_log ⦃lib = toy⦄ snp_result pins (codes "snp") [] ≡ ok tt)
        ↔ (verify ⦃lib = toy⦄ id (some snp_result) ≡ ok tt))
from_image_manifest_refines_example =
    from_image_manifest_refines ⦃lib = toy⦄ json (ok []) (codes "image") family_snp snp_result []
      derived refl on_snp
