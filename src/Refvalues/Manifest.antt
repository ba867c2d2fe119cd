-- ===== src/Refvalues/Manifest.antt =====
-- refvalues/manifest.go: the image pins of a build manifest.
pub mod Admission
use attestation_go.Base.{List, [], ◌∷◌, ◌++◌, Bytes, codes, Result, ok, ◌>>=◌}
use attestation_go.Teetypes.Platform.{Family}
use attestation_go.Teetypes.Claims.{Pins}
use attestation_go.Runtimemeasure.Identity.{ImageIdentity, LaunchVariant, launch_digests, rtmrs}
use attestation_go.Runtimemeasure.Manifest.{ManifestJson, ManifestError, load_image_manifest_for}
use attestation_go.Remote.Images.{ImagePin}
use attestation_go.Refvalues.Config.{pin_of}

abbrev name_of : Bytes → Bytes → Bytes
name_of name [] = name
name_of name (c ∷ label) = name ++ (codes "-" ++ (c ∷ label))

-- A pin for each variant, with the registers that all of them carry.
unfoldable pub pins_of : Bytes → Pins → List LaunchVariant → List ImagePin
pins_of name registers [] = []
pins_of name registers (v ∷ vs) =
    pin_of (name_of name v.label) v.variant_digest registers ∷ pins_of name registers vs

unfoldable pub pins_of_identity : ImageIdentity → Bytes → List ImagePin
unfolding pins_of launch_digests rtmrs
pins_of_identity id name = pins_of name (rtmrs id) (launch_digests id)

-- FromImageManifest
unfoldable pub from_image_manifest :
    ManifestJson → Result Bytes Bytes → Bytes → Family → Result ManifestError (List ImagePin)
unfolding pins_of_identity
from_image_manifest json file name fam =
    load_image_manifest_for json file fam >>= λ id. ok (pins_of_identity id name)
