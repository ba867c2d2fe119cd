-- ===== src/Refvalues/Sets.antt =====
-- refvalues/refvalues.go: reference sets, their flat form, and the sets that flat pins stand for.
pub mod Agreement
pub mod Flat
use attestation_go.Base.{
  ℕ, suc, ◌+◌, ℤ, pos, int_eq, Bool, true, false, not, ◌&&◌, ◌||◌, Option, none, some, List, [],
  ◌∷◌, ◌++◌, Bytes, codes, bytes_eq, contains, length, map, ◌==◌, if◌then◌else◌,
}
use attestation_go.Teetypes.Platform.{Family, family_unknown}
use attestation_go.Teetypes.Digest.{hex_encode}
use attestation_go.Teetypes.Claims.{Pins, pin_at}
use attestation_go.Remote.Images.{ImagePin, is_some}
use attestation_go.Remote.Policies.{Policy}
use attestation_go.Base.Decimal.{decimal}
use attestation_go.Refvalues.Config.{ReferenceValues, pin_of}

-- ReferenceValues.Empty
unfoldable pub empty : ReferenceValues → Bool
empty rv = length rv.images == 0

unfoldable pub any_anchor : List ImagePin → Bool
any_anchor [] = false
any_anchor (img ∷ imgs) = is_some img.anchor || any_anchor imgs

-- ReferenceValues.HasAnchors
unfoldable pub has_anchors : ReferenceValues → Bool
unfolding any_anchor
has_anchors rv = any_anchor rv.images

unfoldable pub any_binding : List ImagePin → Bool
any_binding [] = false
any_binding (img ∷ imgs) =
    (is_some img.anchor || is_some img.launch_file || is_some img.launch_file_digest)
    || any_binding imgs

-- ReferenceValues.HasLaunchBindings
unfoldable pub has_launch_bindings : ReferenceValues → Bool
unfolding any_binding
has_launch_bindings rv = any_binding rv.images

-- ReferenceValues.Policy
unfoldable pub policy : ReferenceValues → Policy
policy rv = record {
  images = rv.images;
  measurements = [];
  policy_registers = [];
  policy_pcrs = [];
}

-- ReferenceValues.Digests
unfoldable pub digests : ReferenceValues → List Bytes
digests rv = map (λ img. img.digest) rv.images

-- ReferenceValues.hexDigests
unfoldable pub hex_digests : ReferenceValues → List Bytes
unfolding hex_encode
hex_digests rv = map (λ img. hex_encode img.digest) rv.images

abbrev holds_value : Bytes → Option Bytes → Bool
holds_value v none = false
holds_value v (some w) = bytes_eq v w

unfoldable pub all_in : Pins → Pins → Bool
unfolding pin_at
all_in [] b = true
all_in ((i, v) ∷ a) b = holds_value v (pin_at i b) && all_in a b

-- maps.EqualFunc with bytes.Equal
unfoldable pub same_pins : Pins → Pins → Bool
unfolding all_in
same_pins a b = length a == length b && all_in a b

unfoldable pub all_share : Pins → List ImagePin → Bool
unfolding same_pins
all_share first [] = true
all_share first (img ∷ imgs) = same_pins first img.registers && all_share first imgs

-- ReferenceValues.CommonRegisters
unfoldable pub common_of : List ImagePin → Pins × Bool
unfolding all_share
common_of [] = ([], true)
common_of (img ∷ imgs) = if all_share img.registers imgs then (img.registers, true) else ([], false)

unfoldable pub common_registers : ReferenceValues → Pins × Bool
unfolding common_of
common_registers rv = common_of rv.images

-- The three results of Flatten.
pub record FlatForm : Type 0 where
  pub flat_digests : List Bytes
  pub flat_registers : Pins
  pub uniform : Bool

-- ReferenceValues.Flatten
unfoldable pub flatten : ReferenceValues → FlatForm
unfolding common_registers has_launch_bindings hex_digests
flatten rv = record {
  flat_digests = hex_digests rv;
  flat_registers = (common_registers rv).0;
  uniform = (common_registers rv).1 && not (has_launch_bindings rv);
}

-- The loop of FromFlags: `n` images are built, and `seen` holds their digests.
unfoldable pub images_of : ℕ → List Bytes → List Bytes → Pins → List ImagePin
unfolding decimal
images_of n seen [] rtmrs = []
images_of n seen (d ∷ ds) rtmrs =
    let rest = images_of n seen ds rtmrs in
    let added = images_of (n + 1) (d ∷ seen) ds rtmrs in
    if contains seen d
    then rest
    else pin_of (codes "image-" ++ decimal (pos (n + 1))) d rtmrs ∷ added

-- FromFlags
unfoldable pub from_flags : List Bytes → Pins → ReferenceValues
unfolding images_of
from_flags ds rtmrs = record { of_family = family_unknown; images = images_of 0 [] ds rtmrs }
