-- ===== src/Tests/Pins.antt =====
-- Reference values of a TDX image, from a config file, from flags and flat.
use attestation_go.Base.{
  ◌<◌, ◌≡◌, ◌↔◌, ◌⊎◌, refl, arith, pos, true, false, none, some, [], ◌∷◌, Bytes, codes, bytes_eq,
  contains, length, replicate, All, Result, ok, err, Option, ◌++◌, List, IsBytes,
}
use attestation_go.Teetypes.Text.{trim_space}
use attestation_go.Teetypes.Platform.{family_tdx, parse_family}
use attestation_go.Teetypes.Digest.{parse_digest, hex_encode}
use attestation_go.Teetypes.Claims.{Pins, sort_pins, pin_at}
use attestation_go.Teetypes.Claims.Registers.{IsMap}
use attestation_go.Tpm.Quote.{RawTpmQuote}
use attestation_go.Runtimemeasure.PublicKey.{KeyCodec}
use attestation_go.Remote.Images.{ImagePin, check_launch_binding_pins}
use attestation_go.Remote.Policies.{AttestationEvidence}
use attestation_go.Refvalues.Keys.{tuple_key}
use attestation_go.Refvalues.Keys.Identity.{SameTuple, tuple_key_iff}
use attestation_go.Refvalues.Config.{
  ReferenceValues, Wire, WireImage, pin_of, decode_register, seen_at, validate, pins_launch_file,
}
use attestation_go.Refvalues.Config.Pinned.{IsPinnable}
use attestation_go.Refvalues.Config.Valid.{AllApart, ReadsEach, validate_sound}
use attestation_go.Refvalues.Flags.{parse_register_pins, format_register_pins}
use attestation_go.Refvalues.Flags.RoundTrip.{
  parse_register_pins_bounds, parse_register_pins-format,
}
use attestation_go.Refvalues.Sets.{
  flatten, from_flags, policy, common_registers, has_launch_bindings,
}
use attestation_go.Refvalues.Sets.Flat.{
  Accepts, image_policy, flat_policy, flatten_refines, from_flags_refines,
}
use attestation_go.Refvalues.Flags.{parse_hex_measurements_list}
use attestation_go.Tests.{toy}
use attestation_go.Tests.Bindings.{tdx_result}

abbrev no_keys : KeyCodec
no_keys = record { pem_decode = λ key. (none, key); parse_pkix = λ body. err body }

abbrev as_written : Bytes → Result Bytes Bytes
as_written raw = ok raw

abbrev entry : WireImage
entry = record {
  name = codes "a";
  measurement = none;
  mrtd = some (hex_encode (replicate 48 171));
  wire_rtmr = some (none ∷ some (hex_encode (replicate 48 1)) ∷ []);
  approver_key = none;
  launch_file = none;
  launch_file_digest = none;
}

abbrev document : Wire
document = record { schema_version = codes "1"; tee = codes "tdx"; measurements = entry ∷ [] }

abbrev image : ImagePin
image = pin_of (codes "a") (replicate 48 171) ((pos 1, replicate 48 1) ∷ [])

abbrev pinned_set : ReferenceValues
pinned_set = record { of_family = family_tdx; images = image ∷ [] }

loads : validate ⦃lib = toy⦄ no_keys as_written false document ≡ ok pinned_set
unfolding validate parse_family bytes_eq trim_space parse_digest hex_encode contains decode_register
    seen_at
loads = refl

validate_sound_example :
    (parse_family ⦃lib = toy⦄ (codes "tdx") ≡ ok family_tdx)
    × ReadsEach family_tdx (entry ∷ []) (image ∷ [])
    × AllApart (image ∷ [])
    × (check_launch_binding_pins ⦃lib = toy⦄ (image ∷ []) family_tdx ≡ ok tt)
    × ((pins_launch_file (image ∷ []) ≡ false) ⊎ (codes "1" ≡ codes "2"))
    × ((false ≡ true) ⊎ (0 < length (entry ∷ [])))
validate_sound_example = validate_sound ⦃lib = toy⦄ no_keys as_written false document loads

abbrev one_pin : Pins
one_pin = (pos 1, replicate 48 1) ∷ []

one_pin-IsPinnable : All IsPinnable one_pin
one_pin-IsPinnable = ((1, refl, omega arith, omega arith, omega arith, refl), tt)

parse_register_pins-format_example :
    parse_register_pins (format_register_pins one_pin) ≡ ok (sort_pins one_pin)
parse_register_pins-format_example = parse_register_pins-format one_pin one_pin-IsPinnable (tt, tt)

given :
    parse_register_pins ((codes " 1 =" ++ hex_encode (replicate 48 1)) ∷ codes " " ∷ [])
    ≡ ok one_pin
unfolding parse_register_pins trim_space parse_digest hex_encode pin_at
given = refl

pins_in_bounds : All IsPinnable one_pin × IsMap one_pin
pins_in_bounds =
    parse_register_pins_bounds ((codes " 1 =" ++ hex_encode (replicate 48 1)) ∷ codes " " ∷ [])
      given

abbrev renamed : ImagePin
renamed = record image { name = codes "b" }

tuple_key_iff_example : (tuple_key image ≡ tuple_key renamed) ↔ SameTuple image renamed
tuple_key_iff_example =
    tuple_key_iff image renamed (omega arith, one_pin-IsPinnable, tt, tt, tt)
      (omega arith, one_pin-IsPinnable, tt, tt, tt)

abbrev no_quote : Bytes → Result Bytes (Option RawTpmQuote)
no_quote text = ok none

abbrev evidence : AttestationEvidence
evidence = record { evidence_platform = codes "tdx"; evidence = [] }

uniform_set : (flatten pinned_set).uniform ≡ true
unfolding flatten common_registers has_launch_bindings
uniform_set = refl

pinned-IsBytes : IsBytes (replicate 48 171)
pinned-IsBytes = ground arith

flatten_refines_example :
    (ds : List Bytes) × (parse_hex_measurements_list (flatten pinned_set).flat_digests ≡ ok ds)
    × (Accepts ⦃lib = toy⦄ no_quote tdx_result evidence []
          (record (policy pinned_set) { policy_pcrs = [] })
        ↔ Accepts ⦃lib = toy⦄ no_quote tdx_result evidence []
            (flat_policy ds (flatten pinned_set).flat_registers []))
flatten_refines_example =
    flatten_refines ⦃lib = toy⦄ no_quote tdx_result evidence [] pinned_set []
      (((pinned-IsBytes, refl), (tt, tt)), tt) uniform_set

from_flags_refines_example :
    Accepts ⦃lib = toy⦄ no_quote tdx_result evidence []
      (image_policy (from_flags (replicate 48 7 ∷ []) one_pin).images [])
    ↔ Accepts ⦃lib = toy⦄ no_quote tdx_result evidence []
        (flat_policy (replicate 48 7 ∷ []) one_pin [])
from_flags_refines_example =
    from_flags_refines ⦃lib = toy⦄ no_quote tdx_result evidence [] (replicate 48 7) [] one_pin []
