-- ===== src/Refvalues/Keys.antt =====
-- refvalues/config.go: tupleKey, the identity that a pin is matched on.
pub mod Identity
use attestation_go.Base.{ℤ, Option, none, some, [], ◌∷◌, ◌++◌, Bytes, codes}
use attestation_go.Teetypes.Digest.{hex_encode}
use attestation_go.Teetypes.Claims.{Pins, sort_pins}
use attestation_go.Remote.Images.{ImagePin}
use attestation_go.Base.Decimal.{decimal}

-- "|%d=%s" for each register
unfoldable pub registers_text : Pins → Bytes
unfolding decimal hex_encode
registers_text [] = []
registers_text ((i, v) ∷ rest) =
    b'|' ∷ (decimal i ++ (b'=' ∷ (hex_encode v ++ registers_text rest)))

-- "|name=%x" for a field that is set; the name comes with its equals sign.
abbrev pub field_text : Bytes → Option Bytes → Bytes
field_text label none = []
field_text label (some v) = b'|' ∷ (label ++ hex_encode v)

unfoldable pub tuple_key : ImagePin → Bytes
unfolding hex_encode registers_text sort_pins
tuple_key img =
    hex_encode img.digest
    ++ (registers_text (sort_pins img.registers)
        ++ (field_text (codes "anchor=") img.anchor
            ++ (field_text (codes "launch_file=") img.launch_file
                ++ field_text (codes "launch_file_digest=") img.launch_file_digest)))
