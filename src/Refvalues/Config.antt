-- ===== src/Refvalues/Config.antt =====
-- refvalues/config.go: the measurements config file, from the decoded fields on.
pub mod Pinned
pub mod Valid
use attestation_go.Base.{
  ℕ, ◌+◌, pos, Bool, true, false, not, ◌&&◌, ◌||◌, Option, none, some, List, [], ◌∷◌, Bytes, codes,
  bytes_eq, contains, length, replicate, ltb, ◌==◌, if◌then◌else◌, Result, ok, err, ◌>>=◌, ◌>>◌,
  refuse_if, map_err, Stdlib,
}
use attestation_go.Teetypes.Text.{trim_space}
use attestation_go.Teetypes.Platform.{
  Family, family_unknown, family_snp, family_tdx, FamilyError, parse_family,
}
use attestation_go.Teetypes.Digest.{DigestError, parse_digest}
use attestation_go.Teetypes.Claims.{Pins}
use attestation_go.Runtimemeasure.Fold.{size}
use attestation_go.Runtimemeasure.LaunchFile.{LaunchFileError, parse_launch_file_digest}
use attestation_go.Runtimemeasure.PublicKey.{KeyCodec, KeyError, parse_public_key_pem}
use attestation_go.Remote.Images.{ImagePin, is_some, one_if}
use attestation_go.Refvalues.Keys.{tuple_key}

-- ReferenceValues
pub record ReferenceValues : Type 0 where
  pub of_family : Family
  pub images : List ImagePin

-- wireImage: an absent field is `none`, and the raw fields keep the JSON text that was written.
pub record WireImage : Type 0 where
  pub name : Bytes
  pub measurement : Option Bytes
  pub mrtd : Option Bytes
  pub wire_rtmr : Option (List (Option Bytes))
  pub approver_key : Option Bytes
  pub launch_file : Option Bytes
  pub launch_file_digest : Option Bytes

-- wire
pub record Wire : Type 0 where
  pub schema_version : Bytes
  pub tee : Bytes
  pub measurements : List WireImage

pub data EntryError : Type 0 where
  name_required tdx_fields snp_fields measurement_required mrtd_required : EntryError
  bad_register : DigestError → EntryError
  too_many_rtmrs : ℕ → EntryError
  rtmr0_pinned : EntryError
  bad_rtmr : ℕ → DigestError → EntryError
  unknown_shape several_bindings empty_text : EntryError
  null_binding bad_text : Bytes → EntryError
  bad_approver_key : KeyError → EntryError
  bad_launch_digest : LaunchFileError → EntryError

pub data ConfigError : Type 0 where
  bad_schema_version schema_two_required : Bytes → ConfigError
  bad_tee : FamilyError → ConfigError
  no_measurements : ConfigError
  of_entry : ℕ → EntryError → ConfigError
  duplicate_name : ℕ → Bytes → ConfigError
  duplicate_tuple : ℕ → ℕ → ConfigError

abbrev pub max_rtmrs : ℕ
max_rtmrs = 4

abbrev pub schema_version_one : Bytes
schema_version_one = codes "1"

abbrev pub schema_version_two : Bytes
schema_version_two = codes "2"

unfoldable pub decode_register : Bytes → Result DigestError Bytes
decode_register s = parse_digest s size

-- An empty text pins the value of the register at boot.
abbrev pub decode_pin : ℕ → Bytes → Result EntryError Bytes
decode_pin idx [] = ok (replicate size 0)
decode_pin idx (c ∷ s) = map_err (bad_rtmr idx) (decode_register (c ∷ s))

-- The loop of decodeRTMRs.
unfoldable pub decode_from : ℕ → List (Option Bytes) → Result EntryError Pins
decode_from idx [] = ok []
decode_from idx (none ∷ raw) = decode_from (idx + 1) raw
decode_from idx (some v ∷ raw) = do
  refuse_if (idx == 0) rtmr0_pinned
  d ← decode_pin idx v
  out ← decode_from (idx + 1) raw
  ok ((pos idx, d) ∷ out)

unfoldable pub decode_rtmrs : Option (List (Option Bytes)) → Result EntryError Pins
unfolding decode_from
decode_rtmrs none = ok []
decode_rtmrs (some raw) =
    refuse_if (ltb max_rtmrs (length raw)) (too_many_rtmrs (length raw)) >> decode_from 0 raw

-- isJSONNull
unfoldable pub is_json_null : Option Bytes → Bool
is_json_null none = false
is_json_null (some raw) = bytes_eq raw (codes "null")

abbrev required : Option Bytes → EntryError → Result EntryError Bytes
required none e = err e
required (some s) e = map_err bad_register (decode_register s)

abbrev pub pin_of : Bytes → Bytes → Pins → ImagePin
pin_of name digest registers = record {
  name = name;
  digest = digest;
  registers = registers;
  anchor = none;
  launch_file = none;
  launch_file_digest = none;
  accept_extension = none;
}

-- The index under which a key was seen.
unfoldable pub seen_at : Bytes → List (Bytes × ℕ) → Option ℕ
seen_at key [] = none
seen_at key ((k, i) ∷ seen) = if bytes_eq k key then some i else seen_at key seen

abbrev pub refuse_seen : ℕ → Option ℕ → Result ConfigError (Unit {0})
refuse_seen i none = ok tt
refuse_seen i (some prev) = err (duplicate_tuple i prev)

unfoldable pub pins_launch_file : List ImagePin → Bool
pins_launch_file [] = false
pins_launch_file (img ∷ imgs) =
    is_some img.launch_file || is_some img.launch_file_digest || pins_launch_file imgs

unfoldable pub check_launch_file_schema : Bytes → List ImagePin → Result ConfigError (Unit {0})
unfolding pins_launch_file
check_launch_file_schema version imgs =
    refuse_if (pins_launch_file imgs && not (bytes_eq version schema_version_two))
      (schema_two_required version)

unfoldable pub schema_version_for : List ImagePin → Bytes
unfolding pins_launch_file
schema_version_for imgs = if pins_launch_file imgs then schema_version_two else schema_version_one

-- The codec of public keys, and json.Unmarshal of a raw field into a string.
module _ ⦃lib : Stdlib⦄ (codec : KeyCodec) (unmarshal : Bytes → Result Bytes Bytes) where
  unfoldable pub launch_bytes : Bytes → Result EntryError Bytes
  launch_bytes raw = do
    s ← map_err bad_text (unmarshal raw)
    refuse_if (length s == 0) empty_text
    ok s

  pin_field :
      Family → Option Bytes → Option Bytes → Option Bytes → ImagePin → Result EntryError ImagePin
  pin_field fam (some raw) file digest img = do
    key ← launch_bytes raw
    point ← map_err bad_approver_key (parse_public_key_pem codec key)
    ok (record img { anchor = some key })
  pin_field fam none (some raw) digest img = do
    s ← launch_bytes raw
    ok (record img { launch_file = some s })
  pin_field fam none none (some raw) img = do
    s ← map_err bad_text (unmarshal raw)
    d ← map_err bad_launch_digest (parse_launch_file_digest fam s)
    ok (record img { launch_file_digest = some d })
  pin_field fam none none none img = ok img

  unfoldable pub pin_launch_binding : Family → WireImage → ImagePin → Result EntryError ImagePin
  unfolding pin_field is_json_null
  pin_launch_binding fam we img = do
    refuse_if (is_json_null we.approver_key) (null_binding (codes "approver_key"))
    refuse_if (is_json_null we.launch_file) (null_binding (codes "launch_file"))
    refuse_if (is_json_null we.launch_file_digest) (null_binding (codes "launch_file_digest"))
    refuse_if
        (ltb 1 (
          one_if (is_some we.approver_key)
          + one_if (is_some we.launch_file)
          + one_if (is_some we.launch_file_digest)))
        several_bindings
    pin_field fam we.approver_key we.launch_file we.launch_file_digest img

  -- The switch of validate on the family: the pin without its launch binding.
  unfoldable pub shape : Family → WireImage → Result EntryError ImagePin
  unfolding decode_rtmrs
  shape family_snp we = do
    refuse_if (is_some we.mrtd || is_some we.wire_rtmr) tdx_fields
    d ← required we.measurement measurement_required
    ok (pin_of we.name d [])
  shape family_tdx we = do
    refuse_if (is_some we.measurement) snp_fields
    d ← required we.mrtd mrtd_required
    rtmrs ← decode_rtmrs we.wire_rtmr
    ok (pin_of we.name d rtmrs)
  shape family_unknown we = err unknown_shape

  -- wireImage.validate
  unfoldable pub validate_image : Family → WireImage → Result EntryError ImagePin
  unfolding shape pin_launch_binding
  validate_image fam we = do
    refuse_if (length (trim_space we.name) == 0) name_required
    img ← shape fam we
    pin_launch_binding fam we img

  -- The loop of wire.validate over the entries from `i` on.
  unfoldable pub validate_from :
      Family
      → ℕ
      → List Bytes
      → List (Bytes × ℕ)
      → List WireImage
      → Result ConfigError (List ImagePin)
  unfolding validate_image tuple_key
  validate_from fam i names tuples [] = ok []
  validate_from fam i names tuples (we ∷ wes) = do
    img ← map_err (of_entry i) (validate_image fam we)
    refuse_if (contains names img.name) (duplicate_name i img.name)
    refuse_seen i (seen_at (tuple_key img) tuples)
    rest ← validate_from fam (i + 1) (img.name ∷ names) ((tuple_key img, i) ∷ tuples) wes
    ok (img ∷ rest)

  -- wire.validate
  unfoldable pub validate : Bool → Wire → Result ConfigError ReferenceValues
  unfolding validate_from check_launch_file_schema
  validate allow_empty f = do
    refuse_if
        (not (
          bytes_eq f.schema_version schema_version_one
          || bytes_eq f.schema_version schema_version_two))
        (bad_schema_version f.schema_version)
    fam ← map_err bad_tee (parse_family f.tee)
    refuse_if (length f.measurements == 0 && not allow_empty) no_measurements
    imgs ← validate_from fam 0 [] [] f.measurements
    check_launch_file_schema f.schema_version imgs
    ok (record { of_family = fam; images = imgs })
