-- ===== src/Teetypes/Claims.antt =====
-- The claims of attestation/teetypes/teetypes.go and their accessors. `platform_data` is a JSON object:
-- a map from keys to values of any kind.
pub mod Registers
use attestation_go.Base.{
  ℕ, ◌+◌, ◌/◌, ◌%◌, ℤ, pos, negsuc, int_le, int_eq, Bool, true, false, not, Option, none, some,
  List, [], ◌∷◌, ◌++◌, Bytes, codes, bytes_eq, ltb, leb, if◌then◌else◌, Result, ok, err, ◌>>=◌,
  ◌>>◌, refuse_if, map_err, Stdlib,
}
use attestation_go.Teetypes.Text.{fold_text}
use attestation_go.Teetypes.Digest.{DigestError, parse_digest}

mutual
  pub data Value : Type 0 where
    text : Bytes → Value
    flag : Bool → Value
    number : ℕ → Value
    object : Fields → Value

  pub data Fields : Type 0 where
    no_fields : Fields
    field : Bytes → Value → Fields → Fields

unfoldable pub lookup : Bytes → Fields → Option Value
lookup key no_fields = none
lookup key (field k v rest) = if bytes_eq k key then some v else lookup key rest

pub record TcbInfo : Type 0 where
  pub kind : Bytes
  pub bootloader : Option ℕ
  pub tee : Option ℕ
  pub snp : Option ℕ
  pub microcode : Option ℕ
  pub fmc : Option ℕ
  pub tcb_svn : Bytes

pub record Claims : Type 0 where
  pub launch_digest : Bytes
  pub report_data : Bytes
  pub signed_data : Bytes
  pub init_data : Bytes
  pub tcb : TcbInfo
  pub platform_data : Fields

pub data ClaimError : Type 0 where
  index_out_of_range : ℤ → ClaimError
  absent : Bytes → ClaimError
  malformed : Bytes → DigestError → ClaimError
  bad_launch_digest : DigestError → ClaimError
  no_vtpm_data : ClaimError
  register_mismatch : ℤ → ClaimError
  no_debug_flag no_smt_flag : ClaimError

-- `v, ok := data[key].(string); !ok || v == ""`
abbrev pub text_at : Option Value → Bytes → Result ClaimError Bytes
text_at (some (text [])) key = err (absent key)
text_at (some (text (c ∷ s))) key = ok (c ∷ s)
text_at _ key = err (absent key)

abbrev pub flag_in : Option Value → Option Bool
flag_in (some (flag b)) = some b
flag_in _ = none

-- The flag under a key of a nested object, where both are there and of their kinds.
unfoldable pub nested_flag : Fields → Bytes → Bytes → Option Bool
nested_flag data' outer inner = elim (lookup outer data') [
  | some (object fields) ↦ flag_in (lookup inner fields)
  | _ ↦ none
]

abbrev pub rtmr_key : ℕ → Bytes
rtmr_key i = codes "rtmr_" ++ (48 + i) ∷ []

-- "pcr%02d", of an index below 100
abbrev pub pcr_key : ℕ → Bytes
pcr_key i = codes "pcr" ++ (48 + i / 10) ∷ (48 + i % 10) ∷ []

abbrev pub pcr_count : ℕ
pcr_count = 24

rtmr_at : Claims → ℕ → Result ClaimError Bytes
rtmr_at c i = do
  v ← text_at (lookup (rtmr_key i) c.platform_data) (rtmr_key i)
  map_err (malformed (rtmr_key i)) (parse_digest v 48)

-- Claims.RTMR
unfoldable pub rtmr : Claims → ℤ → Result ClaimError Bytes
unfolding rtmr_at
rtmr c (negsuc n) = err (index_out_of_range (negsuc n))
rtmr c (pos i) = if ltb 3 i then err (index_out_of_range (pos i)) else rtmr_at c i

unfoldable pub pcr_at : Option Value → ℕ → Result ClaimError Bytes
pcr_at (some (object tpm)) i = do
  v ← text_at (lookup (pcr_key i) tpm) (pcr_key i)
  map_err (malformed (pcr_key i)) (parse_digest v 32)
pcr_at _ i = err no_vtpm_data

-- Claims.PCR
unfoldable pub pcr : Claims → ℤ → Result ClaimError Bytes
unfolding pcr_at
pcr c (negsuc n) = err (index_out_of_range (negsuc n))
pcr c (pos i) =
    if leb pcr_count i
    then err (index_out_of_range (pos i))
    else pcr_at (lookup (codes "tpm") c.platform_data) i

-- A map from register indices to pinned values, as its entries; a key stands in one entry.
abbrev pub Pins : Type 0
Pins = List (ℤ × Bytes)

-- A value of a map, by its index.
unfoldable pub pin_at : ℤ → Pins → Option Bytes
pin_at i [] = none
pin_at i ((j, v) ∷ pins) = if int_eq i j then some v else pin_at i pins

insert : ℤ × Bytes → Pins → Pins
insert e [] = e ∷ []
insert e (d ∷ ds) = if int_le e.0 d.0 then e ∷ d ∷ ds else d ∷ insert e ds

-- slices.Sorted(maps.Keys(pinned)), with the value of each key.
unfoldable pub sort_pins : Pins → Pins
unfolding insert
sort_pins [] = []
sort_pins (e ∷ es) = insert e (sort_pins es)

unfoldable pub check_each : Claims → Pins → Result ClaimError (Unit {0})
check_each c [] = ok tt
check_each c ((idx, want) ∷ rest) = rtmr c idx >>= λ got.
    refuse_if (not (bytes_eq got want)) (register_mismatch idx) >> check_each c rest

-- Claims.CheckRTMRs
unfoldable pub check_rtmrs : Claims → Pins → Result ClaimError (Unit {0})
unfolding sort_pins check_each
check_rtmrs c pinned = check_each c (sort_pins pinned)

abbrev first_flag : Option Bool → Option Bool → Result ClaimError Bool
first_flag (some b) other = ok b
first_flag none (some b) = ok b
first_flag none none = err no_debug_flag

-- Claims.DebugEnabled
unfoldable pub debug_enabled : Claims → Result ClaimError Bool
unfolding nested_flag
debug_enabled c =
    first_flag (nested_flag c.platform_data (codes "policy") (codes "debug_allowed"))
      (nested_flag c.platform_data (codes "td_attributes_parsed") (codes "debug"))

-- Claims.SMTEnabled
unfoldable pub smt_enabled : Claims → Result ClaimError Bool
unfolding nested_flag
smt_enabled c = elim (nested_flag c.platform_data (codes "platform_info") (codes "smt_enabled")) [
  | some b ↦ ok b
  | none ↦ err no_smt_flag
]

module _ ⦃lib : Stdlib⦄ where
  -- Claims.LaunchMeasurement
  unfoldable pub launch_measurement : Claims → Result ClaimError Bytes
  unfolding fold_text
  launch_measurement c = map_err bad_launch_digest (parse_digest (fold_text c.launch_digest) 48)
