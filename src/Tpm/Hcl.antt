-- ===== src/Tpm/Hcl.antt =====
-- The HCL report of attestation/tpmcommon/tpmcommon.go: its layout, and how it binds the runtime data.
pub mod Layout
use attestation_go.Base.{
  ℕ, ◌-◌, not, [], ◌∷◌, Bytes, codes, bytes_eq, length, take, slice, little_endian, ltb, ◌==◌,
  if◌then◌else◌, Result, ok, ◌>>◌, refuse_if, Stdlib,
}

pub data HclError : Type 0 where
  too_short : ℕ → HclError
  bad_magic : Bytes → HclError
  content_too_long : ℕ → ℕ → HclError
  empty_var_data : HclError
  short_report_data binding_failed : HclError

pub record HclReport : Type 0 where
  pub tee_report : Bytes
  pub report_type : ℕ
  pub var_data : Bytes

abbrev pub tee_report_offset : ℕ
tee_report_offset = 32

abbrev pub tee_report_size : ℕ
tee_report_size = 1184

abbrev pub var_data_header_size : ℕ
var_data_header_size = 20

abbrev pub tee_end : ℕ
tee_end = 1216

abbrev pub content_start : ℕ
content_start = 1236

abbrev pub keep_null : ℕ → Bytes → Bytes
keep_null b [] = if b == 0 then [] else b ∷ []
keep_null b (c ∷ s) = b ∷ c ∷ s

-- stripTrailingNulls, and the loop of ParseHCLReport that trims the null padding.
unfoldable pub strip_trailing_nulls : Bytes → Bytes
strip_trailing_nulls [] = []
strip_trailing_nulls (b ∷ s) = keep_null b (strip_trailing_nulls s)

report_of : Bytes → ℕ → Bytes → Result HclError HclReport
report_of hcl report_type var_data =
    refuse_if (length var_data == 0) empty_var_data
    >> ok (record {
      tee_report = slice hcl tee_report_offset tee_report_size;
      report_type = report_type;
      var_data = var_data;
    })

-- ParseHCLReport
unfoldable pub parse_hcl_report : Bytes → Result HclError HclReport
unfolding strip_trailing_nulls report_of little_endian
parse_hcl_report hcl = do
  refuse_if (ltb (length hcl) content_start) (too_short (length hcl))
  refuse_if (not (bytes_eq (take 4 hcl) (codes "HCLA"))) (bad_magic (take 4 hcl))
  let header = slice hcl tee_end var_data_header_size
  let report_type = little_endian (slice header 8 4)
  let content_length = little_endian (slice header 16 4)
  refuse_if (ltb (length hcl - content_start) content_length)
      (content_too_long content_length (length hcl - content_start))
  report_of hcl report_type (strip_trailing_nulls (slice hcl content_start content_length))

module _ ⦃lib : Stdlib⦄ where
  -- VerifyHCLVarDataBinding
  unfoldable pub verify_hcl_var_data_binding : Bytes → Bytes → Result HclError (Unit {0})
  verify_hcl_var_data_binding report_data var_data = do
    refuse_if (ltb (length report_data) 32) short_report_data
    refuse_if (not (bytes_eq (take 32 report_data) (lib.sha256 var_data))) binding_failed
