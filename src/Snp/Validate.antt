-- ===== src/Snp/Validate.antt =====
-- attestation/snp/snp.go: validateOptions, the policy that a report is validated under.
use attestation_go.Base.{
  ℕ, Bool, true, false, Option, none, some, ◌++◌, Bytes, length, take, replicate, ltb, ◌==◌, not,
  Result, ok, err, ◌>>=◌, ◌>>◌, refuse_if,
}
use attestation_go.Snp.Claims.{SnpPolicy, TcbParts}

pub data SnpError : Type 0 where
  report_data_too_long init_data_too_long launch_digest_width : ℕ → SnpError
  fmc_not_enforceable : SnpError
  bad_base64 bad_report bad_signer collateral_unavailable bad_vcek bad_vcek_extension :
      Bytes → SnpError
  bad_version : ℕ → SnpError
  no_vcek unsupported_signer no_cpuid no_chip_id : SnpError
  no_product_line : ℕ → ℕ → SnpError
  not_verified not_valid : Bytes → SnpError

-- teetypes.SnpTcb
pub record SnpTcb : Type 0 where
  pub floor_bootloader : ℕ
  pub floor_tee : ℕ
  pub floor_snp : ℕ
  pub floor_microcode : ℕ
  pub floor_fmc : Option ℕ

-- The fields of teetypes.VerifyParams that SEV-SNP reads; nil is none.
pub record SnpParams : Type 0 where
  pub wanted_report_data : Option Bytes
  pub wanted_init_data_hash : Option Bytes
  pub debug_allowed : Bool
  pub min_tcb : Option SnpTcb
  pub wanted_launch_digest : Option Bytes

-- validate.Options; a minimum of zeros is none.
pub record ValidateOptions : Type 0 where
  pub policy_maximum : SnpPolicy
  pub permit_provisional_firmware : Bool
  pub at_vmpl : Option ℕ
  pub report_data_is : Option Bytes
  pub host_data_is : Option Bytes
  pub measurement_is : Option Bytes
  pub minimum_tcb : Option TcbParts

unfoldable pub pad : Bytes → ℕ → Bytes
pad b n = take n (b ++ replicate n 0)

abbrev pub padded_to : ℕ → (ℕ → SnpError) → Option Bytes → Result SnpError (Option Bytes)
padded_to n e none = ok none
padded_to n e (some d) = refuse_if (ltb n (length d)) (e (length d)) >> ok (some (pad d n))

abbrev pub of_width : Option Bytes → Result SnpError (Option Bytes)
of_width none = ok none
of_width (some d) = refuse_if (not (length d == 48)) (launch_digest_width (length d)) >> ok (some d)

abbrev pub tcb_floor : Option SnpTcb → Result SnpError (Option TcbParts)
tcb_floor none = ok none
tcb_floor (some t) = elim t.floor_fmc [
  | some f ↦ err fmc_not_enforceable
  | none ↦ ok (
      some (record {
        bl_spl = t.floor_bootloader;
        tee_spl = t.floor_tee;
        snp_spl = t.floor_snp;
        ucode_spl = t.floor_microcode;
      }))
]

abbrev pub options_for :
    Bool → Option Bytes → Option Bytes → Option Bytes → Option TcbParts → ValidateOptions
options_for debug data_field host digest floor = record {
  policy_maximum = record {
    abi_major = 0;
    abi_minor = 0;
    smt = true;
    migrate_ma = true;
    debug = debug;
    single_socket = false;
  };
  permit_provisional_firmware = true;
  at_vmpl = some 0;
  report_data_is = data_field;
  host_data_is = host;
  measurement_is = digest;
  minimum_tcb = floor;
}

unfoldable pub validate_options : SnpParams → Result SnpError ValidateOptions
unfolding pad
validate_options p = do
  data_field ← padded_to 64 report_data_too_long p.wanted_report_data
  host ← padded_to 32 init_data_too_long p.wanted_init_data_hash
  digest ← of_width p.wanted_launch_digest
  floor ← tcb_floor p.min_tcb
  ok (options_for p.debug_allowed data_field host digest floor)
