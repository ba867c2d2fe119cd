-- ===== src/Tests/Reports.antt =====
-- A report that a VLEK signed, over a library that accepts it.
use attestation_go.Base.{true, false, none, some, [], replicate, ok}
use attestation_go.Snp.Claims.{Report, SnpPolicy}
use attestation_go.Snp.Validate.{SnpParams}
use attestation_go.Snp.Verify.{vlek_signer, SnpOptions, SevGuest}

abbrev open_policy : SnpPolicy
open_policy = record {
  abi_major = 1;
  abi_minor = 0;
  smt = true;
  migrate_ma = false;
  debug = false;
  single_socket = false;
}

abbrev version_three : Report
version_three = record {
  version = 3;
  signer_info = 4;
  cpuid_fms = 0;
  chip_id = replicate 64 1;
  reported_tcb = 5;
  guest_policy = 0;
  platform_info = 0;
  vmpl = 0;
  current_build = 1;
  current_minor = 2;
  current_major = 3;
  committed_build = 1;
  committed_minor = 2;
  committed_major = 3;
  guest_svn = 0;
  signature_algo = 1;
  measurement = replicate 48 2;
  report_field = replicate 64 3;
  host_data = replicate 32 4;
}

abbrev accepting : SevGuest
accepting = record {
  report_to_proto = λ s. ok version_three;
  parse_signer_info = λ n. ok vlek_signer;
  is_known_product = λ n. true;
  product_line_from_fms = λ n. [];
  family_model = λ n. (25, 1);
  vcek_cert_url = λ line chip n. [];
  default_root_certs = λ line. none;
  parse_certificate = λ s. ok s;
  vcek_product_line = λ s. ok s;
  snp_attestation = λ r chain o. ok tt;
  validate_attestation = λ r chain v. ok tt;
  decoder = record {
    parse_policy = λ n. open_policy;
    tsme_enabled = λ n. true;
    smt_enabled_in = λ n. true;
    decompose_tcb = λ n. record { bl_spl = n; tee_spl = n; snp_spl = n; ucode_spl = n };
  };
}

abbrev expecting : SnpParams
expecting = record {
  wanted_report_data = some (replicate 48 3);
  wanted_init_data_hash = none;
  debug_allowed = false;
  min_tcb = none;
  wanted_launch_digest = some (replicate 48 2);
}

abbrev offline : SnpOptions
offline = record { check_revocations = false; getter = none }
