-- ===== src/Tests/Bindings.antt =====
-- A TDX guest whose register carries an anchor and one extension, over the checksum of the tests.
use attestation_go.Base.{
  ℕ, ◌≤◌, ◌≡◌, refl, arith, pos, true, false, none, some, [], ◌∷◌, Bytes, codes, bytes_eq, length,
  replicate, All, Any, ok,
}
use attestation_go.Teetypes.Text.{trim_space, fold_text}
use attestation_go.Teetypes.Platform.{Family, normalize_platform, family, is_family, has_registers}
use attestation_go.Teetypes.Digest.{parse_digest, hex_encode, all_lower_hex}
use attestation_go.Teetypes.Claims.{
  text, no_fields, field, lookup, TcbInfo, Claims, rtmr, check_rtmrs, launch_measurement,
}
use attestation_go.Teetypes.Verdict.{VerificationResult, check}
use attestation_go.Runtimemeasure.Canonical.{canonical_digest}
use attestation_go.Runtimemeasure.Canonical.Shape.{IsCanonical}
use attestation_go.Runtimemeasure.Fold.{event, extend, seed, from_digests_seeded}
use attestation_go.Runtimemeasure.LaunchFile.{
  launch_file_digest, check_launch_file_digest, count_zeros,
}
use attestation_go.Runtimemeasure.Binding.{
  binding, verify_binding, check_binding_platform, binding_from_digest, expected_binding,
  first_uncanonical, match_from, match_binding_prefix, match_launch_file_digest_prefix,
}
use attestation_go.Runtimemeasure.Binding.Prefix.{
  match_binding_prefix_sound, match_binding_prefix_complete, match_launch_file_digest_prefix_sound,
}
use attestation_go.Remote.Checks.{check_verified_platform, launch_digest_of, enforce_rtmrs_against}
use attestation_go.Remote.Checks.{
  VerifyParams, nonempty, pinned_from, enforce_rtmrs, enforce_launch_measurement,
  enforce_expected_measurements, enforce_verdict,
}
use attestation_go.Remote.Checks.Verdicts.{HoldsLaunch, HoldsRegister, enforce_verdict_sound}
use attestation_go.Runtimemeasure.LaunchFile.{launch_file_hash, parse_launch_file_digest}
use attestation_go.Runtimemeasure.LaunchFile.Spelling.{parse_launch_file_digest_iff}
use attestation_go.Base.{contains, ◌⊎◌}
use attestation_go.Runtimemeasure.Binding.Tdx.{verify_binding_tdx}
use attestation_go.Base.{◌<◌}
use attestation_go.Runtimemeasure.Binding.Anchor.{init_data_anchor_tdx}
use attestation_go.Base.{◌++◌}
use attestation_go.Runtimemeasure.Binding.{init_data_anchor}
use attestation_go.Remote.Request.{set_expected_measurements}
use attestation_go.Remote.Request.Enforced.{enforce_verdict-set_expected_measurements}
use attestation_go.Teetypes.Claims.{sort_pins}
use attestation_go.Remote.Images.{
  ImagePin, check_launch_binding_pins, enforce_images_with_runtime_log,
}
use attestation_go.Remote.Images.Whole.{Holds, enforce_images_with_runtime_log_sound}
use attestation_go.Tests.Journals.{IsCanonical-a, IsCanonical-b}
use attestation_go.Tests.{toy, digest_a, digest_b}

abbrev pub anchor : Bytes
anchor = codes "a key"

abbrev pub anchored : Bytes
anchored = extend ⦃lib = toy⦄ (seed ⦃lib = toy⦄ anchor) (event ⦃lib = toy⦄ digest_a)

abbrev pub no_tcb : TcbInfo
no_tcb = record {
  kind = [];
  bootloader = none;
  tee = none;
  snp = none;
  microcode = none;
  fmc = none;
  tcb_svn = [];
}

abbrev pub tdx_claims : Claims
tdx_claims = record {
  launch_digest = hex_encode (replicate 48 7);
  report_data = [];
  signed_data = [];
  init_data = [];
  tcb = no_tcb;
  platform_data = field (codes "rtmr_3") (text (hex_encode anchored)) no_fields;
}

abbrev pub tdx_result : VerificationResult
tdx_result = record {
  signature_valid = true;
  platform = codes "tdx";
  claims = tdx_claims;
  report_data_match = none;
  init_data_match = none;
  launch_digest_match = none;
  mrtd_match = none;
  rtmr0_match = none;
  rtmr1_match = none;
  rtmr2_match = none;
  rtmr3_match = none;
  collateral_verified = true;
  eventlog_verified = none;
  rtmr3_replay_match = none;
  tcb_status = none;
}

tdx_family : family ⦃lib = toy⦄ (codes "tdx") ≡ Family.family_tdx
unfolding family bytes_eq
tdx_family = refl

carried : binding ⦃lib = toy⦄ (some tdx_result) ≡ ok anchored
unfolding binding check rtmr lookup bytes_eq parse_digest hex_encode extend event seed
    check_binding_platform normalize_platform has_registers
carried = refl

wanted : expected_binding ⦃lib = toy⦄ (codes "tdx") anchor [] ≡ ok (seed ⦃lib = toy⦄ anchor)
unfolding expected_binding binding_from_digest check_binding_platform family normalize_platform
    bytes_eq launch_file_digest check_launch_file_digest count_zeros extend event seed
    from_digests_seeded is_family
wanted = refl

plain : first_uncanonical 0 (digest_a ∷ digest_b ∷ []) ≡ none
unfolding first_uncanonical canonical_digest all_lower_hex bytes_eq
plain = refl

found :
    match_from ⦃lib = toy⦄ anchored 0 (seed ⦃lib = toy⦄ anchor) (digest_a ∷ digest_b ∷ []) ≡ some 1
unfolding match_from bytes_eq extend event seed
found = refl

registers : has_registers ⦃lib = toy⦄ (codes "tdx") ≡ true
unfolding has_registers family bytes_eq
registers = refl

differs : bytes_eq anchored (seed ⦃lib = toy⦄ anchor) ≡ false
unfolding bytes_eq extend event seed
differs = refl

matched :
    match_binding_prefix ⦃lib = toy⦄ (some tdx_result) anchor (digest_a ∷ digest_b ∷ []) ≡ ok 1
unfolding match_binding_prefix
matched = rw (plain, carried, wanted, differs, registers, found) refl

match_binding_prefix_sound_example :
    (1 ≤ length (digest_a ∷ digest_b ∷ []))
    × All IsCanonical (digest_a ∷ digest_b ∷ [])
    × (verify_binding ⦃lib = toy⦄ (some tdx_result) anchor (digest_a ∷ []) ≡ ok tt)
match_binding_prefix_sound_example =
    match_binding_prefix_sound ⦃lib = toy⦄ tdx_result anchor (digest_a ∷ digest_b ∷ []) 1 matched

verified : verify_binding ⦃lib = toy⦄ (some tdx_result) anchor (digest_a ∷ []) ≡ ok tt
verified =
    (match_binding_prefix_sound ⦃lib = toy⦄ tdx_result anchor (digest_a ∷ digest_b ∷ []) 1
      matched).2

match_binding_prefix_complete_example :
    (j : ℕ) × (match_binding_prefix ⦃lib = toy⦄ (some tdx_result) anchor (digest_a ∷ digest_b ∷ [])
      ≡ ok j)
    × (j ≤ 1)
match_binding_prefix_complete_example =
    match_binding_prefix_complete ⦃lib = toy⦄ tdx_result anchor (digest_a ∷ digest_b ∷ []) 1
      (IsCanonical-a, (IsCanonical-b, tt)) (omega arith) verified

wanted_digest :
    binding_from_digest ⦃lib = toy⦄ (codes "tdx") (toy.sha384 anchor) []
    ≡ ok (seed ⦃lib = toy⦄ anchor)
unfolding binding_from_digest check_binding_platform family normalize_platform bytes_eq
    check_launch_file_digest count_zeros extend event seed from_digests_seeded is_family
wanted_digest = refl

matched_digest :
    match_launch_file_digest_prefix ⦃lib = toy⦄
      (some tdx_result)
      (toy.sha384 anchor)
      (digest_a ∷ digest_b ∷ [])
    ≡ ok 1
unfolding match_launch_file_digest_prefix
matched_digest = rw (plain, carried, wanted_digest, differs, registers, found) refl

prefix_of_the_digest :
    (1 ≤ length (digest_a ∷ digest_b ∷ []))
    × All IsCanonical (digest_a ∷ digest_b ∷ [])
    × (v : Bytes) × (binding ⦃lib = toy⦄ (some tdx_result) ≡ ok v)
    × (binding_from_digest ⦃lib = toy⦄ (codes "tdx") (toy.sha384 anchor) (digest_a ∷ []) ≡ ok v)
prefix_of_the_digest =
    match_launch_file_digest_prefix_sound ⦃lib = toy⦄ tdx_result (toy.sha384 anchor)
      (digest_a ∷ digest_b ∷ []) 1 matched_digest

abbrev pub image : ImagePin
image = record {
  name = codes "guest";
  digest = replicate 48 7;
  registers = (pos 3, anchored) ∷ [];
  anchor = some anchor;
  launch_file = none;
  launch_file_digest = none;
  accept_extension = some (λ d. none);
}

platform_agrees : check_verified_platform ⦃lib = toy⦄ tdx_result (codes "tdx") ≡ ok tt
unfolding check_verified_platform normalize_platform bytes_eq
platform_agrees = refl

pins_agree :
    check_launch_binding_pins ⦃lib = toy⦄ (image ∷ []) (family ⦃lib = toy⦄ (codes "tdx")) ≡ ok tt
unfolding check_launch_binding_pins
pins_agree = refl

launched : launch_digest_of ⦃lib = toy⦄ tdx_result ≡ ok (replicate 48 7)
unfolding launch_digest_of launch_measurement fold_text parse_digest hex_encode trim_space
launched = refl

register_pins : check_rtmrs tdx_claims ((pos 3, anchored) ∷ []) ≡ ok tt
unfolding check_rtmrs rtmr lookup bytes_eq parse_digest hex_encode extend event seed
register_pins = refl

bytes_eq_image : bytes_eq (replicate 48 7) image.digest ≡ true
unfolding bytes_eq
bytes_eq_image = refl

accepted :
    enforce_images_with_runtime_log ⦃lib = toy⦄ tdx_result
      (image ∷ [])
      (codes "tdx")
      (digest_a ∷ digest_b ∷ [])
    ≡ ok tt
unfolding enforce_images_with_runtime_log enforce_rtmrs_against
accepted =
    rw (platform_agrees, pins_agree, launched, bytes_eq_image, registers, register_pins, matched)
      refl

enforce_images_with_runtime_log_sound_example :
    Any (Holds ⦃lib = toy⦄ tdx_result (codes "tdx") (digest_a ∷ digest_b ∷ [])) (image ∷ [])
enforce_images_with_runtime_log_sound_example =
    enforce_images_with_runtime_log_sound ⦃lib = toy⦄ tdx_result image [] (codes "tdx")
      (digest_a ∷ digest_b ∷ []) accepted

abbrev params : VerifyParams
params = record {
  expected_report_data = [];
  expected_init_data_hash = [];
  expected_launch_digest = [];
  expected_mrtd = replicate 48 7;
  expected_rtmr0 = [];
  expected_rtmr1 = [];
  expected_rtmr2 = [];
  expected_rtmr3 = anchored;
}

in_allowed : contains (replicate 48 7 ∷ []) (replicate 48 7) ≡ true
unfolding contains bytes_eq
in_allowed = refl

verdict : enforce_verdict ⦃lib = toy⦄ (some params) tdx_result ≡ ok tt
unfolding enforce_verdict check enforce_expected_measurements nonempty pinned_from
    enforce_launch_measurement enforce_rtmrs enforce_rtmrs_against hex_encode extend
verdict = rw (launched, in_allowed, register_pins) refl

enforce_verdict_sound_example :
    (tdx_result.signature_valid ≡ true)
    × ((params.expected_report_data ≡ []) ⊎ (tdx_result.report_data_match ≡ some true))
    × ((params.expected_init_data_hash ≡ []) ⊎ (tdx_result.init_data_match ≡ some true))
    × HoldsLaunch ⦃lib = toy⦄ params tdx_result
    × HoldsRegister ⦃lib = toy⦄ tdx_result 0 params.expected_rtmr0
    × HoldsRegister ⦃lib = toy⦄ tdx_result 1 params.expected_rtmr1
    × HoldsRegister ⦃lib = toy⦄ tdx_result 2 params.expected_rtmr2
    × HoldsRegister ⦃lib = toy⦄ tdx_result 3 params.expected_rtmr3
enforce_verdict_sound_example = enforce_verdict_sound ⦃lib = toy⦄ params tdx_result verdict

passes : check_launch_file_digest ⦃lib = toy⦄ Family.family_snp (replicate 32 9) ≡ ok tt
unfolding check_launch_file_digest launch_file_hash count_zeros bytes_eq
passes = refl

reads_a_launch_digest :
    parse_launch_file_digest ⦃lib = toy⦄ Family.family_snp (hex_encode (replicate 32 9))
    ≡ ok (replicate 32 9)
reads_a_launch_digest =
    (parse_launch_file_digest_iff ⦃lib = toy⦄ Family.family_snp (hex_encode (replicate 32 9))
        (replicate 32 9)).1
      (refl, ground arith, passes)

verify_binding_tdx_example :
    (tdx_result.signature_valid ≡ true)
    × (0 < length anchor)
    × (check_launch_file_digest ⦃lib = toy⦄ Family.family_tdx (toy.sha384 anchor) ≡ ok tt)
    × (rtmr tdx_claims (pos 3)
        ≡ ok (from_digests_seeded ⦃lib = toy⦄ (seed ⦃lib = toy⦄ anchor) (digest_a ∷ [])))
verify_binding_tdx_example =
    (verify_binding_tdx ⦃lib = toy⦄ tdx_result anchor (digest_a ∷ []) tdx_family).0 verified

-- A TDX guest whose MRCONFIGID is a padded digest.
abbrev configured : VerificationResult
configured = record tdx_result {
  claims = record tdx_claims { init_data = replicate 32 6 ++ replicate 16 0 };
}

configured_anchor : init_data_anchor ⦃lib = toy⦄ (some configured) ≡ ok (replicate 32 6)
configured_anchor =
    (init_data_anchor_tdx ⦃lib = toy⦄ configured (replicate 32 6) tdx_family).1 (refl, refl, refl)

abbrev no_params : VerifyParams
no_params = record {
  expected_report_data = [];
  expected_init_data_hash = [];
  expected_launch_digest = [];
  expected_mrtd = [];
  expected_rtmr0 = [];
  expected_rtmr1 = [];
  expected_rtmr2 = [];
  expected_rtmr3 = [];
}

requested :
    set_expected_measurements ⦃lib = toy⦄ no_params
      (codes "tdx")
      (replicate 48 7)
      ((pos 3, anchored) ∷ [])
    ≡ ok params
unfolding set_expected_measurements sort_pins has_registers family bytes_eq extend
requested = refl

enforce_verdict-set_expected_measurements_example :
    (replicate {A = ℕ} 48 7 ≡ [])
    ⊎ (launch_measurement ⦃lib = toy⦄ tdx_claims ≡ ok (replicate 48 7))
enforce_verdict-set_expected_measurements_example =
    enforce_verdict-set_expected_measurements ⦃lib = toy⦄ no_params (codes "tdx") (replicate 48 7)
      ((pos 3, anchored) ∷ []) tdx_result requested verdict
