-- ===== src/Tests/Logs.antt =====
-- An event log of one event, and the status of a platform that is out of date.
use attestation_go.Base.{
  ℕ, ◌≤◌, ◌≡◌, ◌≢◌, refl, arith, true, false, List, [], ◌∷◌, ◌++◌, Bytes, codes, bytes_eq, contains,
  length, replicate, All, little_endian, ok,
}
use attestation_go.Teetypes.Verdict.{out_of_date, up_to_date, revoked, DcapVerificationStatus}
use attestation_go.Tdx.Ccel.{CcelEvent, parse_ccel, Rtmrs, zero_rtmr, verify_ccel_against_rtmrs}
use attestation_go.Tdx.Ccel.Replay.{Agrees, verify_ccel_against_rtmrs_sound}
use attestation_go.Tdx.Ccel.Log.{Log, first_record, parse_ccel-Log}
use attestation_go.Tdx.TcbStatus.{
  Options, parse_tcb_status, check_accepted_tcb_statuses, TcbLevel, Evidence, match_tcb_levels,
  rank, evaluate_tcb_status,
}
use attestation_go.Tdx.TcbStatus.Worst.{NoWorse, evaluate_tcb_status_sound}
use attestation_go.Tests.{toy}

abbrev measured : Bytes
measured = replicate 48 9

-- The Spec ID event without data, one event of MR index 1, and the padding.
abbrev log : Bytes
log =
    replicate 32 0
    ++ (1 ∷ 0 ∷ 0 ∷ 0 ∷ 1 ∷ 0 ∷ 0 ∷ 128 ∷ 1 ∷ 0 ∷ 0 ∷ 0 ∷ 12 ∷ 0 ∷ measured)
    ++ (2 ∷ 0 ∷ 0 ∷ 0 ∷ 4 ∷ 5 ∷ [])
    ++ replicate 16 0

abbrev event : CcelEvent
event = record {
  mr_index = 1;
  event_type = 2147483649;
  sha384_digest = measured;
  event_data = 4 ∷ 5 ∷ [];
}

events_read : parse_ccel log ≡ ok (event ∷ [])
unfolding parse_ccel little_endian
events_read = refl

parse_ccel-Log_example : (first_record log ≤ length log) × Log log (first_record log) (event ∷ [])
parse_ccel-Log_example = (parse_ccel-Log log (event ∷ [])).0 events_read

abbrev quoted : Rtmrs
quoted = record {
  rtmr0 = toy.sha384 (zero_rtmr ++ measured);
  rtmr1 = zero_rtmr;
  rtmr2 = zero_rtmr;
  rtmr3 = measured;
}

log_holds : verify_ccel_against_rtmrs ⦃lib = toy⦄ log quoted ≡ ok false
unfolding verify_ccel_against_rtmrs bytes_eq little_endian
log_holds = refl

verify_ccel_against_rtmrs_sound_example :
    (length quoted.rtmr0 ≡ 48)
    × (length quoted.rtmr1 ≡ 48)
    × (length quoted.rtmr2 ≡ 48)
    × (length quoted.rtmr3 ≡ 48)
    × (es : List CcelEvent) × (parse_ccel log ≡ ok es)
    × Agrees ⦃lib = toy⦄ es quoted false
verify_ccel_against_rtmrs_sound_example =
    verify_ccel_against_rtmrs_sound ⦃lib = toy⦄ log quoted log_holds

abbrev level_at : ℕ → Bytes → Bytes → TcbLevel
level_at svn status advisory = record {
  sgx_tcbcomponents = svn ∷ [];
  tdx_tcbcomponents = replicate 16 svn;
  pcesvn = svn;
  isvsvn = svn;
  status = status;
  advisories = advisory ∷ [];
}

abbrev levels : List TcbLevel
levels = level_at 7 up_to_date (codes "A") ∷ level_at 3 out_of_date (codes "B") ∷ []

-- The platform and the module meet the second level, the QE the first.
abbrev collateral : Evidence
collateral = record {
  evidence_fmspc = codes "00";
  platform_levels = levels;
  module_identities = record { id = codes "TDX_03"; module_levels = levels } ∷ [];
  qe_levels = levels;
  tee_tcb_svn = replicate 16 3;
  pck = record { cpu_svn_components = 7 ∷ []; pce_svn = 7 };
  qe_isv_svn = 8;
}

abbrev options : Options
options = record { accepted_tcb_statuses = up_to_date ∷ out_of_date ∷ []; get_collateral = true }

configured : check_accepted_tcb_statuses options ≡ ok tt
unfolding check_accepted_tcb_statuses parse_tcb_status contains bytes_eq
configured = refl

abbrev reported : DcapVerificationStatus
reported = record {
  tcb_status = out_of_date;
  fmspc = codes "00";
  advisory_ids = codes "B" ∷ codes "A" ∷ [];
  collateral_expired = false;
}

evaluated : evaluate_tcb_status collateral options.accepted_tcb_statuses ≡ ok reported
unfolding evaluate_tcb_status contains bytes_eq rank
evaluated = refl

evaluate_tcb_status_sound_example :
    (matched : List (Bytes × TcbLevel)) × (match_tcb_levels collateral ≡ ok matched)
    × All (NoWorse options.accepted_tcb_statuses out_of_date) matched
    × (contains options.accepted_tcb_statuses out_of_date ≡ true)
    × (out_of_date ≢ revoked)
evaluate_tcb_status_sound_example =
    evaluate_tcb_status_sound options collateral configured (omega arith) evaluated
