-- ===== src/Remote/Request.antt =====
-- remote/wire.go: the expected measurements of a request.
pub mod Enforced
use attestation_go.Base.{
  ℕ, suc, ℤ, pos, negsuc, Bool, true, false, not, ◌&&◌, List, [], ◌∷◌, Bytes, length, ltb, ◌==◌,
  if◌then◌else◌, Result, ok, err, ◌>>=◌, ◌>>◌, refuse_if, Stdlib,
}
use attestation_go.Teetypes.Platform.{
  PlatformType, Family, family_unknown, family_snp, family_tdx, family, has_registers,
}
use attestation_go.Teetypes.Claims.{Pins, sort_pins}
use attestation_go.Remote.Checks.{VerifyParams}

pub data RequestError : Type 0 where
  wrong_measurement_width : ℕ → RequestError
  registers_unenforceable : ℕ → RequestError
  no_measurement_fields : PlatformType → RequestError
  rtmr_out_of_range : ℤ → RequestError

abbrev pub measurement_size : ℕ
measurement_size = 48

-- checkMeasurementWidth
unfoldable pub check_measurement_width : Bytes → Result RequestError (Unit {0})
check_measurement_width b =
    refuse_if (ltb 0 (length b) && not (length b == measurement_size))
      (wrong_measurement_width (length b))

-- The array of four registers.
pub record Registers : Type 0 where
  pub register0 : Bytes
  pub register1 : Bytes
  pub register2 : Bytes
  pub register3 : Bytes

abbrev pub no_registers_set : Registers
no_registers_set = record { register0 = []; register1 = []; register2 = []; register3 = [] }

-- registers[idx] = v, after the test of the index.
unfoldable pub put_register : ℤ → Bytes → Registers → Result RequestError Registers
put_register (pos i) v r =
    if i == 0
    then ok (record r { register0 = v })
    else if i == 1
    then ok (record r { register1 = v })
    else if i == 2
    then ok (record r { register2 = v })
    else if i == 3
    then ok (record r { register3 = v })
    else err (rtmr_out_of_range (pos i))
put_register (negsuc n) v r = err (rtmr_out_of_range (negsuc n))

-- The loop over the sorted indices; the index is tested before the width.
unfoldable pub put_registers : Pins → Registers → Result RequestError Registers
unfolding put_register check_measurement_width
put_registers [] r = ok r
put_registers ((idx, v) ∷ rest) r = do
  r' ← put_register idx v r
  check_measurement_width v
  put_registers rest r'

-- expected_launch_digest and expected_mrtd, by the family.
abbrev pub launch_fields : PlatformType → Family → Bytes → Result RequestError (Bytes × Bytes)
launch_fields p family_tdx launch = ok ([], launch)
launch_fields p family_snp launch = ok (launch, [])
launch_fields p family_unknown launch = err (no_measurement_fields p)

module _ ⦃lib : Stdlib⦄ where
  -- VerifyParams.SetExpectedMeasurements; on an error the caller keeps the parameters that it has.
  unfoldable pub set_expected_measurements :
      VerifyParams → PlatformType → Bytes → Pins → Result RequestError VerifyParams
  unfolding put_registers
  set_expected_measurements params platform launch rtmrs = do
    check_measurement_width launch
    refuse_if (not (length rtmrs == 0) && not (has_registers platform))
        (registers_unenforceable (length rtmrs))
    (digest, mrtd) ← launch_fields platform (family platform) launch
    regs ← put_registers (sort_pins rtmrs) no_registers_set
    ok (record params {
      expected_launch_digest = digest;
      expected_mrtd = mrtd;
      expected_rtmr0 = regs.register0;
      expected_rtmr1 = regs.register1;
      expected_rtmr2 = regs.register2;
      expected_rtmr3 = regs.register3;
    })
