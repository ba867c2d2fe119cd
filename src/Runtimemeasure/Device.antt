-- ===== src/Runtimemeasure/Device.antt =====
-- register.go: the TSM node of RTMR[3] as a local register, and Open.
use attestation_go.Base.{ℕ, Bytes, codes, length, ◌==◌, if◌then◌else◌, Result, ok, err, Stdlib}
use attestation_go.Teetypes.Platform.{PlatformType, has_registers, is_snp}
use attestation_go.Runtimemeasure.Fold.{size, extend}

pub data RegisterError : Type 0 where
  no_register unknown_platform : PlatformType → RegisterError
  wrong_event_width : ℕ → RegisterError
  open_failed write_failed read_failed : RegisterError
  wrong_read_width : ℕ → RegisterError

-- The node: absent, or there with the register behind it. A write of a whole event extends it.
pub data Node : Type 0 where
  no_node : Node
  node : Bytes → Node

-- How the write and the close of an extend end. An error of the close alone is seen after the kernel
-- took the event.
pub data WriteEnd : Type 0 where
  written write_error close_error : WriteEnd

pub record TdxRegister : Type 0 where
  pub path : Bytes

abbrev pub default_tdx_register_path : Bytes
default_tdx_register_path = codes "/sys/devices/virtual/misc/tdx_guest/measurements/rtmr3:sha384"

module _ ⦃lib : Stdlib⦄ where
  abbrev write_node : WriteEnd → Bytes → Node → Node × Result RegisterError (Unit {0})
  write_node end ev no_node = (no_node, err open_failed)
  write_node written ev (node reg) = (node (extend reg ev), ok tt)
  write_node write_error ev (node reg) = (node reg, err write_failed)
  write_node close_error ev (node reg) = (node (extend reg ev), err write_failed)

  -- tdxRegister.Extend
  unfoldable pub extend_node : WriteEnd → Bytes → Node → Node × Result RegisterError (Unit {0})
  extend_node end ev n =
      if length ev == size then write_node end ev n else (n, err (wrong_event_width (length ev)))

  -- Open
  unfoldable pub open_register : PlatformType → Result RegisterError TdxRegister
  open_register p =
      if has_registers p
      then ok (record { path = default_tdx_register_path })
      else if is_snp p
      then err (no_register p)
      else err (unknown_platform p)

-- tdxRegister.Extension
unfoldable pub extension : Node → Result RegisterError Bytes
extension no_node = err read_failed
extension (node b) = if length b == size then ok b else err (wrong_read_width (length b))
