-- ===== src/Tdx.antt =====
-- attestation/tdx: the TCB status of a quote (tcbstatus.go) and the boot event log (ccel.go).
pub mod TcbStatus
pub mod Ccel
