-- ===== src/Tpm.antt =====
-- attestation/tpmcommon/tpmcommon.go: the HCL report and the vTPM quote of the Azure platforms.
pub mod Hcl
pub mod Quote
pub mod Overlay
