-- ===== src/Snp.antt =====
-- attestation/snp/snp.go: the verification of a bare SEV-SNP report.
pub mod Claims
pub mod Validate
pub mod Verify
