-- ===== src/Launchmeasure.antt =====
-- launchmeasure/snp: the launch measurement of an SEV-SNP guest.
pub mod Hashes
pub mod Vcpu
pub mod Snp
