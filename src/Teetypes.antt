-- ===== src/Teetypes.antt =====
-- attestation/teetypes: the types that the verifiers share.
pub mod Text
pub mod Platform
pub mod Digest
pub mod Claims
pub mod Verdict
