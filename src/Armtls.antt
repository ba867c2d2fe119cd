-- ===== src/Armtls.antt =====
-- armtls: evidence in a certificate extension, and its check against the key of the certificate.
pub mod Extension
pub mod Evidence
pub mod Keys
pub mod Verify
