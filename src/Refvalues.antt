-- ===== src/Refvalues.antt =====
-- refvalues: what a verifier compares evidence against.
pub mod Keys
pub mod Config
pub mod Sets
pub mod Flags
pub mod Manifest
