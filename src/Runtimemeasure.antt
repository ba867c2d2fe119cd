-- ===== src/Runtimemeasure.antt =====
-- runtimemeasure: what a guest commits after launch, and how a verifier checks it.
pub mod Canonical
pub mod Fold
pub mod Device
pub mod Journal
pub mod LaunchFile
pub mod PublicKey
pub mod Identity
pub mod Manifest
pub mod Binding
