-- ===== src/Remote.antt =====
-- remote/verify.go and remote/images.go: what a relying party enforces on the verdict of the service.
pub mod Checks
pub mod Images
pub mod Policies
pub mod Request
pub mod Client
