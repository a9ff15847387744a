-- ===== src/Rekor/V1.antt =====
-- pkg/rekor/v1.
pub mod Client
pub mod Search
pub mod Verifier
pub mod LogVerifier
