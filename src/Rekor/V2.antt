-- ===== src/Rekor/V2.antt =====
-- pkg/rekor/v2.
pub mod Client
pub mod Search
pub mod Verifier
pub mod LogVerifier
pub mod Shards
