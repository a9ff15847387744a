-- ===== src/Rekor.antt =====
-- pkg/rekor: the clients, verifiers and identity searches of Rekor v1 and v2.
pub mod Matching
pub mod V1
pub mod V2
pub mod LogKeys
