-- ===== src/Ct.antt =====
-- pkg/ct: the search of certificate transparency logs and their consistency.
pub mod Search
pub mod Consistency
