-- ===== src/Util.antt =====
-- pkg/util: retries, the files of the monitor and its TLS configuration.
pub mod Retry
pub mod File
pub mod Tls
