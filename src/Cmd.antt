-- ===== src/Cmd.antt =====
-- internal/cmd and the programs under cmd: the loop that the monitors run, their configuration, and
-- the monitors themselves.
pub mod Loop
pub mod Config
pub mod TrustedCas
pub mod RekorV2
pub mod Exits
pub mod RekorV1
pub mod CtMonitor
pub mod RekorMain
