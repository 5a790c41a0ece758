-- ===== src/Sample.antt =====
-- The sample programs, which are clients of the library (src/sample/demoapp and
-- src/sample/sampleclientapp).
pub mod Peers
pub mod Args
pub mod Settings
pub mod Demo
pub mod Client
pub mod Hears
