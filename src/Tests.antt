-- ===== src/Tests.antt =====
-- Tests and the theorems at concrete inputs.
pub mod Devices
pub mod Words
pub mod Hart
pub mod Board
pub mod Guest
pub mod Tasks
pub mod Loader
