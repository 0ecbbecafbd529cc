-- ===== src/Util.antt =====
-- The text utilities of src/sigar_util.c.
pub mod Search
pub mod Words
pub mod Print
pub mod Usage
pub mod CpuModel
mod Tests
mod CpuTests
