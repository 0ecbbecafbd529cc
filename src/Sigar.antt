-- ===== src/Sigar.antt =====
-- The logic of src/sigar.c that is the same on every platform: counters of processes kept in expiring
-- caches, the summary of all processes, statistics of connections, types of file systems.
pub mod Cached
pub mod DiskIo
pub mod Cpu
pub mod NetStat
pub mod Listening
pub mod Walk
pub mod Totals
pub mod Lookup
pub mod Summary
pub mod FsType
pub mod Growing
pub mod Primary
pub mod Filled
pub mod Listed
mod Tests
mod ListTests
