-- ===== src/Linux.antt =====
-- The parts of src/os/linux/linux_sigar.c that take the texts of /proc apart. A file of the kernel is an
-- answer: its text, or a status.
pub mod Read
pub mod Stat
pub mod StatLine
pub mod Memory
pub mod Meminfo
pub mod Files
pub mod Cpu
pub mod FsType
pub mod Net
pub mod Nfs
pub mod Columns
pub mod NetLines
pub mod Devices
pub mod CpuInfo
pub mod Hex
pub mod Connections
pub mod Follow
mod Tests
mod NetTests
