-- ===== src/FileInfo.antt =====
-- src/sigar_fileinfo.c on a Unix system: types and permissions of files, their attributes, the usage
-- of a file system, and the statistics of a directory and of all below it.
pub mod Attrs
pub mod Permissions
pub mod FsUsage
pub mod Dirs
pub mod Found
pub mod Walk
mod Tests
