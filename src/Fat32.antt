-- ===== src/Fat32.antt =====
-- src/fs/fat32: the byte order of the disk, its sectors, the paths of the file system, and the file
-- contexts that read from it.
pub mod Bytes
pub mod Paths
pub mod Reader
pub mod Disk
pub mod Table
pub mod Names
mod Tests
