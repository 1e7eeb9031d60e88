-- ===== src/Fs.antt =====
-- kernel/src/fs: the AHCI driver and the FAT32 file system.
pub mod Ahci
pub mod Fat32
