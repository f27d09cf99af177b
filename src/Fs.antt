-- ===== src/Fs.antt =====
-- The RAM file system, its snapshot on a disk, and the vault: kernel/src/fs and vault.rs.
pub mod RamFs
pub mod Persist
pub mod Vault
