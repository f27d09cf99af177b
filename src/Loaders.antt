-- ===== src/Loaders.antt =====
-- The loaders of programs: kernel/src/elf.rs, pe.rs and process.rs, and syscall.rs, over the machine
-- of memory/paging.rs.
pub mod Outcome
pub mod Elf
pub mod Pe
pub mod Process
pub mod Syscall
